-- ===== src/Monitor/Bounded.antt =====
-- The histories that the monitor of integrity keeps (governance/integrity_monitor.py).
use general_autonomy_protoco.Prelude.{
  Option-cases, get_or, length, ℕ, ◌≤◌, String, ◌≡◌, refl, inl, inr, Bool, true, false, Option,
  none, some, List, [], ◌∷◌, ◌++◌, arith,
}
use general_autonomy_protoco.Prelude.Dict.{Dict, lookup, lookup-insert}
use general_autonomy_protoco.Models.{
  GovernanceVerdict, AuthorizationLevel, rank, GovernanceDecision,
}
use Prim.Native.Nat.{max}
use general_autonomy_protoco.Prelude.Windows.{cap_to, length-cap_to-le}
use general_autonomy_protoco.Monitor.{
  Observation, MonitorConfig, IntegrityMonitor, new_monitor, push_capped, observe,
  observe_audit_sample, sample_audit, type_or_unspecified, is_escalate, observe_decision,
  observe_escalation, observe_challenge,
}

-- What a monitor may be told.
pub data Event : Type 0 where
  saw : String → AuthorizationLevel → Option String → ℕ → Event
  saw_sample : Bool → AuthorizationLevel → Bool → Event
  saw_decision : GovernanceDecision → Option String → Option Bool → Event
  saw_escalation : Bool → Bool → Bool → Event
  saw_challenge : Bool → Bool → Event

abbrev pub tell : IntegrityMonitor → Event → IntegrityMonitor
tell m (saw action_type level target at) = observe m action_type level target at
tell m (saw_sample audited level escalated) = observe_audit_sample m audited level escalated
tell m (saw_decision d target audited) = observe_decision m d target audited
tell m (saw_escalation preferred first favorably) = observe_escalation m preferred first favorably
tell m (saw_challenge endorsed changed) = observe_challenge m endorsed changed

abbrev pub tell_all : IntegrityMonitor → List Event → IntegrityMonitor
tell_all m [] = m
tell_all m (e ∷ events) = tell_all (tell m e) events

abbrev Short {ℓ} : {A : Type ℓ} → ℕ → Dict (List A) → Type 0
Short n d = (key : String) → length (get_or (lookup key d) []) ≤ n

-- No history is longer than the cap.
pub record IsBounded (n : ℕ) (m : IntegrityMonitor) : Type 0 where
  pub cap : m.config.max_history ≡ n
  pub actions : (key : String) → length (get_or (lookup key m.by_action) []) ≤ n
  pub targets : (key : String) → length (get_or (lookup key m.by_target) []) ≤ n
  pub known : length m.known_samples ≤ n
  pub shadow : length m.shadow_samples ≤ n
  pub escalated : length m.escalations ≤ n
  pub challenged : length m.challenges ≤ n

push_capped-Short :
    {A : Type 0} (n k : ℕ) (key : String) (x : A) (d : Dict (List A))
    → k ≡ n
    → Short n d
    → Short n (push_capped k key x d)
push_capped-Short n k key x d e h j = ground (
  arith,
  lookup-insert key j (cap_to (get_or (lookup key d) [] ++ x ∷ []) k) d,
  h j,
  length-cap_to-le (get_or (lookup key d) [] ++ x ∷ []) k,
)

module _ (n : ℕ) (m : IntegrityMonitor) (b : IsBounded n m) where
  observe-IsBounded :
      (action_type : String) (level : AuthorizationLevel) (target : Option String) (at : ℕ)
      → IsBounded n (observe m action_type level target at)
  unfolding observe
  observe-IsBounded action_type level target at =
      let o : Observation = record {
        action_type = action_type;
        observed_rank = rank level;
        target = target;
        at = at;
      } in
      record {
        cap = b.cap;
        actions =
            push_capped-Short n m.config.max_history action_type o m.by_action b.cap b.actions;
        targets = λ key. elim (Option-cases target) [
          | inl e ↦ ground (arith, b.targets key)
          | inr (t, e) ↦
              ground (
                arith,
                push_capped-Short n m.config.max_history t o m.by_target b.cap b.targets key,
              )
        ];
        known = b.known;
        shadow = b.shadow;
        escalated = b.escalated;
        challenged = b.challenged;
      }

  observe_audit_sample-IsBounded :
      (audited : Bool) (level : AuthorizationLevel) (escalated : Bool)
      → IsBounded n (observe_audit_sample m audited level escalated)
  unfolding observe_audit_sample
  observe_audit_sample-IsBounded true level escalated = record {
    cap = b.cap;
    actions = b.actions;
    targets = b.targets;
    known = ground (
      arith,
      b.cap,
      length-cap_to-le
          (m.known_samples ++ record { sampled_rank = rank level; escalated = escalated } ∷ [])
          m.config.max_history,
    );
    shadow = b.shadow;
    escalated = b.escalated;
    challenged = b.challenged;
  }
  observe_audit_sample-IsBounded false level escalated = record {
    cap = b.cap;
    actions = b.actions;
    targets = b.targets;
    known = b.known;
    shadow = ground (
      arith,
      b.cap,
      length-cap_to-le
          (m.shadow_samples ++ record { sampled_rank = rank level; escalated = escalated } ∷ [])
          m.config.max_history,
    );
    escalated = b.escalated;
    challenged = b.challenged;
  }

  observe_escalation-IsBounded :
      (preferred first favorably : Bool)
      → IsBounded n (observe_escalation m preferred first favorably)
  unfolding observe_escalation
  observe_escalation-IsBounded preferred first favorably = record {
    cap = b.cap;
    actions = b.actions;
    targets = b.targets;
    known = b.known;
    shadow = b.shadow;
    escalated = ground (
      arith,
      b.cap,
      length-cap_to-le
          (m.escalations
            ++ record {
              preferred_chosen = preferred;
              first_option_chosen = first;
              preferred_favorably_framed = favorably;
            }
              ∷ [])
          m.config.max_history,
    );
    challenged = b.challenged;
  }

  observe_challenge-IsBounded :
      (endorsed changed : Bool) → IsBounded n (observe_challenge m endorsed changed)
  unfolding observe_challenge
  observe_challenge-IsBounded endorsed changed = record {
    cap = b.cap;
    actions = b.actions;
    targets = b.targets;
    known = b.known;
    shadow = b.shadow;
    escalated = b.escalated;
    challenged = ground (
      arith,
      b.cap,
      length-cap_to-le
          (m.challenges ++ record { endorsed = endorsed; material_change = changed } ∷ [])
          m.config.max_history,
    );
  }

sample_audit-IsBounded :
    (n : ℕ) (m : IntegrityMonitor) (audited : Option Bool) (level : AuthorizationLevel)
    (v : GovernanceVerdict)
    → IsBounded n m
    → IsBounded n (sample_audit m audited level v)
sample_audit-IsBounded n m none level v b = b
sample_audit-IsBounded n m (some audited) level v b =
    observe_audit_sample-IsBounded n m b audited level (is_escalate v)

observe_decision-IsBounded :
    (n : ℕ) (m : IntegrityMonitor) (d : GovernanceDecision) (target : Option String)
    (audited : Option Bool)
    → IsBounded n m
    → IsBounded n (observe_decision m d target audited)
unfolding observe_decision
observe_decision-IsBounded n m d target audited b = at_level d.authorization_level
  where
    told : Option AuthorizationLevel → IntegrityMonitor
    told o = elim o [
      | none ↦ m
      | some level ↦
          observe (sample_audit m audited level d.verdict) (type_or_unspecified d.action_type_id)
            level target d.evaluated_at
    ]

    at_level : (o : Option AuthorizationLevel) → IsBounded n (told o)
    at_level none = b
    at_level (some level) =
        observe-IsBounded n (sample_audit m audited level d.verdict)
          (sample_audit-IsBounded n m audited level d.verdict b)
          (type_or_unspecified d.action_type_id) level target d.evaluated_at

tell-IsBounded : (n : ℕ) (m : IntegrityMonitor) (e : Event) → IsBounded n m → IsBounded n (tell m e)
tell-IsBounded n m (saw action_type level target at) b =
    observe-IsBounded n m b action_type level target at
tell-IsBounded n m (saw_sample audited level escalated) b =
    observe_audit_sample-IsBounded n m b audited level escalated
tell-IsBounded n m (saw_decision d target audited) b =
    observe_decision-IsBounded n m d target audited b
tell-IsBounded n m (saw_escalation preferred first favorably) b =
    observe_escalation-IsBounded n m b preferred first favorably
tell-IsBounded n m (saw_challenge endorsed changed) b =
    observe_challenge-IsBounded n m b endorsed changed

tell_all-IsBounded :
    (n : ℕ) (m : IntegrityMonitor) (events : List Event)
    → IsBounded n m
    → IsBounded n (tell_all m events)
tell_all-IsBounded n m [] b = b
tell_all-IsBounded n m (e ∷ events) b =
    tell_all-IsBounded n (tell m e) events (tell-IsBounded n m e b)

-- Whatever a new monitor is told, none of its histories is longer than the configured maximum, or
-- than one where that is 0.
pub new_monitor-IsBounded :
    (c : MonitorConfig) (events : List Event)
    → IsBounded (max 1 c.max_history) (tell_all (new_monitor c) events)
unfolding new_monitor
new_monitor-IsBounded c events =
    tell_all-IsBounded (max 1 c.max_history) (new_monitor c) events (record {
      cap = refl;
      actions = λ key. omega arith;
      targets = λ key. omega arith;
      known = omega arith;
      shadow = omega arith;
      escalated = omega arith;
      challenged = omega arith;
    })

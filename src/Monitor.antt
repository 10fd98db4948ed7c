-- ===== src/Monitor.antt =====
-- Governance integrity monitoring (governance/integrity_monitor.py): the five detectors over what a
-- monitor has observed. The texts and the evidence of a signal are left out. The means, the rates
-- and the correlation, floats in the code, are compared exactly as fractions of whole numbers, and a
-- threshold is in millionths and not negative. The outer `none` of a detector is an exception: a
-- division by zero, or the IndexError of an empty list.
pub mod Detectors
pub mod Bounded
pub mod Drift
pub mod Bursts
use Prim.Native.Nat.{max}
use general_autonomy_protoco.Prelude.{
  if◌then◌else◌, get_or, ℕ, zero, ◌+◌, ◌-◌, ◌/◌, String, Bool, true, false, not, Option, none, some,
  List, [], ◌∷◌, ◌++◌,
}
use general_autonomy_protoco.Prelude.Dict.{Dict, lookup, insert}
use general_autonomy_protoco.Models.{
  is_given, GovernanceVerdict, escalate, AuthorizationLevel, rank, GovernanceDecision,
}
use general_autonomy_protoco.Prelude.Windows.{cap_to}

pub data SignalType : Type 0 where
  gim_1 gim_2 gim_3 gim_4 gim_5 gim_indep : SignalType
  se_velocity se_privilege se_surface : SignalType

pub data Severity : Type 0 where
  warning critical : Severity

pub record IntegritySignal : Type 0 where
  pub signal_type : SignalType
  pub subject : String
  pub severity : Severity

pub record Observation : Type 0 where
  pub action_type : String
  pub observed_rank : ℕ
  pub target : Option String
  pub at : ℕ

pub record AuditSample : Type 0 where
  pub sampled_rank : ℕ
  pub escalated : Bool

pub record FramedEscalation : Type 0 where
  pub preferred_chosen : Bool
  pub first_option_chosen : Bool
  pub preferred_favorably_framed : Bool

pub record Challenge : Type 0 where
  pub endorsed : Bool
  pub material_change : Bool

pub record MonitorConfig : Type 0 where
  pub baseline_window : ℕ
  pub recent_window : ℕ
  pub drift_threshold : ℕ
  pub decomposition_window : ℕ
  pub decomposition_count_threshold : ℕ
  pub decomposition_max_rank : ℕ
  pub audit_min_samples : ℕ
  pub audit_divergence_threshold : ℕ
  pub escalation_min_samples : ℕ
  pub preferred_approval_threshold : ℕ
  pub framing_correlation_threshold : ℕ
  pub position_bias_threshold : ℕ
  pub challenge_window : ℕ
  pub endorsement_threshold : ℕ
  pub material_change_floor : ℕ
  pub collapse_endorsement_rate : ℕ
  pub max_history : ℕ

pub record IntegrityMonitor : Type 0 where
  pub config : MonitorConfig
  pub by_action : Dict (List Observation)
  pub by_target : Dict (List Observation)
  -- The samples of a known audit, and those of a shadow audit.
  pub known_samples : List AuditSample
  pub shadow_samples : List AuditSample
  pub escalations : List FramedEscalation
  pub challenges : List Challenge

-- `GovernanceIntegrityMonitor.__init__`
unfoldable pub new_monitor : MonitorConfig → IntegrityMonitor
new_monitor c = record {
  config = record c {
    max_history = max 1 c.max_history;
    challenge_window = max 1 c.challenge_window;
  };
  by_action = [];
  by_target = [];
  known_samples = [];
  shadow_samples = [];
  escalations = [];
  challenges = [];
}

-- Appends to the list of a key, which is empty for a new key, and caps it.
abbrev pub push_capped {ℓ} : {A : Type ℓ} → ℕ → String → A → Dict (List A) → Dict (List A)
push_capped max_history key x d =
    insert key (cap_to (get_or (lookup key d) [] ++ x ∷ []) max_history) d

unfoldable pub observe :
    IntegrityMonitor → String → AuthorizationLevel → Option String → ℕ → IntegrityMonitor
observe m action_type level target at =
    let o : Observation = record {
      action_type = action_type;
      observed_rank = rank level;
      target = target;
      at = at;
    } in
    record m {
      by_action = push_capped m.config.max_history action_type o m.by_action;
      by_target = elim target [
        | none ↦ m.by_target
        | some t ↦ push_capped m.config.max_history t o m.by_target
      ];
    }

unfoldable pub observe_audit_sample :
    IntegrityMonitor → Bool → AuthorizationLevel → Bool → IntegrityMonitor
observe_audit_sample m audited level escalated =
    let sample : AuditSample = record { sampled_rank = rank level; escalated = escalated } in
    if audited
    then record m { known_samples = cap_to (m.known_samples ++ sample ∷ []) m.config.max_history }
    else record m { shadow_samples = cap_to (m.shadow_samples ++ sample ∷ []) m.config.max_history }

abbrev pub is_escalate : GovernanceVerdict → Bool
is_escalate escalate = true
is_escalate _ = false

abbrev pub sample_audit :
    IntegrityMonitor → Option Bool → AuthorizationLevel → GovernanceVerdict → IntegrityMonitor
sample_audit m none level verdict = m
sample_audit m (some audited) level verdict =
    observe_audit_sample m audited level (is_escalate verdict)

-- `action_type_id or "unspecified"`
abbrev pub type_or_unspecified : Option String → String
type_or_unspecified t = if is_given t then get_or t "" else "unspecified"

unfoldable pub observe_decision :
    IntegrityMonitor → GovernanceDecision → Option String → Option Bool → IntegrityMonitor
unfolding observe observe_audit_sample
observe_decision m d target audited = elim d.authorization_level [
  | none ↦ m
  | some level ↦
      observe (sample_audit m audited level d.verdict) (type_or_unspecified d.action_type_id) level
        target d.evaluated_at
]

unfoldable pub observe_escalation : IntegrityMonitor → Bool → Bool → Bool → IntegrityMonitor
observe_escalation m preferred first favorably = record m {
  escalations =
      cap_to
        (m.escalations
          ++ record {
            preferred_chosen = preferred;
            first_option_chosen = first;
            preferred_favorably_framed = favorably;
          }
            ∷ [])
        m.config.max_history;
}

unfoldable pub observe_challenge : IntegrityMonitor → Bool → Bool → IntegrityMonitor
observe_challenge m endorsed changed = record m {
  challenges =
      cap_to (m.challenges ++ record { endorsed = endorsed; material_change = changed } ∷ [])
        m.config.max_history;
}

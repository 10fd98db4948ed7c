-- ===== src/Risk/Escalation.antt =====
-- What the escalation engine does to levels, and when (governance/dynamic_risk.py).
use general_autonomy_protoco.Prelude.{
  ltb, eqb, Bool-cases, is_some, length, select, contains, ℕ, zero, suc, ◌+◌, ◌≤◌, ◌<◌, String, ◌≡◌,
  refl, inl, inr, Bool, true, ◌&&◌, ◌||◌, not, Option, none, some, List, [], ◌∷◌, ◌++◌, arith,
}
use general_autonomy_protoco.Models.{AuthorizationLevel, l0, l1, l2, l3, l4, rank}
use Prim.Native.Nat.{min}
use general_autonomy_protoco.Risk.{
  EscalationTriggerType, volume_anomaly, scope_expansion, cascading_actions, EscalationTrigger,
  RecordedAction, ActionContext, DynamicRiskEngine, level_at, escalate_level, raise_level,
  is_recent, volume_exceeded, check_volume_anomaly, scope_exceeded, check_scope_expansion,
  cascade_exceeded, check_cascading_actions, highest, evaluate, record_action,
  receive_external_signal,
}

rank-level_at : (n : ℕ) → rank (level_at n) ≡ min n 4
unfolding level_at rank
rank-level_at zero = refl
rank-level_at (suc zero) = refl
rank-level_at (suc (suc zero)) = refl
rank-level_at (suc (suc (suc zero))) = refl
rank-level_at (suc (suc (suc (suc n)))) = omega arith

-- Raising a level by a number of steps gives the level that many ranks higher, or L4 where there
-- are not so many; so no number of steps lowers it.
pub rank-escalate_level :
    (l : AuthorizationLevel) (steps : ℕ)
    → (rank (escalate_level l steps) ≡ min (rank l + steps) 4)
      × (rank l ≤ rank (escalate_level l steps))
unfolding escalate_level
rank-escalate_level l0 steps = omega (arith, rank-level_at (rank l0 + steps))
rank-escalate_level l1 steps = omega (arith, rank-level_at (rank l1 + steps))
rank-escalate_level l2 steps = omega (arith, rank-level_at (rank l2 + steps))
rank-escalate_level l3 steps = omega (arith, rank-level_at (rank l3 + steps))
rank-escalate_level l4 steps = omega (arith, rank-level_at (rank l4 + steps))

-- A trigger is about the level that the action has, and raises it by one.
abbrev pub RaisesByOne : AuthorizationLevel → Option EscalationTrigger → Type 0
RaisesByOne l none = Unit
RaisesByOne l (some t) = (t.original_level ≡ l) × (rank t.escalated_level ≡ rank l + 1)

raise_level-RaisesByOne :
    (t : EscalationTriggerType) (l : AuthorizationLevel) (c : ℕ)
    → RaisesByOne l (raise_level t l 1 c)
unfolding raise_level
raise_level-RaisesByOne t l0 c = (refl, refl)
raise_level-RaisesByOne t l1 c = (refl, refl)
raise_level-RaisesByOne t l2 c = (refl, refl)
raise_level-RaisesByOne t l3 c = (refl, refl)
raise_level-RaisesByOne t l4 c = tt

highest-RaisesByOne :
    (l : AuthorizationLevel) (s t : Option EscalationTrigger)
    → RaisesByOne l s
    → RaisesByOne l t
    → RaisesByOne l (highest s t)
unfolding highest
highest-RaisesByOne l none t hs ht = ht
highest-RaisesByOne l (some s) none hs ht = hs
highest-RaisesByOne l (some s) (some t) hs ht =
    elim (Bool-cases (ltb (rank s.escalated_level) (rank t.escalated_level))) [
      | inl e ↦ rw e ht
      | inr e ↦ rw e hs
    ]

volume-RaisesByOne :
    (e : DynamicRiskEngine) (a : String) (c : ActionContext) (now : ℕ)
    → RaisesByOne c.current_auth_level (check_volume_anomaly e a c now)
unfolding check_volume_anomaly
volume-RaisesByOne e a c now = elim (Bool-cases (volume_exceeded e a now)) [
  | inl h ↦ rw h (raise_level-RaisesByOne _ c.current_auth_level _)
  | inr h ↦ rw h tt
]

scope-RaisesByOne :
    (e : DynamicRiskEngine) (a : String) (c : ActionContext)
    → RaisesByOne c.current_auth_level (check_scope_expansion e a c)
unfolding check_scope_expansion
scope-RaisesByOne e a c = elim (Bool-cases (scope_exceeded e a c.target)) [
  | inl h ↦ rw h (raise_level-RaisesByOne _ c.current_auth_level _)
  | inr h ↦ rw h tt
]

cascade-RaisesByOne :
    (e : DynamicRiskEngine) (c : ActionContext) (now : ℕ)
    → RaisesByOne c.current_auth_level (check_cascading_actions e c now)
unfolding check_cascading_actions
cascade-RaisesByOne e c now = elim (Bool-cases (cascade_exceeded e now)) [
  | inl h ↦ rw h (raise_level-RaisesByOne _ c.current_auth_level _)
  | inr h ↦ rw h tt
]

-- A trigger that an evaluation returns has the action's own level for its original level and the
-- level one rank above for its escalated level.
pub evaluate-RaisesByOne :
    (e : DynamicRiskEngine) (action_type : String) (context : ActionContext) (now : ℕ)
    → RaisesByOne context.current_auth_level (evaluate e action_type context now)
unfolding evaluate
evaluate-RaisesByOne e a c now = elim (Bool-cases e.config.enabled) [
  | inl h ↦ rw h (
      highest-RaisesByOne c.current_auth_level _ (check_cascading_actions e c now)
        (highest-RaisesByOne c.current_auth_level _ (check_scope_expansion e a c)
          (volume-RaisesByOne e a c now) (scope-RaisesByOne e a c))
        (cascade-RaisesByOne e c now))
  | inr h ↦ rw h tt
]

is_some-highest :
    (s t : Option EscalationTrigger) → is_some (highest s t) ≡ (is_some s || is_some t)
unfolding highest
is_some-highest s t = ground arith

is_some-raise_level :
    (t : EscalationTriggerType) (l : AuthorizationLevel) (c : ℕ)
    → is_some (raise_level t l 1 c) ≡ not (eqb (rank l) 4)
unfolding raise_level
is_some-raise_level t l c = ground arith

-- The three signals of an evaluation.
abbrev pub signalled : DynamicRiskEngine → String → ActionContext → ℕ → Bool
signalled e a c now =
    volume_exceeded e a now || scope_exceeded e a c.target || cascade_exceeded e now

-- An evaluation returns a trigger exactly when the engine is enabled, the level is below L4, and
-- one of volume, scope and cascade exceeds its bound.
pub is_some-evaluate :
    (e : DynamicRiskEngine) (action_type : String) (context : ActionContext) (now : ℕ)
    → is_some (evaluate e action_type context now) ≡ (
        e.config.enabled
        && not (eqb (rank context.current_auth_level) 4)
        && signalled e action_type context now)
unfolding evaluate check_volume_anomaly check_scope_expansion check_cascading_actions
is_some-evaluate e a c now =
    let l = c.current_auth_level in
    ground (
      arith,
      is_some-highest (highest (check_volume_anomaly e a c now) (check_scope_expansion e a c))
          (check_cascading_actions e c now),
      is_some-highest (check_volume_anomaly e a c now) (check_scope_expansion e a c),
      is_some-raise_level volume_anomaly l 80,
      is_some-raise_level scope_expansion l 70,
      is_some-raise_level cascading_actions l 75,
    )

-- A trigger for an external signal is about the level that the signal names, raises it by one or
-- two ranks, and comes of a source that the configuration lists.
pub receive_external_signal_lem :
    (e : DynamicRiskEngine) (source severity : String) (level : Option AuthorizationLevel)
    {t : EscalationTrigger}
    → receive_external_signal e source severity level ≡ some t
    → (level ≡ some t.original_level)
      × (rank t.original_level < rank t.escalated_level)
      × (rank t.escalated_level ≤ rank t.original_level + 2)
      × (contains e.config.external_signal_sources source ≡ true)
unfolding receive_external_signal raise_level
receive_external_signal_lem e source severity none h = ground arith
receive_external_signal_lem e source severity (some l0) h = ground arith
receive_external_signal_lem e source severity (some l1) h = ground arith
receive_external_signal_lem e source severity (some l2) h = ground arith
receive_external_signal_lem e source severity (some l3) h = ground arith
receive_external_signal_lem e source severity (some l4) h = ground arith

-- A burst of actions at one moment, in the order of the list.
abbrev pub record_all : DynamicRiskEngine → List String → ℕ → DynamicRiskEngine
record_all e [] now = e
record_all e (a ∷ rest) now = record_all (record_action e a now) rest now

length-select-append :
    {A : Type 0} (test : A → Bool) (xs : List A) (y : A)
    → test y ≡ true
    → length (select test (xs ++ y ∷ [])) ≡ length (select test xs) + 1
length-select-append test [] y h = ground arith
length-select-append test (x ∷ xs) y h = ground (arith, length-select-append test xs y h)

-- What a burst leaves: the same configuration, and that many more recent actions.
record_all_recent :
    (e : DynamicRiskEngine) (names : List String) (now : ℕ)
    → 0 < e.config.cascade_window_seconds
    → let e' = record_all e names now in
      (e'.config ≡ e.config)
      × (length (select (is_recent e' now) e'.action_history)
          ≡ length (select (is_recent e now) e.action_history) + length names)
unfolding record_action is_recent
record_all_recent e [] now h = (refl, omega arith)
record_all_recent e (a ∷ rest) now h =
    let (same, more) = record_all_recent (record_action e a now) rest now h in
    let test = λ (r : RecordedAction). is_recent e now r in
    let one =
      length-select-append test e.action_history (record { action_type = a; timestamp = now })
        (ground arith) in
    (same, omega (arith, more, one))

-- In an enabled engine with a window, a burst of recorded actions as long as the cascade threshold
-- makes the next evaluation below L4 return a trigger.
pub evaluate-after_burst :
    (e : DynamicRiskEngine) (names : List String) (action_type : String) (context : ActionContext)
    (now : ℕ)
    → e.config.enabled ≡ true
    → 0 < e.config.cascade_window_seconds
    → e.config.cascade_action_threshold ≤ length names
    → rank context.current_auth_level < 4
    → is_some (evaluate (record_all e names now) action_type context now) ≡ true
unfolding cascade_exceeded
evaluate-after_burst e names action_type context now on window long low =
    let e' = record_all e names now in
    let (same, more) = record_all_recent e names now window in
    let fits : e'.config.cascade_action_threshold
        ≤ length (select (is_recent e' now) e'.action_history) =
      rw same (omega (arith, more)) in
    let enabled : e'.config.enabled ≡ true = rw same on in
    rw (is_some-evaluate e' action_type context now) (ground arith)

-- ===== src/Risk.antt =====
-- Dynamic risk escalation: the engine that raises an action's authorization level on signals of
-- behaviour (governance/dynamic_risk.py). The clock is read once in an evaluation. The texts and
-- the evidence of a trigger are left out, and the two keys of the baseline that the engine reads,
-- `<action_type>_count` and `<action_type>_targets`, are two dictionaries by action type.
pub mod Escalation
use general_autonomy_protoco.Prelude.{
  ltb, leb, eqb, if◌then◌else◌, Bool-cases, Option-cases, is_some, get_or, ◌>>=◌, >>=-eq-some,
  length, is_empty, any, select, find, last?, length-append, any-append, Member, All, All-append,
  All-prefix, All-suffix, contains, ℕ, zero, suc, ◌+◌, ◌-◌, ◌*◌, ◌/◌, ◌%◌, ◌≤◌, ◌<◌, String, ◌≡◌,
  refl, sym, ap, ◌∙◌, ◌≢◌, ◌↔◌, ◌⊎◌, inl, inr, Bool, true, false, ◌&&◌, ◌||◌, not, Option, none,
  some, List, [], ◌∷◌, ◌++◌, map, arith, ◌==◌, eq_iff, eq_refl,
}
use general_autonomy_protoco.Prelude.Dict.{
  Dict, lookup, has_key, insert, remove, values, lookup-insert, lookup-remove,
}
use general_autonomy_protoco.Prelude.Int.{ℤ, pos, negsuc, pos_part, neg_part, ltb_ℤ, leb_ℤ}
use general_autonomy_protoco.Models.{
  Value, null, flag, num, text, sequence, table, Fields, end, field, to_dict, of_dict, unit, truthy,
  is_set, is_given, truncate, of_flag, Runtime, to_float, to_int, GovernanceVerdict, approved,
  rejected, escalate, AuthorizationLevel, l0, l1, l2, l3, l4, rank, level_name, needs_oob,
  satisfies_auth, max_auth, AuthorizationTier, auto_execute, notify_proceed, require_approval,
  escalate_tier, max_auth_bounds, rank-injective, needs_oob-rank, ConstraintType, hard, soft,
  PolicyTier, regulatory_floor, org_policy, operational, PolicyActivation, Constraint, IntentVector,
  PlannedAction, StrategyProposal, EntityState, WorldModel, ProposalContent, content, PhaseConfig,
  RiskProfile, ActionTypeSpec, GovernancePhaseResult, PolicySnapshot, TemporalContext, Ruling,
  GovernanceDecision, OobMessage, Crypto, compute_proposal_digest, canonical_decision_payload,
  IsKeyPair,
}

pub data EscalationTriggerType : Type 0 where
  volume_anomaly scope_expansion cascading_actions external_signal : EscalationTriggerType

pub record EscalationTrigger : Type 0 where
  pub trigger_type : EscalationTriggerType
  pub original_level : AuthorizationLevel
  pub escalated_level : AuthorizationLevel
  -- In hundredths.
  pub confidence : ℕ

pub record EscalationConfig : Type 0 where
  -- In millionths.
  pub volume_threshold_multiplier : ℕ
  pub cascade_window_seconds : ℕ
  pub cascade_action_threshold : ℕ
  pub external_signal_sources : List String
  pub enabled : Bool

pub record RecordedAction : Type 0 where
  pub action_type : String
  pub timestamp : ℕ

pub record ActionContext : Type 0 where
  pub current_auth_level : AuthorizationLevel
  pub target : String

pub record DynamicRiskEngine : Type 0 where
  pub config : EscalationConfig
  pub baseline_counts : Dict ℕ
  pub baseline_targets : Dict (List String)
  pub action_history : List RecordedAction

pub data BaselineEntry : Type 0 where
  count : ℕ → BaselineEntry
  targets : List String → BaselineEntry

level_at : ℕ → AuthorizationLevel
level_at zero = l0
level_at (suc zero) = l1
level_at (suc (suc zero)) = l2
level_at (suc (suc (suc zero))) = l3
level_at (suc (suc (suc (suc n)))) = l4

-- `levels[min(idx + steps, len(levels) - 1)]`
unfoldable pub escalate_level : AuthorizationLevel → ℕ → AuthorizationLevel
unfolding rank level_at
escalate_level current steps = level_at (rank current + steps)

-- `escalated != current_level`, and then the trigger.
raise_level : EscalationTriggerType → AuthorizationLevel → ℕ → ℕ → Option EscalationTrigger
unfolding escalate_level
raise_level t current steps confidence =
    let escalated = escalate_level current steps in
    if eqb (rank escalated) (rank current)
    then none
    else some (record {
      trigger_type = t;
      original_level = current;
      escalated_level = escalated;
      confidence = confidence;
    })

-- `(now - timestamp).total_seconds() < cascade_window_seconds`
pub is_recent : DynamicRiskEngine → ℕ → RecordedAction → Bool
is_recent e now a = ltb now (a.timestamp + e.config.cascade_window_seconds * unit)

recent_count : DynamicRiskEngine → String → ℕ → ℕ
unfolding is_recent
recent_count e action_type now =
    length (select (λ a. a.action_type == action_type && is_recent e now a) e.action_history)

pub volume_exceeded : DynamicRiskEngine → String → ℕ → Bool
unfolding recent_count
volume_exceeded e action_type now =
    let baseline_count = get_or (lookup action_type e.baseline_counts) 0 in
    not (eqb baseline_count 0)
    && leb (baseline_count * e.config.volume_threshold_multiplier)
        (recent_count e action_type now * unit)

check_volume_anomaly : DynamicRiskEngine → String → ActionContext → ℕ → Option EscalationTrigger
unfolding volume_exceeded raise_level
check_volume_anomaly e action_type context now =
    if volume_exceeded e action_type now
    then raise_level volume_anomaly context.current_auth_level 1 80
    else none

pub scope_exceeded : DynamicRiskEngine → String → String → Bool
scope_exceeded e action_type target =
    let baseline_targets = get_or (lookup action_type e.baseline_targets) [] in
    not (is_empty baseline_targets) && not (contains baseline_targets target)

check_scope_expansion : DynamicRiskEngine → String → ActionContext → Option EscalationTrigger
unfolding scope_exceeded raise_level
check_scope_expansion e action_type context =
    if scope_exceeded e action_type context.target
    then raise_level scope_expansion context.current_auth_level 1 70
    else none

pub cascade_exceeded : DynamicRiskEngine → ℕ → Bool
unfolding is_recent
cascade_exceeded e now =
    leb e.config.cascade_action_threshold (length (select (is_recent e now) e.action_history))

check_cascading_actions : DynamicRiskEngine → ActionContext → ℕ → Option EscalationTrigger
unfolding cascade_exceeded raise_level
check_cascading_actions e context now =
    if cascade_exceeded e now
    then raise_level cascading_actions context.current_auth_level 1 75
    else none

-- `max(active_triggers, key=...)`: the first of the highest.
highest : Option EscalationTrigger → Option EscalationTrigger → Option EscalationTrigger
highest none t = t
highest (some s) none = some s
highest (some s) (some t) =
    if ltb (rank s.escalated_level) (rank t.escalated_level) then some t else some s

unfoldable pub evaluate : DynamicRiskEngine → String → ActionContext → ℕ → Option EscalationTrigger
unfolding highest check_volume_anomaly check_scope_expansion check_cascading_actions rank
evaluate e action_type context now =
    if e.config.enabled
    then highest
        (highest (check_volume_anomaly e action_type context now)
          (check_scope_expansion e action_type context))
        (check_cascading_actions e context now)
    else none

unfoldable pub record_action : DynamicRiskEngine → String → ℕ → DynamicRiskEngine
record_action e action_type now = record e {
  action_history = e.action_history ++ (record { action_type = action_type; timestamp = now }) ∷ [];
}

-- `severity` and the level are what the signal's dictionary says, `"low"` and L0 where it says
-- nothing; a text that names no level is `none`, which `_escalate_level` gives back unchanged.
unfoldable pub receive_external_signal :
    DynamicRiskEngine → String → String → Option AuthorizationLevel → Option EscalationTrigger
unfolding raise_level
receive_external_signal e source severity none = none
receive_external_signal e source severity (some current_level) =
    if contains e.config.external_signal_sources source
    then if severity == "high" || severity == "critical"
      then raise_level external_signal current_level 2 90
      else if severity == "medium"
      then raise_level external_signal current_level 1 90
      else none
    else none

unfoldable pub set_baseline : DynamicRiskEngine → String → BaselineEntry → DynamicRiskEngine
set_baseline e action_type (count n) = record e {
  baseline_counts = insert action_type n e.baseline_counts;
}
set_baseline e action_type (targets ts) = record e {
  baseline_targets = insert action_type ts e.baseline_targets;
}

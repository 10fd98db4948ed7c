-- ===== src/Kernel.antt =====
-- The evaluation of a proposal: authorization levels, intent conflicts, phases and the ruling
-- (governance/kernel.py). The clock is read once, and a new decision's id is an argument.
pub mod Levels
pub mod Conflicts
pub mod Phases
pub mod Approval
pub mod Outcome
pub mod Verdict
pub mod Binding
pub mod Runs
use Prim.Native.Nat.{max}
use Prim.Native.String.{◌++◌ as str_append}
use general_autonomy_protoco.Prelude.{
  ltb, leb, eqb, if◌then◌else◌, Bool-cases, Option-cases, is_some, get_or, ◌>>=◌, >>=-eq-some,
  length, is_empty, any, select, find, last?, length-append, any-append, Member, All, All-append,
  All-prefix, All-suffix, contains, ℕ, zero, suc, ◌+◌, ◌-◌, ◌*◌, ◌/◌, ◌%◌, ◌≤◌, ◌<◌, String, ◌≡◌,
  refl, sym, ap, ◌∙◌, ◌≢◌, ◌↔◌, ◌⊎◌, inl, inr, Bool, true, false, ◌&&◌, ◌||◌, not, Option, none,
  some, List, [], ◌∷◌, ◌++◌, map, arith, ◌==◌, eq_iff, eq_refl,
}
use general_autonomy_protoco.Prelude.Dict.{
  Dict, lookup, has_key, insert, remove, values, lookup-insert, lookup-remove,
}
use general_autonomy_protoco.Prelude.Int.{ℤ, pos, negsuc, pos_part, neg_part, ltb_ℤ, leb_ℤ}
use general_autonomy_protoco.Models.{
  Value, null, flag, num, text, sequence, table, Fields, end, field, to_dict, of_dict, unit, truthy,
  is_set, is_given, truncate, of_flag, Runtime, to_float, to_int, GovernanceVerdict, approved,
  rejected, escalate, AuthorizationLevel, l0, l1, l2, l3, l4, rank, level_name, needs_oob,
  satisfies_auth, max_auth, AuthorizationTier, auto_execute, notify_proceed, require_approval,
  escalate_tier, max_auth_bounds, rank-injective, needs_oob-rank, ConstraintType, hard, soft,
  PolicyTier, regulatory_floor, org_policy, operational, PolicyActivation, Constraint, IntentVector,
  PlannedAction, StrategyProposal, EntityState, WorldModel, ProposalContent, content, PhaseConfig,
  RiskProfile, ActionTypeSpec, GovernancePhaseResult, PolicySnapshot, TemporalContext, Ruling,
  GovernanceDecision, OobMessage, ProfilePayload, Crypto, compute_proposal_digest,
  canonical_decision_payload, IsKeyPair,
}
use general_autonomy_protoco.Evaluators.{
  any_or_raise, interactive_actions, eu_codes, is_interactive, geo_of, is_eu_code, is_eu,
  gdpr_entity, gdpr_action, check_gdpr_consent, outside_hours, hours_action, check_contact_hours,
  check_cost_ceiling, undisclosed, check_ai_interaction_disclosure, unfair,
  check_fairness_evaluation, transaction_amount, unscreened, check_aml_screening, is_bulk,
  excessive_phi, check_minimum_necessary_phi, is_true, unsafe, check_safety_boundary, ip_risky,
  check_ip_content_risk, Check, constraint_evaluators, constraint_has_evaluator,
  check_constraint_violation,
}
use general_autonomy_protoco.Risk
use general_autonomy_protoco.Risk.{DynamicRiskEngine, EscalationTrigger, ActionContext}
use general_autonomy_protoco.Policy.{
  GovernanceKernel, baseline_action_types, KernelError, governance_config, profile_verification,
  Built, built, refused, as_floor, KernelOptions, new_kernel, validate_action_type, get_action_type,
  register_action_type, is_constraint_active, active_of, get_active_constraints, hard_violations,
  soft_violations,
}

unfoldable pub determine_auth_level : ℕ → AuthorizationLevel
determine_auth_level max_risk =
    if leb max_risk 3
    then l0
    else if leb max_risk 5
    then l1
    else if leb max_risk 7
    then l2
    else if eqb max_risk 8
    then l3
    else l4

unfoldable pub determine_auth_tier : ℕ → AuthorizationTier
determine_auth_tier max_risk =
    if leb max_risk 3
    then auto_execute
    else if leb max_risk 6
    then notify_proceed
    else if leb max_risk 8
    then require_approval
    else escalate_tier

-- `max((a.risk_score for a in actions), default=1)`
max_from : ℕ → List PlannedAction → ℕ
max_from m [] = m
max_from m (a ∷ actions) = max_from (max m a.risk_score) actions

unfoldable pub max_risk : List PlannedAction → ℕ
unfolding max_from
max_risk [] = 1
max_risk (a ∷ actions) = max_from a.risk_score actions

-- The specification that `if action_type_id:` and the registry give.
abbrev pub spec_of : GovernanceKernel → Option String → Option ActionTypeSpec
spec_of k none = none
spec_of k (some type_id) = if type_id == "" then none else lookup type_id k.action_type_registry

unfoldable pub base_level : GovernanceKernel → StrategyProposal → Option String → AuthorizationLevel
unfolding determine_auth_level
base_level k p action_type_id =
    let auth_level = determine_auth_level (max_risk p.actions) in
    elim (spec_of k action_type_id) [
      | none ↦ auth_level
      | some action_spec ↦ max_auth auth_level action_spec.default_authorization_level
    ]

-- The action type and the target that the engine is asked about: `or` binds tighter than the
-- conditional, so a proposal with no actions is "unknown" whatever type was declared.
abbrev risk_subject : StrategyProposal → Option String → String × String
risk_subject p action_type_id = elim p.actions [
  | [] ↦ ("unknown", "")
  | a ∷ rest ↦
      (if is_given action_type_id then get_or action_type_id "" else a.action_type, a.target)
]

pub record LevelRuling : Type 0 where
  pub level : AuthorizationLevel
  pub tier : AuthorizationTier
  pub trigger : Option EscalationTrigger

-- Step 4a: an escalated level that is higher replaces the level, and raises the legacy tier.
apply_trigger : AuthorizationLevel → AuthorizationTier → Option EscalationTrigger → LevelRuling
apply_trigger level tier none = record { level = level; tier = tier; trigger = none }
apply_trigger level tier (some t) =
    if ltb (rank level) (rank t.escalated_level)
    then record {
      level = t.escalated_level;
      tier =
          if leb 4 (rank t.escalated_level)
          then escalate_tier
          else if leb 2 (rank t.escalated_level)
          then require_approval
          else tier;
      trigger = some t;
    }
    else record { level = level; tier = tier; trigger = some t }

-- A level of L4 has the tier `escalate`, however it was reached.
settle_tier : LevelRuling → LevelRuling
settle_tier r = if eqb (rank r.level) 4 then record r { tier = escalate_tier } else r

unfoldable pub rule_level : GovernanceKernel → StrategyProposal → Option String → ℕ → LevelRuling
unfolding base_level determine_auth_tier apply_trigger settle_tier
rule_level k p action_type_id now =
    let level = base_level k p action_type_id in
    let (action_type, target) = risk_subject p action_type_id in
    settle_tier (
      apply_trigger level (determine_auth_tier (max_risk p.actions)) (
        Risk.evaluate k.dynamic_risk_engine action_type
          (record { current_auth_level = level; target = target }) now))

-- Stable, by falling priority: `sorted(intents, key=priority, reverse=True)`.
insert_sorted : IntentVector → List IntentVector → List IntentVector
insert_sorted i [] = i ∷ []
insert_sorted i (j ∷ rest) =
    if leb j.priority i.priority then i ∷ j ∷ rest else j ∷ insert_sorted i rest

unfoldable pub sort_by_priority : List IntentVector → List IntentVector
unfolding insert_sorted
sort_by_priority [] = []
sort_by_priority (i ∷ rest) = insert_sorted i (sort_by_priority rest)

pub record Resolution : Type 0 where
  pub primary_intent : String
  pub deprioritized : List String

-- `none` is the IndexError of an empty list.
unfoldable pub resolve_intent_conflict : List IntentVector → Option Resolution
unfolding sort_by_priority
resolve_intent_conflict intents = elim (sort_by_priority intents) [
  | [] ↦ none
  | primary ∷ rest ↦
      some (record { primary_intent = primary.id; deprioritized = map (λ i. i.id) rest })
]

-- `"|".join(violations)`
unfoldable pub format_structured_reason : List String → String
format_structured_reason [] = ""
format_structured_reason (v ∷ []) = v
format_structured_reason (v ∷ u ∷ rest) =
    str_append v (str_append "|" (format_structured_reason (u ∷ rest)))

unfoldable pub serialize_active_policies : List Constraint → PolicySnapshot
serialize_active_policies constraints = record {
  active_constraints = map (λ c. (c.name, c.type, c.description)) constraints;
  count = length constraints;
}

-- A day is 86,400 seconds; weekdays count from Monday, and 1970 began on a Thursday.
unfoldable pub get_temporal_snapshot : ℕ → TemporalContext
get_temporal_snapshot now =
    let hour = now / (3600 * unit) % 24 in
    record {
      evaluated_at = now;
      hour = hour;
      weekday = (now / (86400 * unit) + 3) % 7;
      is_business_hours = leb 9 hour && ltb hour 18;
    }

abbrev empty_world : ℕ → WorldModel
empty_world now = record { entities = []; last_reconciled = now; drift_events = [] }

module _ (R : Runtime) where
  -- Whether the proposal violates a hard constraint of the intent, over an empty world.
  conflicts_with : StrategyProposal → ℕ → IntentVector → Option Bool
  conflicts_with p now i =
      any_or_raise (λ c. check_constraint_violation R p c (empty_world now)) i.hard_constraints

  unfoldable pub detect_intent_conflicts :
      StrategyProposal → ℕ → List IntentVector → Option (List IntentVector)
  unfolding conflicts_with any_or_raise
  detect_intent_conflicts p now [] = some []
  detect_intent_conflicts p now (i ∷ intents) =
      let rest = detect_intent_conflicts p now intents in
      if i.id == p.intent_id || not i.active
      then rest
      else conflicts_with p now i >>= λ bad.
          rest >>= λ found. some (if bad then i ∷ found else found)

  outranked : List IntentVector → Option IntentVector → Bool
  outranked conflicts none = false
  outranked conflicts (some serving) = elim (resolve_intent_conflict (serving ∷ conflicts)) [
    | none ↦ false
    | some resolution ↦ not (resolution.primary_intent == serving.id)
  ]

  -- Step 5: whether an intent of higher priority conflicts with the one that is served.
  unfoldable pub conflict_unresolvable : StrategyProposal → ℕ → List IntentVector → Option Bool
  unfolding detect_intent_conflicts outranked resolve_intent_conflict
  conflict_unresolvable p now intents = detect_intent_conflicts p now intents >>= λ conflicts.
      some (
        if is_empty conflicts
        then false
        else outranked conflicts (find (λ i. i.id == p.intent_id) intents))

  phase_level : PhaseConfig → List GovernancePhaseResult → AuthorizationLevel
  phase_level phase prior =
      let level = phase.default_authorization_level in
      if phase.escalation_on_deviation
        && any (λ r. elim r.verdict [ approved ↦ true | _ ↦ false ]) prior
        && ltb (rank level) 2
      then l2
      else level

  unfoldable pub evaluate_phase :
      GovernanceKernel
      → PhaseConfig
      → StrategyProposal
      → List IntentVector
      → WorldModel
      → ℕ
      → List GovernancePhaseResult
      → Option GovernancePhaseResult
  unfolding phase_level
  evaluate_phase k phase p intents w now prior =
      hard_violations R p w (get_active_constraints R k intents now) >>= λ violations. some (
        if is_empty violations
        then record {
          phase_name = phase.phase_name;
          verdict = approved;
          authorization_level = phase_level phase prior;
          violated_constraints = [];
          rejection_reason = none;
          evaluated_at = now;
        }
        else record {
          phase_name = phase.phase_name;
          verdict = rejected;
          authorization_level = phase.default_authorization_level;
          violated_constraints = violations;
          rejection_reason = some (format_structured_reason violations);
          evaluated_at = now;
        })

  phases_from :
      GovernanceKernel
      → List PhaseConfig
      → StrategyProposal
      → List IntentVector
      → WorldModel
      → ℕ
      → List GovernancePhaseResult
      → Option (List GovernancePhaseResult)
  unfolding evaluate_phase
  phases_from k [] p intents w now results = some results
  phases_from k (phase ∷ phases) p intents w now results =
      evaluate_phase k phase p intents w now results >>= λ result.
      let rest = phases_from k phases p intents w now (results ++ result ∷ []) in
      elim result.verdict [
        | approved ↦ rest
        | _ ↦ if phase.required then some (results ++ result ∷ []) else rest
      ]

  unfoldable pub evaluate_multi_phase :
      GovernanceKernel
      → List PhaseConfig
      → StrategyProposal
      → List IntentVector
      → WorldModel
      → ℕ
      → Option (List GovernancePhaseResult)
  unfolding phases_from
  evaluate_multi_phase k phases p intents w now = phases_from k phases p intents w now []

-- The first phase that is not approved.
abbrev pub first_refused : List GovernancePhaseResult → Option GovernancePhaseResult
first_refused results = find (λ r. elim r.verdict [ approved ↦ false | _ ↦ true ]) results

-- What the rulings of one evaluation share: the fields that the code fills with the defaults.
abbrev blank : String → StrategyProposal → Option String → ℕ → Ruling
blank id p action_type_id now = record {
  id = id;
  proposal_id = p.id;
  verdict = rejected;
  violated_constraints = [];
  rejection_reason = none;
  authorization_level = none;
  authorization_tier = none;
  policy_snapshot = record { active_constraints = []; count = 0 };
  temporal_context = get_temporal_snapshot now;
  evaluated_at = now;
  action_type_id = action_type_id;
  phase_results = [];
  escalation_triggered = false;
  original_authorization_level = none;
  escalated_authorization_level = none;
  proposal_digest = none;
}

-- Step 0: why the action type is refused, if it is.
unfoldable pub action_type_gate : GovernanceKernel → Option String → Option String
action_type_gate k none = if k.strict_action_typing then some "action_type_required" else none
action_type_gate k (some type_id) =
    if has_key type_id k.action_type_registry then none else some "unregistered_action_type"

with_trigger : LevelRuling → Ruling → Ruling
with_trigger l r = record r {
  escalation_triggered = is_some l.trigger;
  original_authorization_level = elim l.trigger [ none ↦ none | some t ↦ some t.original_level ];
  escalated_authorization_level = elim l.trigger [ none ↦ none | some t ↦ some t.escalated_level ];
}

with_level : LevelRuling → Ruling → Ruling
with_level l r = record r { authorization_level = some l.level; authorization_tier = some l.tier }

module _ (R : Runtime) where
  -- Step 6, and what the code returns after it.
  pub finish : List String → LevelRuling → Ruling → List GovernancePhaseResult → Ruling
  unfolding with_trigger with_level
  finish soft_names l r results = elim (first_refused results) [
    | some pr ↦ record (with_level l r) {
      verdict = pr.verdict;
      violated_constraints = pr.violated_constraints;
      rejection_reason = pr.rejection_reason;
      phase_results = results;
    }
    | none ↦ record (with_trigger l (with_level l r)) {
      verdict = approved;
      violated_constraints = soft_names;
      phase_results = results;
    }
  ]

  pub run_phases :
      GovernanceKernel
      → StrategyProposal
      → List IntentVector
      → WorldModel
      → ℕ
      → Option String
      → Option (List GovernancePhaseResult)
  run_phases k p intents w now action_type_id = elim (spec_of k action_type_id) [
    | none ↦ some []
    | some action_spec ↦ evaluate_multi_phase R k action_spec.phase_config p intents w now
  ]

  -- Steps 4 to 7, for a proposal that violates no hard constraint.
  pub rule_on :
      GovernanceKernel
      → StrategyProposal
      → List IntentVector
      → WorldModel
      → ℕ
      → Option String
      → List String
      → Ruling
      → Option Ruling
  rule_on k p intents w now action_type_id soft_names r =
      let l = rule_level k p action_type_id now in
      elim l.tier [
        | escalate_tier ↦ some (record (with_trigger l (with_level l r)) {
          verdict = escalate;
          rejection_reason = some "risk_exceeds_system_authority";
        })
        | _ ↦ conflict_unresolvable R p now intents >>= λ unresolvable.
            (if unresolvable
              then some (record (with_level l r) {
                verdict = escalate;
                rejection_reason = some "unresolvable_intent_conflict";
              })
              else run_phases k p intents w now action_type_id >>= λ results.
                  some (finish soft_names l r results))
      ]

  -- Steps 1 to 3.
  pub rule_on_constraints :
      GovernanceKernel
      → StrategyProposal
      → List IntentVector
      → WorldModel
      → ℕ
      → Option String
      → Ruling
      → Option Ruling
  rule_on_constraints k p intents w now action_type_id r0 =
      let active = get_active_constraints R k intents now in
      let r = record r0 { policy_snapshot = serialize_active_policies active } in
      hard_violations R p w active >>= λ hard_names. soft_violations R p w active >>= λ soft_names.
      (if is_empty hard_names
        then rule_on k p intents w now action_type_id soft_names r
        else some (record r {
          violated_constraints = hard_names;
          rejection_reason = some (format_structured_reason hard_names);
        }))

  -- `_evaluate`
  unfoldable pub evaluate :
      GovernanceKernel
      → StrategyProposal
      → List IntentVector
      → WorldModel
      → ℕ
      → Option String
      → String
      → Option Ruling
  evaluate k p intents w now action_type_id decision_id = elim (action_type_gate k action_type_id) [
    | some reason ↦
        some (record (blank decision_id p action_type_id now) { rejection_reason = some reason })
    | none ↦
        rule_on_constraints k p intents w now action_type_id
          (blank decision_id p action_type_id now)
  ]

-- `_sign_decision` of a decision that has no approvals yet.
unfoldable pub sign_decision : Crypto → GovernanceKernel → Ruling → GovernanceDecision
sign_decision C k r = record {
  ruling = r;
  human_approval_signature = none;
  human_approver_public_key_id = none;
  human_approval_valid_until = none;
  decision_signature = some (C.sign k.signing_key_hex (C.dump_ruling r));
  kernel_public_key_id = some k.kernel_key_id;
}

unfoldable pub evaluate_proposal :
    Crypto
    → Runtime
    → GovernanceKernel
    → StrategyProposal
    → List IntentVector
    → WorldModel
    → ℕ
    → Option String
    → String
    → Option GovernanceDecision
unfolding sign_decision
evaluate_proposal C R k p intents w now action_type_id decision_id =
    evaluate R k p intents w now action_type_id decision_id >>= λ r.
    some (sign_decision C k (record r { proposal_digest = some (compute_proposal_digest C p) }))

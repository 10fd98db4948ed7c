-- ===== src/Evaluators.antt =====
-- The constraint evaluators of the kernel and their registry (governance/kernel.py). An evaluator
-- answers whether a proposal violates a constraint; `none` is an exception that the kernel does not
-- catch: an AttributeError for a jurisdiction that is no text, a TypeError for an hour that is no
-- number, an OverflowError for an amount or a count that does not convert.
pub mod Totality
pub mod Meaning
use general_autonomy_protoco.Prelude.{
  ltb, leb, eqb, if◌then◌else◌, Bool-cases, Option-cases, is_some, get_or, ◌>>=◌, >>=-eq-some,
  length, is_empty, any, select, find, last?, length-append, any-append, Member, All, All-append,
  All-prefix, All-suffix, contains, ℕ, zero, suc, ◌+◌, ◌-◌, ◌*◌, ◌/◌, ◌%◌, ◌≤◌, ◌<◌, String, ◌≡◌,
  refl, sym, ap, ◌∙◌, ◌≢◌, ◌↔◌, ◌⊎◌, inl, inr, Bool, true, false, ◌&&◌, ◌||◌, not, Option, none,
  some, List, [], ◌∷◌, ◌++◌, map, arith, ◌==◌, eq_iff, eq_refl,
}
use general_autonomy_protoco.Prelude.Dict.{
  Dict, lookup, has_key, insert, remove, values, lookup-insert, lookup-remove,
}
use general_autonomy_protoco.Prelude.Int.{ℤ, pos, negsuc, pos_part, neg_part, ltb_ℤ, leb_ℤ}
use general_autonomy_protoco.Models.{
  Value, null, flag, num, infinity, nan, text, sequence, table, Float, finite, infinite, unordered,
  exceeds, Conversion, converted, malformed, overflowed, Fields, end, field, to_dict, of_dict, unit,
  truthy, is_set, is_given, truncate, of_flag, Runtime, to_float, to_int, GovernanceVerdict,
  approved, rejected, escalate, AuthorizationLevel, l0, l1, l2, l3, l4, rank, level_name, needs_oob,
  satisfies_auth, max_auth, AuthorizationTier, auto_execute, notify_proceed, require_approval,
  escalate_tier, max_auth_bounds, rank-injective, needs_oob-rank, ConstraintType, hard, soft,
  PolicyTier, regulatory_floor, org_policy, operational, PolicyActivation, Constraint, IntentVector,
  PlannedAction, StrategyProposal, EntityState, WorldModel, ProposalContent, content, PhaseConfig,
  RiskProfile, ActionTypeSpec, GovernancePhaseResult, PolicySnapshot, TemporalContext, Ruling,
  GovernanceDecision, OobMessage, Crypto, compute_proposal_digest, canonical_decision_payload,
  IsKeyPair,
}

-- `for x in xs: if test(x): return True` and `return False` at the end.
unfoldable pub any_or_raise : {A : Type 0} → (A → Option Bool) → List A → Option Bool
any_or_raise test [] = some false
any_or_raise test (x ∷ xs) =
    let rest = any_or_raise test xs in
    elim (test x) [ none ↦ none | some found ↦ if found then some true else rest ]

abbrev pub interactive_actions : List String
interactive_actions = "send_email" ∷ "send_sms" ∷ "direct_call" ∷ "automated_outreach" ∷ []

abbrev pub eu_codes : List String
eu_codes =
    "EU" ∷ "EEA" ∷ "DE" ∷ "FR" ∷ "IT" ∷ "ES" ∷ "NL" ∷ "BE" ∷ "AT" ∷ "SE" ∷ "DK" ∷ "FI" ∷ "IE" ∷ "PT"
    ∷ "GR" ∷ "PL" ∷ "CZ" ∷ "RO" ∷ "HU" ∷ "BG" ∷ "HR" ∷ "SK" ∷ "SI" ∷ "LT" ∷ "LV" ∷ "EE" ∷ "CY"
    ∷ "MT" ∷ "LU" ∷ []

-- `s in (...)`
pub is_eu_code : String → Bool
is_eu_code s = contains eu_codes s

pub is_interactive : PlannedAction → Bool
is_interactive a = contains interactive_actions a.action_type

-- `props.get("geo", props.get("jurisdiction", ""))`
abbrev pub geo_of : Dict Value → Value
geo_of props = get_or (lookup "geo" props) (get_or (lookup "jurisdiction" props) (text ""))

module _ (R : Runtime) where
  -- `geo.upper() in (...)`
  pub is_eu : Value → Option Bool
  unfolding is_eu_code
  is_eu (text s) = some (is_eu_code (R.upper s))
  is_eu _ = none

  pub gdpr_entity : EntityState → Option Bool
  unfolding is_eu
  gdpr_entity entity = elim (is_eu (geo_of entity.properties)) [
    | none ↦ none
    | some eu ↦ some (eu && not (is_set entity.properties "gdpr_consent"))
  ]

  pub gdpr_action : WorldModel → PlannedAction → Option Bool
  unfolding is_interactive gdpr_entity
  gdpr_action w a =
      if is_interactive a
      then elim (lookup a.target w.entities) [
        | some entity ↦ gdpr_entity entity
        | none ↦ some a.requires_consent
      ]
      else some false

  unfoldable pub check_gdpr_consent : StrategyProposal → Constraint → WorldModel → Option Bool
  unfolding gdpr_action any_or_raise
  check_gdpr_consent p c w = any_or_raise (gdpr_action w) p.actions

-- `local_hour >= 22 or local_hour < 7`
pub outside_hours : Value → Option Bool
outside_hours null = some false
outside_hours (flag b) = some true
outside_hours (num x) = some (leb_ℤ (pos 22000000) x || ltb_ℤ x (pos 7000000))
outside_hours (infinity positive) = some true
outside_hours nan = some false
outside_hours _ = none

pub hours_action : WorldModel → PlannedAction → Option Bool
hours_action w a =
    if is_interactive a
    then elim (lookup a.target w.entities) [
      | some entity ↦ outside_hours (get_or (lookup "local_hour" entity.properties) null)
      | none ↦ some false
    ]
    else some false

pub check_contact_hours : StrategyProposal → Constraint → WorldModel → Option Bool
unfolding hours_action any_or_raise
check_contact_hours p c w = any_or_raise (hours_action w) p.actions

pub check_cost_ceiling : Runtime → StrategyProposal → Constraint → WorldModel → Option Bool
check_cost_ceiling R p c w = some (elim (R.find_dollars c.description) [
  | none ↦ true
  | some ceiling ↦ ltb_ℤ ceiling p.estimated_cost
])

pub undisclosed : PlannedAction → Bool
unfolding is_interactive
undisclosed a = is_interactive a && not (is_set a.parameters "ai_disclosed")

pub check_ai_interaction_disclosure : StrategyProposal → Constraint → WorldModel → Option Bool
check_ai_interaction_disclosure p c w = some (any undisclosed p.actions)

pub unfair : PlannedAction → Bool
unfair a =
    is_set a.parameters "consequential_decision" && not (is_set a.parameters "fairness_evaluation")

pub check_fairness_evaluation : StrategyProposal → Constraint → WorldModel → Option Bool
check_fairness_evaluation p c w = some (any unfair p.actions)

module _ (R : Runtime) where
  -- The amount of a declared transaction, as `float` has it: `none` is no declared one.
  unfoldable pub transaction_amount : PlannedAction → Option (Conversion Float)
  transaction_amount a = elim (get_or (lookup "transaction_amount" a.parameters) null) [
    | null ↦ none
    | v ↦ some (to_float R v)
  ]

  -- An OverflowError is not caught: `none`, here and in `excessive_phi`.
  pub unscreened : ℤ → PlannedAction → Option Bool
  unfolding transaction_amount
  unscreened threshold a = elim (transaction_amount a) [
    | none ↦ some false
    | some malformed ↦ some true
    | some overflowed ↦ none
    | some (converted amt) ↦ some (
        exceeds amt threshold
        && not (is_set a.parameters "aml_screened" && is_set a.parameters "sanctions_checked"))
  ]

  unfoldable pub check_aml_screening : StrategyProposal → Constraint → WorldModel → Option Bool
  unfolding unscreened any_or_raise
  check_aml_screening p c w = any_or_raise (unscreened (get_or c.threshold (pos 0))) p.actions

  pub is_bulk : Value → Bool
  is_bulk (text s) = s == "bulk"
  is_bulk _ = false

  abbrev pub record_count : PlannedAction → Conversion ℤ
  record_count a = to_int R (get_or (lookup "record_count" a.parameters) (num (pos 1000000)))

  pub excessive_phi : ℤ → PlannedAction → Option Bool
  excessive_phi threshold a =
      if not (is_set a.parameters "accesses_phi")
      then some false
      else if is_bulk (get_or (lookup "scope" a.parameters) null)
      then some (not (is_set a.parameters "phi_access_justification"))
      else elim (record_count a) [
        | malformed ↦ some true
        | overflowed ↦ none
        | converted n ↦
            some (ltb_ℤ threshold n && not (is_set a.parameters "phi_access_justification"))
      ]

  pub check_minimum_necessary_phi : StrategyProposal → Constraint → WorldModel → Option Bool
  check_minimum_necessary_phi p c w =
      any_or_raise (excessive_phi (get_or c.threshold (pos 1000000))) p.actions

-- `value is True`
pub is_true : Value → Bool
is_true (flag true) = true
is_true _ = false

pub unsafe : PlannedAction → Bool
unfolding is_true
unsafe a =
    is_set a.parameters "safety_critical"
    && not (is_true (get_or (lookup "within_safety_boundary" a.parameters) null))

pub check_safety_boundary : StrategyProposal → Constraint → WorldModel → Option Bool
check_safety_boundary p c w = some (any unsafe p.actions)

pub ip_risky : PlannedAction → Bool
ip_risky a =
    if not (is_set a.parameters "generates_content")
    then false
    else if not (is_set a.parameters "ip_risk_assessment")
    then true
    else (is_set a.parameters "copyright_similarity"
        || is_set a.parameters "trademark_usage"
        || is_set a.parameters "public_distribution")
      && not (is_set a.parameters "provenance")

pub check_ip_content_risk : StrategyProposal → Constraint → WorldModel → Option Bool
check_ip_content_risk p c w = some (any ip_risky p.actions)

abbrev pub Check : Type 0
Check = StrategyProposal → Constraint → WorldModel → Option Bool

-- `_CONSTRAINT_EVALUATORS`
unfoldable pub constraint_evaluators : Runtime → Dict Check
constraint_evaluators R =
    ("gdpr_consent_required", check_gdpr_consent R)
    ∷ ("no_contact_outside_hours", check_contact_hours)
    ∷ ("cost_ceiling", check_cost_ceiling R)
    ∷ ("ai_interaction_disclosure", check_ai_interaction_disclosure)
    ∷ ("fairness_evaluation_required", check_fairness_evaluation)
    ∷ ("aml_screening_required", check_aml_screening R)
    ∷ ("minimum_necessary_phi", check_minimum_necessary_phi R)
    ∷ ("safety_boundary", check_safety_boundary)
    ∷ ("ip_content_risk", check_ip_content_risk)
    ∷ []

unfoldable pub constraint_has_evaluator : Runtime → Constraint → Bool
constraint_has_evaluator R c = has_key c.name (constraint_evaluators R)

unfoldable pub check_constraint_violation : Runtime → Check
check_constraint_violation R p c w = elim (lookup c.name (constraint_evaluators R)) [
  | some check_fn ↦ check_fn p c w
  | none ↦ some true
]

-- ===== src/Policy.antt =====
-- The state of the Governance Kernel, its construction, the registry of action types, and the
-- constraints in force with their violations (governance/kernel.py).
pub mod Active
use general_autonomy_protoco.Prelude.{
  ltb, leb, eqb, if◌then◌else◌, Bool-cases, Option-cases, is_some, get_or, ◌>>=◌, >>=-eq-some,
  length, is_empty, any, select, find, last?, length-append, any-append, Member, All, All-append,
  All-prefix, All-suffix, contains, ℕ, zero, suc, ◌+◌, ◌-◌, ◌*◌, ◌/◌, ◌%◌, ◌≤◌, ◌<◌, String, ◌≡◌,
  refl, sym, ap, ◌∙◌, ◌≢◌, ◌↔◌, ◌⊎◌, inl, inr, Bool, true, false, ◌&&◌, ◌||◌, not, Option, none,
  some, List, [], ◌∷◌, ◌++◌, map, arith, ◌==◌, eq_iff, eq_refl,
}
use general_autonomy_protoco.Prelude.Dict.{
  Dict, lookup, has_key, insert, remove, values, lookup-insert, lookup-remove,
}
use general_autonomy_protoco.Prelude.Int.{ℤ, pos, negsuc, pos_part, neg_part, ltb_ℤ, leb_ℤ}
use general_autonomy_protoco.Models.{
  Value, null, flag, num, text, sequence, table, Fields, end, field, to_dict, of_dict, unit, truthy,
  is_set, is_given, truncate, of_flag, Runtime, to_float, to_int, GovernanceVerdict, approved,
  rejected, escalate, AuthorizationLevel, l0, l1, l2, l3, l4, rank, level_name, needs_oob,
  satisfies_auth, max_auth, AuthorizationTier, auto_execute, notify_proceed, require_approval,
  escalate_tier, max_auth_bounds, rank-injective, needs_oob-rank, ConstraintType, hard, soft,
  PolicyTier, regulatory_floor, org_policy, operational, PolicyActivation, Constraint, IntentVector,
  PlannedAction, StrategyProposal, EntityState, WorldModel, ProposalContent, content, PhaseConfig,
  RiskProfile, ActionTypeSpec, GovernancePhaseResult, PolicySnapshot, TemporalContext, Ruling,
  GovernanceDecision, OobMessage, ProfilePayload, Crypto, compute_proposal_digest,
  canonical_decision_payload, IsKeyPair,
}
use general_autonomy_protoco.Evaluators.{
  any_or_raise, interactive_actions, eu_codes, is_interactive, geo_of, is_eu_code, is_eu,
  gdpr_entity, gdpr_action, check_gdpr_consent, outside_hours, hours_action, check_contact_hours,
  check_cost_ceiling, undisclosed, check_ai_interaction_disclosure, unfair,
  check_fairness_evaluation, transaction_amount, unscreened, check_aml_screening, is_bulk,
  excessive_phi, check_minimum_necessary_phi, is_true, unsafe, check_safety_boundary, ip_risky,
  check_ip_content_risk, Check, constraint_evaluators, constraint_has_evaluator,
  check_constraint_violation,
}
use general_autonomy_protoco.Risk.{DynamicRiskEngine, EscalationConfig}
use general_autonomy_protoco.Profile.{
  ApplicabilityProfile, ProfileError, PublicKeyRegistry, verify_profile,
}

pub record GovernanceKernel : Type 0 where
  pub action_type_registry : Dict ActionTypeSpec
  pub dynamic_risk_engine : DynamicRiskEngine
  pub signing_key_hex : String
  pub public_key_hex : String
  pub kernel_key_id : String
  pub strict_action_typing : Bool
  pub tier1_floor : List Constraint

abbrev baseline_type : String → RiskProfile → AuthorizationLevel → String × ActionTypeSpec
baseline_type type_id risk level = (
  type_id,
  record {
    type_id = type_id;
    risk_profile = risk;
    default_authorization_level = level;
    phase_config = [];
    registered_by = "system";
    registered_at = none;
  },
)

abbrev local_risk : RiskProfile
local_risk = record {
  impact_scope = "local";
  reversibility = "reversible";
  blast_radius = "narrow";
}

-- `_BASELINE_ACTION_TYPES`
abbrev pub baseline_action_types : Dict ActionTypeSpec
baseline_action_types =
    baseline_type "task_execution" local_risk l0
    ∷ baseline_type "skill_modification"
        (record {
          impact_scope = "team";
          reversibility = "partially_reversible";
          blast_radius = "moderate";
        })
        l2
    ∷ baseline_type "drift_reconciliation" local_risk l1
    ∷ baseline_type "escalation" local_risk l0
    ∷ baseline_type "policy_proposal"
        (record { impact_scope = "org"; reversibility = "reversible"; blast_radius = "wide" }) l4
    ∷ []

pub data KernelError : Type 0 where
  governance_config : KernelError
  profile_verification : ProfileError → KernelError

pub data Built (A : Type 0) : Type 0 where
  built : A → Built A
  refused : KernelError → Built A

-- A floor constraint is forced to be hard, of Tier 1 and always active.
abbrev pub as_floor : Constraint → Constraint
as_floor c = record c {
  type = hard;
  tier = regulatory_floor;
  activation = record {
    always = true;
    schedule = none;
    condition = none;
    emergency_override = false;
  };
}

-- The arguments of `GovernanceKernel.__init__`; `generated` is what `generate_keypair` returns.
pub record KernelOptions : Type 0 where
  pub engine : DynamicRiskEngine
  pub strict_action_typing : Bool
  pub applicability_profile : Option ApplicabilityProfile
  pub profile_key_registry : PublicKeyRegistry
  pub signing_key_hex : Option String
  pub public_key_hex : Option String
  pub kernel_key_id : String
  pub governed : Bool
  pub generated : String × String

kernel_with : KernelOptions → List Constraint → GovernanceKernel
kernel_with o floor =
    let injected = is_given o.signing_key_hex && is_given o.public_key_hex in
    record {
      action_type_registry = baseline_action_types;
      dynamic_risk_engine = o.engine;
      signing_key_hex = if injected then get_or o.signing_key_hex "" else o.generated.0;
      public_key_hex = if injected then get_or o.public_key_hex "" else o.generated.1;
      kernel_key_id = o.kernel_key_id;
      strict_action_typing =
          o.strict_action_typing || is_some o.applicability_profile || o.governed;
      tier1_floor = floor;
    }

build_with : Crypto → KernelOptions → Option ApplicabilityProfile → Built GovernanceKernel
unfolding kernel_with
build_with C o none = if o.governed then refused governance_config else built (kernel_with o [])
build_with C o (some profile) = elim (verify_profile C profile o.profile_key_registry) [
  | some error ↦ refused (profile_verification error)
  | none ↦ built (kernel_with o (map as_floor profile.tier1_constraints))
]

-- `GovernanceKernel.__init__`
unfoldable pub new_kernel : Crypto → KernelOptions → Built GovernanceKernel
unfolding build_with
new_kernel C o = build_with C o o.applicability_profile

unfoldable pub validate_action_type : GovernanceKernel → String → Bool
validate_action_type k action_type = has_key action_type k.action_type_registry

unfoldable pub get_action_type : GovernanceKernel → String → Option ActionTypeSpec
get_action_type k type_id = lookup type_id k.action_type_registry

unfoldable pub register_action_type :
    GovernanceKernel → ActionTypeSpec → String → ℕ → GovernanceKernel
register_action_type k spec registered_by now =
    let stamped = record spec { registered_by = registered_by; registered_at = some now } in
    record k { action_type_registry = insert spec.type_id stamped k.action_type_registry }

module _ (R : Runtime) where
  in_schedule : Option String → ℕ → Bool
  in_schedule none now = false
  in_schedule (some schedule) now =
      if schedule == "" then false else get_or (R.cron_match schedule now) true

  unfoldable pub is_constraint_active : Constraint → ℕ → Bool
  unfolding in_schedule
  is_constraint_active c now =
      if c.activation.always then true else in_schedule c.activation.schedule now

  unfoldable pub active_of : List IntentVector → ℕ → List Constraint
  unfolding is_constraint_active
  active_of [] now = []
  active_of (i ∷ intents) now =
      (if i.active
        then select (λ c. c.activation.always || is_constraint_active c now)
            (i.hard_constraints ++ i.soft_constraints)
        else [])
      ++ active_of intents now

  unfoldable pub get_active_constraints : GovernanceKernel → List IntentVector → ℕ → List Constraint
  unfolding active_of
  get_active_constraints k intents now = k.tier1_floor ++ active_of intents now

  -- The names of the hard constraints that the proposal violates.
  unfoldable pub hard_violations :
      StrategyProposal → WorldModel → List Constraint → Option (List String)
  hard_violations p w [] = some []
  hard_violations p w (c ∷ cs) =
      let rest = hard_violations p w cs in
      elim c.type [
        | hard ↦ check_constraint_violation R p c w >>= λ bad.
            rest >>= λ names. some (if bad then c.name ∷ names else names)
        | soft ↦ rest
      ]

  -- The names of the soft constraints that have an evaluator and that the proposal violates.
  unfoldable pub soft_violations :
      StrategyProposal → WorldModel → List Constraint → Option (List String)
  soft_violations p w [] = some []
  soft_violations p w (c ∷ cs) =
      let rest = soft_violations p w cs in
      elim c.type [
        | soft ↦
            (if constraint_has_evaluator R c
              then check_constraint_violation R p c w
              else some false)
            >>= λ bad. rest >>= λ names. some (if bad then c.name ∷ names else names)
        | hard ↦ rest
      ]

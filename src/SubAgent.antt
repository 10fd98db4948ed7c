-- ===== src/SubAgent.antt =====
-- The executor of sub-agents (execution/sub_agent_executor.py): the registry's bounds, then the
-- fabric, then the record of what was done.
pub mod Bounds
use general_autonomy_protoco.Prelude.{
  ltb, leb, eqb, if◌then◌else◌, Bool-cases, Option-cases, is_some, get_or, ◌>>=◌, >>=-eq-some,
  length, is_empty, any, select, find, last?, length-append, any-append, Member, All, All-append,
  All-map, All-prefix, All-suffix, contains, ℕ, zero, suc, ◌+◌, ◌-◌, ◌*◌, ◌/◌, ◌%◌, ◌≤◌, ◌<◌,
  String, ◌≡◌, refl, sym, ap, ◌∙◌, ◌≢◌, ◌↔◌, ◌⊎◌, inl, inr, Bool, true, false, ◌&&◌, ◌||◌, not,
  Option, none, some, List, [], ◌∷◌, ◌++◌, map, arith, ◌==◌, eq_iff, eq_refl,
}
use general_autonomy_protoco.Prelude.Dict.{
  Dict, lookup, has_key, insert, remove, values, lookup-insert, lookup-remove,
}
use general_autonomy_protoco.Prelude.Int.{ℤ, pos, negsuc, pos_part, neg_part, ltb_ℤ, leb_ℤ}
use general_autonomy_protoco.Models.{
  Value, null, flag, num, text, sequence, table, Fields, end, field, to_dict, of_dict, unit, truthy,
  is_set, is_given, truncate, of_flag, Runtime, to_float, to_int, GovernanceVerdict, approved,
  rejected, escalate, AuthorizationLevel, l0, l1, l2, l3, l4, rank, level_name, needs_oob,
  satisfies_auth, max_auth, AuthorizationTier, auto_execute, notify_proceed, require_approval,
  escalate_tier, max_auth_bounds, rank-injective, needs_oob-rank, ConstraintType, hard, soft,
  PolicyTier, regulatory_floor, org_policy, operational, PolicyActivation, Constraint, IntentVector,
  PlannedAction, StrategyProposal, EntityState, WorldModel, ProposalContent, content, PhaseConfig,
  RiskProfile, ActionTypeSpec, GovernancePhaseResult, PolicySnapshot, TemporalContext, Ruling,
  GovernanceDecision, OobMessage, ProfilePayload, Crypto, compute_proposal_digest,
  canonical_decision_payload, IsKeyPair,
}
use general_autonomy_protoco.Registry
use general_autonomy_protoco.Registry.{SubAgentRegistry, authorize, record_action}
use general_autonomy_protoco.Fabric
use general_autonomy_protoco.Fabric.{
  Fabric, ExecutionError, ExecutionResult, ActionResult, Result, ok, err,
}

pub record SubAgentExecutor : Type 0 where
  pub registry : SubAgentRegistry
  pub fabric : Fabric

pub data SubAgentError : Type 0 where
  unknown_agent agent_halted level_missing above_ceiling : SubAgentError
  of_fabric : ExecutionError → SubAgentError

pub data Answer : Type 0 where
  done : ExecutionResult → Answer
  refused : SubAgentError → Answer

-- The loop over the completed actions.
unfoldable pub record_completed :
    SubAgentRegistry → String → AuthorizationLevel → ℕ → List ActionResult → Option SubAgentRegistry
record_completed reg agent_id level now [] = some reg
record_completed reg agent_id level now (a ∷ rest) =
    record_action reg agent_id a.target level now >>= λ reg'.
    record_completed reg' agent_id level now rest

conclude :
    SubAgentExecutor
    → String
    → AuthorizationLevel
    → ℕ
    → Result ExecutionResult × Fabric
    → Answer × SubAgentExecutor
unfolding record_completed
conclude x agent_id level now (err e, f) = (refused (of_fabric e), record x { fabric = f })
conclude x agent_id level now (ok r, f) =
    elim (record_completed x.registry agent_id level now r.actions_completed) [
      | none ↦ (refused unknown_agent, record x { fabric = f })
      | some reg ↦ (done r, record { registry = reg; fabric = f })
    ]

check_level : SubAgentExecutor → String → Option AuthorizationLevel → Option SubAgentError
check_level x agent_id none = some level_missing
check_level x agent_id (some level) = elim (authorize x.registry agent_id level) [
  | none ↦ some unknown_agent
  | some allowed ↦ if allowed then none else some above_ceiling
]

-- Why the registry refuses an agent's decision, if it does.
unfoldable pub check_agent : SubAgentExecutor → String → GovernanceDecision → Option SubAgentError
unfolding check_level
check_agent x agent_id d = elim (Registry.is_halted x.registry agent_id) [
  | none ↦ some unknown_agent
  | some halted ↦ if halted then some agent_halted else check_level x agent_id d.authorization_level
]

unfoldable pub execute :
    Crypto
    → Runtime
    → SubAgentExecutor
    → String
    → StrategyProposal
    → GovernanceDecision
    → ℕ
    → Answer × SubAgentExecutor
unfolding conclude
execute C R x agent_id p d now = elim (check_agent x agent_id d) [
  | some e ↦ (refused e, x)
  | none ↦
      conclude x agent_id (get_or d.authorization_level l0) now
        (Fabric.execute C R x.fabric p d now)
]

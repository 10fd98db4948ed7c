-- ===== src/Kernel/Runs.antt =====
-- The kernel of the samples is built, and what it decides of the sample proposal.
use general_autonomy_protoco.Prelude.{◌≡◌, refl, false, none, some, [], ◌∷◌}
use general_autonomy_protoco.Models.{
  is_set, to_float, exceeds, approved, l0, rank, max_auth, auto_execute, Ruling, GovernanceDecision,
  compute_proposal_digest,
}
use general_autonomy_protoco.Evaluators.{
  check_gdpr_consent, check_aml_screening, constraint_evaluators, check_constraint_violation,
}
use general_autonomy_protoco.Risk
use general_autonomy_protoco.Risk.{DynamicRiskEngine, EscalationTrigger, ActionContext}
use general_autonomy_protoco.Policy.{
  built, as_floor, new_kernel, get_active_constraints, hard_violations, soft_violations,
}
use general_autonomy_protoco.Kernel.{
  max_risk, base_level, rule_level, serialize_active_policies, get_temporal_snapshot,
  detect_intent_conflicts, conflict_unresolvable, evaluate_multi_phase, action_type_gate,
  with_trigger, with_level, finish, run_phases, rule_on, rule_on_constraints, evaluate,
  evaluate_proposal,
}
use general_autonomy_protoco.Profile.{verify_profile}
use general_autonomy_protoco.Samples.{
  toy_runtime, toy_crypto, now, gdpr, aml, intents, proposal, world, options, kernel, task,
}

pub built_kernel : new_kernel toy_crypto options ≡ built kernel
unfolding new_kernel verify_profile
built_kernel = refl

-- The decision on the sample proposal.
abbrev pub ruling : Ruling
ruling = record {
  id = "d1";
  proposal_id = "p1";
  verdict = approved;
  violated_constraints = [];
  rejection_reason = none;
  authorization_level = some l0;
  authorization_tier = some auto_execute;
  policy_snapshot = serialize_active_policies (as_floor gdpr ∷ aml ∷ aml ∷ []);
  temporal_context = get_temporal_snapshot now;
  evaluated_at = now;
  action_type_id = task;
  phase_results = [];
  escalation_triggered = false;
  original_authorization_level = none;
  escalated_authorization_level = none;
  proposal_digest = none;
}

pub evaluated : evaluate toy_runtime kernel proposal intents world now task "d1" ≡ some ruling
unfolding evaluate rule_on_constraints rule_on run_phases finish with_level with_trigger
    action_type_gate evaluate_multi_phase conflict_unresolvable detect_intent_conflicts rule_level
    base_level hard_violations soft_violations get_active_constraints check_constraint_violation
    constraint_evaluators check_gdpr_consent check_aml_screening is_set to_float exceeds rank
    Risk.evaluate max_auth max_risk
evaluated = refl

abbrev pub decision : GovernanceDecision
decision = record {
  ruling = record ruling { proposal_digest = some "p1" };
  human_approval_signature = none;
  human_approver_public_key_id = none;
  human_approval_valid_until = none;
  decision_signature = some "p1";
  kernel_public_key_id = some "kernel";
}

pub decided :
    evaluate_proposal toy_crypto toy_runtime kernel proposal intents world now task "d1"
    ≡ some decision
unfolding evaluate_proposal compute_proposal_digest
decided = rw (evaluated, evaluate_proposal) refl

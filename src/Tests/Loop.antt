-- ===== src/Tests/Loop.antt =====
-- The theorems on the loop of autonomy at a run of the sample kernel and fabric
-- (strategy/cga_loop.py).
use general_autonomy_protoco.Prelude.{
  length, Member, ◌≤◌, String, ◌≡◌, refl, sym, ◌≢◌, ◌⊎◌, inl, inr, true, false, Option, none, some,
  List, [], ◌∷◌, arith, ◌==◌,
}
use general_autonomy_protoco.Prelude.Dict.{lookup}
use general_autonomy_protoco.Evaluators.{any_or_raise}
use general_autonomy_protoco.Models.{
  l1, text, l0, l2, l3, rank, needs_oob, StrategyProposal, GovernanceDecision,
  compute_proposal_digest, canonical_decision_payload,
}
use mathlib.Core.Path.{subst}
use general_autonomy_protoco.CgaLoop.{Outcome, Round, stop, again, raised, CgaError, observed}
use general_autonomy_protoco.KillSwitch.{is_engaged, is_engaged_globally}
use general_autonomy_protoco.Ledger.{has_been_used}
use general_autonomy_protoco.Samples.{
  toy_runtime, toy_crypto, toy_keys, now, intent, intents, proposal, world, kernel, task, fabric,
}
use general_autonomy_protoco.Kernel.Runs.{ruling, decision, decided}
use general_autonomy_protoco.Fabric
use general_autonomy_protoco.Fabric.{
  ok, ExecutionResult, oob_message, guards, check_halt, check_binding, verify_decision_signature,
  verify_oob_authority, check_approval, conclude, dispatch_all, dispatch_action,
  consume_oob_authority, apply_state_changes, is_halted,
}
use general_autonomy_protoco.Fabric.Guards.{IsAuthorized}
use general_autonomy_protoco.Fabric.Release.{IsSignedOff}
use general_autonomy_protoco.Fabric.Runs.{human_decision, sent, executed}
use general_autonomy_protoco.CgaLoop.{
  CgaLoop, CgaResult, FinalVerdict, finished, RunInput, run, gate, attempts, attempt_once, route,
  route_approved, dispatch_approved, after_execution, close_run, signals_of, is_halted_for,
  scope_engaged, is_halted_now, approve_and_execute, with_approval,
}
use general_autonomy_protoco.SelfEvolution
use general_autonomy_protoco.SelfEvolution.{
  SelfEvolutionMonitor, is_self_modifying, is_flagged, check_velocity, check_privilege_accrual,
  check_surface_expansion, distinct_targets,
}
use general_autonomy_protoco.Monitor.Detectors.{collect}
use general_autonomy_protoco.CgaLoop.{
  new_loop, integrity_hold_on, flagged_by_integrity, flagged_by_evolution,
}
use general_autonomy_protoco.CgaLoop.Governed.{run-governed}
use general_autonomy_protoco.Resolver.{confirmed, IntentDeclaration, is_ready_for_cga}
use general_autonomy_protoco.CgaLoop.Protocol.{IsProtocol, run-IsProtocol, run-attempts}
use general_autonomy_protoco.CgaLoop.Safety.{IsSanctioned, run-IsSanctioned, run-engaged}
use general_autonomy_protoco.CgaLoop.Spent.{LoopCall, run_on, approve, call_all}
use general_autonomy_protoco.CgaLoop.Approval.{
  approve_and_execute-IsApproved, approve_and_execute-returns, approve_and_execute-once,
}

-- A monitor that has seen two modifications in its window, as many as it takes.
abbrev tuned : SelfEvolutionMonitor
tuned = record {
  self_modifying = "skill_modification" ∷ [];
  mods =
      record { action_type = "skill_modification"; modified_rank = 2; target = some "s"; at = 5 }
      ∷ record { action_type = "skill_modification"; modified_rank = 2; target = some "t"; at = 7 }
      ∷ [];
  velocity_window = 10;
  velocity_threshold = 2;
  baseline_window = 5;
  recent_window = 3;
  privilege_drift_threshold = 1000000;
  surface_window = 10;
  surface_threshold = 5;
  max_history = 8;
}

-- A governed loop whose generator always has the sample proposal.
abbrev arguments : CgaLoop
arguments = record {
  governance = kernel;
  execution = fabric;
  strategy_gen = λ i w drift lessons prior n. some proposal;
  max_attempts = 3;
  system_identity = "governance_system";
  integrity_monitor = none;
  self_evolution_monitor = some tuned;
  action_type_classifier = none;
  governed = true;
  block_on_integrity = false;
  kill_switch = some (record { engaged = "other" ∷ []; log = [] });
}

abbrev loop : CgaLoop
loop = record arguments { block_on_integrity = true }

built : new_loop arguments ≡ loop
unfolding new_loop
built = refl

abbrev declaration : IntentDeclaration
declaration = record {
  declared = record {
    declaration_id = "n1";
    intent_class = none;
    stated_intent = "grow";
    interpreted_intent = "grow";
    meta_intent = record {
      primary_objective = "grow";
      value_hierarchy = [];
      risk_tolerance = "moderate";
      stakeholder_impact = [];
    };
    declared_boundaries = [];
    confirmation_state = confirmed;
    correction_records = [];
    authorization_level = l1;
    resolution_mode = "structured_confirmation";
    created_at = 0;
    linked_decision_id = none;
  };
  integrity_signature = none;
  signing_key_id = none;
}

abbrev input : RunInput
input = record {
  intent = intent "i1" 5;
  drift_event = ("entity_id", text "acme") ∷ [];
  world_state = world;
  given_intents = some intents;
  intent_declaration = some declaration;
  standing = none;
  action_type_id = task;
  now = now;
  decision_id = λ n. "d1";
}

abbrev result : CgaResult
result = record {
  proposals = proposal ∷ [];
  decisions = decision ∷ [];
  accumulated_constraints = [];
  final_verdict = FinalVerdict.executed;
  approved_proposal = some proposal;
  execution_result = some sent;
  total_attempts = 1;
  integrity_signals = [];
}

entered : gate loop input ≡ none
unfolding gate is_halted_for scope_engaged any_or_raise is_engaged_globally is_engaged
    is_ready_for_cga rank
entered = refl

-- The first round, by the kernel's answer.
abbrev first_round : CgaLoop → Option GovernanceDecision → Round
first_round l o = elim o [
  | none ↦ stop (raised CgaError.evaluation_failed) l
  | some d ↦
      route toy_crypto toy_runtime (observed l d (some "acme")) now
        (record { proposals = proposal ∷ []; decisions = d ∷ []; accumulated = []; attempt = 1 })
        proposal d
]

abbrev answered : CgaLoop → Option GovernanceDecision → Outcome × CgaLoop
answered l o = elim (first_round l o) [
  | stop outcome l' ↦ (outcome, l')
  | again pr l' ↦ attempts toy_crypto toy_runtime input 2 l' pr
]

ends_executed : (answered loop (some decision)).0 ≡ finished result
unfolding integrity_hold_on flagged_by_integrity flagged_by_evolution is_self_modifying route
    route_approved dispatch_approved after_execution close_run signals_of is_halted_now
    is_engaged_globally is_engaged Fabric.execute guards check_halt check_binding
    compute_proposal_digest verify_decision_signature canonical_decision_payload
    verify_oob_authority needs_oob conclude dispatch_all dispatch_action consume_oob_authority
    apply_state_changes
ends_executed = refl

ran : (run toy_crypto toy_runtime loop input).0 ≡ finished result
unfolding run gate attempts attempt_once is_halted_for scope_engaged any_or_raise
    is_engaged_globally is_engaged is_ready_for_cga rank
ran =
    subst (λ (o : Option GovernanceDecision). (answered loop o).0 ≡ finished result) (sym decided)
      ends_executed

run-IsSanctioned_example :
    (p : StrategyProposal) × (d : GovernanceDecision) × (some proposal ≡ some p)
    × (FinalVerdict.executed ≡ FinalVerdict.executed)
    × Member d (decision ∷ [])
    × IsSanctioned toy_crypto toy_runtime input loop p d
    × ((Fabric.execute toy_crypto toy_runtime loop.execution p d input.now).0 ≡ ok sent)
run-IsSanctioned_example = run-IsSanctioned toy_crypto toy_runtime input loop result sent ran refl

-- The same loop where the sample's own action type counts as a modification: the run is held.
abbrev strict : SelfEvolutionMonitor
strict = record tuned { self_modifying = "task_execution" ∷ [] }

abbrev strict_arguments : CgaLoop
strict_arguments = record arguments { self_evolution_monitor = some strict }

abbrev strict_loop : CgaLoop
strict_loop = record loop { self_evolution_monitor = some strict }

strict_built : new_loop strict_arguments ≡ strict_loop
unfolding new_loop
strict_built = refl

abbrev held_run : CgaResult
held_run = record result { final_verdict = FinalVerdict.integrity_hold; execution_result = none }

flagged : is_flagged strict ≡ some true
unfolding is_flagged SelfEvolution.scan check_velocity check_privilege_accrual
    check_surface_expansion distinct_targets collect
flagged = refl

ends_held : (answered strict_loop (some decision)).0 ≡ finished held_run
unfolding integrity_hold_on flagged_by_integrity flagged_by_evolution is_self_modifying route
    route_approved dispatch_approved close_run signals_of is_flagged SelfEvolution.scan
    check_velocity check_privilege_accrual check_surface_expansion distinct_targets collect
ends_held = refl

held_at_once : (run toy_crypto toy_runtime strict_loop input).0 ≡ finished held_run
unfolding run gate attempts attempt_once is_halted_for scope_engaged any_or_raise
    is_engaged_globally is_engaged is_ready_for_cga rank
held_at_once =
    subst (λ (o : Option GovernanceDecision). (answered strict_loop o).0 ≡ finished held_run)
      (sym decided) ends_held

run-governed_example :
    (FinalVerdict.integrity_hold ≡ FinalVerdict.integrity_hold)
    × (held_run.execution_result ≡ none)
    × ((p : StrategyProposal) × (some proposal ≡ some p) × Member p (proposal ∷ []))
unfolding is_self_modifying
run-governed_example =
    run-governed toy_crypto toy_runtime input strict_arguments strict held_run decision refl refl
      flagged (rw strict_built held_at_once) (inl refl) refl refl

run-IsProtocol_example : IsProtocol toy_crypto toy_runtime input loop result
run-IsProtocol_example = run-IsProtocol toy_crypto toy_runtime input loop result entered ran

run-attempts_example : (length (proposal ∷ []) ≡ 1) × (length (decision ∷ []) ≡ 1) × (1 ≤ 3)
run-attempts_example = run-attempts toy_crypto toy_runtime loop input result ran

run-engaged_example :
    (is_halted_for loop.kill_switch input.drift_event ≡ some false)
    × (((input.intent_declaration ≡ none) × (loop.governed ≡ false))
        ⊎ ((d : IntentDeclaration) × (input.intent_declaration ≡ some d)
            × (is_ready_for_cga loop.system_identity d input.standing input.now ≡ true)))
run-engaged_example = run-engaged toy_crypto toy_runtime loop input result ran (λ e. ground arith)

-- The sample decision, at L2 and not yet approved by a human.
abbrev raised_decision : GovernanceDecision
raised_decision = record decision {
  ruling = record ruling { proposal_digest = some "p1"; authorization_level = some l2 };
}

approved_once :
    (approve_and_execute toy_crypto toy_runtime loop proposal raised_decision "d1" "ak" now now).0
    ≡ ok sent
unfolding approve_and_execute
approved_once = executed

approve_and_execute-IsApproved_example :
    IsAuthorized toy_crypto fabric proposal human_decision now
    × (now ≤ now)
    × (has_been_used fabric.oob_ledger "d1" "d1" ≡ false)
    × ((key : String) × (lookup "ak" fabric.public_key_registry ≡ some key)
        × (toy_crypto.verify key (toy_crypto.dump_oob (oob_message human_decision)) "d1" ≡ true))
unfolding rank
approve_and_execute-IsApproved_example =
    approve_and_execute-IsApproved toy_crypto toy_runtime loop proposal raised_decision "d1" "ak"
      now now l2 sent refl (omega arith) approved_once

-- A run, and another approval, between the two.
abbrev between : List LoopCall
between = run_on input ∷ approve proposal decision "d1" "ak" now now ∷ []

approve_and_execute-once_example :
    (approve_and_execute toy_crypto toy_runtime
      (call_all toy_crypto toy_runtime
        (approve_and_execute toy_crypto toy_runtime loop proposal raised_decision "d1" "ak" now
          now).1
        between)
      proposal
      raised_decision
      "d1"
      "ak"
      now
      now).0
    ≢ ok sent
unfolding rank
approve_and_execute-once_example =
    approve_and_execute-once toy_crypto toy_runtime loop proposal proposal raised_decision
      raised_decision "d1" "ak" "ak" now now now now l2 l2 sent sent between refl (omega arith)
      approved_once refl refl refl (omega arith)

running : is_halted fabric.kill_switch proposal.actions ≡ false
unfolding is_halted is_engaged is_engaged_globally
running = refl

sign_differs :
    (toy_crypto.sign "kpriv" (canonical_decision_payload toy_crypto decision) == "") ≡ false
unfolding canonical_decision_payload
sign_differs = refl

signed_off :
    IsSignedOff toy_crypto fabric proposal
      (with_approval decision "d1" "ak" now)
      now
      l0
      "d1"
      "ak"
      "apub"
      now
unfolding rank has_been_used
signed_off = record {
  named = refl;
  named_key = refl;
  has_key = refl;
  in_time = omega arith;
  registered = refl;
  within = inr (("ak", l3) ∷ [], l3, refl, refl, omega arith);
  unused = refl;
}

approve_and_execute-returns_example :
    (r : ExecutionResult) × ((approve_and_execute toy_crypto toy_runtime loop proposal decision "d1"
        "ak" now now).0
      ≡ ok r)
approve_and_execute-returns_example =
    approve_and_execute-returns toy_crypto toy_runtime loop proposal decision intents world now now
      task "d1" l0 "apriv" "apub" "ak" now (toy_keys "kpriv" "kpub") sign_differs refl decided refl
      refl running (toy_keys "apriv" "apub") signed_off

-- ===== src/CgaLoop.antt =====
-- The loop of constraint-guided autonomy (strategy/cga_loop.py): plan, submit to governance, and
-- execute, retry or escalate.
pub mod State
pub mod Holds
pub mod Rounds
pub mod Protocol
pub mod Safety
pub mod Governed
pub mod Spent
pub mod Approval
unfoldable pub use State.*
unfoldable pub use Holds.*
use general_autonomy_protoco.Prelude.{
  if◌then◌else◌, get_or, ℕ, zero, suc, ◌+◌, ◌-◌, ◌/◌, ◌<◌, String, Bool, not, Option, none, some,
  List, [], ◌∷◌, ◌++◌,
}
use general_autonomy_protoco.Models.{
  Runtime, approved, rejected, escalate, StrategyProposal, GovernanceDecision, Crypto,
}
use general_autonomy_protoco.Kernel.{evaluate_proposal}
use general_autonomy_protoco.Fabric
use general_autonomy_protoco.Fabric.{Fabric, ExecutionResult, Result, ok, err}
use general_autonomy_protoco.Monitor.{IntegritySignal, IntegrityMonitor}
use general_autonomy_protoco.Monitor.Detectors
use general_autonomy_protoco.Classifier.{classify}
use general_autonomy_protoco.Resolver.{is_ready_for_cga}
use general_autonomy_protoco.Strategy.{AccumulatedConstraint}
use Prim.Native.String.{◌++◌ as str_append}

-- `integrity_monitor.scan`, which may raise.
unfoldable pub signals_of : Option IntegrityMonitor → Option (List IntegritySignal)
signals_of none = some []
signals_of (some m) = Detectors.scan m

-- The result of a run that is over.
unfoldable pub close_run :
    CgaLoop → Progress → FinalVerdict → Option StrategyProposal → Option ExecutionResult → Outcome
unfolding signals_of
close_run loop pr verdict p r = elim (signals_of loop.integrity_monitor) [
  | none ↦ raised detection_failed
  | some signals ↦ finished (record {
    proposals = pr.proposals;
    decisions = pr.decisions;
    accumulated_constraints = pr.accumulated;
    final_verdict = verdict;
    approved_proposal = p;
    execution_result = r;
    total_attempts = pr.attempt;
    integrity_signals = signals;
  })
]

-- What a rejection tells the next attempt.
abbrev pub lesson_of : GovernanceDecision → AccumulatedConstraint
lesson_of d = record {
  source = str_append "governance_rejection_" d.id;
  constraint = get_or d.rejection_reason "";
}

-- The loop after an answer of the fabric; the monitor of self-evolution sees a success.
abbrev pub dispatched :
    CgaLoop → Fabric → ExecutionResult → StrategyProposal → GovernanceDecision → CgaLoop
dispatched loop f r p d =
    let loop1 = record loop { execution = f } in
    if r.success then realized loop1 d (first_target p) else loop1

-- What `run` does with an answer of the fabric.
unfoldable pub after_execution :
    CgaLoop
    → Progress
    → StrategyProposal
    → GovernanceDecision
    → Result ExecutionResult × Fabric
    → Round
unfolding close_run
after_execution loop pr p d (err e, f) =
    stop (raised (execution_failed e)) (record loop { execution = f })
after_execution loop pr p d (ok r, f) =
    let loop1 = dispatched loop f r p d in
    stop (close_run loop1 pr executed (some p) (some r)) loop1

-- The action type that governance is told of.
abbrev pub action_type_of : CgaLoop → RunInput → StrategyProposal → Option String
action_type_of loop i p = elim loop.action_type_classifier [
  | none ↦ i.action_type_id
  | some c ↦ some (classify c p)
]

-- Why a run does not engage, if it does not.
unfoldable pub gate : CgaLoop → RunInput → Option Outcome
gate loop i = elim (is_halted_for loop.kill_switch i.drift_event) [
  | none ↦ some (raised halt_check_failed)
  | some halts ↦ if halts then some (finished (refused_run halted)) else elim i.intent_declaration [
    | none ↦ if loop.governed then some (raised ungoverned) else none
    | some d ↦
        if is_ready_for_cga loop.system_identity d i.standing i.now
        then none
        else some (finished (refused_run awaiting_intent_confirmation))
  ]
]

abbrev pub with_approval : GovernanceDecision → String → String → ℕ → GovernanceDecision
with_approval d signature approver_key_id valid_until = record d {
  human_approval_signature = some signature;
  human_approver_public_key_id = some approver_key_id;
  human_approval_valid_until = some valid_until;
}

module _ (C : Crypto) (R : Runtime) where
  -- An approved proposal: held, awaiting approval, halted, or executed.
  unfoldable pub dispatch_approved :
      CgaLoop → ℕ → Progress → StrategyProposal → GovernanceDecision → Bool → Round
  unfolding close_run after_execution
  dispatch_approved loop now pr p d held =
      if held
      then stop (close_run loop pr integrity_hold (some p) none) loop
      else if needs_human d
      then stop (close_run loop pr awaiting_approval (some p) none) loop
      else if is_halted_now loop.kill_switch p.actions
      then stop (close_run loop pr halted none none) loop
      else after_execution loop pr p d (Fabric.execute C R loop.execution p d now)

  unfoldable pub route_approved :
      CgaLoop → ℕ → Progress → StrategyProposal → GovernanceDecision → Round
  unfolding dispatch_approved
  route_approved loop now pr p d = elim (held_by loop d p) [
    | none ↦ stop (raised detection_failed) loop
    | some held ↦ dispatch_approved loop now pr p d held
  ]

  unfoldable pub route : CgaLoop → ℕ → Progress → StrategyProposal → GovernanceDecision → Round
  unfolding close_run route_approved
  route loop now pr p d = elim d.verdict [
    | approved ↦ route_approved loop now pr p d
    | escalate ↦ stop (close_run loop pr escalated none none) loop
    | rejected ↦ again (record pr { accumulated = pr.accumulated ++ lesson_of d ∷ [] }) loop
  ]

  -- The body of the `while`.
  unfoldable pub attempt_once : RunInput → CgaLoop → Progress → Round
  unfolding route
  attempt_once i loop pr =
      let attempt = pr.attempt + 1 in
      elim (loop.strategy_gen i.intent i.world_state i.drift_event pr.accumulated pr.proposals
        attempt) [
          | none ↦ stop (raised generation_failed) loop
          | some p ↦
              elim (evaluate_proposal C R loop.governance p (intents_of i) i.world_state i.now
                (action_type_of loop i p) (i.decision_id attempt)) [
                  | none ↦ stop (raised evaluation_failed) loop
                  | some d ↦
                      route (observed loop d (first_target p)) i.now
                        (record pr {
                          proposals = pr.proposals ++ p ∷ [];
                          decisions = pr.decisions ++ d ∷ [];
                          attempt = attempt;
                        })
                        p d
                ]
        ]

  -- `while attempt < self.max_attempts`, by the attempts that are left.
  unfoldable pub attempts : RunInput → ℕ → CgaLoop → Progress → Outcome × CgaLoop
  unfolding attempt_once close_run
  attempts i zero loop pr = (close_run loop pr escalated none none, loop)
  attempts i (suc left) loop pr = elim (attempt_once i loop pr) [
    | stop outcome loop' ↦ (outcome, loop')
    | again pr' loop' ↦ attempts i left loop' pr'
  ]

  unfoldable pub run : CgaLoop → RunInput → Outcome × CgaLoop
  unfolding gate attempts
  run loop i = elim (gate loop i) [
    | some outcome ↦ (outcome, loop)
    | none ↦ attempts i loop.max_attempts loop fresh_progress
  ]

  -- `approve_and_execute`: a human's approval is attached to the decision, which is then dispatched.
  unfoldable pub approve_and_execute :
      CgaLoop
      → StrategyProposal
      → GovernanceDecision
      → String
      → String
      → ℕ
      → ℕ
      → Result ExecutionResult × CgaLoop
  approve_and_execute loop p d signature approver_key_id valid_until now =
      let d' = with_approval d signature approver_key_id valid_until in
      let (result, f) = Fabric.execute C R loop.execution p d' now in
      (
        result,
        elim result [ err e ↦ record loop { execution = f } | ok r ↦ dispatched loop f r p d' ],
      )

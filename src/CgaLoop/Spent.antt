-- ===== src/CgaLoop/Spent.antt =====
-- What the loop of autonomy does to the fabric that it holds, and to the approvals spent there
-- (strategy/cga_loop.py).
use general_autonomy_protoco.Prelude.{
  Bool-cases, Option-cases, ℕ, zero, suc, String, ◌≡◌, refl, sym, inl, inr, Bool, true, List, [],
  ◌∷◌, ◌+◌, arith,
}
use general_autonomy_protoco.Models.{
  Runtime, GovernanceVerdict, approved, rejected, escalate, StrategyProposal, GovernanceDecision,
  Crypto,
}
use mathlib.Core.Path.{subst}
use general_autonomy_protoco.Kernel.{evaluate_proposal}
use general_autonomy_protoco.Fabric
use general_autonomy_protoco.Fabric.{Fabric, ExecutionResult, Result, ok, err}
use general_autonomy_protoco.Fabric.Replay.{execute-keeps}
use general_autonomy_protoco.Ledger.{has_been_used}
use general_autonomy_protoco.CgaLoop.{
  CgaLoop, RunInput, intents_of, Progress, Round, stop, again, Outcome, gate, first_target,
  observed, held_by, dispatched, after_execution, dispatch_approved, route_approved, route,
  attempt_once, attempts, run, with_approval, approve_and_execute, action_type_of, fresh_progress,
}

dispatched_fabric :
    (loop : CgaLoop) (f : Fabric) (r : ExecutionResult) (p : StrategyProposal)
    (d : GovernanceDecision)
    → (dispatched loop f r p d).execution ≡ f
dispatched_fabric loop f r p d = elim (Bool-cases r.success) [
  | inl e ↦ ground arith
  | inr e ↦ ground arith
]

-- The fabric of the loop afterwards is the one that the execution left.
pub execution-approve_and_execute :
    (C : Crypto) (R : Runtime) (loop : CgaLoop) (p : StrategyProposal) (d : GovernanceDecision)
    (signature key_id : String) (valid_until now : ℕ)
    → (approve_and_execute C R loop p d signature key_id valid_until now).1.execution
      ≡ (Fabric.execute C R loop.execution p (with_approval d signature key_id valid_until) now).1
unfolding approve_and_execute
execution-approve_and_execute C R loop p d signature key_id valid_until now =
    kept (Fabric.execute C R loop.execution p (with_approval d signature key_id valid_until) now).0
      (Fabric.execute C R loop.execution p (with_approval d signature key_id valid_until) now).1
  where
    after : Result ExecutionResult → Fabric → CgaLoop
    after result f = elim result [
      | err e ↦ record loop { execution = f }
      | ok r ↦ dispatched loop f r p (with_approval d signature key_id valid_until)
    ]

    kept : (result : Result ExecutionResult) (f : Fabric) → (after result f).execution ≡ f
    kept (err e) f = refl
    kept (ok r) f = dispatched_fabric loop f r p (with_approval d signature key_id valid_until)

abbrev loop_of : Round → CgaLoop
loop_of (stop o l) = l
loop_of (again pr l) = l

-- A use of an approval that the fabric of the loop has on record.
abbrev pub IsSpent : String → String → CgaLoop → Type 0
IsSpent id s loop = has_been_used loop.execution.oob_ledger id s ≡ true

module _ (C : Crypto) (R : Runtime) (id s : String) where
  after_execution-IsSpent :
      (loop : CgaLoop) (pr : Progress) (p : StrategyProposal) (d : GovernanceDecision)
      (answer : Result ExecutionResult × Fabric)
      → has_been_used answer.1.oob_ledger id s ≡ true
      → IsSpent id s (loop_of (after_execution loop pr p d answer))
  unfolding after_execution
  after_execution-IsSpent loop pr p d (err e, f) h = h
  after_execution-IsSpent loop pr p d (ok r, f) h =
      subst (λ (g : Fabric). has_been_used g.oob_ledger id s ≡ true)
        (sym (dispatched_fabric loop f r p d)) h

  dispatch_approved-IsSpent :
      (loop : CgaLoop) (now : ℕ) (pr : Progress) (p : StrategyProposal) (d : GovernanceDecision)
      (held : Bool)
      → IsSpent id s loop
      → IsSpent id s (loop_of (dispatch_approved C R loop now pr p d held))
  unfolding dispatch_approved
  dispatch_approved-IsSpent loop now pr p d held h = ground (
    arith,
    after_execution-IsSpent loop pr p d (Fabric.execute C R loop.execution p d now)
        (execute-keeps C R loop.execution p d now id s h),
  )

  route_approved-IsSpent :
      (loop : CgaLoop) (now : ℕ) (pr : Progress) (p : StrategyProposal) (d : GovernanceDecision)
      → IsSpent id s loop
      → IsSpent id s (loop_of (route_approved C R loop now pr p d))
  unfolding route_approved
  route_approved-IsSpent loop now pr p d h = elim (Option-cases (held_by loop d p)) [
    | inl e ↦ rw (e, route_approved) h
    | inr (held, e) ↦ rw (e, route_approved) (dispatch_approved-IsSpent loop now pr p d held h)
  ]

  route-IsSpent :
      (loop : CgaLoop) (now : ℕ) (pr : Progress) (p : StrategyProposal) (d : GovernanceDecision)
      → IsSpent id s loop
      → IsSpent id s (loop_of (route C R loop now pr p d))
  unfolding route
  route-IsSpent loop now pr p d h = by_verdict d.verdict refl
    where
      by_verdict :
          (v : GovernanceVerdict)
          → d.verdict ≡ v
          → IsSpent id s (loop_of (route C R loop now pr p d))
      by_verdict approved e = rw (e, route) (route_approved-IsSpent loop now pr p d h)
      by_verdict rejected e = rw (e, route) h
      by_verdict escalate e = rw (e, route) h

  attempt_once-IsSpent :
      (i : RunInput) (loop : CgaLoop) (pr : Progress)
      → IsSpent id s loop
      → IsSpent id s (loop_of (attempt_once C R i loop pr))
  unfolding attempt_once
  attempt_once-IsSpent i loop pr h =
      elim (Option-cases (
        loop.strategy_gen i.intent i.world_state i.drift_event pr.accumulated pr.proposals
          (pr.attempt + 1))) [
            | inl e ↦ rw (e, attempt_once) h
            | inr (p, e) ↦
                elim (Option-cases (
                  evaluate_proposal C R loop.governance p (intents_of i) i.world_state i.now
                    (action_type_of loop i p) (i.decision_id (pr.attempt + 1)))) [
                      | inl f ↦ rw (e, f, attempt_once) h
                      | inr (d, f) ↦
                          rw (e, f, attempt_once)
                            (route-IsSpent (observed loop d (first_target p)) i.now _ p d h)
                    ]
          ]

  attempts-IsSpent :
      (i : RunInput) (left : ℕ) (loop : CgaLoop) (pr : Progress)
      → IsSpent id s loop
      → IsSpent id s (attempts C R i left loop pr).1
  unfolding attempts
  attempts-IsSpent i zero loop pr h = h
  attempts-IsSpent i (suc left) loop pr h =
      continue (attempts-IsSpent i left) (attempt_once C R i loop pr)
        (attempt_once-IsSpent i loop pr h)
    where
      after : Round → Outcome × CgaLoop
      after r = elim r [ stop o l ↦ (o, l) | again pr' l ↦ attempts C R i left l pr' ]

      continue :
          ((l : CgaLoop) (pr' : Progress)
            → IsSpent id s l
            → IsSpent id s (attempts C R i left l pr').1)
          → (r : Round) → IsSpent id s (loop_of r)
          → IsSpent id s (after r).1
      continue ih (stop o l) k = k
      continue ih (again pr' l) k = ih l pr' k

  run-IsSpent :
      (loop : CgaLoop) (i : RunInput) → IsSpent id s loop → IsSpent id s (run C R loop i).1
  unfolding run
  run-IsSpent loop i h = elim (Option-cases (gate loop i)) [
    | inl e ↦ rw (e, run) (attempts-IsSpent i loop.max_attempts loop fresh_progress h)
    | inr (o, e) ↦ rw (e, run) h
  ]

-- The calls of the loop, one after another.
pub data LoopCall : Type 0 where
  run_on : RunInput → LoopCall
  approve : StrategyProposal → GovernanceDecision → String → String → ℕ → ℕ → LoopCall

abbrev pub call : Crypto → Runtime → CgaLoop → LoopCall → CgaLoop
call C R loop (run_on i) = (run C R loop i).1
call C R loop (approve p d signature key_id valid_until now) =
    (approve_and_execute C R loop p d signature key_id valid_until now).1

abbrev pub call_all : Crypto → Runtime → CgaLoop → List LoopCall → CgaLoop
call_all C R loop [] = loop
call_all C R loop (c ∷ calls) = call_all C R (call C R loop c) calls

call-IsSpent :
    (C : Crypto) (R : Runtime) (loop : CgaLoop) (c : LoopCall) (id s : String)
    → IsSpent id s loop
    → IsSpent id s (call C R loop c)
call-IsSpent C R loop (run_on i) id s h = run-IsSpent C R id s loop i h
call-IsSpent C R loop (approve p d signature key_id valid_until now) id s h =
    subst (λ (f : Fabric). has_been_used f.oob_ledger id s ≡ true)
      (sym (execution-approve_and_execute C R loop p d signature key_id valid_until now))
      (execute-keeps C R loop.execution p (with_approval d signature key_id valid_until) now id s h)

-- A spent approval stays spent, whatever the loop is called for.
pub call_all-IsSpent :
    (C : Crypto) (R : Runtime) (loop : CgaLoop) (calls : List LoopCall) (id s : String)
    → IsSpent id s loop
    → IsSpent id s (call_all C R loop calls)
call_all-IsSpent C R loop [] id s h = h
call_all-IsSpent C R loop (c ∷ calls) id s h =
    call_all-IsSpent C R (call C R loop c) calls id s (call-IsSpent C R loop c id s h)

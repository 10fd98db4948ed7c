-- ===== src/Fabric/Effects.antt =====
-- What an execution leaves behind (execution/fabric.py, `execute`).
use mathlib.Core.Path.{subst}
use general_autonomy_protoco.Prelude.{
  Bool-cases, Option-cases, is_some, length, is_empty, length-append, ℕ, ◌+◌, ◌≡◌, refl, sym, ◌↔◌,
  inl, inr, true, none, List, [], ◌∷◌, arith,
}
use general_autonomy_protoco.Prelude.Dict.{Dict}
use general_autonomy_protoco.Models.{
  Runtime, needs_oob, needs_oob-rank, PlannedAction, StrategyProposal, GovernanceDecision, Crypto,
}
use general_autonomy_protoco.Ledger.{record_use}
use general_autonomy_protoco.Fabric.{
  Executor, Fabric, ExecutionError, ActionResult, ExecutionResult, ok, err, guards, dispatch_action,
  Dispatched, dispatch_one, dispatch_all, consume_oob_authority, started, result_of, conclude,
  execute,
}
use general_autonomy_protoco.Fabric.Guards.{
  IsAuthorized-IsApproved, IsAuthorized, guards-IsAuthorized,
}

module _ (R : Runtime) (executors : Dict Executor) (now : ℕ) where
  dispatch_one-count :
      (a : PlannedAction) (s : Dispatched)
      → length (dispatch_one R executors now a s).completed
          + length (dispatch_one R executors now a s).failed
        ≡ length s.completed + length s.failed + 1
  unfolding dispatch_one
  dispatch_one-count a s =
      let (result, w) = dispatch_action executors a s.world in
      elim (Bool-cases result.success) [
        | inl e ↦ rw (e, dispatch_one) (omega (arith, length-append s.completed (result ∷ [])))
        | inr e ↦ rw (e, dispatch_one) (omega (arith, length-append s.failed (result ∷ [])))
      ]

  -- Every action of the proposal is dispatched, once: each ends among the completed or the failed.
  dispatch_all-count :
      (actions : List PlannedAction) (s : Dispatched)
      → length (dispatch_all R executors now actions s).completed
          + length (dispatch_all R executors now actions s).failed
        ≡ length s.completed + length s.failed + length actions
  unfolding dispatch_all
  dispatch_all-count [] s = omega arith
  dispatch_all-count (a ∷ actions) s =
      omega (
        arith,
        dispatch_all-count actions (dispatch_one R executors now a s),
        dispatch_one-count a s,
      )

module _ (C : Crypto) (R : Runtime) (f : Fabric) (p : StrategyProposal) (d : GovernanceDecision)
    (now : ℕ) where
  -- An approval that the guards let through is not spent, so its consumption cannot fail.
  pub consume_ok :
      IsAuthorized C f p d now → is_some (consume_oob_authority f.oob_ledger d now) ≡ true
  unfolding consume_oob_authority record_use
  consume_ok auth = elim (Option-cases d.authorization_level) [
    | inl e ↦ ground arith
    | inr (level, e) ↦ elim (Bool-cases (needs_oob level)) [
      | inr low ↦ ground arith
      | inl high ↦
          let human =
            IsAuthorized-IsApproved C f p d now auth level e ((needs_oob-rank level).0 high) in
          ground (arith, human.has_signature, human.unused)
    ]
  ]

  -- An execution that raises leaves the fabric as it was, with its world and its spent approvals.
  pub execute_error_unchanged :
      (e : ExecutionError) → (execute C R f p d now).0 ≡ err e → (execute C R f p d now).1 ≡ f
  unfolding execute conclude
  execute_error_unchanged e h = elim (Option-cases (guards C f p d now)) [
    | inr (x, refused) ↦ rw (refused, execute) refl
    | inl clear ↦ absurd (no_error clear)
  ]
    where
      no_error : guards C f p d now ≡ none → ⊥
      no_error clear = ground (arith, consume_ok (guards-IsAuthorized C f p d now clear))

  -- A result accounts for every action of the proposal once, as completed or as failed; it is a
  -- success exactly when none failed; and it carries the proposal id of the decision.
  pub execute-accounts :
      (r : ExecutionResult)
      → (execute C R f p d now).0 ≡ ok r
      → (length r.actions_completed + length r.actions_failed ≡ length p.actions)
        × ((r.success ≡ true) ↔ (length r.actions_failed ≡ 0))
        × (r.proposal_id ≡ d.proposal_id)
  unfolding execute conclude
  execute-accounts r h = elim (Option-cases (guards C f p d now)) [
    | inr (x, refused) ↦ ground arith
    | inl clear ↦
        let s = dispatch_all R f.executors now p.actions (started f) in
        let counted = dispatch_all-count R f.executors now p.actions (started f) in
        let r_is : r ≡ result_of p now s =
          ground (arith, consume_ok (guards-IsAuthorized C f p d now clear)) in
        subst
          (λ (r : ExecutionResult).
            (length r.actions_completed + length r.actions_failed ≡ length p.actions)
            × ((r.success ≡ true) ↔ (length r.actions_failed ≡ 0))
            × (r.proposal_id ≡ d.proposal_id))
          (sym r_is)
          (
            omega (arith, counted),
            (empty_iff s.failed),
            (guards-IsAuthorized C f p d now clear).bound,
          )
  ]
    where
      empty_iff : (l : List ActionResult) → (is_empty l ≡ true) ↔ (length l ≡ 0)
      empty_iff l = ground arith

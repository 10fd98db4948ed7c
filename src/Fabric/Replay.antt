-- ===== src/Fabric/Replay.antt =====
-- Human approvals over several executions (execution/fabric.py and verification/oob_ledger.py).
use mathlib.Core.Path.{subst}
use general_autonomy_protoco.Fabric.Effects.{execute_error_unchanged}
use general_autonomy_protoco.Prelude.{
  Bool-cases, Option-cases, get_or, is_empty, ℕ, ◌≤◌, String, ◌≡◌, refl, sym, ◌∙◌, ◌≢◌, ◌⊎◌, inl,
  inr, true, false, none, some, List, [], ◌∷◌, arith, ◌==◌, eq_refl,
}
use general_autonomy_protoco.Models.{
  Runtime, AuthorizationLevel, rank, needs_oob, needs_oob-rank, StrategyProposal,
  GovernanceDecision, Crypto,
}
use general_autonomy_protoco.Ledger.{OobLedger, has_been_used, record_use}
use general_autonomy_protoco.Fabric.{
  Fabric, ExecutionResult, Result, ok, err, guards, Dispatched, dispatch_all, consume_oob_authority,
  started, conclude, execute,
}
use general_autonomy_protoco.Ledger.{has_been_used-record_use}
use general_autonomy_protoco.Fabric.Guards.{IsAuthorized-IsApproved, execute-IsAuthorized}

module _ (C : Crypto) (R : Runtime) (f : Fabric) (p : StrategyProposal) (d : GovernanceDecision)
    (now : ℕ) where
  -- The ledger after an execution: that of the fabric, but for a use that is recorded.
  abbrev pub after : Fabric
  after = (execute C R f p d now).1

  spent :
      (l : AuthorizationLevel) (s : String) (ledger : OobLedger)
      → d.authorization_level ≡ some l
      → needs_oob l ≡ true
      → d.human_approval_signature ≡ some s
      → (s == "") ≡ false
      → consume_oob_authority f.oob_ledger d now ≡ some ledger
      → has_been_used ledger d.id s ≡ true
  unfolding consume_oob_authority
  spent l s ledger el need es named e =
      let recorded : record_use f.oob_ledger d.id s (get_or d.human_approver_public_key_id "") now
          ≡ some ledger =
        ground arith in
      (has_been_used-record_use f.oob_ledger d.id s (get_or d.human_approver_public_key_id "") now
          recorded).1
        d.id s
      ∙ ground (arith, eq_refl d.id, eq_refl s)

  -- After a success the ledger is what the consumption left, and after anything else as it was.
  abbrev LedgerAfter : ExecutionResult → Fabric → Type 0
  LedgerAfter r f' =
      ((r.success ≡ true) × (consume_oob_authority f.oob_ledger d now ≡ some f'.oob_ledger))
      ⊎ ((r.success ≡ false) × (f'.oob_ledger ≡ f.oob_ledger))

  conclude-LedgerAfter :
      (s : Dispatched) (r : ExecutionResult)
      → (conclude f p d now s).0 ≡ ok r
      → LedgerAfter r (conclude f p d now s).1
  unfolding conclude
  conclude-LedgerAfter s r h = elim (Bool-cases (is_empty s.failed)) [
    | inr some_failed ↦ rw (some_failed, conclude) (inr (ground arith))
    | inl none_failed ↦ elim (Option-cases (consume_oob_authority f.oob_ledger d now)) [
      | inl e ↦ ground arith
      | inr (l, e) ↦ rw (none_failed, e, conclude) (inl (ground arith))
    ]
  ]

  execute-clear :
      guards C f p d now ≡ none
      → execute C R f p d now
        ≡ conclude f p d now (dispatch_all R f.executors now p.actions (started f))
  unfolding execute
  execute-clear clear = rw (clear, execute) refl

  ledger_after : (r : ExecutionResult) → (execute C R f p d now).0 ≡ ok r → LedgerAfter r after
  unfolding execute
  ledger_after r h = elim (Option-cases (guards C f p d now)) [
    | inr (x, refused) ↦ ground arith
    | inl clear ↦
        subst (λ (x : Result ExecutionResult × Fabric). x.0 ≡ ok r → LedgerAfter r x.1)
          (sym (execute-clear clear))
          (conclude-LedgerAfter (dispatch_all R f.executors now p.actions (started f)) r) h
  ]

  consume-keeps :
      (id s : String) (ledger : OobLedger)
      → has_been_used f.oob_ledger id s ≡ true
      → consume_oob_authority f.oob_ledger d now ≡ some ledger
      → has_been_used ledger id s ≡ true
  unfolding consume_oob_authority
  consume-keeps id s ledger used e =
      let key = get_or d.human_approver_public_key_id "" in
      let sig = get_or d.human_approval_signature "" in
      elim (Option-cases (record_use f.oob_ledger d.id sig key now)) [
        | inl refused ↦ ground arith
        | inr (l, recorded) ↦
            let kept = (has_been_used-record_use f.oob_ledger d.id sig key now recorded).1 id s in
            ground (arith, kept)
      ]

  -- A spent approval stays spent, whatever is executed.
  pub execute-keeps :
      (id s : String)
      → has_been_used f.oob_ledger id s ≡ true
      → has_been_used after.oob_ledger id s ≡ true
  execute-keeps id s used = by_result (execute C R f p d now).0 refl
    where
      by_result :
          (x : Result ExecutionResult)
          → (execute C R f p d now).0 ≡ x
          → has_been_used after.oob_ledger id s ≡ true
      by_result (err e) h =
          subst (λ (g : Fabric). has_been_used g.oob_ledger id s ≡ true)
            (sym (execute_error_unchanged C R f p d now e h)) used
      by_result (ok r) h = elim (ledger_after r h) [
        | inl (success, consumed) ↦ consume-keeps id s after.oob_ledger used consumed
        | inr (failure, same) ↦ rw same used
      ]

  -- A spent approval releases nothing at L2 and above.
  pub execute-spent :
      (l : AuthorizationLevel) (s : String) (r : ExecutionResult)
      → d.authorization_level ≡ some l
      → 2 ≤ rank l
      → d.human_approval_signature ≡ some s
      → has_been_used f.oob_ledger d.id s ≡ true
      → (execute C R f p d now).0 ≢ ok r
  execute-spent l s r el high es used done =
      let human =
        IsAuthorized-IsApproved C f p d now (execute-IsAuthorized C R f p d now r done) l el high in
      let same : human.signature ≡ s = ground (arith, human.has_signature) in
      ground (arith, subst (λ t. has_been_used f.oob_ledger d.id t ≡ false) same human.unused)

  -- A success at L2 and above spends its approval.
  pub success-spends :
      (l : AuthorizationLevel) (r : ExecutionResult)
      → d.authorization_level ≡ some l
      → 2 ≤ rank l
      → (execute C R f p d now).0 ≡ ok r
      → r.success ≡ true
      → (s : String) × (d.human_approval_signature ≡ some s)
        × (has_been_used after.oob_ledger d.id s ≡ true)
  success-spends l r el high done success = elim (ledger_after r done) [
    | inr (failure, same) ↦ ground arith
    | inl (succeeded, consumed) ↦
        let human =
          IsAuthorized-IsApproved C f p d now (execute-IsAuthorized C R f p d now r done) l el
            high in
        (
          human.signature,
          human.has_signature,
          spent l human.signature after.oob_ledger el ((needs_oob-rank l).1 high)
              human.has_signature human.nonempty consumed,
        )
  ]

-- Executions one after another, on one fabric.
abbrev pub execute_all :
    Crypto → Runtime → Fabric → List (StrategyProposal × GovernanceDecision × ℕ) → Fabric
execute_all C R f [] = f
execute_all C R f ((p, d, now) ∷ calls) = execute_all C R (execute C R f p d now).1 calls

execute_all-keeps :
    (C : Crypto) (R : Runtime) (f : Fabric)
    (calls : List (StrategyProposal × GovernanceDecision × ℕ)) (id s : String)
    → has_been_used f.oob_ledger id s ≡ true
    → has_been_used (execute_all C R f calls).oob_ledger id s ≡ true
execute_all-keeps C R f [] id s h = h
execute_all-keeps C R f ((p, d, now) ∷ calls) id s h =
    execute_all-keeps C R (execute C R f p d now).1 calls id s (execute-keeps C R f p d now id s h)

-- Once an execution at L2 or above has succeeded, and whatever is executed in between, no execution
-- at L2 or above of a decision with the same id and the same approval signature returns a result.
pub execute-no_replay :
    (C : Crypto) (R : Runtime) (f : Fabric) (p p' : StrategyProposal) (d d' : GovernanceDecision)
    (now now' : ℕ) (l l' : AuthorizationLevel) (r r' : ExecutionResult)
    (calls : List (StrategyProposal × GovernanceDecision × ℕ))
    → d.authorization_level ≡ some l
    → 2 ≤ rank l
    → (execute C R f p d now).0 ≡ ok r
    → r.success ≡ true
    → d'.id ≡ d.id
    → d'.human_approval_signature ≡ d.human_approval_signature
    → d'.authorization_level ≡ some l'
    → 2 ≤ rank l'
    → (execute C R (execute_all C R (execute C R f p d now).1 calls) p' d' now').0 ≢ ok r'
execute-no_replay C R f p p' d d' now now' l l' r r' calls el high done success id sig el' high' =
    let (s, has, used) = success-spends C R f p d now l r el high done success in
    let f' = execute_all C R (execute C R f p d now).1 calls in
    let still = execute_all-keeps C R (execute C R f p d now).1 calls d.id s used in
    execute-spent C R f' p' d' now' l' s r' el' high' (sig ∙ has)
      (subst (λ i. has_been_used f'.oob_ledger i s ≡ true) (sym id) still)

-- ===== src/CgaLoop/Approval.antt =====
-- A human's approval of what the loop surfaced (strategy/cga_loop.py).
use general_autonomy_protoco.Prelude.{
  ℕ, ◌≤◌, String, ◌≡◌, refl, sym, ◌≢◌, true, false, Option, some, List, arith, ◌==◌,
}
use general_autonomy_protoco.Prelude.Dict.{lookup}
use general_autonomy_protoco.Models.{
  Runtime, approved, AuthorizationLevel, rank, IntentVector, StrategyProposal, WorldModel,
  GovernanceDecision, Crypto, canonical_decision_payload, IsKeyPair,
}
use mathlib.Core.Path.{subst}
use general_autonomy_protoco.Kernel.{evaluate_proposal}
use general_autonomy_protoco.Fabric
use general_autonomy_protoco.Fabric.{Fabric, ExecutionError, ExecutionResult, Result, ok, err}
use general_autonomy_protoco.CgaLoop.{CgaLoop}
use mathlib.Core.Path.{subst}
use general_autonomy_protoco.CgaLoop.{with_approval, approve_and_execute}
use general_autonomy_protoco.Ledger.{has_been_used}
use general_autonomy_protoco.Fabric.{oob_message, is_halted}
use general_autonomy_protoco.Fabric.Guards.{
  IsAuthorized, execute-IsAuthorized, IsAuthorized-IsApproved,
}
use general_autonomy_protoco.Fabric.Release.{IsSignedOff, signed_off-execute}
use general_autonomy_protoco.Fabric.Replay.{success-spends, execute-spent}
use general_autonomy_protoco.CgaLoop.Spent.{
  LoopCall, call_all, call_all-IsSpent, execution-approve_and_execute,
}

module _ (C : Crypto) (R : Runtime) (loop : CgaLoop) (p : StrategyProposal) (d : GovernanceDecision)
    (signature key_id : String) (valid_until now : ℕ) where
  abbrev pub human_approved : GovernanceDecision
  human_approved = with_approval d signature key_id valid_until

  answer :
      (r : ExecutionResult)
      → (approve_and_execute C R loop p d signature key_id valid_until now).0 ≡ ok r
      → (Fabric.execute C R loop.execution p human_approved now).0 ≡ ok r
  unfolding approve_and_execute
  answer r e = e

  -- What `approve_and_execute` dispatches at L2 or above was approved in time, by the registered
  -- key that is named, with a signature of this decision that verifies and was not used before, and
  -- it passed every other guard of the fabric.
  pub approve_and_execute-IsApproved :
      (level : AuthorizationLevel) (r : ExecutionResult)
      → d.authorization_level ≡ some level
      → 2 ≤ rank level
      → (approve_and_execute C R loop p d signature key_id valid_until now).0 ≡ ok r
      → IsAuthorized C loop.execution p human_approved now
        × (now ≤ valid_until)
        × (has_been_used loop.execution.oob_ledger d.id signature ≡ false)
        × ((key : String) × (lookup key_id loop.execution.public_key_registry ≡ some key)
            × (C.verify key (C.dump_oob (oob_message human_approved)) signature ≡ true))
  approve_and_execute-IsApproved level r e high done =
      let auth = execute-IsAuthorized C R loop.execution p human_approved now r (answer r done) in
      let human = IsAuthorized-IsApproved C loop.execution p human_approved now auth level e high in
      let same_key : human.key_id ≡ key_id = ground (arith, human.has_key_id) in
      let same_signature : human.signature ≡ signature = ground (arith, human.has_signature) in
      (
        auth,
        ground (arith, human.has_expiry, human.fresh),
        subst (λ (s : String). has_been_used loop.execution.oob_ledger d.id s ≡ false)
            same_signature human.unused,
        (
          human.key,
          subst (λ (k : String). lookup k loop.execution.public_key_registry ≡ some human.key)
              same_key human.registered,
          subst
              (λ (s : String).
                C.verify human.key (C.dump_oob (oob_message human_approved)) s ≡ true)
              same_signature human.verified,
        ),
      )

-- A human's signature, off the channel, of the message of a decision.
abbrev pub approval_of : Crypto → String → GovernanceDecision → String → ℕ → String
approval_of C private d key_id valid_until =
    C.sign private (C.dump_oob (oob_message (with_approval d "" key_id valid_until)))

-- What the loop's kernel approved, at any level, `approve_and_execute` executes once a human has
-- signed it off: by a registered key of a pair, within the key's ceiling, in time, for the first
-- time, with a signature of the decision's message; with the kernel's public key in the fabric and
-- its pair, with signatures that are not empty, and where no kill-switch halts it.
pub approve_and_execute-returns :
    (C : Crypto) (R : Runtime) (loop : CgaLoop) (p : StrategyProposal) (d : GovernanceDecision)
    (intents : List IntentVector) (w : WorldModel) (decided now : ℕ) (t : Option String)
    (id : String) (l : AuthorizationLevel) (private key key_id : String) (valid_until : ℕ)
    → IsKeyPair C loop.governance.signing_key_hex loop.governance.public_key_hex
    → (C.sign loop.governance.signing_key_hex (canonical_decision_payload C d) == "") ≡ false
    → loop.execution.kernel_public_key_hex ≡ some loop.governance.public_key_hex
    → evaluate_proposal C R loop.governance p intents w decided t id ≡ some d
    → d.verdict ≡ approved
    → d.authorization_level ≡ some l
    → is_halted loop.execution.kill_switch p.actions ≡ false
    → IsKeyPair C private key
    → IsSignedOff C loop.execution p
        (with_approval d (approval_of C private d key_id valid_until) key_id valid_until)
        now
        l
        (approval_of C private d key_id valid_until)
        key_id
        key
        valid_until
    → (r : ExecutionResult) × ((approve_and_execute C R loop p d
          (approval_of C private d key_id valid_until)
          key_id
          valid_until
          now).0
        ≡ ok r)
unfolding approve_and_execute
approve_and_execute-returns C R loop p d intents w decided now t id l private key key_id valid_until
      keys named known e v el halt human off =
    let message = C.dump_oob (oob_message (with_approval d "" key_id valid_until)) in
    signed_off-execute C R loop.governance loop.execution p intents w decided now t id d
      (with_approval d (C.sign private message) key_id valid_until) l (C.sign private message)
      key_id key valid_until keys named known e v el halt refl refl refl refl refl off
      (human.signed message)

-- An approval is spent: once `approve_and_execute` has succeeded at L2 or above, and whatever runs
-- and approvals the loop goes through in between, it returns no result at L2 or above for a
-- decision with the same id and the same signature.
pub approve_and_execute-once :
    (C : Crypto) (R : Runtime) (loop : CgaLoop) (p p' : StrategyProposal)
    (d d' : GovernanceDecision) (signature key_id key_id' : String)
    (valid_until valid_until' now now' : ℕ) (l l' : AuthorizationLevel) (r r' : ExecutionResult)
    (calls : List LoopCall)
    → d.authorization_level ≡ some l
    → 2 ≤ rank l
    → (approve_and_execute C R loop p d signature key_id valid_until now).0 ≡ ok r
    → r.success ≡ true
    → d'.id ≡ d.id
    → d'.authorization_level ≡ some l'
    → 2 ≤ rank l'
    → (approve_and_execute C R
        (call_all C R (approve_and_execute C R loop p d signature key_id valid_until now).1 calls)
        p'
        d'
        signature
        key_id'
        valid_until'
        now').0
      ≢ ok r'
unfolding approve_and_execute
approve_and_execute-once C R loop p p' d d' signature key_id key_id' valid_until valid_until' now
      now' l l' r r' calls el high done success same el' high' =
    let d1 = with_approval d signature key_id valid_until in
    let after = (approve_and_execute C R loop p d signature key_id valid_until now).1 in
    let later = call_all C R after calls in
    let (s, has, used) = success-spends C R loop.execution p d1 now l r el high done success in
    let same_signature : s ≡ signature = ground (arith, has) in
    let ledger = (Fabric.execute C R loop.execution p d1 now).1.oob_ledger in
    let mine : has_been_used ledger d.id signature ≡ true =
      subst (λ (t : String). has_been_used ledger d.id t ≡ true) same_signature used in
    let once : has_been_used ledger d'.id signature ≡ true =
      subst (λ (i : String). has_been_used ledger i signature ≡ true) (sym same) mine in
    let used' : has_been_used after.execution.oob_ledger d'.id signature ≡ true =
      subst (λ (f : Fabric). has_been_used f.oob_ledger d'.id signature ≡ true)
        (sym (execution-approve_and_execute C R loop p d signature key_id valid_until now)) once in
    execute-spent C R later.execution p' (with_approval d' signature key_id' valid_until') now' l'
      signature r' el' high' refl (call_all-IsSpent C R after calls d'.id signature used')

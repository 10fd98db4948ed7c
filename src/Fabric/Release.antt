-- ===== src/Fabric/Release.antt =====
-- The way of a decision from the kernel to the fabric (governance/kernel.py and
-- execution/fabric.py).
use mathlib.Core.Path.{subst}
use general_autonomy_protoco.Prelude.{
  ℕ, ◌≤◌, ◌<◌, String, ◌≡◌, ◌∙◌, inl, inr, sym, true, false, Option, none, some, List, arith, ◌==◌,
  eq_iff, eq_refl,
}
use general_autonomy_protoco.Models.{
  Runtime, approved, AuthorizationLevel, rank, needs_oob, needs_oob-rank, IntentVector,
  StrategyProposal, WorldModel, GovernanceDecision, Ruling, Crypto, compute_proposal_digest,
  canonical_decision_payload, IsKeyPair,
}
use general_autonomy_protoco.Policy.{GovernanceKernel}
use general_autonomy_protoco.Fabric.{
  Fabric, ExecutionResult, ok, is_halted, check_halt, check_binding, verify_with,
  verify_decision_signature, verify_oob_authority, check_verdict, guards, dispatch_all, started,
  result_of, conclude, execute, check_approval, oob_message, check_present, check_expiry, check_key,
  check_unused, check_ceiling,
}
use general_autonomy_protoco.Kernel.{evaluate_proposal}
use general_autonomy_protoco.Kernel.Outcome.{evaluate_proposal-signed}
use general_autonomy_protoco.Kernel.Binding.{evaluate_proposal-bound}
use general_autonomy_protoco.Prelude.Dict.{lookup}
use general_autonomy_protoco.Ledger.{has_been_used}
use general_autonomy_protoco.Fabric.Guards.{guards-IsAuthorized, IsWithin}
use general_autonomy_protoco.Fabric.Effects.{consume_ok}

module _ (C : Crypto) (f : Fabric) (p : StrategyProposal) (d : GovernanceDecision) (now : ℕ) where
  -- The guards in terms of what they test, for a decision that needs no human.
  guards-clear :
      (key s : String) (l : AuthorizationLevel)
      → is_halted f.kill_switch p.actions ≡ false
      → d.proposal_id ≡ p.id
      → d.proposal_digest ≡ some (compute_proposal_digest C p)
      → f.kernel_public_key_hex ≡ some key
      → d.decision_signature ≡ some s
      → (s == "") ≡ false
      → C.verify key (canonical_decision_payload C d) s ≡ true
      → d.verdict ≡ approved
      → d.authorization_level ≡ some l
      → rank l < 2
      → guards C f p d now ≡ none
  unfolding guards check_halt check_binding verify_decision_signature verify_with check_verdict
      verify_oob_authority
  guards-clear key s l halt id digest has sig named verified v el low =
      let low_level : needs_oob l ≡ false = ground (arith, needs_oob-rank l) in
      ground (arith, eq_iff p.id d.proposal_id, eq_refl (compute_proposal_digest C p))

  -- Past the guards an execution returns a result.
  execute-returns :
      (R : Runtime)
      → guards C f p d now ≡ none
      → (r : ExecutionResult) × ((execute C R f p d now).0 ≡ ok r)
  unfolding execute conclude
  execute-returns R clear =
      let s = dispatch_all R f.executors now p.actions (started f) in
      (
        result_of p now s,
        ground (arith, consume_ok C R f p d now (guards-IsAuthorized C f p d now clear)),
      )

  -- A human's approval that the checks let pass, for a registered key.
  pub record IsSignedOff (level : AuthorizationLevel) (signature key_id key : String)
      (valid_until : ℕ) : Type 0 where
    pub named : (signature == "") ≡ false
    pub named_key : (key_id == "") ≡ false
    pub has_key : (key == "") ≡ false
    pub in_time : now ≤ valid_until
    pub registered : lookup key_id f.public_key_registry ≡ some key
    pub within : IsWithin C f p d now key_id level
    pub unused : has_been_used f.oob_ledger d.id signature ≡ false

  check_approval-clear :
      (level : AuthorizationLevel) (signature key_id key : String) (valid_until : ℕ)
      → IsSignedOff level signature key_id key valid_until
      → d.human_approval_signature ≡ some signature
      → d.human_approver_public_key_id ≡ some key_id
      → d.human_approval_valid_until ≡ some valid_until
      → C.verify key (C.dump_oob (oob_message d)) signature ≡ true
      → check_approval C f d level now ≡ none
  unfolding check_approval check_present check_expiry check_key check_unused check_ceiling
  check_approval-clear level signature key_id key valid_until h e1 e2 e3 verified = elim h.within [
    | inl free ↦ ground (arith, h.named, h.named_key, h.has_key, h.in_time, h.registered, h.unused)
    | inr (levels, m, e, found, low) ↦
        ground (arith, h.named, h.named_key, h.has_key, h.in_time, h.registered, h.unused)
  ]

  guards-clear_human :
      (key s : String) (l : AuthorizationLevel)
      → is_halted f.kill_switch p.actions ≡ false
      → d.proposal_id ≡ p.id
      → d.proposal_digest ≡ some (compute_proposal_digest C p)
      → f.kernel_public_key_hex ≡ some key
      → d.decision_signature ≡ some s
      → (s == "") ≡ false
      → C.verify key (canonical_decision_payload C d) s ≡ true
      → d.verdict ≡ approved
      → d.authorization_level ≡ some l
      → check_approval C f d l now ≡ none
      → guards C f p d now ≡ none
  unfolding guards check_halt check_binding verify_decision_signature verify_with check_verdict
      verify_oob_authority
  guards-clear_human key s l halt id digest has sig named verified v el human =
      ground (arith, eq_iff p.id d.proposal_id, eq_refl (compute_proposal_digest C p))

-- What the kernel approves below L2 the fabric executes, with the kernel's public key and its pair,
-- with a signature that is not empty, and where no kill-switch halts it: the execution returns a
-- result.
pub approved-execute :
    (C : Crypto) (R : Runtime) (k : GovernanceKernel) (f : Fabric) (p : StrategyProposal)
    (intents : List IntentVector) (w : WorldModel) (now later : ℕ) (t : Option String) (id : String)
    (d : GovernanceDecision) (l : AuthorizationLevel)
    → IsKeyPair C k.signing_key_hex k.public_key_hex
    → (C.sign k.signing_key_hex (canonical_decision_payload C d) == "") ≡ false
    → f.kernel_public_key_hex ≡ some k.public_key_hex
    → evaluate_proposal C R k p intents w now t id ≡ some d
    → d.verdict ≡ approved
    → d.authorization_level ≡ some l
    → rank l < 2
    → is_halted f.kill_switch p.actions ≡ false
    → (r : ExecutionResult) × ((execute C R f p d later).0 ≡ ok r)
approved-execute C R k f p intents w now later t id d l keys named key e v el low halt =
    let (s, has, by_key, verified, digest) =
      evaluate_proposal-signed C R k p intents w now t id d keys e in
    let (bound, same, more) = evaluate_proposal-bound C R k p intents w now t id d e in
    execute-returns C f p d later R (
      guards-clear C f p d later k.public_key_hex s l halt bound digest key has
        (subst (λ m. (m == "") ≡ false) (sym by_key) named) verified v el low)

-- What the kernel approves at any level the fabric executes once a human has signed it off: with the
-- kernel's public key and its pair, with signatures that are not empty, and where no kill-switch
-- halts it.
pub signed_off-execute :
    (C : Crypto) (R : Runtime) (k : GovernanceKernel) (f : Fabric) (p : StrategyProposal)
    (intents : List IntentVector) (w : WorldModel) (now later : ℕ) (t : Option String) (id : String)
    (d d' : GovernanceDecision) (l : AuthorizationLevel) (signature key_id key : String)
    (valid_until : ℕ)
    → IsKeyPair C k.signing_key_hex k.public_key_hex
    → (C.sign k.signing_key_hex (canonical_decision_payload C d) == "") ≡ false
    → f.kernel_public_key_hex ≡ some k.public_key_hex
    → evaluate_proposal C R k p intents w now t id ≡ some d
    → d.verdict ≡ approved
    → d.authorization_level ≡ some l
    → is_halted f.kill_switch p.actions ≡ false
    → d'.ruling ≡ d.ruling
    → d'.decision_signature ≡ d.decision_signature
    → d'.human_approval_signature ≡ some signature
    → d'.human_approver_public_key_id ≡ some key_id
    → d'.human_approval_valid_until ≡ some valid_until
    → IsSignedOff C f p d' later l signature key_id key valid_until
    → C.verify key (C.dump_oob (oob_message d')) signature ≡ true
    → (r : ExecutionResult) × ((execute C R f p d' later).0 ≡ ok r)
unfolding canonical_decision_payload
signed_off-execute C R k f p intents w now later t id d d' l signature key_id key valid_until keys
      named known e v el halt same_ruling same_signature e1 e2 e3 off verified_off =
    let (s, has, by_key, verified, digest) =
      evaluate_proposal-signed C R k p intents w now t id d keys e in
    let (bound, same, more) = evaluate_proposal-bound C R k p intents w now t id d e in
    let on_ruling = λ (g : Ruling → Type 0) (h : g d.ruling). subst g (sym same_ruling) h in
    execute-returns C f p d' later R (
      guards-clear_human C f p d' later k.public_key_hex s l halt
        (on_ruling (λ r. r.proposal_id ≡ p.id) bound)
        (on_ruling (λ r. r.proposal_digest ≡ some (compute_proposal_digest C p)) digest) known
        (same_signature ∙ has) (subst (λ m. (m == "") ≡ false) (sym by_key) named)
        (on_ruling (λ r. C.verify k.public_key_hex (C.dump_ruling r) s ≡ true) verified)
        (on_ruling (λ r. r.verdict ≡ approved) v)
        (on_ruling (λ r. r.authorization_level ≡ some l) el)
        (check_approval-clear C f p d' later l signature key_id key valid_until off e1 e2 e3
          verified_off))

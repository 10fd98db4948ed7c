-- ===== src/Fabric/Guards.antt =====
-- What the guards of an execution ask for (execution/fabric.py).
use mathlib.Core.Path.{subst, subst₂}
use general_autonomy_protoco.Prelude.{
  if◌then◌else◌, Bool-cases, Option-cases, get_or, ℕ, ◌≤◌, ◌<◌, String, ◌≡◌, refl, ◌≢◌, ◌⊎◌, inl,
  inr, Bool, true, false, Option, none, some, arith, ◌==◌, eq_iff,
}
use general_autonomy_protoco.Prelude.Dict.{Dict, lookup}
use general_autonomy_protoco.Models.{
  is_given, Runtime, approved, AuthorizationLevel, rank, needs_oob, needs_oob-rank,
  StrategyProposal, GovernanceDecision, Crypto, compute_proposal_digest, canonical_decision_payload,
  IsKeyPair,
}
use general_autonomy_protoco.Ledger.{has_been_used}
use general_autonomy_protoco.Fabric.{
  Fabric, kill_switch_engaged, approver_unregistered, ExecutionResult, ok, Guard, ◌then_check◌,
  is_halted, check_halt, check_binding, verify_with, verify_decision_signature, oob_message,
  check_ceiling, check_approval, verify_oob_authority, check_verdict, check_present, check_expiry,
  check_unused, check_key, guards, execute,
}

pub then_check-none : (g h : Guard) → (g then_check h) ≡ none → (g ≡ none) × (h ≡ none)
then_check-none none h e = (refl, e)
then_check-none (some x) h e = ground arith

-- A decision without a level ranks with L0, as the fabric treats it.
abbrev pub level_rank : Option AuthorizationLevel → ℕ
level_rank none = 0
level_rank (some level) = rank level

module _ (C : Crypto) (f : Fabric) (p : StrategyProposal) (d : GovernanceDecision) (now : ℕ) where
  -- No ceilings are configured, or the key has one and the level is not above it.
  abbrev pub IsWithin : String → AuthorizationLevel → Type 0
  IsWithin key_id level =
      (f.approver_max_levels ≡ none)
      ⊎ ((levels : Dict AuthorizationLevel) × (m : AuthorizationLevel) × (f.approver_max_levels
            ≡ some levels)
          × (lookup key_id levels ≡ some m)
          × (rank level ≤ rank m))

  -- A human has approved the decision at the level: by a registered key, for a time that has not
  -- passed, within the key's ceiling, with a signature of this decision that was not used before.
  pub record IsApproved (level : AuthorizationLevel) : Type 0 where
    pub signature : String
    pub key_id : String
    pub key : String
    pub valid_until : ℕ
    pub nonempty : (signature == "") ≡ false
    pub has_signature : d.human_approval_signature ≡ some signature
    pub has_key_id : d.human_approver_public_key_id ≡ some key_id
    pub has_expiry : d.human_approval_valid_until ≡ some valid_until
    pub fresh : now ≤ valid_until
    pub registered : lookup key_id f.public_key_registry ≡ some key
    pub within : IsWithin key_id level
    pub verified : C.verify key (C.dump_oob (oob_message d)) signature ≡ true
    pub unused : has_been_used f.oob_ledger d.id signature ≡ false

  given :
      (o : Option String)
      → is_given o ≡ true
      → (s : String) × (o ≡ some s) × (get_or o "" ≡ s) × ((s == "") ≡ false)
  given none h = ground arith
  given (some s) h = (s, refl, refl, ground arith)

  ceiling_kept :
      (key_id : String) (level : AuthorizationLevel)
      → check_ceiling f.approver_max_levels key_id level ≡ none
      → IsWithin key_id level
  unfolding check_ceiling
  ceiling_kept key_id level h = elim (Option-cases f.approver_max_levels) [
    | inl open_to_all ↦ inl open_to_all
    | inr (levels, e) ↦ elim (Option-cases (lookup key_id levels)) [
      | inl none_found ↦ ground arith
      | inr (m, found) ↦ inr (levels, m, e, found, ground arith)
    ]
  ]

  present :
      check_present d ≡ none
      → (is_given d.human_approval_signature ≡ true)
        × (is_given d.human_approver_public_key_id ≡ true)
  unfolding check_present
  present h = ground arith

  expiry : check_expiry d now ≡ none → (u : ℕ) × (d.human_approval_valid_until ≡ some u) × (now ≤ u)
  unfolding check_expiry
  expiry h = elim (Option-cases d.human_approval_valid_until) [
    | inl e ↦ ground arith
    | inr (u, e) ↦ (u, e, ground arith)
  ]

  unused :
      check_unused f d ≡ none
      → has_been_used f.oob_ledger d.id (get_or d.human_approval_signature "") ≡ false
  unfolding check_unused
  unused h = ground arith

  verified_by :
      (key : Option String)
      → check_key C key d ≡ none
      → C.verify (get_or key "") (C.dump_oob (oob_message d)) (get_or d.human_approval_signature "")
        ≡ true
  unfolding check_key
  verified_by key h = ground arith

  pub check_approval-IsApproved :
      (level : AuthorizationLevel) → check_approval C f d level now ≡ none → IsApproved level
  unfolding check_approval
  check_approval-IsApproved level h =
      let key_of = lookup (get_or d.human_approver_public_key_id "") f.public_key_registry in
      let known_check : Guard = if is_given key_of then none else some approver_unregistered in
      let g2 = check_present d then_check check_expiry d now in
      let g3 = g2 then_check known_check in
      let g4 =
        g3
        then_check check_ceiling f.approver_max_levels (get_or d.human_approver_public_key_id "")
            level in
      let g5 = g4 then_check check_key C key_of d in
      let (h5, used) = then_check-none g5 (check_unused f d) h in
      let (h4, verified) = then_check-none g4 (check_key C key_of d) h5 in
      let (h3, ceiling) = then_check-none g3 _ h4 in
      let (h2, known) = then_check-none g2 known_check h3 in
      let (here, fresh) = then_check-none (check_present d) (check_expiry d now) h2 in
      let (signature, e1, s_is, s_ne) = given d.human_approval_signature (present here).0 in
      let (key_id, e2, k_is, k_ne) = given d.human_approver_public_key_id (present here).1 in
      let (key, e3, key_is, key_ne) = given key_of (registered_of key_of known) in
      let (u, e4, in_time) = expiry fresh in
      record {
        signature = signature;
        key_id = key_id;
        key = key;
        valid_until = u;
        nonempty = s_ne;
        has_signature = e1;
        has_key_id = e2;
        has_expiry = e4;
        fresh = in_time;
        registered = subst (λ k. lookup k f.public_key_registry ≡ some key) k_is e3;
        within =
            ceiling_kept key_id level
              (subst (λ k. check_ceiling f.approver_max_levels k level ≡ none) k_is ceiling);
        verified =
            subst₂ (λ k s. C.verify k (C.dump_oob (oob_message d)) s ≡ true) key_is s_is
              (verified_by key_of verified);
        unused = subst (λ s. has_been_used f.oob_ledger d.id s ≡ false) s_is (unused used);
      }
    where
      registered_of :
          (k : Option String)
          → (if is_given k then none else some approver_unregistered) ≡ none
          → is_given k ≡ true
      registered_of k h = ground arith

  -- The fabric has no key and is told to trust what is not signed, or the decision's signature
  -- verifies under its key.
  abbrev pub IsSigned : Option String → Type 0
  IsSigned key =
      ((key ≡ none) × (f.allow_unsigned_decisions ≡ true))
      ⊎ ((k : String) × (s : String) × (key ≡ some k)
          × (d.decision_signature ≡ some s)
          × (C.verify k (canonical_decision_payload C d) s ≡ true))

  -- All that the guards ask for.
  pub record IsAuthorized : Type 0 where
    pub running : is_halted f.kill_switch p.actions ≡ false
    pub bound : p.id ≡ d.proposal_id
    pub same_content :
        (d.proposal_digest ≡ none) ⊎ (d.proposal_digest ≡ some (compute_proposal_digest C p))
    pub signed : IsSigned f.kernel_public_key_hex
    pub approved_by_kernel : d.verdict ≡ approved
    pub approved_by_human :
        (level_rank d.authorization_level < 2)
        ⊎ ((level : AuthorizationLevel) × (d.authorization_level ≡ some level) × IsApproved level)

  bound_by :
      check_binding C p d ≡ none
      → (p.id ≡ d.proposal_id)
        × ((d.proposal_digest ≡ none) ⊎ (d.proposal_digest ≡ some (compute_proposal_digest C p)))
  unfolding check_binding
  bound_by h = (
    ground (arith, eq_iff p.id d.proposal_id),
    elim (Option-cases d.proposal_digest) [
      | inl e ↦ inl e
      | inr (digest, e) ↦
          inr
            (ground (arith, eq_iff p.id d.proposal_id, eq_iff (compute_proposal_digest C p) digest))
    ],
  )

  verify_with-IsSigned :
      (key : Option String)
      → verify_with C key f.allow_unsigned_decisions d.decision_signature
          (canonical_decision_payload C d)
        ≡ none
      → IsSigned key
  unfolding verify_with
  verify_with-IsSigned none h = inl (refl, ground arith)
  verify_with-IsSigned (some key) h = elim (Option-cases d.decision_signature) [
    | inl unsigned ↦ ground arith
    | inr (s, has) ↦ inr (key, s, refl, has, ground arith)
  ]

  verdict_of_check : check_verdict d ≡ none → d.verdict ≡ approved
  unfolding check_verdict
  verdict_of_check h = ground arith

  human_of_check :
      verify_oob_authority C f d now ≡ none
      → (level_rank d.authorization_level < 2)
        ⊎ ((level : AuthorizationLevel) × (d.authorization_level ≡ some level) × IsApproved level)
  unfolding verify_oob_authority
  human_of_check h = elim (Option-cases d.authorization_level) [
    | inl e ↦ inl (rw e (omega arith))
    | inr (level, e) ↦ elim (Bool-cases (needs_oob level)) [
      | inl high ↦ inr (level, e, check_approval-IsApproved level (ground arith))
      | inr low ↦ inl (rw e (ground (arith, needs_oob-rank level)))
    ]
  ]

  -- What an authorization says of a level at which a human is needed.
  pub IsAuthorized-IsApproved :
      IsAuthorized
      → (level : AuthorizationLevel) → d.authorization_level ≡ some level
      → 2 ≤ rank level
      → IsApproved level
  IsAuthorized-IsApproved auth level e high = elim auth.approved_by_human [
    | inl low ↦ absurd (omega (arith, rw e at low))
    | inr (l, f, human) ↦ subst IsApproved (ground arith) human
  ]

  -- If the guards let a decision through, it is the kernel's approval of this very proposal, no
  -- halt is on, and at L2 and above a human has approved it.
  pub guards-IsAuthorized : guards C f p d now ≡ none → IsAuthorized
  unfolding guards check_halt verify_decision_signature
  guards-IsAuthorized h =
      let g2 = check_halt f p then_check check_binding C p d in
      let g3 = g2 then_check verify_decision_signature C f d in
      let (h4, human) = then_check-none (g3 then_check check_verdict d) _ h in
      let (h3, verdict) = then_check-none g3 (check_verdict d) h4 in
      let (h2, signature) = then_check-none g2 (verify_decision_signature C f d) h3 in
      let (halt, binding) = then_check-none (check_halt f p) (check_binding C p d) h2 in
      let (ids, digests) = bound_by binding in
      record {
        running = not_halted (is_halted f.kill_switch p.actions) halt;
        bound = ids;
        same_content = digests;
        signed = verify_with-IsSigned f.kernel_public_key_hex signature;
        approved_by_kernel = verdict_of_check verdict;
        approved_by_human = human_of_check human;
      }
    where
      not_halted : (b : Bool) → (if b then some kill_switch_engaged else none) ≡ none → b ≡ false
      not_halted b e = ground arith

-- An execution that returns a result was authorized: no halt, the decision is of this proposal and
-- of its digest, its signature verifies or is not asked for, its verdict is approved, and at L2 or
-- above a registered human within the ceiling approved it, in time and with an unused signature.
pub execute-IsAuthorized :
    (C : Crypto) (R : Runtime) (f : Fabric) (p : StrategyProposal) (d : GovernanceDecision)
    (now : ℕ) (r : ExecutionResult)
    → (execute C R f p d now).0 ≡ ok r
    → IsAuthorized C f p d now
unfolding execute
execute-IsAuthorized C R f p d now r h = elim (Option-cases (guards C f p d now)) [
  | inl clear ↦ guards-IsAuthorized C f p d now clear
  | inr (e, refused) ↦ ground arith
]

-- With the public key of a pair in the fabric, a decision with a signature of another payload under
-- that pair is never executed.
pub execute-tampered :
    (C : Crypto) (R : Runtime) (f : Fabric) (p : StrategyProposal) (d : GovernanceDecision)
    (now : ℕ) (private key payload : String)
    → IsKeyPair C private key
    → f.kernel_public_key_hex ≡ some key
    → d.decision_signature ≡ some (C.sign private payload)
    → canonical_decision_payload C d ≢ payload
    → (x : ExecutionResult) → (execute C R f p d now).0 ≢ ok x
execute-tampered C R f p d now private key payload keys has sig differ x done =
    elim (execute-IsAuthorized C R f p d now x done).signed [
      | inl (no_key, trusted) ↦ ground arith
      | inr (k, s, same_key, same, verified) ↦
          let checked : C.verify key (canonical_decision_payload C d) (C.sign private payload)
              ≡ true =
            ground arith in
          differ (keys.binding _ _ checked)
    ]

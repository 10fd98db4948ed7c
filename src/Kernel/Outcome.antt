-- ===== src/Kernel/Outcome.antt =====
-- What the kernel's ruling says of the proposal (governance/kernel.py, `_evaluate` and
-- `evaluate_proposal`).
use mathlib.Core.Path.{subst}
use native.Mathlib.Nat.{le_trans}
use native.Mathlib.Decide.{dec_le}
use general_autonomy_protoco.Prelude.{
  All-map, Option-cases, All, All-prefix, ℕ, ◌≤◌, String, ◌≡◌, refl, ◌≢◌, ◌⊎◌, inl, inr, true,
  false, Option, none, some, List, [], ◌∷◌, map, arith,
}
use general_autonomy_protoco.Models.{
  Runtime, approved, AuthorizationLevel, l4, rank, soft, Constraint, IntentVector, StrategyProposal,
  WorldModel, Ruling, GovernanceDecision, Crypto, compute_proposal_digest,
  canonical_decision_payload, IsKeyPair,
}
use general_autonomy_protoco.Evaluators.{constraint_has_evaluator, check_constraint_violation}
use general_autonomy_protoco.Policy.{
  GovernanceKernel, built, as_floor, KernelOptions, new_kernel, validate_action_type, active_of,
  get_active_constraints,
}
use general_autonomy_protoco.Kernel.{
  determine_auth_level, max_risk, spec_of, rule_level, action_type_gate, evaluate,
  evaluate_proposal,
}
use general_autonomy_protoco.Profile.{ApplicabilityProfile}
use general_autonomy_protoco.Policy.Active.{
  Upholds, hard_violations-Upholds, HasFloor, new_kernel-HasFloor,
}
use general_autonomy_protoco.Kernel.Levels.{
  default_rank, max_risk-All, rule_level-bounds, rule_level-critical,
}
use general_autonomy_protoco.Kernel.Approval.{evaluate-IsCleared}

module _ (R : Runtime) (k : GovernanceKernel) (p : StrategyProposal) (intents : List IntentVector)
    (w : WorldModel) (now : ℕ) (t : Option String) (id : String) where
  -- If the kernel approves a proposal, every constraint in force is soft or is upheld by the
  -- proposal.
  pub approved-Upholds :
      (r : Ruling)
      → evaluate R k p intents w now t id ≡ some r
      → r.verdict ≡ approved
      → All (Upholds R p w) (get_active_constraints R k intents now)
  approved-Upholds r e v =
      hard_violations-Upholds R p w (get_active_constraints R k intents now)
        (evaluate-IsCleared R k p intents w now t id r e v).lawful

  evaluator_of_Upholds :
      (c : Constraint) → Upholds R p w c → (c.type ≡ soft) ⊎ (constraint_has_evaluator R c ≡ true)
  unfolding constraint_has_evaluator check_constraint_violation
  evaluator_of_Upholds c (inl s) = inl s
  evaluator_of_Upholds c (inr h) = inr (ground arith)

  All-Upholds-evaluator :
      (cs : List Constraint)
      → All (Upholds R p w) cs
      → All (λ c. (c.type ≡ soft) ⊎ (constraint_has_evaluator R c ≡ true)) cs
  All-Upholds-evaluator [] h = tt
  All-Upholds-evaluator (c ∷ cs) h = (evaluator_of_Upholds c h.0, All-Upholds-evaluator cs h.1)

  -- If the kernel approves a proposal, every constraint in force is soft or has an evaluator.
  pub approved-has_evaluator :
      (r : Ruling)
      → evaluate R k p intents w now t id ≡ some r
      → r.verdict ≡ approved
      → All
          (λ c. (c.type ≡ soft) ⊎ (constraint_has_evaluator R c ≡ true))
          (get_active_constraints R k intents now)
  approved-has_evaluator r e v = All-Upholds-evaluator _ (approved-Upholds r e v)

  risk_bound : (rule_level k p t now).level ≢ l4 → max_risk p.actions ≤ 8
  risk_bound h = elim (dec_le (max_risk p.actions) 8) [
    | yes low ↦ low
    | no high ↦ absurd (h (rule_level-critical k p t now (omega arith)))
  ]

  -- An approval carries a level that is at least the level of the risk and the default of the
  -- action type and is not L4, and no action of the approved proposal scores above 8.
  pub approved-level :
      (r : Ruling)
      → evaluate R k p intents w now t id ≡ some r
      → r.verdict ≡ approved
      → (l : AuthorizationLevel) × (r.authorization_level ≡ some l)
        × (rank (determine_auth_level (max_risk p.actions)) ≤ rank l)
        × (default_rank (spec_of k t) ≤ rank l)
        × (l ≢ l4)
        × All (λ a. a.risk_score ≤ 8) p.actions
  approved-level r e v =
      let cleared = evaluate-IsCleared R k p intents w now t id r e v in
      let (risky, typed, one, tiers) = rule_level-bounds k p t now in
      let not_l4 : (rule_level k p t now).level ≢ l4 = λ top. cleared.below_human (tiers.1 top) in
      let bounded : max_risk p.actions ≤ 8 = risk_bound not_l4 in
      (
        (rule_level k p t now).level,
        cleared.levelled,
        risky,
        typed,
        not_l4,
        All-map (λ a h. le_trans h bounded) p.actions (max_risk-All p.actions),
      )

  -- Under strict action typing an approved proposal declares an action type that the registry has.
  pub approved-typed :
      (r : Ruling)
      → k.strict_action_typing ≡ true
      → evaluate R k p intents w now t id ≡ some r
      → r.verdict ≡ approved
      → (type_id : String) × (t ≡ some type_id) × (validate_action_type k type_id ≡ true)
  unfolding action_type_gate validate_action_type
  approved-typed r strict e v = declared t (evaluate-IsCleared R k p intents w now t id r e v).typed
    where
      declared :
          (t : Option String)
          → action_type_gate k t ≡ none
          → (type_id : String) × (t ≡ some type_id) × (validate_action_type k type_id ≡ true)
      declared none h = ground arith
      declared (some type_id) h = (type_id, refl, ground arith)

-- A kernel that was built from an Applicability Profile approves a proposal only if the proposal
-- upholds every constraint of the profile, made hard, whatever the intents and the time.
pub approved-upholds_profile :
    (C : Crypto) (R : Runtime) (o : KernelOptions) (profile : ApplicabilityProfile)
    {k : GovernanceKernel} (p : StrategyProposal) (intents : List IntentVector) (w : WorldModel)
    (now : ℕ) (t : Option String) (id : String) (r : Ruling)
    → new_kernel C o ≡ built k
    → o.applicability_profile ≡ some profile
    → evaluate R k p intents w now t id ≡ some r
    → r.verdict ≡ approved
    → All
        (λ c. check_constraint_violation R p (as_floor c) w ≡ some false)
        profile.tier1_constraints
unfolding get_active_constraints
approved-upholds_profile C R o profile {k} p intents w now t id r b has e v =
    let held : All (Upholds R p w) k.tier1_floor =
      All-prefix (Upholds R p w) k.tier1_floor (active_of R intents now)
        (approved-Upholds R k p intents w now t id r e v) in
    let floor : HasFloor C o k (some profile) =
      subst (HasFloor C o k) has (new_kernel-HasFloor C o b).0 in
    of_map profile.tier1_constraints (subst (All (Upholds R p w)) floor.1 held)
  where
    of_map :
        (cs : List Constraint)
        → All (Upholds R p w) (map as_floor cs)
        → All (λ c. check_constraint_violation R p (as_floor c) w ≡ some false) cs
    of_map [] h = tt
    of_map (c ∷ cs) h = (elim h.0 [ inl s ↦ ground arith | inr e ↦ e ], of_map cs h.1)

-- The kernel's decision carries the kernel's signature of its own payload, which verifies under the
-- kernel's public key where the two keys are a pair, and the digest of the proposal.
pub evaluate_proposal-signed :
    (C : Crypto) (R : Runtime) (k : GovernanceKernel) (p : StrategyProposal)
    (intents : List IntentVector) (w : WorldModel) (now : ℕ) (t : Option String) (id : String)
    (d : GovernanceDecision)
    → IsKeyPair C k.signing_key_hex k.public_key_hex
    → evaluate_proposal C R k p intents w now t id ≡ some d
    → (s : String) × (d.decision_signature ≡ some s)
      × (s ≡ C.sign k.signing_key_hex (canonical_decision_payload C d))
      × (C.verify k.public_key_hex (canonical_decision_payload C d) s ≡ true)
      × (d.proposal_digest ≡ some (compute_proposal_digest C p))
unfolding evaluate_proposal canonical_decision_payload
evaluate_proposal-signed C R k p intents w now t id d keys e =
    elim (Option-cases (evaluate R k p intents w now t id)) [
      | inl raised ↦ ground arith
      | inr (r, f) ↦
          let r' : Ruling = record r { proposal_digest = some (compute_proposal_digest C p) } in
          (
            C.sign k.signing_key_hex (C.dump_ruling r'),
            ground arith,
            ground arith,
            ground (arith, keys.signed (C.dump_ruling r')),
            ground arith,
          )
    ]

-- ===== src/Kernel/Binding.antt =====
-- What a decision has of its proposal and its ruling (governance/kernel.py, `_evaluate` and
-- `evaluate_proposal`).
use general_autonomy_protoco.Prelude.{
  Option-cases, ℕ, String, ◌≡◌, inl, inr, Option, some, List, arith,
}
use general_autonomy_protoco.Models.{
  Runtime, IntentVector, StrategyProposal, WorldModel, GovernancePhaseResult, Ruling,
  GovernanceDecision, Crypto, compute_proposal_digest,
}
use general_autonomy_protoco.Policy.{
  GovernanceKernel, get_active_constraints, hard_violations, soft_violations,
}
use general_autonomy_protoco.Kernel.{
  LevelRuling, rule_level, serialize_active_policies, blank, with_trigger, with_level, finish,
  run_phases, rule_on, rule_on_constraints, evaluate, evaluate_proposal,
}

module _ (R : Runtime) (k : GovernanceKernel) (p : StrategyProposal) (intents : List IntentVector)
    (w : WorldModel) (now : ℕ) (t : Option String) where
  finish-proposal_id :
      (names : List String) (l : LevelRuling) (r : Ruling) (results : List GovernancePhaseResult)
      → (finish R names l r results).proposal_id ≡ r.proposal_id
  unfolding finish
  finish-proposal_id names l r results = ground arith

  rule_on-proposal_id :
      (names : List String) (r0 r : Ruling)
      → rule_on R k p intents w now t names r0 ≡ some r
      → r.proposal_id ≡ r0.proposal_id
  unfolding rule_on with_level with_trigger
  rule_on-proposal_id names r0 r h = elim (Option-cases (run_phases R k p intents w now t)) [
    | inl raised ↦ ground arith
    | inr (results, e) ↦ ground (arith, finish-proposal_id names (rule_level k p t now) r0 results)
  ]

  rule_on_constraints-proposal_id :
      (r0 r : Ruling)
      → rule_on_constraints R k p intents w now t r0 ≡ some r
      → r.proposal_id ≡ r0.proposal_id
  unfolding rule_on_constraints
  rule_on_constraints-proposal_id r0 r h =
      let active = get_active_constraints R k intents now in
      elim (Option-cases (hard_violations R p w active)) [
        | inl raised ↦ ground arith
        | inr (hard_names, e) ↦ elim (Option-cases (soft_violations R p w active)) [
          | inl raised ↦ ground arith
          | inr (names, f) ↦
              let r1 : Ruling = record r0 { policy_snapshot = serialize_active_policies active } in
              ground (arith, rule_on-proposal_id names r1 r)
        ]
      ]

  evaluate-proposal_id :
      (id : String) (r : Ruling) → evaluate R k p intents w now t id ≡ some r → r.proposal_id ≡ p.id
  unfolding evaluate
  evaluate-proposal_id id r h = ground (arith, rule_on_constraints-proposal_id (blank id p t now) r)

-- The signed decision has the proposal's id and digest, and the verdict and level of the ruling.
pub evaluate_proposal-bound :
    (C : Crypto) (R : Runtime) (k : GovernanceKernel) (p : StrategyProposal)
    (intents : List IntentVector) (w : WorldModel) (now : ℕ) (t : Option String) (id : String)
    (d : GovernanceDecision)
    → evaluate_proposal C R k p intents w now t id ≡ some d
    → (d.proposal_id ≡ p.id)
      × (d.proposal_digest ≡ some (compute_proposal_digest C p))
      × ((r : Ruling) × (evaluate R k p intents w now t id ≡ some r)
          × (d.verdict ≡ r.verdict)
          × (d.authorization_level ≡ r.authorization_level))
unfolding evaluate_proposal
evaluate_proposal-bound C R k p intents w now t id d e =
    elim (Option-cases (evaluate R k p intents w now t id)) [
      | inl raised ↦ ground arith
      | inr (r, f) ↦ (
        ground (arith, evaluate-proposal_id R k p intents w now t id r f),
        ground arith,
        (r, f, ground arith, ground arith),
      )
    ]

-- ===== src/Kernel/Approval.antt =====
-- The gates that stand before an approval (governance/kernel.py, `_evaluate`).
use general_autonomy_protoco.Prelude.{
  Option-cases, ℕ, String, ◌≡◌, refl, ◌≢◌, inl, inr, false, Option, none, some, List, [], ◌∷◌,
  arith,
}
use general_autonomy_protoco.Models.{
  Runtime, approved, rejected, escalate_tier, IntentVector, StrategyProposal, WorldModel,
  GovernancePhaseResult, Ruling,
}
use general_autonomy_protoco.Policy.{
  GovernanceKernel, get_active_constraints, hard_violations, soft_violations,
}
use general_autonomy_protoco.Kernel.{
  LevelRuling, rule_level, serialize_active_policies, conflict_unresolvable, first_refused, blank,
  action_type_gate, finish, run_phases, rule_on, rule_on_constraints, evaluate,
}

-- A phase that stops the evaluation is not approved.
first_refused-some :
    (results : List GovernancePhaseResult) (pr : GovernancePhaseResult)
    → first_refused results ≡ some pr
    → pr.verdict ≢ approved
first_refused-some [] pr h v = ground arith
first_refused-some (x ∷ rest) pr h v = ground (arith, first_refused-some rest pr)

module _ (R : Runtime) (k : GovernanceKernel) (p : StrategyProposal) (intents : List IntentVector)
    (w : WorldModel) (now : ℕ) (action_type_id : Option String) where
  -- The gates that an approval has passed.
  pub record IsCleared (r : Ruling) : Type 0 where
    pub typed : action_type_gate k action_type_id ≡ none
    pub lawful : hard_violations R p w (get_active_constraints R k intents now) ≡ some []
    pub levelled : r.authorization_level ≡ some (rule_level k p action_type_id now).level
    pub below_human : (rule_level k p action_type_id now).tier ≢ escalate_tier
    pub unconflicted : conflict_unresolvable R p now intents ≡ some false
    pub phased : run_phases R k p intents w now action_type_id ≡ some r.phase_results
    pub passed : first_refused r.phase_results ≡ none

  finish-approved :
      (soft_names : List String) (l : LevelRuling) (r : Ruling)
      (results : List GovernancePhaseResult)
      → (finish R soft_names l r results).verdict ≡ approved
      → (first_refused results ≡ none)
        × ((finish R soft_names l r results).authorization_level ≡ some l.level)
        × ((finish R soft_names l r results).phase_results ≡ results)
  unfolding finish
  finish-approved soft_names l r results h = elim (Option-cases (first_refused results)) [
    | inl none_refused ↦ ground arith
    | inr (pr, e) ↦ ground (arith, first_refused-some results pr e)
  ]

  rule_on-approved :
      (soft_names : List String) (r0 r : Ruling)
      → rule_on R k p intents w now action_type_id soft_names r0 ≡ some r
      → r.verdict ≡ approved
      → (r.authorization_level ≡ some (rule_level k p action_type_id now).level)
        × ((rule_level k p action_type_id now).tier ≢ escalate_tier)
        × (conflict_unresolvable R p now intents ≡ some false)
        × (run_phases R k p intents w now action_type_id ≡ some r.phase_results)
        × (first_refused r.phase_results ≡ none)
  unfolding rule_on
  rule_on-approved soft_names r0 r h v =
      elim (Option-cases (run_phases R k p intents w now action_type_id)) [
        | inl raised ↦ ground arith
        | inr (results, e) ↦
            ground
              (arith, finish-approved soft_names (rule_level k p action_type_id now) r0 results)
      ]

  rule_on_constraints-approved :
      (r0 r : Ruling)
      → r0.verdict ≡ rejected
      → rule_on_constraints R k p intents w now action_type_id r0 ≡ some r
      → r.verdict ≡ approved
      → (hard_violations R p w (get_active_constraints R k intents now) ≡ some [])
        × ((soft_names : List String) × (r1 : Ruling) × (rule_on R k p intents w now action_type_id
                soft_names r1
              ≡ some r))
  unfolding rule_on_constraints
  rule_on_constraints-approved r0 r starts h v =
      elim (Option-cases (hard_violations R p w (get_active_constraints R k intents now))) [
        | inl raised ↦ ground arith
        | inr (hard_names, e) ↦
            elim (Option-cases (soft_violations R p w (get_active_constraints R k intents now))) [
              | inl raised ↦ ground arith
              | inr (soft_names, f) ↦ (
                ground arith,
                (
                  soft_names,
                  record r0 {
                    policy_snapshot =
                        serialize_active_policies (get_active_constraints R k intents now);
                  },
                  ground arith,
                ),
              )
            ]
      ]

  -- An approval, by whatever arguments, has passed every gate: the action type is registered or
  -- none is needed, no active hard constraint is violated, the ruling carries the level that
  -- was worked out, whose tier is not that of human decisions, no intent of higher priority
  -- conflicts, and no phase is refused.
  pub evaluate-IsCleared :
      (id : String) (r : Ruling)
      → evaluate R k p intents w now action_type_id id ≡ some r
      → r.verdict ≡ approved
      → IsCleared r
  unfolding evaluate
  evaluate-IsCleared id r h v = elim (Option-cases (action_type_gate k action_type_id)) [
    | inr (reason, e) ↦ ground arith
    | inl open_gate ↦
        let (lawful, (soft_names, r1, e)) =
          rule_on_constraints-approved (blank id p action_type_id now) r refl (ground arith) v in
        let (levelled, below_human, unconflicted, phased, passed) =
          rule_on-approved soft_names r1 r e v in
        record {
          typed = open_gate;
          lawful = lawful;
          levelled = levelled;
          below_human = below_human;
          unconflicted = unconflicted;
          phased = phased;
          passed = passed;
        }
  ]

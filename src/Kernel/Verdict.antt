-- ===== src/Kernel/Verdict.antt =====
-- The verdict of an evaluation (governance/kernel.py, `_evaluate`).
use general_autonomy_protoco.Prelude.{
  eqb, if◌then◌else◌, Option-cases, is_some, is_empty, All, ℕ, String, ◌≡◌, refl, ap, inl, inr,
  Bool, true, false, not, Option, none, some, List, [], ◌∷◌, arith,
}
use general_autonomy_protoco.Models.{
  Runtime, GovernanceVerdict, approved, rejected, escalate, AuthorizationLevel, rank, Constraint,
  IntentVector, StrategyProposal, WorldModel, Ruling,
}
use general_autonomy_protoco.Policy.{
  GovernanceKernel, get_active_constraints, hard_violations, soft_violations,
}
use general_autonomy_protoco.Kernel.{
  rule_level, empty_world, conflicts_with, detect_intent_conflicts, conflict_unresolvable, blank,
  action_type_gate, finish, rule_on, rule_on_constraints, evaluate,
}
use general_autonomy_protoco.Evaluators.Totality.{
  IsWellTyped, IsConvertible, any_or_raise-total, check_constraint_violation-total,
}
use general_autonomy_protoco.Policy.Active.{hard_violations-total, soft_violations-total}
use general_autonomy_protoco.Kernel.Levels.{rule_level-bounds}
use general_autonomy_protoco.Kernel.Phases.{run_phases-passed}

is_some-value : {A : Type 0} (o : Option A) → is_some o ≡ true → (a : A) × (o ≡ some a)
is_some-value none h = ground arith
is_some-value (some a) h = (a, refl)

module _ (R : Runtime) (p : StrategyProposal) (now : ℕ)
    (convertible : All (IsConvertible R) p.actions) where
  -- The world over which conflicts are looked for has no entities, so nothing raises there.
  conflicts_with-total : (i : IntentVector) → is_some (conflicts_with R p now i) ≡ true
  unfolding conflicts_with
  conflicts_with-total i =
      any_or_raise-total _ i.hard_constraints
        (λ c. (check_constraint_violation-total R (empty_world now) tt p c convertible).0)

  detect_intent_conflicts-total :
      (intents : List IntentVector) → is_some (detect_intent_conflicts R p now intents) ≡ true
  unfolding detect_intent_conflicts
  detect_intent_conflicts-total [] = refl
  detect_intent_conflicts-total (i ∷ intents) =
      ground (arith, conflicts_with-total i, detect_intent_conflicts-total intents)

  pub conflict_unresolvable-total :
      (intents : List IntentVector) → is_some (conflict_unresolvable R p now intents) ≡ true
  unfolding conflict_unresolvable
  conflict_unresolvable-total intents = ground (arith, detect_intent_conflicts-total intents)

abbrev pub verdict_of : Option Ruling → Option GovernanceVerdict
verdict_of none = none
verdict_of (some r) = some r.verdict

-- The verdict as a table: a refused type or a violated hard constraint is rejected; of the rest, a
-- level of L4 or a conflict with an intent of higher priority escalates, and nothing else does.
abbrev pub verdict_table : Bool → List String → AuthorizationLevel → Bool → GovernanceVerdict
verdict_table type_refused hard_names level unresolvable =
    if type_refused
    then rejected
    else if not (is_empty hard_names)
    then rejected
    else if eqb (rank level) 4
    then escalate
    else if unresolvable
    then escalate
    else approved

module _ (R : Runtime) (k : GovernanceKernel) (p : StrategyProposal) (intents : List IntentVector)
    (w : WorldModel) (now : ℕ) (t : Option String) (id : String) where
  rule_on-verdict :
      (soft_names : List String) (r0 : Ruling) (unresolvable : Bool)
      → hard_violations R p w (get_active_constraints R k intents now) ≡ some []
      → conflict_unresolvable R p now intents ≡ some unresolvable
      → verdict_of (rule_on R k p intents w now t soft_names r0)
        ≡ some (verdict_table false [] (rule_level k p t now).level unresolvable)
  unfolding rule_on finish rank
  rule_on-verdict soft_names r0 unresolvable lawful c =
      let (results, f, passed) = run_phases-passed R k p intents w now t lawful in
      let tiers = (rule_level-bounds k p t now).3 in ground (arith, tiers.0, tiers.1)

  rule_on_constraints-verdict :
      (r0 : Ruling) (hard_names soft_names : List String) (unresolvable : Bool)
      → r0.verdict ≡ rejected
      → hard_violations R p w (get_active_constraints R k intents now) ≡ some hard_names
      → soft_violations R p w (get_active_constraints R k intents now) ≡ some soft_names
      → conflict_unresolvable R p now intents ≡ some unresolvable
      → verdict_of (rule_on_constraints R k p intents w now t r0)
        ≡ some (verdict_table false hard_names (rule_level k p t now).level unresolvable)
  unfolding rule_on_constraints
  rule_on_constraints-verdict r0 [] soft_names unresolvable v h s c =
      rw (h, s, rule_on_constraints) (rule_on-verdict soft_names _ unresolvable h c)
  rule_on_constraints-verdict r0 (x ∷ hard_names) soft_names unresolvable v h s c =
      rw (h, s, rule_on_constraints) (ap some v)

  -- Over a world whose entities have the expected types, and for a proposal none of whose amounts
  -- and record counts overflows in its conversion, an evaluation returns a ruling, and its verdict
  -- is that of a table: a refused action type or a violated hard constraint is rejected, of the
  -- rest L4 or an unresolvable intent conflict escalates, and everything else is approved.
  pub evaluate-verdict :
      IsWellTyped w
      → All (IsConvertible R) p.actions
      → (hard_names : List String) × (unresolvable : Bool) × (hard_violations R p w
            (get_active_constraints R k intents now)
          ≡ some hard_names)
        × (conflict_unresolvable R p now intents ≡ some unresolvable)
        × (verdict_of (evaluate R k p intents w now t id)
            ≡ some (
                verdict_table
                  (is_some (action_type_gate k t))
                  hard_names
                  (rule_level k p t now).level
                  unresolvable))
  unfolding evaluate
  evaluate-verdict typed convertible =
      let check =
        λ (c : Constraint). (check_constraint_violation-total R w typed p c convertible).0 in
      let cs = get_active_constraints R k intents now in
      let (hard_names, h) = is_some-value _ (hard_violations-total R p w cs check) in
      let (soft_names, s) = is_some-value _ (soft_violations-total R p w cs check) in
      let (unresolvable, c) =
        is_some-value _ (conflict_unresolvable-total R p now convertible intents) in
      (
        hard_names,
        unresolvable,
        h,
        c,
        elim (Option-cases (action_type_gate k t)) [
          | inl open_gate ↦
              rw (open_gate, evaluate)
                (rule_on_constraints-verdict (blank id p t now) hard_names soft_names unresolvable
                  refl h s c)
          | inr (reason, e) ↦ rw (e, evaluate) refl
        ],
      )

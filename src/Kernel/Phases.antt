-- ===== src/Kernel/Phases.antt =====
-- The phases of an action type (governance/kernel.py, `evaluate_phase` and `evaluate_multi_phase`).
use general_autonomy_protoco.Prelude.{
  Option-cases, length, length-append, All, All-append, ℕ, ◌+◌, String, ◌≡◌, refl, inl, inr, Option,
  none, some, List, [], ◌∷◌, ◌++◌, arith,
}
use general_autonomy_protoco.Models.{
  Runtime, approved, IntentVector, StrategyProposal, WorldModel, PhaseConfig, GovernancePhaseResult,
}
use general_autonomy_protoco.Policy.{GovernanceKernel, get_active_constraints, hard_violations}
use general_autonomy_protoco.Kernel.{
  spec_of, phase_level, evaluate_phase, phases_from, evaluate_multi_phase, first_refused,
  run_phases,
}

module _ (R : Runtime) (k : GovernanceKernel) (p : StrategyProposal) (intents : List IntentVector)
    (w : WorldModel) (now : ℕ) where
  -- Every result is an approval.
  abbrev pub AllApproved : List GovernancePhaseResult → Type 0
  AllApproved = All (λ r. r.verdict ≡ approved)

  -- The result of a phase that finds no violation.
  abbrev approval : PhaseConfig → List GovernancePhaseResult → GovernancePhaseResult
  approval phase prior = record {
    phase_name = phase.phase_name;
    verdict = approved;
    authorization_level = phase_level R phase prior;
    violated_constraints = [];
    rejection_reason = none;
    evaluated_at = now;
  }

  evaluate_phase-approval :
      (phase : PhaseConfig) (prior : List GovernancePhaseResult)
      → hard_violations R p w (get_active_constraints R k intents now) ≡ some []
      → evaluate_phase R k phase p intents w now prior ≡ some (approval phase prior)
  unfolding evaluate_phase
  evaluate_phase-approval phase prior lawful = rw (lawful, evaluate_phase) refl

  phases_from-AllApproved :
      (phases : List PhaseConfig) (prior : List GovernancePhaseResult)
      → hard_violations R p w (get_active_constraints R k intents now) ≡ some []
      → AllApproved prior
      → (results : List GovernancePhaseResult) × (phases_from R k phases p intents w now prior
          ≡ some results)
        × AllApproved results
        × (length results ≡ length prior + length phases)
  unfolding phases_from
  phases_from-AllApproved [] prior lawful h = (prior, refl, h, omega arith)
  phases_from-AllApproved (phase ∷ phases) prior lawful h =
      let r = approval phase prior in
      let (results, f, all, n) =
        phases_from-AllApproved phases (prior ++ r ∷ []) lawful
          (All-append _ prior (r ∷ []) h (refl, tt)) in
      (
        results,
        rw (evaluate_phase-approval phase prior lawful) f,
        all,
        omega (arith, n, length-append prior (r ∷ [])),
      )

  -- Where no hard constraint in force is violated, evaluating any phases returns one result for
  -- each, and all of them are approvals.
  pub evaluate_multi_phase-AllApproved :
      (phases : List PhaseConfig)
      → hard_violations R p w (get_active_constraints R k intents now) ≡ some []
      → (results : List GovernancePhaseResult) × (evaluate_multi_phase R k phases p intents w now
          ≡ some results)
        × AllApproved results
        × (length results ≡ length phases)
  unfolding evaluate_multi_phase
  evaluate_multi_phase-AllApproved phases lawful =
      let (results, f, all, n) = phases_from-AllApproved phases [] lawful tt in
      (results, f, all, omega (arith, n))

  AllApproved-first_refused :
      (results : List GovernancePhaseResult) → AllApproved results → first_refused results ≡ none
  AllApproved-first_refused [] h = refl
  AllApproved-first_refused (r ∷ results) h = rw h.0 (AllApproved-first_refused results h.1)

  -- The phases of the action type never refuse a proposal that reaches them.
  pub run_phases-passed :
      (t : Option String)
      → hard_violations R p w (get_active_constraints R k intents now) ≡ some []
      → (results : List GovernancePhaseResult) × (run_phases R k p intents w now t ≡ some results)
        × (first_refused results ≡ none)
  unfolding run_phases
  run_phases-passed t lawful = elim (Option-cases (spec_of k t)) [
    | inl none_found ↦ ([], rw (none_found, run_phases) refl, refl)
    | inr (spec, e) ↦
        let (results, f, all, n) = evaluate_multi_phase-AllApproved spec.phase_config lawful in
        (results, rw (e, run_phases) f, AllApproved-first_refused results all)
  ]

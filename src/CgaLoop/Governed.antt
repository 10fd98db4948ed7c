-- ===== src/CgaLoop/Governed.antt =====
-- What a governed loop of autonomy does with a modification of the system while its monitor of
-- self-evolution flags it (strategy/cga_loop.py).
use general_autonomy_protoco.Prelude.{
  Option-cases, Member, ℕ, zero, suc, ◌≡◌, refl, ◌≢◌, inl, inr, true, false, Option, none, some,
  List, [], ◌∷◌, arith,
}
use general_autonomy_protoco.Models.{
  Runtime, approved, StrategyProposal, GovernanceDecision, Crypto,
}
use mathlib.Core.Path.{subst}
use general_autonomy_protoco.Fabric.{ExecutionResult}
use general_autonomy_protoco.SelfEvolution.{SelfEvolutionMonitor, is_self_modifying, is_flagged}
use general_autonomy_protoco.Monitor.{type_or_unspecified}
use general_autonomy_protoco.CgaLoop.{
  new_loop, CgaLoop, CgaResult, finished, RunInput, FinalVerdict, integrity_hold, first_target,
  observed, held_by, flagged_by_integrity, flagged_by_evolution, integrity_hold_on, run, gate,
}
use general_autonomy_protoco.CgaLoop.Protocol.{
  Settles, Follows, reformulated, handed_over, settled, run-IsProtocol,
}

-- How a run ends that approves a modification, with the proposals that it made.
abbrev IsHeld :
    List StrategyProposal → FinalVerdict → Option StrategyProposal → Option ExecutionResult → Type 0
IsHeld ps v q x =
    (v ≡ integrity_hold) × (x ≡ none) × ((p : StrategyProposal) × (q ≡ some p) × Member p ps)

-- A loop that blocks and whose monitor flags the system holds what modifies the system.
held_by-flagged :
    (loop : CgaLoop) (p : StrategyProposal) (d : GovernanceDecision) (m : SelfEvolutionMonitor)
    → loop.block_on_integrity ≡ true
    → loop.self_evolution_monitor ≡ some m
    → is_flagged m ≡ some true
    → is_self_modifying m (some (type_or_unspecified d.action_type_id)) ≡ true
    → held_by loop d p ≢ some false
unfolding integrity_hold_on flagged_by_evolution
held_by-flagged loop p d m blocks monitored flagged modifies released =
    elim (Option-cases (
      flagged_by_integrity loop.integrity_monitor (type_or_unspecified d.action_type_id)
        (first_target p))) [
          | inl raises ↦ ground arith
          | inr (true, f) ↦ ground arith
          | inr (false, f) ↦ ground arith
        ]

module _ (C : Crypto) (R : Runtime) (now : ℕ) (m : SelfEvolutionMonitor)
    (flagged : is_flagged m ≡ some true) where
  settled-IsHeld :
      (loop : CgaLoop) (p : StrategyProposal) (d : GovernanceDecision) (v : FinalVerdict)
      (q : Option StrategyProposal) (x : Option ExecutionResult)
      → loop.block_on_integrity ≡ true
      → loop.self_evolution_monitor ≡ some m
      → is_self_modifying m (some (type_or_unspecified d.action_type_id)) ≡ true
      → Settles C R now loop p d v q x
      → IsHeld (p ∷ []) v q x
  settled-IsHeld loop p d v q x blocks monitored modifies s =
      let held = held_by-flagged loop p d m blocks monitored flagged modifies in
      elim s [
        | inl (ends, of_p, idle, h) ↦ (ends, idle, (p, of_p, inl refl))
        | inr (inl (ends, of_p, idle, free, high)) ↦ absurd (held free)
        | inr (inr (inl (ends, of_p, idle, free, low, stopped))) ↦ absurd (held free)
        | inr (inr (inr (ends, of_p, free, low, clear, done))) ↦ absurd (held free)
      ]

  Follows-IsHeld :
      (n : ℕ) (loop : CgaLoop) (ps : List StrategyProposal) (ds : List GovernanceDecision)
      (v : FinalVerdict) (q : Option StrategyProposal) (x : Option ExecutionResult)
      (d : GovernanceDecision)
      → loop.block_on_integrity ≡ true
      → loop.self_evolution_monitor ≡ some m
      → Follows C R now n loop ps ds v q x
      → Member d ds
      → d.verdict ≡ approved
      → is_self_modifying m (some (type_or_unspecified d.action_type_id)) ≡ true
      → IsHeld ps v q x
  Follows-IsHeld n loop [] [] v q x d b e f member app modifies = elim member [ ]
  Follows-IsHeld zero loop ps (d0 ∷ ds) v q x d b e f member app modifies = elim f [ ]
  Follows-IsHeld n loop [] (d0 ∷ ds) v q x d b e f member app modifies = elim f [ ]
  Follows-IsHeld n loop (p ∷ ps) [] v q x d b e f member app modifies = elim member [ ]
  Follows-IsHeld (suc n) loop (p ∷ ps) (d0 ∷ ds) v q x d b e (reformulated r f) (inl same) app
        modifies =
      ground arith
  Follows-IsHeld (suc n) loop (p ∷ ps) (d0 ∷ ds) v q x d b e (reformulated r f) (inr later) app
        modifies =
      let (ends, idle, (p', of_p, among)) =
        Follows-IsHeld n (observed loop d0 (first_target p)) ps ds v q x d b e f later app
          modifies in
      (ends, idle, (p', of_p, inr among))
  Follows-IsHeld (suc n) loop (p ∷ []) (d0 ∷ []) v q x d b e (handed_over r) (inl same) app
        modifies =
      ground arith
  Follows-IsHeld (suc n) loop (p ∷ []) (d0 ∷ []) v q x d b e (settled a s) (inl same) app modifies =
      settled-IsHeld (observed loop d0 (first_target p)) p d0 v q x b e
        (subst
          (λ (y : GovernanceDecision).
            is_self_modifying m (some (type_or_unspecified y.action_type_id)) ≡ true)
          same modifies)
        s
  Follows-IsHeld (suc n) loop (p ∷ []) (d0 ∷ []) v q x d b e (handed_over r) (inr none_left) app
        modifies =
      elim none_left [ ]
  Follows-IsHeld (suc n) loop (p ∷ []) (d0 ∷ []) v q x d b e (settled a s) (inr none_left) app
        modifies =
      elim none_left [ ]

-- In a new governed loop with a monitor that flags the system, a run that returns a result with a
-- decision that approves, and is of a type that modifies the system, has ended on an integrity
-- hold: it neither executes nor awaits approval, and its approved proposal is one of the run.
pub run-governed :
    (C : Crypto) (R : Runtime) (i : RunInput) (arguments : CgaLoop) (m : SelfEvolutionMonitor)
    (r : CgaResult) (d : GovernanceDecision)
    → arguments.governed ≡ true
    → arguments.self_evolution_monitor ≡ some m
    → is_flagged m ≡ some true
    → (run C R (new_loop arguments) i).0 ≡ finished r
    → Member d r.decisions
    → d.verdict ≡ approved
    → is_self_modifying m (some (type_or_unspecified d.action_type_id)) ≡ true
    → (r.final_verdict ≡ integrity_hold)
      × (r.execution_result ≡ none)
      × ((p : StrategyProposal) × (r.approved_proposal ≡ some p) × Member p r.proposals)
unfolding new_loop run gate
run-governed C R i arguments m r d governed monitored flagged e member app modifies =
    elim (Option-cases (gate (new_loop arguments) i)) [
      | inl passed ↦
          Follows-IsHeld C R i.now m flagged arguments.max_attempts (new_loop arguments) r.proposals
            r.decisions r.final_verdict r.approved_proposal r.execution_result d (ground arith)
            monitored (run-IsProtocol C R i (new_loop arguments) r passed e).follows member app
            modifies
      | inr (o, g) ↦ ground arith
    ]

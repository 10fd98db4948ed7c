-- ===== src/CgaLoop/Safety.antt =====
-- What an execution by the loop of constraint-guided autonomy took (strategy/cga_loop.py).
use general_autonomy_protoco.Prelude.{
  Bool-cases, Option-cases, Member, All, ℕ, suc, ◌+◌, ◌<◌, String, ◌≡◌, refl, sym, ap, ◌∙◌, ◌≢◌,
  ◌⊎◌, inl, inr, true, false, Option, none, some, List, [], ◌∷◌, ◌++◌, arith,
}
use general_autonomy_protoco.Models.{
  Runtime, approved, StrategyProposal, GovernanceDecision, Crypto,
}
use mathlib.Core.Path.{subst}
use general_autonomy_protoco.Policy.{GovernanceKernel}
use general_autonomy_protoco.Kernel.{evaluate_proposal}
use general_autonomy_protoco.Fabric
use general_autonomy_protoco.Fabric.{Fabric, ExecutionError, ExecutionResult, Result, ok, err}
use general_autonomy_protoco.CgaLoop.{
  CgaLoop, CgaResult, finished, RunInput, intents_of, Progress, first_target, observed,
  attempt_once, executed, escalated, integrity_hold_on, action_type_of,
}
use general_autonomy_protoco.CgaLoop.{run, gate}
use general_autonomy_protoco.CgaLoop.Rounds.{
  RoundEnsures, close_run-Ensures, IsRuled, next, attempt_once-Ensures, run-Ensures,
  route_approved-Ensures, route-Ensures,
}
use general_autonomy_protoco.Fabric.Guards.{level_rank}
use mathlib.Core.Path.{subst}
use general_autonomy_protoco.SelfEvolution.{SelfEvolutionMonitor, is_self_modifying, is_flagged}
use general_autonomy_protoco.Monitor.{type_or_unspecified}
use general_autonomy_protoco.CgaLoop.{flagged_by_integrity, flagged_by_evolution}
use general_autonomy_protoco.CgaLoop.{is_halted_for, held_by}
use general_autonomy_protoco.Resolver.{IntentDeclaration, is_ready_for_cga}
use general_autonomy_protoco.Policy.{get_active_constraints}
use general_autonomy_protoco.Policy.Active.{Upholds}
use general_autonomy_protoco.Kernel.Binding.{evaluate_proposal-bound}
use general_autonomy_protoco.Kernel.Outcome.{approved-Upholds}
use general_autonomy_protoco.Fabric.Guards.{IsAuthorized, execute-IsAuthorized}

last_Member : (ds : List GovernanceDecision) (d : GovernanceDecision) → Member d (ds ++ d ∷ [])
last_Member [] d = inl refl
last_Member (x ∷ ds) d = inr (last_Member ds d)

module _ (C : Crypto) (R : Runtime) (i : RunInput) (loop0 : CgaLoop) where
  -- The loop does not block, has no monitor of self-evolution, or the decision's action type is none
  -- that modifies the system, or the monitor does not flag the system.
  abbrev pub IsUnflagged : GovernanceDecision → Type 0
  IsUnflagged d =
      (loop0.block_on_integrity ≡ false)
      ⊎ (loop0.self_evolution_monitor ≡ none)
      ⊎ ((m : SelfEvolutionMonitor) × (loop0.self_evolution_monitor ≡ some m)
          × ((is_self_modifying m (some (type_or_unspecified d.action_type_id)) ≡ false)
              ⊎ (is_flagged m ≡ some false)))

  -- The kernel approved the proposal below L2 in the decision, the proposal upholds the constraints
  -- in force, and the guards of the fabric authorized the dispatch.
  pub record IsSanctioned (p : StrategyProposal) (d : GovernanceDecision) : Type 0 where
    pub action_type_id : Option String
    pub decision_id : String
    pub decided :
        evaluate_proposal C R loop0.governance p
          (intents_of i)
          i.world_state
          i.now
          action_type_id
          decision_id
        ≡ some d
    pub approved_by_kernel : d.verdict ≡ approved
    pub unflagged : IsUnflagged d
    pub autonomous : level_rank d.authorization_level < 2
    pub lawful :
        All
          (Upholds R p i.world_state)
          (get_active_constraints R loop0.governance (intents_of i) i.now)
    pub authorized : IsAuthorized C loop0.execution p d i.now

  -- The result either has no execution, or one that was sanctioned.
  abbrev IsSafe : CgaResult → Type 0
  IsSafe r =
      (r.execution_result ≡ none)
      ⊎ ((p : StrategyProposal) × (d : GovernanceDecision) × (r.approved_proposal ≡ some p)
          × (r.final_verdict ≡ executed)
          × Member d r.decisions
          × IsSanctioned p d
          × ((x : ExecutionResult) × (r.execution_result ≡ some x)
              × ((Fabric.execute C R loop0.execution p d i.now).0 ≡ ok x)))

  record IsKept (left : ℕ) (loop : CgaLoop) (pr : Progress) : Type 0 where
    fabric : loop.execution ≡ loop0.execution
    kernel : loop.governance ≡ loop0.governance
    blocking : loop.block_on_integrity ≡ loop0.block_on_integrity
    monitor : loop.self_evolution_monitor ≡ loop0.self_evolution_monitor

  unheld-Unflagged :
      (loop : CgaLoop) (p : StrategyProposal) (d : GovernanceDecision)
      → integrity_hold_on loop d p ≡ some false
      → (m : SelfEvolutionMonitor) → loop.self_evolution_monitor ≡ some m
      → (is_self_modifying m (some (type_or_unspecified d.action_type_id)) ≡ false)
        ⊎ (is_flagged m ≡ some false)
  unfolding integrity_hold_on flagged_by_evolution
  unheld-Unflagged loop p d h m e =
      let action_type = type_or_unspecified d.action_type_id in
      elim (Option-cases
        (flagged_by_integrity loop.integrity_monitor action_type (first_target p))) [
          | inl raises ↦ ground arith
          | inr (held, f) ↦ elim (Bool-cases (is_self_modifying m (some action_type))) [
            | inr other ↦ inl other
            | inl modifies ↦ inr (ground arith)
          ]
        ]

  unflagged :
      {left : ℕ} {pr : Progress} (loop : CgaLoop) (p : StrategyProposal) (d : GovernanceDecision)
      → IsKept left loop pr
      → held_by (observed loop d (first_target p)) d p ≡ some false
      → IsUnflagged d
  unflagged loop p d o h = elim (Bool-cases loop.block_on_integrity) [
    | inr open_loop ↦ inl (ground (arith, o.blocking))
    | inl blocks ↦ elim (Option-cases loop.self_evolution_monitor) [
      | inl without ↦ inr (inl (ground (arith, o.monitor)))
      | inr (m, e) ↦ inr (
          inr (
            m,
            sym o.monitor ∙ e,
            unheld-Unflagged (observed loop d (first_target p)) p d (ground arith) m e,
          ))
    ]
  ]

  sanctioned :
      {left : ℕ} (loop : CgaLoop) (pr : Progress) (p : StrategyProposal) (d : GovernanceDecision)
      (x : ExecutionResult) (f : Fabric)
      → IsKept left loop pr
      → IsRuled C R i loop pr p d
      → d.verdict ≡ approved
      → level_rank d.authorization_level < 2
      → Fabric.execute C R loop.execution p d i.now ≡ (ok x, f)
      → IsUnflagged d
      → IsSanctioned p d
  sanctioned loop pr p d x f o ruled v low done clear =
      let h =
        subst
          (λ (k : GovernanceKernel).
            evaluate_proposal C R k p (intents_of i) i.world_state i.now (action_type_of loop i p)
              (i.decision_id (pr.attempt + 1))
            ≡ some d)
          o.kernel ruled.evaluated in
      let (same_id, same_digest, (r, evaluated, same_verdict, same_level)) =
        evaluate_proposal-bound C R loop0.governance p (intents_of i) i.world_state i.now
          (action_type_of loop i p) (i.decision_id (pr.attempt + 1)) d h in
      record {
        action_type_id = action_type_of loop i p;
        decision_id = i.decision_id (pr.attempt + 1);
        decided = h;
        approved_by_kernel = v;
        unflagged = clear;
        autonomous = low;
        lawful =
            approved-Upholds R loop0.governance p (intents_of i) i.world_state i.now
              (action_type_of loop i p) (i.decision_id (pr.attempt + 1)) r evaluated (ground arith);
        authorized =
            subst (λ (g : Fabric). IsAuthorized C g p d i.now) o.fabric
              (execute-IsAuthorized C R loop.execution p d i.now x
                (ap (λ (a : Result ExecutionResult × Fabric). a.0) done));
      }

  round :
      (left : ℕ) (loop : CgaLoop) (pr : Progress)
      → IsKept (suc left) loop pr
      → RoundEnsures IsSafe (IsKept left) (attempt_once C R i loop pr)
  round left loop pr o = attempt_once-Ensures C R i IsSafe (IsKept left) loop pr (λ p d ruled.
      route-Ensures C R IsSafe (IsKept left) (observed loop d (first_target p)) i.now
        (next C R i pr p d) p d
        (λ v.
          route_approved-Ensures C R IsSafe (IsKept left) (observed loop d (first_target p)) i.now
            (next C R i pr p d) p d (λ b s. inl refl) (λ u h s. inl refl) (λ u h k s. inl refl)
            (λ unheld low clear x f done s. inr (
              p,
              d,
              refl,
              refl,
              last_Member pr.decisions d,
              sanctioned loop pr p d x f o ruled v low done (unflagged loop p d o unheld),
              (
                x,
                refl,
                subst (λ (g : Fabric). (Fabric.execute C R g p d i.now).0 ≡ ok x) o.fabric
                    (ap (λ (a : Result ExecutionResult × Fabric). a.0) done),
              ),
            )))
        (λ v. record {
          fabric = o.fabric;
          kernel = o.kernel;
          blocking = o.blocking;
          monitor = o.monitor;
        })
        (λ v s. inl refl))

  -- An execution in the result of a run was sanctioned: it is the answer of the loop's fabric to
  -- the approved proposal, which the loop's kernel approved below L2 in one of the run's decisions,
  -- which upholds every hard constraint in force, and which the guards of the fabric authorized. In
  -- a loop that blocks on integrity and has a monitor of self-evolution, the decision is not of a
  -- type that modifies the system, or the monitor does not flag the system.
  pub run-IsSanctioned :
      (r : CgaResult) (x : ExecutionResult)
      → (run C R loop0 i).0 ≡ finished r
      → r.execution_result ≡ some x
      → (p : StrategyProposal) × (d : GovernanceDecision) × (r.approved_proposal ≡ some p)
        × (r.final_verdict ≡ executed)
        × Member d r.decisions
        × IsSanctioned p d
        × ((Fabric.execute C R loop0.execution p d i.now).0 ≡ ok x)
  unfolding run gate
  run-IsSanctioned r x e has = elim (Option-cases (gate loop0 i)) [
    | inr (o, g) ↦ ground arith
    | inl passed ↦
        elim (run-Ensures C R i IsSafe IsKept loop0 r round
          (λ l pr k. close_run-Ensures IsSafe l pr escalated none none (λ s. inl refl))
          (record { fabric = refl; kernel = refl; blocking = refl; monitor = refl }) passed e) [
            | inl without ↦ ground arith
            | inr (p, d, same, verdict, member, sanction, (x', has', done)) ↦ (
              p,
              d,
              same,
              verdict,
              member,
              sanction,
              let answer : x' ≡ x = ground arith in
                  subst
                    (λ (y : ExecutionResult).
                      (Fabric.execute C R loop0.execution p d i.now).0 ≡ ok y)
                    answer done,
            )
          ]
  ]

-- A run that made an attempt was let in: the look for a halt found none that covers the drift
-- event, and the declaration is ready for the loop or, in a loop that is not governed, absent.
pub run-engaged :
    (C : Crypto) (R : Runtime) (loop : CgaLoop) (i : RunInput) (r : CgaResult)
    → (run C R loop i).0 ≡ finished r
    → r.total_attempts ≢ 0
    → (is_halted_for loop.kill_switch i.drift_event ≡ some false)
      × (((i.intent_declaration ≡ none) × (loop.governed ≡ false))
          ⊎ ((d : IntentDeclaration) × (i.intent_declaration ≡ some d)
              × (is_ready_for_cga loop.system_identity d i.standing i.now ≡ true)))
unfolding run gate
run-engaged C R loop i r e attempted = elim (Option-cases i.intent_declaration) [
  | inl absent ↦ (ground arith, inl (absent, ground arith))
  | inr (d, present) ↦ (ground arith, inr (d, present, ground arith))
]

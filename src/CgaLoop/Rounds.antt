-- ===== src/CgaLoop/Rounds.antt =====
-- The shape of a run of the loop (strategy/cga_loop.py): its rounds, taken apart.
use general_autonomy_protoco.Prelude.{
  if◌then◌else◌, Option-cases, ℕ, zero, suc, ◌+◌, ◌≤◌, ◌<◌, ◌≡◌, refl, sym, ◌↔◌, inl, inr, Bool,
  true, false, Option, none, some, List, [], ◌∷◌, ◌++◌, arith,
}
use general_autonomy_protoco.Models.{
  Runtime, GovernanceVerdict, approved, rejected, escalate, needs_oob-rank, StrategyProposal,
  GovernanceDecision, Crypto,
}
use mathlib.Core.Path.{subst}
use general_autonomy_protoco.Kernel.{evaluate_proposal}
use general_autonomy_protoco.Fabric
use general_autonomy_protoco.Fabric.{Fabric, ExecutionError, ExecutionResult, Result, ok, err}
use general_autonomy_protoco.Monitor.{IntegritySignal}
use general_autonomy_protoco.Fabric.Guards.{level_rank}
use general_autonomy_protoco.CgaLoop.{
  run, gate, fresh_progress, lesson_of, dispatched, route_approved, dispatch_approved,
  after_execution, needs_human, held_by, awaiting_approval, halted, integrity_hold, CgaLoop,
  FinalVerdict, CgaResult, Outcome, finished, raised, RunInput, intents_of, Progress, close_run,
  Round, stop, again, first_target, observed, route, attempt_once, attempts, executed, escalated,
  is_halted_now, CgaError, action_type_of, signals_of,
}

-- What a result has to satisfy, if the run returns one.
abbrev pub Ensures : (CgaResult → Type 0) → Outcome → Type 0
Ensures P (finished r) = P r
Ensures P (raised e) = Unit

-- A round ends with such an outcome, or hands on what the loop keeps.
abbrev pub RoundEnsures : (CgaResult → Type 0) → (CgaLoop → Progress → Type 0) → Round → Type 0
RoundEnsures P Inv (stop o l) = Ensures P o
RoundEnsures P Inv (again pr l) = Inv l pr

-- The result of a run that ends in this way, less its signals.
abbrev pub result_of :
    Progress
    → FinalVerdict
    → Option StrategyProposal
    → Option ExecutionResult
    → List IntegritySignal
    → CgaResult
result_of pr verdict p x signals = record {
  proposals = pr.proposals;
  decisions = pr.decisions;
  accumulated_constraints = pr.accumulated;
  final_verdict = verdict;
  approved_proposal = p;
  execution_result = x;
  total_attempts = pr.attempt;
  integrity_signals = signals;
}

pub close_run-Ensures :
    (P : CgaResult → Type 0) (loop : CgaLoop) (pr : Progress) (v : FinalVerdict)
    (p : Option StrategyProposal) (x : Option ExecutionResult)
    → ((signals : List IntegritySignal) → P (result_of pr v p x signals))
    → Ensures P (close_run loop pr v p x)
unfolding close_run
close_run-Ensures P loop pr v p x h =
    elim (signals_of loop.integrity_monitor)
      as (λ (s : Option (List IntegritySignal)). Ensures P (elim s [
        | none ↦ raised CgaError.detection_failed
        | some signals ↦ finished (result_of pr v p x signals)
      ])) [ none ↦ tt | some signals ↦ h signals ]

if_RoundEnsures :
    (P : CgaResult → Type 0) (Inv : CgaLoop → Progress → Type 0) (test : Bool) (x y : Round)
    → (test ≡ true → RoundEnsures P Inv x)
    → (test ≡ false → RoundEnsures P Inv y)
    → RoundEnsures P Inv (if test then x else y)
if_RoundEnsures P Inv true x y h k = h refl
if_RoundEnsures P Inv false x y h k = k refl

needs_human-rank :
    (d : GovernanceDecision) → ((needs_human d ≡ true) ↔ (2 ≤ level_rank d.authorization_level))
needs_human-rank d = elim (Option-cases d.authorization_level) [
  | inl e ↦ ground arith
  | inr (l, e) ↦ ground (arith, needs_oob-rank l)
]

module _ (C : Crypto) (R : Runtime) (P : CgaResult → Type 0) (Inv : CgaLoop → Progress → Type 0)
    (loop : CgaLoop) (now : ℕ) (pr : Progress) (p : StrategyProposal) (d : GovernanceDecision) where
  executed-Ensures :
      ((x : ExecutionResult) (f : Fabric)
        → Fabric.execute C R loop.execution p d now ≡ (ok x, f)
        → (s : List IntegritySignal) → P (result_of pr executed (some p) (some x) s))
      → (answer : Result ExecutionResult × Fabric)
      → Fabric.execute C R loop.execution p d now ≡ answer
      → RoundEnsures P Inv (after_execution loop pr p d answer)
  unfolding after_execution
  executed-Ensures h (err e, f) same = tt
  executed-Ensures h (ok x, f) same =
      close_run-Ensures P (dispatched loop f x p d) pr executed (some p) (some x) (h x f same)

  -- What has to be shown of a round whose decision approves.
  pub route_approved-Ensures :
      (held_by loop d p ≡ some true
        → (s : List IntegritySignal) → P (result_of pr integrity_hold (some p) none s))
      → (held_by loop d p ≡ some false
          → 2 ≤ level_rank d.authorization_level
          → (s : List IntegritySignal) → P (result_of pr awaiting_approval (some p) none s))
      → (held_by loop d p ≡ some false
          → level_rank d.authorization_level < 2
          → is_halted_now loop.kill_switch p.actions ≡ true
          → (s : List IntegritySignal) → P (result_of pr halted none none s))
      → (held_by loop d p ≡ some false
          → level_rank d.authorization_level < 2
          → is_halted_now loop.kill_switch p.actions ≡ false
          → (x : ExecutionResult) → (f : Fabric)
          → Fabric.execute C R loop.execution p d now ≡ (ok x, f)
          → (s : List IntegritySignal) → P (result_of pr executed (some p) (some x) s))
      → RoundEnsures P Inv (route_approved C R loop now pr p d)
  unfolding route_approved dispatch_approved
  route_approved-Ensures held awaiting stopped done = elim (Option-cases (held_by loop d p)) [
    | inl e ↦ subst (λ (o : Option Bool). RoundEnsures P Inv (resolve o)) (sym e) tt
    | inr (b, e) ↦
        subst (λ (o : Option Bool). RoundEnsures P Inv (resolve o)) (sym e)
          (if_RoundEnsures P Inv b _ _
            (λ t. close_run-Ensures P loop pr integrity_hold (some p) none (held (ground arith)))
            (λ t.
              if_RoundEnsures P Inv (needs_human d) _ _
                (λ high.
                  close_run-Ensures P loop pr awaiting_approval (some p) none
                    (awaiting (ground arith) ((needs_human-rank d).0 high)))
                (λ low.
                  let below : level_rank d.authorization_level < 2 =
                    ground (arith, (needs_human-rank d).1) in
                  if_RoundEnsures P Inv (is_halted_now loop.kill_switch p.actions) _ _
                    (λ s.
                      close_run-Ensures P loop pr halted none none (stopped (ground arith) below s))
                    (λ s.
                      executed-Ensures (done (ground arith) below s)
                        (Fabric.execute C R loop.execution p d now) refl))))
  ]
    where
      resolve : Option Bool → Round
      resolve none = stop (raised CgaError.detection_failed) loop
      resolve (some b) = dispatch_approved C R loop now pr p d b

  -- What has to be shown of a round, by the verdict of its decision.
  pub route-Ensures :
      (d.verdict ≡ approved → RoundEnsures P Inv (route_approved C R loop now pr p d))
      → (d.verdict ≡ rejected
          → Inv loop (record pr { accumulated = pr.accumulated ++ lesson_of d ∷ [] }))
      → (d.verdict ≡ escalate → (s : List IntegritySignal) → P (result_of pr escalated none none s))
      → RoundEnsures P Inv (route C R loop now pr p d)
  unfolding route
  route-Ensures h k g = by_verdict d.verdict refl
    where
      on_verdict : GovernanceVerdict → Round
      on_verdict v = elim v [
        | approved ↦ route_approved C R loop now pr p d
        | escalate ↦ stop (close_run loop pr escalated none none) loop
        | rejected ↦ again (record pr { accumulated = pr.accumulated ++ lesson_of d ∷ [] }) loop
      ]

      by_verdict : (v : GovernanceVerdict) → d.verdict ≡ v → RoundEnsures P Inv (on_verdict v)
      by_verdict approved e = h e
      by_verdict rejected e = k e
      by_verdict escalate e = close_run-Ensures P loop pr escalated none none (g e)

module _ (C : Crypto) (R : Runtime) (i : RunInput) where
  -- The generator proposes and the kernel rules, in the loop's next attempt.
  pub record IsRuled (loop : CgaLoop) (pr : Progress) (p : StrategyProposal)
      (d : GovernanceDecision) : Type 0 where
    pub generated :
        loop.strategy_gen i.intent i.world_state i.drift_event pr.accumulated pr.proposals
          (pr.attempt + 1)
        ≡ some p
    pub evaluated :
        evaluate_proposal C R loop.governance p
          (intents_of i)
          i.world_state
          i.now
          (action_type_of loop i p)
          (i.decision_id (pr.attempt + 1))
        ≡ some d

  abbrev pub next : Progress → StrategyProposal → GovernanceDecision → Progress
  next pr p d = record pr {
    proposals = pr.proposals ++ p ∷ [];
    decisions = pr.decisions ++ d ∷ [];
    attempt = pr.attempt + 1;
  }

  -- The parts of a round: the proposal, the decision, and what follows from each.
  abbrev generated_by : CgaLoop → Progress → Option StrategyProposal
  generated_by loop pr =
      loop.strategy_gen i.intent i.world_state i.drift_event pr.accumulated pr.proposals
        (pr.attempt + 1)

  abbrev ruled_by : CgaLoop → Progress → StrategyProposal → Option GovernanceDecision
  ruled_by loop pr p =
      evaluate_proposal C R loop.governance p (intents_of i) i.world_state i.now
        (action_type_of loop i p) (i.decision_id (pr.attempt + 1))

  abbrev respond : CgaLoop → Progress → StrategyProposal → Option GovernanceDecision → Round
  respond loop pr p o = elim o [
    | none ↦ stop (raised CgaError.evaluation_failed) loop
    | some d ↦ route C R (observed loop d (first_target p)) i.now (next pr p d) p d
  ]

  abbrev submit : CgaLoop → Progress → Option StrategyProposal → Round
  submit loop pr o = elim o [
    | none ↦ stop (raised CgaError.generation_failed) loop
    | some p ↦ respond loop pr p (ruled_by loop pr p)
  ]

  pub attempt_once-Ensures :
      (P : CgaResult → Type 0) (Inv : CgaLoop → Progress → Type 0) (loop : CgaLoop) (pr : Progress)
      → ((p : StrategyProposal) (d : GovernanceDecision)
          → IsRuled loop pr p d
          → RoundEnsures P Inv
              (route C R (observed loop d (first_target p)) i.now (next pr p d) p d))
      → RoundEnsures P Inv (attempt_once C R i loop pr)
  unfolding attempt_once
  attempt_once-Ensures P Inv loop pr h = elim (Option-cases (generated_by loop pr)) [
    | inl e ↦
        subst (λ (o : Option StrategyProposal). RoundEnsures P Inv (submit loop pr o)) (sym e) tt
    | inr (p, e) ↦
        subst (λ (o : Option StrategyProposal). RoundEnsures P Inv (submit loop pr o)) (sym e)
          (elim (Option-cases (ruled_by loop pr p)) [
            | inl f ↦
                subst (λ (o : Option GovernanceDecision). RoundEnsures P Inv (respond loop pr p o))
                  (sym f) tt
            | inr (d, f) ↦
                subst (λ (o : Option GovernanceDecision). RoundEnsures P Inv (respond loop pr p o))
                  (sym f) (h p d (record { generated = e; evaluated = f }))
          ])
  ]

  -- What the loop makes of a round.
  abbrev after : ℕ → Round → Outcome × CgaLoop
  after left r = elim r [ stop o l ↦ (o, l) | again pr' l ↦ attempts C R i left l pr' ]

  pub attempts-Ensures :
      (P : CgaResult → Type 0) (Inv : ℕ → CgaLoop → Progress → Type 0)
      → ((left : ℕ) (loop : CgaLoop) (pr : Progress)
          → Inv (suc left) loop pr
          → RoundEnsures P (Inv left) (attempt_once C R i loop pr))
      → ((loop : CgaLoop) (pr : Progress)
          → Inv 0 loop pr
          → Ensures P (close_run loop pr escalated none none))
      → (left : ℕ) → (loop : CgaLoop) → (pr : Progress) → Inv left loop pr
      → Ensures P (attempts C R i left loop pr).0
  unfolding attempts
  attempts-Ensures P Inv round over zero loop pr inv = over loop pr inv
  attempts-Ensures P Inv round over (suc left) loop pr inv =
      continue (λ l pr' h. attempts-Ensures P Inv round over left l pr' h)
        (attempt_once C R i loop pr) (round left loop pr inv)
    where
      continue :
          ((l : CgaLoop) (pr' : Progress)
            → Inv left l pr'
            → Ensures P (attempts C R i left l pr').0)
          → (r : Round) → RoundEnsures P (Inv left) r
          → Ensures P (after left r).0
      continue ih (stop o l) h = h
      continue ih (again pr' l) h = ih l pr' h

  -- A property of the results of a run that its gate lets pass, by an invariant of the loop.
  pub run-Ensures :
      (P : CgaResult → Type 0) (Inv : ℕ → CgaLoop → Progress → Type 0) (loop : CgaLoop)
      (r : CgaResult)
      → ((left : ℕ) (l : CgaLoop) (pr : Progress)
          → Inv (suc left) l pr
          → RoundEnsures P (Inv left) (attempt_once C R i l pr))
      → ((l : CgaLoop) (pr : Progress)
          → Inv 0 l pr
          → Ensures P (close_run l pr escalated none none))
      → Inv loop.max_attempts loop fresh_progress
      → gate loop i ≡ none
      → (run C R loop i).0 ≡ finished r
      → P r
  unfolding run
  run-Ensures P Inv loop r round over start passed e =
      let same : (attempts C R i loop.max_attempts loop fresh_progress).0 ≡ finished r =
        ground arith in
      subst (Ensures P) same
        (attempts-Ensures P Inv round over loop.max_attempts loop fresh_progress start)

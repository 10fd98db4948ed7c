-- ===== src/CgaLoop/Protocol.antt =====
-- The loop of constraint-guided autonomy (strategy/cga_loop.py) and its protocol: generate, evaluate,
-- and dispatch, reformulate or escalate.
use general_autonomy_protoco.Prelude.{
  if◌then◌else◌, Option-cases, length, select, length-append, ℕ, zero, suc, ◌+◌, ◌≤◌, ◌<◌, ◌≡◌,
  refl, sym, ap, ◌≢◌, ◌⊎◌, inl, inr, Bool, true, false, Option, none, some, List, [], ◌∷◌, ◌++◌,
  map, arith,
}
use general_autonomy_protoco.Models.{
  Runtime, approved, rejected, escalate, StrategyProposal, GovernanceDecision, Crypto,
}
use mathlib.Core.Path.{subst}
use general_autonomy_protoco.Fabric
use general_autonomy_protoco.Fabric.{ExecutionResult, ok}
use general_autonomy_protoco.Monitor.{IntegritySignal}
use general_autonomy_protoco.Strategy.{AccumulatedConstraint}
use general_autonomy_protoco.CgaLoop.{
  CgaLoop, FinalVerdict, CgaResult, finished, RunInput, Progress, close_run, first_target, observed,
  attempt_once, executed, escalated,
}
use general_autonomy_protoco.CgaLoop.{
  run, gate, held_by, is_halted_now, lesson_of, route_approved, awaiting_approval, halted,
  integrity_hold, fresh_progress,
}
use general_autonomy_protoco.CgaLoop.Rounds.{
  Ensures, RoundEnsures, result_of, close_run-Ensures, next, attempt_once-Ensures, run-Ensures,
  route_approved-Ensures, route-Ensures,
}
use general_autonomy_protoco.Fabric.Guards.{level_rank}
use mathlib.Core.List.{append-nil, append_assoc, map-append}

module _ (C : Crypto) (R : Runtime) (now : ℕ) where
  -- How a run ends once a decision approves, with its approved proposal and its execution result.
  -- (A hold comes before the question for a human, and both before the last look at the switch.)
  abbrev pub Settles :
      CgaLoop
      → StrategyProposal
      → GovernanceDecision
      → FinalVerdict
      → Option StrategyProposal
      → Option ExecutionResult
      → Type 0
  Settles loop p d v q x =
      ((v ≡ integrity_hold) × (q ≡ some p) × (x ≡ none) × (held_by loop d p ≡ some true))
      ⊎ ((v ≡ awaiting_approval)
          × (q ≡ some p)
          × (x ≡ none)
          × (held_by loop d p ≡ some false)
          × (2 ≤ level_rank d.authorization_level))
      ⊎ ((v ≡ halted)
          × (q ≡ none)
          × (x ≡ none)
          × (held_by loop d p ≡ some false)
          × (level_rank d.authorization_level < 2)
          × (is_halted_now loop.kill_switch p.actions ≡ true))
      ⊎ ((v ≡ executed)
          × (q ≡ some p)
          × (held_by loop d p ≡ some false)
          × (level_rank d.authorization_level < 2)
          × (is_halted_now loop.kill_switch p.actions ≡ false)
          × ((r : ExecutionResult) × (x ≡ some r)
              × ((Fabric.execute C R loop.execution p d now).0 ≡ ok r)))

  -- The protocol, by the attempts that are left and the loop as the monitor has left it: the
  -- proposals and the decisions of a run, its final verdict, its approved proposal and its execution
  -- result.
  pub data Follows
      : ℕ
        → CgaLoop
        → List StrategyProposal
        → List GovernanceDecision
        → FinalVerdict
        → Option StrategyProposal
        → Option ExecutionResult
        → Type 0 where
    exhausted : {l : CgaLoop} → Follows zero l [] [] escalated none none
    reformulated :
        {n : ℕ} {l : CgaLoop} {p : StrategyProposal} {d : GovernanceDecision}
        {ps : List StrategyProposal} {ds : List GovernanceDecision} {v : FinalVerdict}
        {q : Option StrategyProposal} {x : Option ExecutionResult}
        → d.verdict ≡ rejected
        → Follows n (observed l d (first_target p)) ps ds v q x
        → Follows (suc n) l (p ∷ ps) (d ∷ ds) v q x
    handed_over :
        {n : ℕ} {l : CgaLoop} {p : StrategyProposal} {d : GovernanceDecision}
        → d.verdict ≡ escalate
        → Follows (suc n) l (p ∷ []) (d ∷ []) escalated none none
    settled :
        {n : ℕ} {l : CgaLoop} {p : StrategyProposal} {d : GovernanceDecision} {v : FinalVerdict}
        {q : Option StrategyProposal} {x : Option ExecutionResult}
        → d.verdict ≡ approved
        → Settles (observed l d (first_target p)) p d v q x
        → Follows (suc n) l (p ∷ []) (d ∷ []) v q x

abbrev pub is_rejected : GovernanceDecision → Bool
is_rejected d = elim d.verdict [ approved ↦ false | rejected ↦ true | escalate ↦ false ]

-- The result accounts for the decisions: one proposal and one attempt for each, and one lesson for
-- each rejection, in their order.
pub record IsAccounted (proposals : List StrategyProposal) (decisions : List GovernanceDecision)
    (accumulated : List AccumulatedConstraint) (attempt : ℕ) : Type 0 where
  pub proposed : length proposals ≡ attempt
  pub decided : length decisions ≡ attempt
  pub learned : accumulated ≡ map lesson_of (select is_rejected decisions)

select-append :
    (ds : List GovernanceDecision) (d : GovernanceDecision)
    → select is_rejected (ds ++ d ∷ [])
      ≡ select is_rejected ds ++ (if is_rejected d then d ∷ [] else [])
select-append [] d = ground arith
select-append (x ∷ ds) d = ground (arith, select-append ds d)

account :
    (ps : List StrategyProposal) (ds : List GovernanceDecision) (acc : List AccumulatedConstraint)
    (n : ℕ) (p : StrategyProposal) (d : GovernanceDecision)
    → d.verdict ≢ rejected
    → IsAccounted ps ds acc n
    → IsAccounted (ps ++ p ∷ []) (ds ++ d ∷ []) acc (n + 1)
account ps ds acc n p d other a = record {
  proposed = ground (arith, length-append ps (p ∷ []), a.proposed);
  decided = ground (arith, length-append ds (d ∷ []), a.decided);
  learned =
      let unchanged : select is_rejected (ds ++ d ∷ []) ≡ select is_rejected ds =
        ground (arith, select-append ds d, append-nil (select is_rejected ds)) in
      rw unchanged a.learned;
}

account_rejected :
    (ps : List StrategyProposal) (ds : List GovernanceDecision) (acc : List AccumulatedConstraint)
    (n : ℕ) (p : StrategyProposal) (d : GovernanceDecision)
    → d.verdict ≡ rejected
    → IsAccounted ps ds acc n
    → IsAccounted (ps ++ p ∷ []) (ds ++ d ∷ []) (acc ++ lesson_of d ∷ []) (n + 1)
account_rejected ps ds acc n p d e a = record {
  proposed = ground (arith, length-append ps (p ∷ []), a.proposed);
  decided = ground (arith, length-append ds (d ∷ []), a.decided);
  learned =
      let longer : select is_rejected (ds ++ d ∷ []) ≡ select is_rejected ds ++ d ∷ [] =
        ground (arith, select-append ds d) in
      rw longer (
        rw (map-append lesson_of (select is_rejected ds) (d ∷ []))
          (ap (λ (l : List AccumulatedConstraint). l ++ lesson_of d ∷ []) a.learned));
}

module _ (C : Crypto) (R : Runtime) (i : RunInput) (loop0 : CgaLoop) where
  -- The protocol of a run of the loop, from its start.
  abbrev FromStart :
      List StrategyProposal
      → List GovernanceDecision
      → FinalVerdict
      → Option StrategyProposal
      → Option ExecutionResult
      → Type 0
  FromStart = Follows C R i.now loop0.max_attempts loop0

  -- What the run keeps, by the attempts that are left.
  record IsOngoing (left : ℕ) (loop : CgaLoop) (pr : Progress) : Type 0 where
    accounted : IsAccounted pr.proposals pr.decisions pr.accumulated pr.attempt
    so_far :
        (ps : List StrategyProposal) (ds : List GovernanceDecision) (v : FinalVerdict)
        (q : Option StrategyProposal) (x : Option ExecutionResult)
        → Follows C R i.now left loop ps ds v q x
        → FromStart (pr.proposals ++ ps) (pr.decisions ++ ds) v q x

  -- What a result has to satisfy.
  pub record IsProtocol (r : CgaResult) : Type 0 where
    pub follows :
        Follows C R i.now loop0.max_attempts loop0 r.proposals r.decisions r.final_verdict
          r.approved_proposal r.execution_result
    pub accounted : IsAccounted r.proposals r.decisions r.accumulated_constraints r.total_attempts

  over :
      (loop : CgaLoop) (pr : Progress)
      → IsOngoing 0 loop pr
      → Ensures IsProtocol (close_run loop pr escalated none none)
  over loop pr o = close_run-Ensures IsProtocol loop pr escalated none none (λ s. record {
    follows =
        subst (λ (l : List StrategyProposal). FromStart l pr.decisions escalated none none)
          (append-nil pr.proposals)
          (subst
            (λ (l : List GovernanceDecision). FromStart (pr.proposals ++ []) l escalated none none)
            (append-nil pr.decisions) (o.so_far [] [] escalated none none exhausted));
    accounted = o.accounted;
  })

  -- A run that ends with the decision.
  ended :
      (left : ℕ) (loop : CgaLoop) (pr : Progress) (p : StrategyProposal) (d : GovernanceDecision)
      (v : FinalVerdict) (q : Option StrategyProposal) (x : Option ExecutionResult)
      → IsOngoing (suc left) loop pr
      → Follows C R i.now (suc left) loop (p ∷ []) (d ∷ []) v q x
      → d.verdict ≢ rejected
      → (s : List IntegritySignal) → IsProtocol (result_of (next C R i pr p d) v q x s)
  ended left loop pr p d v q x o f other s = record {
    follows = o.so_far (p ∷ []) (d ∷ []) v q x f;
    accounted = account pr.proposals pr.decisions pr.accumulated pr.attempt p d other o.accounted;
  }

  module _ (left : ℕ) (loop : CgaLoop) (pr : Progress) (p : StrategyProposal)
      (d : GovernanceDecision) (o : IsOngoing (suc left) loop pr) where
    approved_round :
        d.verdict ≡ approved
        → RoundEnsures IsProtocol
            (IsOngoing left)
            (route_approved C R (observed loop d (first_target p)) i.now (next C R i pr p d) p d)
    approved_round e =
        let other : d.verdict ≢ rejected = ground arith in
        route_approved-Ensures C R IsProtocol (IsOngoing left) (observed loop d (first_target p))
          i.now (next C R i pr p d) p d
          (λ held.
            ended left loop pr p d integrity_hold (some p) none o
              (settled e (inl (refl, refl, refl, held))) other)
          (λ unheld high.
            ended left loop pr p d awaiting_approval (some p) none o
              (settled e (inr (inl (refl, refl, refl, unheld, high)))) other)
          (λ unheld low stopped.
            ended left loop pr p d halted none none o
              (settled e (inr (inr (inl (refl, refl, refl, unheld, low, stopped))))) other)
          (λ unheld low clear x f done.
            ended left loop pr p d executed (some p) (some x) o
              (settled e
                (inr (inr (inr (refl, refl, unheld, low, clear, (x, refl, ap (λ a. a.0) done))))))
              other)

    rejected_round :
        d.verdict ≡ rejected
        → IsOngoing left
            (observed loop d (first_target p))
            (record (next C R i pr p d) { accumulated = pr.accumulated ++ lesson_of d ∷ [] })
    rejected_round e = record {
      accounted =
          account_rejected pr.proposals pr.decisions pr.accumulated pr.attempt p d e o.accounted;
      so_far = λ ps ds v q x f.
          subst (λ (l : List StrategyProposal). FromStart l ((pr.decisions ++ d ∷ []) ++ ds) v q x)
            (sym (append_assoc pr.proposals (p ∷ []) ps))
            (subst (λ (l : List GovernanceDecision). FromStart (pr.proposals ++ p ∷ ps) l v q x)
              (sym (append_assoc pr.decisions (d ∷ []) ds))
              (o.so_far (p ∷ ps) (d ∷ ds) v q x (reformulated e f)));
    }

  round :
      (left : ℕ) (loop : CgaLoop) (pr : Progress)
      → IsOngoing (suc left) loop pr
      → RoundEnsures IsProtocol (IsOngoing left) (attempt_once C R i loop pr)
  round left loop pr o =
      attempt_once-Ensures C R i IsProtocol (IsOngoing left) loop pr (λ p d ruled.
        route-Ensures C R IsProtocol (IsOngoing left) (observed loop d (first_target p)) i.now
          (next C R i pr p d) p d (approved_round left loop pr p d o)
          (rejected_round left loop pr p d o)
          (λ e. ended left loop pr p d escalated none none o (handed_over e) (ground arith)))

  start : IsOngoing loop0.max_attempts loop0 fresh_progress
  start = record {
    accounted = record { proposed = refl; decided = refl; learned = refl };
    so_far = λ ps ds v q x f. f;
  }

  -- A run that its gate lets pass and that returns a result follows the protocol, for which each
  -- decision is first shown to the monitor of integrity. A rejection is followed by the next
  -- attempt, and the end of the attempts and an escalation end the run as escalated, with no
  -- approved proposal and no execution. An approval ends it: as held, exactly on an integrity hold;
  -- else, at L2 or above, as awaiting approval; else, where the kill-switch is engaged globally or
  -- for a target, as halted with no approved proposal; else as executed, with the result that the
  -- fabric returns for the proposal and the decision. A held proposal and one that awaits approval
  -- are in the result, unexecuted. The result has one proposal and one attempt for each decision,
  -- and one accumulated constraint for each rejection, in their order.
  pub run-IsProtocol :
      (r : CgaResult) → gate loop0 i ≡ none → (run C R loop0 i).0 ≡ finished r → IsProtocol r
  run-IsProtocol r = run-Ensures C R i IsProtocol IsOngoing loop0 r round over start

Follows-length :
    (C : Crypto) (R : Runtime) (now n : ℕ) (l : CgaLoop) (ps : List StrategyProposal)
    (ds : List GovernanceDecision) (v : FinalVerdict) (q : Option StrategyProposal)
    (x : Option ExecutionResult)
    → Follows C R now n l ps ds v q x
    → length ds ≤ n
Follows-length C R now zero l [] [] v q x exhausted = ground arith
Follows-length C R now zero l [] (d ∷ ds) v q x f = elim f [ ]
Follows-length C R now zero l (p ∷ ps) ds v q x f = elim f [ ]
Follows-length C R now (suc n) l [] ds v q x f = elim f [ ]
Follows-length C R now (suc n) l (p ∷ ps) [] v q x f = elim f [ ]
Follows-length C R now (suc n) l (p ∷ ps) (d ∷ ds) v q x (reformulated e f) =
    ground (arith, Follows-length C R now n (observed l d (first_target p)) ps ds v q x f)
Follows-length C R now (suc n) l (p ∷ []) (d ∷ []) v q x (handed_over e) = ground arith
Follows-length C R now (suc n) l (p ∷ []) (d ∷ []) v q x (settled e s) = ground arith

-- A run that returns a result has made one proposal and one decision in each attempt, and no more
-- attempts than the loop allows.
pub run-attempts :
    (C : Crypto) (R : Runtime) (loop : CgaLoop) (i : RunInput) (r : CgaResult)
    → (run C R loop i).0 ≡ finished r
    → (length r.proposals ≡ r.total_attempts)
      × (length r.decisions ≡ r.total_attempts)
      × (r.total_attempts ≤ loop.max_attempts)
unfolding run gate
run-attempts C R loop i r e = elim (Option-cases (gate loop i)) [
  | inl passed ↦
      let h = run-IsProtocol C R i loop r passed e in
      (
        h.accounted.proposed,
        h.accounted.decided,
        ground (
          arith,
          h.accounted.decided,
          Follows-length C R i.now loop.max_attempts loop r.proposals r.decisions r.final_verdict
              r.approved_proposal r.execution_result h.follows,
        ),
      )
  | inr (o, g) ↦ ground arith
]

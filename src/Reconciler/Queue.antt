-- ===== src/Reconciler/Queue.antt =====
-- The escalation queue of the reconciler (reconciler/loop.py).
use general_autonomy_protoco.Prelude.{
  if◌then◌else◌, Bool-cases, Option-cases, length, any, select, find, ℕ, ◌+◌, ◌≤◌, String, ◌≡◌,
  refl, sym, ap, ◌∙◌, ◌⊎◌, inl, inr, Bool, true, false, ◌&&◌, not, Member, Option, none, some, List,
  [], ◌∷◌, ◌++◌, arith, ◌==◌, eq_iff, eq_refl,
}
use general_autonomy_protoco.Reconciler.{
  DriftEvent, ReconcilerConfig, Framing, Escalation, ReconcilerLoop, new_reconciler,
  update_dampening, is_open, open_escalations, needs_human, already_open, escalation_of,
  settle_drift, update_first, attach_escalation_framing, resolved_item, resolve_escalation,
}
use general_autonomy_protoco.CgaLoop.{
  CgaResult, FinalVerdict, halted, awaiting_intent_confirmation, integrity_hold, awaiting_approval,
  executed, escalated,
}
use general_autonomy_protoco.Monitor.{IntegrityMonitor}
use general_autonomy_protoco.Reconciler.{status_for}
use mathlib.Core.Path.{subst}

-- The items of the queue that are open for an entity.
abbrev pub open_for : String → Escalation → Bool
open_for entity_id e = e.entity_id == entity_id && is_open e.status

abbrev pub count_open : String → ReconcilerLoop → ℕ
count_open entity_id r = length (select (open_for entity_id) r.escalation_queue)

-- What happens to the queue.
pub data Op : Type 0 where
  settle : String → String → String → DriftEvent → CgaResult → ℕ → Op
  attach : String → Framing → Op
  resolve : String → String → String → Option String → ℕ → Op

abbrev pub apply : ReconcilerLoop → Op → ReconcilerLoop
apply r (settle id cycle_id lineage_id drift result now) =
    settle_drift r id cycle_id lineage_id drift result now
apply r (attach id framing) = (attach_escalation_framing r id framing).1
apply r (resolve id resolution resolver chosen now) =
    (resolve_escalation r id resolution resolver chosen now).1

abbrev pub apply_all : ReconcilerLoop → List Op → ReconcilerLoop
apply_all r [] = r
apply_all r (o ∷ ops) = apply_all (apply r o) ops

abbrev AtMostOne : ReconcilerLoop → Type 0
AtMostOne r = (entity_id : String) → count_open entity_id r ≤ 1

none_selected :
    (test : Escalation → Bool) (q : List Escalation) → any test q ≡ false → select test q ≡ []
none_selected test [] h = refl
none_selected test (e ∷ q) h = ground (arith, none_selected test q)

some_selected :
    (test : Escalation → Bool) (q : List Escalation)
    → any test q ≡ true
    → 1 ≤ length (select test q)
some_selected test [] h = ground arith
some_selected test (e ∷ q) h = ground (arith, some_selected test q)

count_appended :
    (test : Escalation → Bool) (q : List Escalation) (e : Escalation)
    → length (select test (q ++ e ∷ [])) ≡ length (select test q) + (if test e then 1 else 0)
count_appended test [] e = ground arith
count_appended test (x ∷ q) e = ground (arith, count_appended test q e)

-- A change that opens nothing.
count_updated :
    (test count : Escalation → Bool) (change : Escalation → Escalation) (q : List Escalation)
    → ((e : Escalation) → (count (change e) ≡ false) ⊎ (count e ≡ true))
    → length (select count (update_first test change q)) ≤ length (select count q)
count_updated test count change [] h = omega arith
count_updated test count change (e ∷ q) h = ground (arith, count_updated test count change q h, h e)

-- A change that closes what it finds.
count_closed :
    (test count : Escalation → Bool) (change : Escalation → Escalation) (q : List Escalation)
    (found : Escalation)
    → find test q ≡ some found
    → ((e : Escalation) → count (change e) ≡ false)
    → ((e : Escalation) → (test e ≡ false) ⊎ (count e ≡ true))
    → length (select count (update_first test change q)) + 1 ≡ length (select count q)
count_closed test count change [] found f closed tested = ground arith
count_closed test count change (e ∷ q) found f closed tested = elim (Bool-cases (test e)) [
  | inl here ↦ ground (arith, closed e, tested e)
  | inr there ↦
      let f' : find test q ≡ some found = ground arith in
      ground (arith, count_closed test count change q found f' closed tested)
]

module _ (r : ReconcilerLoop) (id cycle_id lineage_id : String) (drift : DriftEvent)
    (result : CgaResult) (now : ℕ) where
  abbrev item : Escalation
  item = escalation_of id cycle_id lineage_id drift result now

  abbrev after : ReconcilerLoop
  after = settle_drift r id cycle_id lineage_id drift result now

  is_open-item : is_open item.status ≡ true
  is_open-item = opened result.final_verdict
    where
      opened : (v : FinalVerdict) → is_open (status_for v) ≡ true
      opened halted = refl
      opened awaiting_intent_confirmation = refl
      opened integrity_hold = refl
      opened awaiting_approval = refl
      opened executed = refl
      opened escalated = refl

  -- An item that is already open, or no need of a human, leaves the queue as it was.
  unsettled :
      (needs_human result.final_verdict && not (already_open r drift.entity_id)) ≡ false
      → after.escalation_queue ≡ r.escalation_queue
  unfolding settle_drift update_dampening
  unsettled h = ground arith

  appended :
      (needs_human result.final_verdict && not (already_open r drift.entity_id)) ≡ true
      → after.escalation_queue ≡ r.escalation_queue ++ item ∷ []
  unfolding settle_drift update_dampening
  appended h = ground arith

  count_after :
      (entity_id : String)
      → (needs_human result.final_verdict && not (already_open r drift.entity_id)) ≡ true
      → count_open entity_id after
        ≡ count_open entity_id r + (if drift.entity_id == entity_id then 1 else 0)
  count_after entity_id h =
      ap (λ (q : List Escalation). length (select (open_for entity_id) q)) (appended h)
      ∙ ground (arith, count_appended (open_for entity_id) r.escalation_queue item, is_open-item)

  settled : AtMostOne r → AtMostOne after
  settled h entity_id =
      elim (Bool-cases (needs_human result.final_verdict && not (already_open r drift.entity_id))) [
        | inr kept ↦
            subst (λ (q : List Escalation). length (select (open_for entity_id) q) ≤ 1)
              (sym (unsettled kept)) (h entity_id)
        | inl added ↦ elim (Bool-cases (drift.entity_id == entity_id)) [
          | inr other ↦ ground (arith, count_after entity_id added, h entity_id)
          | inl same ↦
              let free : already_open r drift.entity_id ≡ false = ground arith in
              let free' : any (open_for entity_id) r.escalation_queue ≡ false =
                subst (λ (j : String). already_open r j ≡ false)
                  ((eq_iff drift.entity_id entity_id).0 same) free in
              let nothing = none_selected (open_for entity_id) r.escalation_queue free' in
              ground (arith, count_after entity_id added)
        ]
      ]

  -- Where a human is needed, the entity has an open item afterwards.
  settled_open : needs_human result.final_verdict ≡ true → 1 ≤ count_open drift.entity_id after
  settled_open need = elim (Bool-cases (already_open r drift.entity_id)) [
    | inl open_before ↦
        subst (λ (q : List Escalation). 1 ≤ length (select (open_for drift.entity_id) q))
          (sym (unsettled (ground arith)))
          (some_selected (open_for drift.entity_id) r.escalation_queue open_before)
    | inr free ↦ ground (arith, count_after drift.entity_id (ground arith), eq_refl drift.entity_id)
  ]

attached :
    (r : ReconcilerLoop) (id : String) (framing : Framing)
    → AtMostOne r
    → AtMostOne (attach_escalation_framing r id framing).1
unfolding attach_escalation_framing
attached r id framing h entity_id = omega (
  arith,
  h entity_id,
  count_updated (λ (e : Escalation). e.id == id) (open_for entity_id)
      (λ (e : Escalation). record e { framing = some framing }) r.escalation_queue
      (λ (e : Escalation). unchanged e),
)
  where
    unchanged :
        (e : Escalation)
        → (open_for entity_id (record e { framing = some framing }) ≡ false)
          ⊎ (open_for entity_id e ≡ true)
    unchanged e = elim (Bool-cases (open_for entity_id e)) [
      | inl yes_open ↦ inr yes_open
      | inr not_open ↦ inl not_open
    ]

find-test :
    (test : Escalation → Bool) (q : List Escalation) (found : Escalation)
    → find test q ≡ some found
    → test found ≡ true
find-test test [] found e = ground arith
find-test test (x ∷ q) found e = elim (Bool-cases (test x)) [
  | inl here ↦
      let same : x ≡ found = ground arith in subst (λ (y : Escalation). test y ≡ true) same here
  | inr there ↦ find-test test q found (ground arith)
]

find-Member :
    (test : Escalation → Bool) (q : List Escalation) (found : Escalation)
    → find test q ≡ some found
    → Member found q
find-Member test [] found e = ground arith
find-Member test (x ∷ q) found e = elim (Bool-cases (test x)) [
  | inl here ↦ inl (ground arith)
  | inr there ↦ inr (find-Member test q found (ground arith))
]

module _ (r : ReconcilerLoop) (id resolution resolver : String) (chosen : Option String)
    (now : ℕ) where
  abbrev pub is_sought : Escalation → Bool
  is_sought e = e.id == id && is_open e.status

  sought_id : (e : Escalation) → is_sought e ≡ true → e.id ≡ id
  sought_id e h = (eq_iff e.id id).0 (ground arith)

  sought_open : (e : Escalation) → is_sought e ≡ true → is_open e.status ≡ true
  sought_open e h = ground arith

  abbrev pub close : Escalation → Escalation
  close = resolved_item r.integrity_monitor resolution resolver chosen now

  abbrev pub resolving : Option Escalation × ReconcilerLoop
  resolving = resolve_escalation r id resolution resolver chosen now

  -- What a resolution does, by what it finds.
  missed : find is_sought r.escalation_queue ≡ none → resolving ≡ (none, r)
  unfolding resolve_escalation
  missed e = ground arith

  hit :
      (found : Escalation)
      → find is_sought r.escalation_queue ≡ some found
      → (resolving.0 ≡ some (close found))
        × (resolving.1.escalation_queue ≡ update_first is_sought close r.escalation_queue)
  unfolding resolve_escalation
  hit found e = (ground arith, ground arith)

  resolved : AtMostOne r → AtMostOne resolving.1
  resolved h entity_id = elim (Option-cases (find is_sought r.escalation_queue)) [
    | inl e ↦
        subst (λ (a : Option Escalation × ReconcilerLoop). count_open entity_id a.1 ≤ 1)
          (sym (missed e)) (h entity_id)
    | inr (found, e) ↦
        subst (λ (q : List Escalation). length (select (open_for entity_id) q) ≤ 1)
          (sym (hit found e).1)
          (omega (
            arith,
            h entity_id,
            count_updated is_sought (open_for entity_id) close r.escalation_queue
                (λ (e : Escalation). inl (ground arith)),
          ))
  ]

  -- A resolution that returns an item has resolved it: it is an open item of the queue that has the
  -- id asked for, closed, and the open items are one fewer. One that returns none leaves everything
  -- as it was, and no open item has the id.
  pub resolve_escalation_lem :
      ((found : Escalation) × (e : Escalation) × Member found r.escalation_queue
        × (found.id ≡ id)
        × (is_open found.status ≡ true)
        × (resolving.0 ≡ some e)
        × (e ≡ close found)
        × (e.id ≡ id)
        × (e.status ≡ "resolved")
        × (e.resolved_by ≡ some resolver)
        × (length (open_escalations resolving.1) + 1 ≡ length (open_escalations r)))
      ⊎ ((resolving ≡ (none, r)) × (any is_sought r.escalation_queue ≡ false))
  resolve_escalation_lem = elim (Option-cases (find is_sought r.escalation_queue)) [
    | inl e ↦ inr (missed e, not_any r.escalation_queue e)
    | inr (found, e) ↦ inl (
      found,
      close found,
      find-Member is_sought r.escalation_queue found e,
      sought_id found (find-test is_sought r.escalation_queue found e),
      sought_open found (find-test is_sought r.escalation_queue found e),
      (hit found e).0,
      refl,
      sought_id found (find-test is_sought r.escalation_queue found e),
      refl,
      refl,
      subst
          (λ (q : List Escalation).
            length (select (λ (x : Escalation). is_open x.status) q) + 1
            ≡ length (open_escalations r))
          (sym (hit found e).1)
          (count_closed is_sought (λ (x : Escalation). is_open x.status) close r.escalation_queue
            found e (λ (x : Escalation). ground arith) (λ (x : Escalation). tested x)),
    )
  ]
    where
      not_any : (q : List Escalation) → find is_sought q ≡ none → any is_sought q ≡ false
      not_any [] e = refl
      not_any (x ∷ q) e = ground (arith, not_any q)

      tested : (x : Escalation) → (is_sought x ≡ false) ⊎ (is_open x.status ≡ true)
      tested x = elim (Bool-cases (is_open x.status)) [ inl o ↦ inr o | inr o ↦ inl (ground arith) ]

apply-AtMostOne : (r : ReconcilerLoop) (o : Op) → AtMostOne r → AtMostOne (apply r o)
apply-AtMostOne r (settle id cycle_id lineage_id drift result now) h =
    settled r id cycle_id lineage_id drift result now h
apply-AtMostOne r (attach id framing) h = attached r id framing h
apply-AtMostOne r (resolve id resolution resolver chosen now) h =
    resolved r id resolution resolver chosen now h

apply_all-AtMostOne :
    (r : ReconcilerLoop) (ops : List Op) → AtMostOne r → AtMostOne (apply_all r ops)
apply_all-AtMostOne r [] h = h
apply_all-AtMostOne r (o ∷ ops) h = apply_all-AtMostOne (apply r o) ops (apply-AtMostOne r o h)

-- Whatever happens to the queue of a new reconciler, no entity ever has more than one open item;
-- and a drift whose result needs a human then leaves its entity with exactly one.
pub count_open-apply_all :
    (c : ReconcilerConfig) (m : Option IntegrityMonitor) (ops : List Op) (entity_id : String)
    (id cycle_id lineage_id : String) (drift : DriftEvent) (result : CgaResult) (now : ℕ)
    → needs_human result.final_verdict ≡ true
    → let r = apply_all (new_reconciler c m) ops in
      (count_open entity_id r ≤ 1)
      × (count_open drift.entity_id (settle_drift r id cycle_id lineage_id drift result now) ≡ 1)
count_open-apply_all c m ops entity_id id cycle_id lineage_id drift result now need =
    let r = apply_all (new_reconciler c m) ops in
    let start : AtMostOne (new_reconciler c m) = λ e. omega arith in
    let h = apply_all-AtMostOne (new_reconciler c m) ops start in
    (
      h entity_id,
      omega (
        arith,
        settled r id cycle_id lineage_id drift result now h drift.entity_id,
        settled_open r id cycle_id lineage_id drift result now need,
      ),
    )

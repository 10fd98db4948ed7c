-- ===== src/Reconciler.antt =====
-- The reconciler (reconciler/loop.py): its state, the watcher of drift, the dampening of
-- interventions, and here the queue of escalations to humans. Ids are arguments. The cycle itself,
-- which also writes the lineage and learns, is not here.
pub mod State
pub mod Drift
pub mod Dampening
pub mod Breaker
pub mod Queue
pub mod Watch
unfoldable pub use State.*
unfoldable pub use Drift.*
unfoldable pub use Dampening.*
use general_autonomy_protoco.Prelude.{
  if◌then◌else◌, is_some, get_or, length, any, select, find, contains, ℕ, ◌+◌, ◌-◌, ◌/◌, String,
  Bool, true, false, ◌&&◌, ◌||◌, not, Option, none, some, List, [], ◌∷◌, ◌++◌, ◌==◌,
}
use general_autonomy_protoco.Models.{is_given, GovernanceDecision}
use general_autonomy_protoco.Monitor.{IntegrityMonitor, observe_escalation}
use general_autonomy_protoco.CgaLoop.{
  FinalVerdict, integrity_hold, awaiting_approval, escalated, CgaResult,
}

-- `_OPEN_ESCALATION_STATUSES`
abbrev pub is_open : String → Bool
is_open status = contains ("pending" ∷ "awaiting_approval" ∷ "integrity_hold" ∷ []) status

abbrev pub open_escalations : ReconcilerLoop → List Escalation
open_escalations r = select (λ (e : Escalation). is_open e.status) r.escalation_queue

abbrev pub needs_human : FinalVerdict → Bool
needs_human escalated = true
needs_human awaiting_approval = true
needs_human integrity_hold = true
needs_human _ = false

-- What counts towards the breaker.
abbrev pub is_held : FinalVerdict → Bool
is_held escalated = true
is_held integrity_hold = true
is_held _ = false

abbrev pub status_for : FinalVerdict → String
status_for awaiting_approval = "awaiting_approval"
status_for integrity_hold = "integrity_hold"
status_for _ = "pending"

-- `[d.rejection_reason for d in decisions if d.rejection_reason]`
abbrev reasons_of : List GovernanceDecision → List String
reasons_of [] = []
reasons_of (d ∷ ds) =
    let rest = reasons_of ds in
    if is_given d.rejection_reason then get_or d.rejection_reason "" ∷ rest else rest

abbrev pub already_open : ReconcilerLoop → String → Bool
already_open r entity_id =
    any (λ (e : Escalation). e.entity_id == entity_id && is_open e.status) r.escalation_queue

-- The escalation of a drift, with its own id and those of its cycle and its record.
abbrev pub escalation_of : String → String → String → DriftEvent → CgaResult → ℕ → Escalation
escalation_of id cycle_id lineage_id drift result now = record {
  id = id;
  cycle_id = cycle_id;
  lineage_id = lineage_id;
  intent_id = drift.intent_id;
  entity_id = drift.entity_id;
  drift_description = drift.description;
  proposals_tried = length result.proposals;
  rejection_reasons = reasons_of result.decisions;
  status = status_for result.final_verdict;
  created_at = now;
  framing = none;
  framing_fed = false;
  prior_status = none;
  resolution = none;
  resolved_by = none;
  resolved_at = none;
  chosen_option_id = none;
}

-- What `_handle_drift` does with a result: the dampening, and the way to a human.
unfoldable pub settle_drift :
    ReconcilerLoop → String → String → String → DriftEvent → CgaResult → ℕ → ReconcilerLoop
unfolding update_dampening
settle_drift r id cycle_id lineage_id drift result now =
    let r1 = update_dampening r drift.entity_id (is_held result.final_verdict) now in
    if needs_human result.final_verdict && not (already_open r1 drift.entity_id)
    then record r1 {
      escalation_queue =
          r1.escalation_queue ++ escalation_of id cycle_id lineage_id drift result now ∷ [];
    }
    else r1

-- Changes the first item that a test finds.
abbrev pub update_first :
    (Escalation → Bool) → (Escalation → Escalation) → List Escalation → List Escalation
update_first test change [] = []
update_first test change (e ∷ queue) =
    let rest = update_first test change queue in if test e then change e ∷ queue else e ∷ rest

unfoldable pub attach_escalation_framing :
    ReconcilerLoop → String → Framing → Option Escalation × ReconcilerLoop
attach_escalation_framing r id framing =
    let frame = λ (e : Escalation). record e { framing = some framing } in
    let test = λ (e : Escalation). e.id == id in
    (
      elim (find test r.escalation_queue) [ none ↦ none | some e ↦ some (frame e) ],
      record r { escalation_queue = update_first test frame r.escalation_queue },
    )

-- The sample that a resolution feeds to the monitor, if it feeds one: whether the preferred option
-- was chosen, whether the first was, and whether the preferred one was framed favorably.
unfoldable pub framing_sample :
    Option IntegrityMonitor → Escalation → Option String → Option (Bool × Bool × Bool)
framing_sample none e chosen = none
framing_sample (some m) e none = none
framing_sample (some m) e (some chosen) = elim e.framing [
  | none ↦ none
  | some f ↦
      if e.framing_fed
      then none
      else some (
        chosen == f.preferred_option_id,
        elim f.option_order [ [] ↦ false | first ∷ rest ↦ chosen == first ],
        contains f.favorably_framed f.preferred_option_id,
      )
]

abbrev pub resolved_item :
    Option IntegrityMonitor → String → String → Option String → ℕ → Escalation → Escalation
resolved_item m resolution resolver chosen now e = record e {
  prior_status = some e.status;
  status = "resolved";
  resolution = some resolution;
  resolved_by = some resolver;
  resolved_at = some now;
  chosen_option_id = chosen;
  framing_fed = e.framing_fed || is_some (framing_sample m e chosen);
}

-- `_feed_framing_telemetry`, as far as the monitor.
abbrev pub fed : Option IntegrityMonitor → Option (Bool × Bool × Bool) → Option IntegrityMonitor
fed none sample = none
fed (some m) none = some m
fed (some m) (some (preferred, first, favorably)) =
    some (observe_escalation m preferred first favorably)

unfoldable pub resolve_escalation :
    ReconcilerLoop
    → String
    → String
    → String
    → Option String
    → ℕ
    → Option Escalation × ReconcilerLoop
unfolding framing_sample
resolve_escalation r id resolution resolver chosen now =
    let test = λ (e : Escalation). e.id == id && is_open e.status in
    let resolved = resolved_item r.integrity_monitor resolution resolver chosen now in
    elim (find test r.escalation_queue) [
      | none ↦ (none, r)
      | some e ↦ (
        some (resolved e),
        record r {
          escalation_queue = update_first test resolved r.escalation_queue;
          integrity_monitor = fed r.integrity_monitor (framing_sample r.integrity_monitor e chosen);
        },
      )
    ]

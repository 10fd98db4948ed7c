-- ===== src/Reconciler/Drift.antt =====
-- The watcher of drift (reconciler/loop.py). Moments and durations are in microseconds; the
-- description of a drift is an argument.
use Prim.Native.Nat.{min}
use general_autonomy_protoco.Prelude.{
  ltb, eqb, if◌then◌else◌, get_or, find, ℕ, ◌+◌, ◌-◌, ◌*◌, ◌/◌, String, ◌&&◌, ◌||◌, Option, none,
  some, List, [], ◌∷◌, ◌==◌,
}
use general_autonomy_protoco.Prelude.Dict.{Dict, lookup}
use general_autonomy_protoco.Models.{
  Value, null, text, unit, truthy, Runtime, IntentVector, EntityState,
}
use general_autonomy_protoco.Reconciler.State.{DriftEvent}

-- A minute.
abbrev pub minute : ℕ
minute = 60 * unit

-- `_extract_sla_minutes`, with the two searches for a number of minutes or hours as arguments.
unfoldable pub extract_sla_minutes : Runtime → String → Option ℕ
extract_sla_minutes R objective = elim (R.find_minutes objective) [
  | some n ↦ some n
  | none ↦ elim (R.find_hours objective) [ none ↦ none | some n ↦ some (n * 60) ]
]

-- The moment since which an entity waits: `some none` where there is none or it cannot be read, and
-- `none` where its subtraction from the moment of the cycle raises: of a value that is no moment, or
-- of a moment with a UTC offset.
unfoldable pub waiting_since : Runtime → Dict Value → Option (Option ℕ)
waiting_since R props =
    let created = get_or (lookup "created_at" props) (get_or (lookup "ingested_at" props) null) in
    if truthy created
    then elim created [
      | text s ↦ elim (R.fromisoformat s) [
        | none ↦ some none
        | some none ↦ none
        | some (some moment) ↦ some (some moment)
      ]
      | _ ↦ none
    ]
    else some none

-- The drift of an entity that has waited for an SLA; `none` is the division by zero.
unfoldable pub sla_event : (ℕ → String) → String → String → ℕ → ℕ → ℕ → Option (Option DriftEvent)
sla_event describe entity_id intent_id sla created now =
    let waiting = now - created in
    if ltb now created || ltb (10 * waiting) (7 * (sla * minute))
    then some none
    else if eqb sla 0
    then none
    else some (
        some (record {
          entity_id = entity_id;
          intent_id = intent_id;
          description = describe waiting;
          severity = min 10 (8 + 2 * waiting / (sla * minute));
          sla_remaining = sla * minute - waiting;
        }))

module _ (R : Runtime) (describe : ℕ → String) where
  -- One obligation: `some none` goes on with the next.
  unfoldable pub obligation_drift :
      EntityState → List IntentVector → ℕ → String → Option (Option DriftEvent)
  unfolding extract_sla_minutes waiting_since sla_event
  obligation_drift entity intents now intent_id =
      elim (find (λ (i : IntentVector). i.id == intent_id && i.active) intents) [
        | none ↦ some none
        | some intent ↦ elim (extract_sla_minutes R intent.objective) [
          | none ↦ some none
          | some sla ↦
              if truthy (get_or (lookup "last_contacted" entity.properties) null)
              then some none
              else elim (waiting_since R entity.properties) [
                | none ↦ none
                | some since ↦ elim since [
                  | none ↦ some none
                  | some created ↦ sla_event describe entity.entity_id intent_id sla created now
                ]
              ]
        ]
      ]

  unfoldable pub sla_drift_among :
      EntityState → List IntentVector → ℕ → List String → Option (Option DriftEvent)
  unfolding obligation_drift
  sla_drift_among entity intents now [] = some none
  sla_drift_among entity intents now (o ∷ obligations) =
      let later = sla_drift_among entity intents now obligations in
      elim (obligation_drift entity intents now o) [
        | none ↦ none
        | some found ↦ elim found [ none ↦ later | some e ↦ some (some e) ]
      ]

  unfoldable pub check_sla_drift : EntityState → List IntentVector → ℕ → Option (Option DriftEvent)
  unfolding sla_drift_among
  check_sla_drift entity intents now = sla_drift_among entity intents now entity.obligations

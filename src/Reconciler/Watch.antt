-- ===== src/Reconciler/Watch.antt =====
-- The watcher of drift (reconciler/loop.py).
use general_autonomy_protoco.Prelude.{
  Option-cases, get_or, find, Member, ℕ, ◌+◌, ◌-◌, ◌*◌, ◌/◌, ◌≤◌, String, ◌≡◌, refl, ap, ◌∙◌, inl,
  inr, false, ◌&&◌, Option, none, some, List, [], ◌∷◌, arith, ◌==◌,
}
use general_autonomy_protoco.Prelude.Dict.{lookup}
use general_autonomy_protoco.Models.{null, truthy, Runtime, IntentVector, EntityState}
use general_autonomy_protoco.Reconciler.{
  DriftEvent, minute, extract_sla_minutes, waiting_since, sla_event, obligation_drift,
  sla_drift_among, check_sla_drift,
}
use Prim.Native.Nat.{min}

-- The drift is that of an obligation of the entity: of an active intent with an SLA, under which the
-- entity, which was not contacted, has waited for at least seven tenths of the time.
pub record IsDue (R : Runtime) (entity : EntityState) (intents : List IntentVector) (now : ℕ)
    (e : DriftEvent) : Type 0 where
  pub of_entity : e.entity_id ≡ entity.entity_id
  pub intent_id : String
  pub of_intent : e.intent_id ≡ intent_id
  pub obligation : Member intent_id entity.obligations
  pub intent : IntentVector
  pub sla : ℕ
  pub created : ℕ
  pub known : find (λ (i : IntentVector). i.id == intent_id && i.active) intents ≡ some intent
  pub has_sla : extract_sla_minutes R intent.objective ≡ some sla
  pub uncontacted : truthy (get_or (lookup "last_contacted" entity.properties) null) ≡ false
  pub since : waiting_since R entity.properties ≡ some (some created)
  pub past : created ≤ now
  pub overdue : 7 * (sla * minute) ≤ 10 * (now - created)
  pub remaining : e.sla_remaining ≡ sla * minute - (now - created)
  pub severe : (8 ≤ e.severity) × (e.severity ≤ 10)

event_facts :
    (describe : ℕ → String) (entity_id intent_id : String) (sla created now : ℕ) (e : DriftEvent)
    → sla_event describe entity_id intent_id sla created now ≡ some (some e)
    → (e.entity_id ≡ entity_id)
      × (e.intent_id ≡ intent_id)
      × (created ≤ now)
      × (7 * (sla * minute) ≤ 10 * (now - created))
      × (e.sla_remaining ≡ sla * minute - (now - created))
      × (8 ≤ e.severity)
      × (e.severity ≤ 10)
unfolding sla_event
event_facts describe entity_id intent_id sla created now e h =
    let quotient : ℕ = 2 * (now - created) / (sla * minute) in
    let severe : e.severity ≡ min 10 (8 + quotient) = ground arith in
    (
      ground arith,
      ground arith,
      ground arith,
      ground arith,
      ground arith,
      omega (arith, severe),
      omega (arith, severe),
    )

module _ (R : Runtime) (describe : ℕ → String) (entity : EntityState) (intents : List IntentVector)
    (now : ℕ) where
  obligation_drift-IsDue :
      (intent_id : String) (e : DriftEvent)
      → obligation_drift R describe entity intents now intent_id ≡ some (some e)
      → Member intent_id entity.obligations
      → IsDue R entity intents now e
  unfolding obligation_drift
  obligation_drift-IsDue intent_id e h m =
      elim (Option-cases (find (λ (i : IntentVector). i.id == intent_id && i.active) intents)) [
        | inl f ↦ ground arith
        | inr (intent, f) ↦ elim (Option-cases (extract_sla_minutes R intent.objective)) [
          | inl g ↦ ground arith
          | inr (sla, g) ↦ elim (Option-cases (waiting_since R entity.properties)) [
            | inl k ↦ ground arith
            | inr (since, k) ↦ elim (Option-cases since) [
              | inl l ↦ ground arith
              | inr (created, l) ↦
                  let uncontacted : truthy (get_or (lookup "last_contacted" entity.properties) null)
                      ≡ false =
                    ground arith in
                  let made : sla_event describe entity.entity_id intent_id sla created now
                      ≡ some (some e) =
                    ground arith in
                  let (of_entity, of_intent, past, overdue, remaining, low, up) =
                    event_facts describe entity.entity_id intent_id sla created now e made in
                  record {
                    of_entity = of_entity;
                    intent_id = intent_id;
                    of_intent = of_intent;
                    obligation = m;
                    intent = intent;
                    sla = sla;
                    created = created;
                    known = f;
                    has_sla = g;
                    uncontacted = uncontacted;
                    since = k ∙ ap (λ (o : Option ℕ). some o) l;
                    past = past;
                    overdue = overdue;
                    remaining = remaining;
                    severe = (low, up);
                  }
            ]
          ]
        ]
      ]

  sla_drift_among-IsDue :
      (obligations : List String) (e : DriftEvent)
      → sla_drift_among R describe entity intents now obligations ≡ some (some e)
      → ((o : String) → Member o obligations → Member o entity.obligations)
      → IsDue R entity intents now e
  unfolding sla_drift_among
  sla_drift_among-IsDue [] e h inside = ground arith
  sla_drift_among-IsDue (o ∷ obligations) e h inside =
      elim (Option-cases (obligation_drift R describe entity intents now o)) [
        | inl raised ↦ ground arith
        | inr (none, next) ↦
            sla_drift_among-IsDue obligations e (ground arith) (λ j k. inside j (inr k))
        | inr (some x, here) ↦ obligation_drift-IsDue o e (ground arith) (inside o (inl refl))
      ]

  -- A drift that the watcher reports is due: it is that of an obligation of the entity, of an
  -- active intent with an SLA, under which the entity, which was not contacted, has waited for at
  -- least seven tenths of the time; and its severity is from 8 to 10.
  pub check_sla_drift-IsDue :
      (e : DriftEvent)
      → check_sla_drift R describe entity intents now ≡ some (some e)
      → IsDue R entity intents now e
  unfolding check_sla_drift
  check_sla_drift-IsDue e h = sla_drift_among-IsDue entity.obligations e h (λ o m. m)

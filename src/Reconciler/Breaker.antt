-- ===== src/Reconciler/Breaker.antt =====
-- The circuit breaker of the reconciler (reconciler/loop.py).
use general_autonomy_protoco.Prelude.{
  ltb, leb, if◌then◌else◌, Bool-cases, get_or, length, ℕ, ◌+◌, ◌*◌, ◌≤◌, String, ◌≡◌, refl, inl,
  inr, Bool, true, ◌&&◌, ◌||◌, none, some, List, [], ◌∷◌, arith, ◌==◌, eq_iff, eq_refl,
}
use general_autonomy_protoco.Prelude.Dict.{lookup, lookup-insert}
use general_autonomy_protoco.Models.{unit}
use general_autonomy_protoco.Reconciler.{
  DampeningState, ReconcilerLoop, is_dampened, next_state, fresh_state, update_dampening,
}

-- Failures at an entity, one at each moment.
abbrev pub fail_all : ReconcilerLoop → String → List ℕ → ReconcilerLoop
fail_all r entity_id [] = r
fail_all r entity_id (t ∷ moments) =
    fail_all (update_dampening r entity_id true t) entity_id moments

-- Updates of any entities, failed or not.
abbrev pub update_all : ReconcilerLoop → List (String × Bool × ℕ) → ReconcilerLoop
update_all r [] = r
update_all r ((entity_id, failed, t) ∷ updates) =
    update_all (update_dampening r entity_id failed t) updates

abbrev failures_of : ReconcilerLoop → String → ℕ
failures_of r entity_id = elim (lookup entity_id r.dampening) [
  | none ↦ 0
  | some s ↦ s.consecutive_failures
]

-- The breaker of the entity has tripped.
abbrev pub IsBroken : ReconcilerLoop → String → Type 0
IsBroken r entity_id =
    (s : DampeningState) × (lookup entity_id r.dampening ≡ some s) × (s.circuit_broken ≡ true)

module _ (r : ReconcilerLoop) (entity_id : String) (failed : Bool) (now : ℕ) where
  abbrev before : DampeningState
  before = get_or (lookup entity_id r.dampening) (fresh_state entity_id now)

  config-update_dampening : (update_dampening r entity_id failed now).config ≡ r.config
  unfolding update_dampening
  config-update_dampening = refl

  lookup-update_dampening :
      (j : String)
      → lookup j (update_dampening r entity_id failed now).dampening ≡ (
          if entity_id == j
          then some (next_state r.config failed now before)
          else lookup j r.dampening)
  unfolding update_dampening
  lookup-update_dampening j =
      lookup-insert entity_id j (next_state r.config failed now before) r.dampening

  keeps_IsBroken :
      (j : String) → IsBroken r j → IsBroken (update_dampening r entity_id failed now) j
  unfolding next_state
  keeps_IsBroken j (s, found, broken) = elim (Bool-cases (entity_id == j)) [
    | inl same ↦ (
      next_state r.config failed now before,
      ground (arith, lookup-update_dampening j),
      ground (arith, eq_iff entity_id j),
    )
    | inr other ↦ (s, ground (arith, lookup-update_dampening j), broken)
  ]

failures-update_dampening :
    (r : ReconcilerLoop) (entity_id : String) (now : ℕ)
    → failures_of (update_dampening r entity_id true now) entity_id ≡ failures_of r entity_id + 1
unfolding next_state
failures-update_dampening r entity_id now =
    ground (arith, lookup-update_dampening r entity_id true now entity_id, eq_refl entity_id)

trips :
    (r : ReconcilerLoop) (entity_id : String) (now : ℕ)
    → r.config.circuit_breaker_threshold ≤ failures_of r entity_id + 1
    → IsBroken (update_dampening r entity_id true now) entity_id
unfolding next_state
trips r entity_id now enough = (
  next_state r.config true now (before r entity_id true now),
  ground (arith, lookup-update_dampening r entity_id true now entity_id, eq_refl entity_id),
  ground arith,
)

fail_all-IsBroken :
    (r : ReconcilerLoop) (entity_id : String) (t : ℕ) (moments : List ℕ)
    → r.config.circuit_breaker_threshold ≤ failures_of r entity_id + 1 + length moments
    → IsBroken (fail_all r entity_id (t ∷ moments)) entity_id
fail_all-IsBroken r entity_id t [] enough = trips r entity_id t (omega arith)
fail_all-IsBroken r entity_id t (t' ∷ moments) enough =
    let more = failures-update_dampening r entity_id t in
    let same = config-update_dampening r entity_id true t in
    fail_all-IsBroken (update_dampening r entity_id true t) entity_id t' moments (ground arith)

update_all-IsBroken :
    (r : ReconcilerLoop) (entity_id : String) (updates : List (String × Bool × ℕ))
    → IsBroken r entity_id
    → IsBroken (update_all r updates) entity_id
update_all-IsBroken r entity_id [] b = b
update_all-IsBroken r entity_id ((j, failed, t) ∷ updates) b =
    update_all-IsBroken (update_dampening r j failed t) entity_id updates
      (keeps_IsBroken r j failed t entity_id b)

-- Once an entity has failed at as many moments in a row as the threshold, at least once, it is
-- dampened at every moment, whatever the later updates are.
pub is_dampened-broken :
    (r : ReconcilerLoop) (entity_id : String) (t : ℕ) (moments : List ℕ)
    (updates : List (String × Bool × ℕ)) (now : ℕ)
    → r.config.circuit_breaker_threshold ≤ length (t ∷ moments)
    → is_dampened (update_all (fail_all r entity_id (t ∷ moments)) updates) entity_id now ≡ true
unfolding is_dampened
is_dampened-broken r entity_id t moments updates now enough =
    let (s, found, broken) =
      update_all-IsBroken (fail_all r entity_id (t ∷ moments)) entity_id updates
        (fail_all-IsBroken r entity_id t moments (omega arith)) in
    ground arith

-- After an update an entity is dampened until its cooldown is over. Then it is dampened only if the
-- breaker had tripped, or the update is a failure that brings the failures in a row to the threshold.
pub is_dampened-update_dampening :
    (r : ReconcilerLoop) (entity_id : String) (failed : Bool) (t now : ℕ)
    → is_dampened (update_dampening r entity_id failed t) entity_id now ≡ (
        (before r entity_id failed t).circuit_broken
        || (failed && leb r.config.circuit_breaker_threshold (failures_of r entity_id + 1))
        || ltb now (t + r.config.cooldown_seconds * unit))
unfolding is_dampened next_state
is_dampened-update_dampening r entity_id failed t now =
    ground (arith, lookup-update_dampening r entity_id failed t entity_id, eq_refl entity_id)

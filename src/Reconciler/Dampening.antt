-- ===== src/Reconciler/Dampening.antt =====
-- The dampening of interventions (reconciler/loop.py, models/reconciler.py).

use general_autonomy_protoco.Prelude.{
  ltb, leb, if◌then◌else◌, get_or, ℕ, ◌+◌, ◌*◌, String, Bool, false, ◌&&◌, ◌||◌, none, some,
}
use general_autonomy_protoco.Prelude.Dict.{lookup, insert}
use general_autonomy_protoco.Models.{unit}
use general_autonomy_protoco.Reconciler.State.{ReconcilerConfig, DampeningState, ReconcilerLoop}

unfoldable pub is_dampened : ReconcilerLoop → String → ℕ → Bool
is_dampened r entity_id now = elim (lookup entity_id r.dampening) [
  | none ↦ false
  | some s ↦ s.circuit_broken || elim s.cooldown_until [ none ↦ false | some t ↦ ltb now t ]
]

-- The state of an entity after a drift, as it was before the drift or new.
unfoldable pub next_state : ReconcilerConfig → Bool → ℕ → DampeningState → DampeningState
next_state c failed now s =
    let failures = if failed then s.consecutive_failures + 1 else 0 in
    record s {
      last_intervention_at = now;
      cooldown_until = some (now + c.cooldown_seconds * unit);
      consecutive_failures = failures;
      circuit_broken = s.circuit_broken || (failed && leb c.circuit_breaker_threshold failures);
    }

abbrev pub fresh_state : String → ℕ → DampeningState
fresh_state entity_id now = record {
  entity_id = entity_id;
  last_intervention_at = now;
  consecutive_failures = 0;
  cooldown_until = none;
  circuit_broken = false;
}

unfoldable pub update_dampening : ReconcilerLoop → String → Bool → ℕ → ReconcilerLoop
unfolding next_state
update_dampening r entity_id failed now = record r {
  dampening =
      insert entity_id
        (next_state r.config failed now
          (get_or (lookup entity_id r.dampening) (fresh_state entity_id now)))
        r.dampening;
}

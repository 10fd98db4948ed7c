-- ===== src/Reconciler/State.antt =====
-- The state of the reconciler (reconciler/loop.py, models/reconciler.py).

use general_autonomy_protoco.Prelude.{ℕ, String, Bool, Option, List, []}
use general_autonomy_protoco.Prelude.Dict.{Dict}
use general_autonomy_protoco.Models.{IntentVector}
use general_autonomy_protoco.Monitor.{IntegrityMonitor}

-- Without the moment of its making, and with the time that is left in microseconds.
pub record DriftEvent : Type 0 where
  pub entity_id : String
  pub intent_id : String
  pub description : String
  pub severity : ℕ
  pub sla_remaining : ℕ

-- Without `drift_threshold`, which nothing reads.
pub record ReconcilerConfig : Type 0 where
  pub heartbeat_interval_seconds : ℕ
  pub max_retry_budget : ℕ
  pub cooldown_seconds : ℕ
  pub circuit_breaker_threshold : ℕ

pub record DampeningState : Type 0 where
  pub entity_id : String
  pub last_intervention_at : ℕ
  pub consecutive_failures : ℕ
  pub cooldown_until : Option ℕ
  pub circuit_broken : Bool

-- How the options of an escalation were presented.
pub record Framing : Type 0 where
  pub preferred_option_id : String
  pub option_order : List String
  pub favorably_framed : List String

-- An item of the queue; the last fields are the keys that come with its framing and its resolution.
pub record Escalation : Type 0 where
  pub id : String
  pub cycle_id : String
  pub lineage_id : String
  pub intent_id : String
  pub entity_id : String
  pub drift_description : String
  pub proposals_tried : ℕ
  pub rejection_reasons : List String
  pub status : String
  pub created_at : ℕ
  pub framing : Option Framing
  pub framing_fed : Bool
  pub prior_status : Option String
  pub resolution : Option String
  pub resolved_by : Option String
  pub resolved_at : Option ℕ
  pub chosen_option_id : Option String

-- What the operations below keep of `ReconcilerLoop`.
pub record ReconcilerLoop : Type 0 where
  pub config : ReconcilerConfig
  pub intents : Dict IntentVector
  pub dampening : Dict DampeningState
  pub escalation_queue : List Escalation
  pub integrity_monitor : Option IntegrityMonitor

abbrev pub new_reconciler : ReconcilerConfig → Option IntegrityMonitor → ReconcilerLoop
new_reconciler c m = record {
  config = c;
  intents = [];
  dampening = [];
  escalation_queue = [];
  integrity_monitor = m;
}

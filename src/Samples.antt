-- ===== src/Samples.antt =====
-- Concrete data for the tests: a kernel with a profile, a proposal that it approves, and a fabric.
use general_autonomy_protoco.Prelude.{
  ℕ, String, true, false, Option, none, some, List, [], ◌∷◌, arith, ◌==◌, eq_iff, eq_refl,
}
use general_autonomy_protoco.Prelude.Int.{pos, leb_ℤ}
use general_autonomy_protoco.Models.{
  flag, num, text, Runtime, l3, hard, org_policy, PolicyActivation, Constraint, IntentVector,
  PlannedAction, StrategyProposal, EntityState, WorldModel, Crypto, IsKeyPair,
}
use general_autonomy_protoco.Risk.{DynamicRiskEngine}
use general_autonomy_protoco.Profile.{ApplicabilityProfile, PublicKeyRegistry}
use general_autonomy_protoco.Policy.{
  GovernanceKernel, KernelOptions, baseline_action_types, as_floor,
}
use general_autonomy_protoco.Fabric.{Executor, Fabric}

-- A toy for the host's functions: upper case is the identity and texts hold no numbers and no dates.
abbrev pub toy_runtime : Runtime
toy_runtime = record {
  upper = λ s. s;
  parse_float = λ s. none;
  parse_int = λ s. none;
  float_overflows = λ x. leb_ℤ (pos 1000000000000) x;
  find_dollars = λ s. none;
  cron_match = λ s now. some true;
  isoformat = λ now. "now";
  lower = λ s. s;
  find_minutes = λ s. none;
  find_hours = λ s. none;
  fromisoformat = λ s. none;
}

-- A toy for the signatures: a message is its own signature.
abbrev pub toy_crypto : Crypto
toy_crypto = record {
  sign = λ key m. m;
  verify = λ key m s. m == s;
  sha256_of_proposal = λ c. c.id;
  dump_ruling = λ r. r.proposal_id;
  dump_oob = λ m. m.decision_id;
  dump_profile = λ m. m.profile_id;
}

pub toy_keys : (private public : String) → IsKeyPair toy_crypto private public
toy_keys private public = record {
  signed = λ m. eq_refl m;
  binding = λ m n h. ground (arith, eq_iff m n);
}

abbrev pub now : ℕ
now = 36000000000

abbrev pub always : PolicyActivation
always = record { always = true; schedule = none; condition = none; emergency_override = false }

abbrev pub gdpr : Constraint
gdpr = record {
  name = "gdpr_consent_required";
  type = hard;
  description = "consent";
  activation = always;
  threshold = none;
  tier = org_policy;
}

abbrev pub aml : Constraint
aml = record {
  name = "aml_screening_required";
  type = hard;
  description = "screening";
  activation = always;
  threshold = some (pos 100);
  tier = org_policy;
}

abbrev pub intent : String → ℕ → IntentVector
intent id priority = record {
  id = id;
  objective = "grow";
  priority = priority;
  hard_constraints = aml ∷ [];
  soft_constraints = [];
  cost_ceiling = none;
  created_by = "ann";
  created_at = 0;
  active = true;
}

abbrev pub intents : List IntentVector
intents = intent "i1" 5 ∷ intent "i2" 9 ∷ []

abbrev pub email : PlannedAction
email = record {
  action_type = "send_email";
  target = "acme";
  parameters = ("transaction_amount", num (pos 40)) ∷ [];
  requires_consent = true;
  reversible = true;
  risk_score = 2;
}

abbrev pub proposal : StrategyProposal
proposal = record {
  id = "p1";
  intent_id = "i1";
  attempt_number = 1;
  plan_description = "write";
  actions = email ∷ [];
  estimated_cost = pos 10;
  rationale = "why not";
  prior_rejection_id = none;
  generated_at = 0;
}

abbrev pub acme : EntityState
acme = record {
  entity_type = "company";
  entity_id = "acme";
  properties =
      ("jurisdiction", text "EU") ∷ ("gdpr_consent", flag true) ∷ ("local_hour", num (pos 10)) ∷ [];
  last_updated = 0;
  source = "crm";
  confidence = pos 1;
  obligations = [];
}

abbrev pub world : WorldModel
world = record { entities = ("acme", acme) ∷ []; last_reconciled = 0; drift_events = [] }

abbrev pub engine : DynamicRiskEngine
engine = record {
  config = record {
    volume_threshold_multiplier = 2000000;
    cascade_window_seconds = 60;
    cascade_action_threshold = 3;
    external_signal_sources = "soc" ∷ [];
    enabled = true;
  };
  baseline_counts = [];
  baseline_targets = [];
  action_history = [];
}

abbrev pub profile : ApplicabilityProfile
profile = record {
  profile_id = "prof";
  tier1_constraints = gdpr ∷ [];
  issued_by = "regulator";
  issued_at = none;
  signature = some "prof";
  signing_key_id = some "rk";
}

abbrev pub authorities : PublicKeyRegistry
authorities = ("rk", "rpub") ∷ []

abbrev pub options : KernelOptions
options = record {
  engine = engine;
  strict_action_typing = false;
  applicability_profile = some profile;
  profile_key_registry = authorities;
  signing_key_hex = some "kpriv";
  public_key_hex = some "kpub";
  kernel_key_id = "kernel";
  governed = true;
  generated = ("", "");
}

abbrev pub kernel : GovernanceKernel
kernel = record {
  action_type_registry = baseline_action_types;
  dynamic_risk_engine = engine;
  signing_key_hex = "kpriv";
  public_key_hex = "kpub";
  kernel_key_id = "kernel";
  strict_action_typing = true;
  tier1_floor = as_floor gdpr ∷ [];
}

abbrev pub task : Option String
task = some "task_execution"

-- Sends nothing, and leaves the world as it is.
abbrev sender : Executor
sender action w = (some (("status", text "sent") ∷ []), w)

abbrev pub fabric : Fabric
fabric = record {
  world_model = world;
  executors = ("send_email", sender) ∷ [];
  kill_switch = some (record { engaged = "other" ∷ []; log = [] });
  oob_ledger = [];
  public_key_registry = ("ak", "apub") ∷ [];
  kernel_public_key_hex = some "kpub";
  allow_unsigned_decisions = false;
  approver_max_levels = some (("ak", l3) ∷ []);
}

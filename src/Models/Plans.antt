-- ===== src/Models/Plans.antt =====
-- Proposals and the world model (models/strategy.py, models/world.py). A moment is a number of
-- microseconds since 1970, in UTC.
use general_autonomy_protoco.Models.Values.{Value}
use general_autonomy_protoco.Prelude.{ℕ, String, Bool, Option, List}
use general_autonomy_protoco.Prelude.Dict.{Dict}
use general_autonomy_protoco.Prelude.Int.{ℤ}

pub record PlannedAction : Type 0 where
  pub action_type : String
  pub target : String
  pub parameters : Dict Value
  pub requires_consent : Bool
  pub reversible : Bool
  pub risk_score : ℕ

pub record StrategyProposal : Type 0 where
  pub id : String
  pub intent_id : String
  pub attempt_number : ℕ
  pub plan_description : String
  pub actions : List PlannedAction
  pub estimated_cost : ℤ
  pub rationale : String
  pub prior_rejection_id : Option String
  pub generated_at : ℕ

pub record EntityState : Type 0 where
  pub entity_type : String
  pub entity_id : String
  pub properties : Dict Value
  pub last_updated : ℕ
  pub source : String
  pub confidence : ℤ
  pub obligations : List String

pub record WorldModel : Type 0 where
  pub entities : Dict EntityState
  pub last_reconciled : ℕ
  pub drift_events : List (Dict Value)

-- `compute_proposal_digest` leaves `generated_at` out: a digest is taken of the rest.
pub record ProposalContent : Type 0 where
  pub id : String
  pub intent_id : String
  pub attempt_number : ℕ
  pub plan_description : String
  pub actions : List PlannedAction
  pub estimated_cost : ℤ
  pub rationale : String
  pub prior_rejection_id : Option String

abbrev pub content : StrategyProposal → ProposalContent
content p = record {
  id = p.id;
  intent_id = p.intent_id;
  attempt_number = p.attempt_number;
  plan_description = p.plan_description;
  actions = p.actions;
  estimated_cost = p.estimated_cost;
  rationale = p.rationale;
  prior_rejection_id = p.prior_rejection_id;
}

-- ===== src/Models/Intents.antt =====
-- Intents and their constraints (models/intent.py).
use general_autonomy_protoco.Prelude.{ℕ, String, Bool, Option, List}
use general_autonomy_protoco.Prelude.Int.{ℤ}

pub data ConstraintType : Type 0 where
  hard soft : ConstraintType

pub data PolicyTier : Type 0 where
  regulatory_floor org_policy operational : PolicyTier

pub record PolicyActivation : Type 0 where
  pub always : Bool
  pub schedule : Option String
  pub condition : Option String
  pub emergency_override : Bool

pub record Constraint : Type 0 where
  pub name : String
  pub type : ConstraintType
  pub description : String
  pub activation : PolicyActivation
  pub threshold : Option ℤ
  pub tier : PolicyTier

pub record IntentVector : Type 0 where
  pub id : String
  pub objective : String
  pub priority : ℕ
  pub hard_constraints : List Constraint
  pub soft_constraints : List Constraint
  pub cost_ceiling : Option ℤ
  pub created_by : String
  pub created_at : ℕ
  pub active : Bool

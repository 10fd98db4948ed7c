-- ===== src/Models/Decisions.antt =====
-- Governance decisions, what is signed of them, and the cryptography that the program calls
-- (models/governance.py, models/strategy.py, crypto/signing.py).
use general_autonomy_protoco.Models.Levels.{
  GovernanceVerdict, AuthorizationLevel, AuthorizationTier,
}
use general_autonomy_protoco.Models.Intents.{ConstraintType, Constraint}
use general_autonomy_protoco.Models.Plans.{StrategyProposal, ProposalContent, content}
use general_autonomy_protoco.Prelude.{ℕ, String, ◌≡◌, Bool, true, Option, List}

pub record PhaseConfig : Type 0 where
  pub phase_name : String
  pub required : Bool
  pub default_authorization_level : AuthorizationLevel
  pub escalation_on_deviation : Bool

pub record RiskProfile : Type 0 where
  pub impact_scope : String
  pub reversibility : String
  pub blast_radius : String

pub record ActionTypeSpec : Type 0 where
  pub type_id : String
  pub risk_profile : RiskProfile
  pub default_authorization_level : AuthorizationLevel
  pub phase_config : List PhaseConfig
  pub registered_by : String
  pub registered_at : Option ℕ

pub record GovernancePhaseResult : Type 0 where
  pub phase_name : String
  pub verdict : GovernanceVerdict
  pub authorization_level : AuthorizationLevel
  pub violated_constraints : List String
  pub rejection_reason : Option String
  pub evaluated_at : ℕ

pub record PolicySnapshot : Type 0 where
  pub active_constraints : List (String × ConstraintType × String)
  pub count : ℕ

pub record TemporalContext : Type 0 where
  pub evaluated_at : ℕ
  pub hour : ℕ
  pub weekday : ℕ
  pub is_business_hours : Bool

-- What the kernel signs of a decision: all but the signature, the key's id and the approvals that
-- humans add later. The texts that only humans read and the uncertainty declaration are left out.
pub record Ruling : Type 0 where
  pub id : String
  pub proposal_id : String
  pub verdict : GovernanceVerdict
  pub violated_constraints : List String
  pub rejection_reason : Option String
  pub authorization_level : Option AuthorizationLevel
  pub authorization_tier : Option AuthorizationTier
  pub policy_snapshot : PolicySnapshot
  pub temporal_context : TemporalContext
  pub evaluated_at : ℕ
  pub action_type_id : Option String
  pub phase_results : List GovernancePhaseResult
  pub escalation_triggered : Bool
  pub original_authorization_level : Option AuthorizationLevel
  pub escalated_authorization_level : Option AuthorizationLevel
  pub proposal_digest : Option String

pub record GovernanceDecision : Type 0 where
  pub ruling : Ruling
  pub open ruling use *
  pub human_approval_signature : Option String
  pub human_approver_public_key_id : Option String
  pub human_approval_valid_until : Option ℕ
  pub decision_signature : Option String
  pub kernel_public_key_id : Option String

-- The message that a human approver signs.
pub record OobMessage : Type 0 where
  pub decision_id : String
  pub proposal_id : String
  pub authorization_level : Option AuthorizationLevel
  pub approver_key_id : Option String
  pub valid_until : Option ℕ

-- What an issuing authority signs of an Applicability Profile.
pub record ProfilePayload : Type 0 where
  pub profile_id : String
  pub tier1_constraints : List Constraint
  pub issued_by : String
  pub issued_at : Option ℕ

-- Ed25519 and SHA-256 of the package `cryptography` and of hashlib, and `json.dumps` of each kind
-- of payload under its domain tag.
pub record Crypto : Type 0 where
  pub sign : String → String → String
  pub verify : String → String → String → Bool
  pub sha256_of_proposal : ProposalContent → String
  pub dump_ruling : Ruling → String
  pub dump_oob : OobMessage → String
  pub dump_profile : ProfilePayload → String

module _ (C : Crypto) where
  unfoldable pub compute_proposal_digest : StrategyProposal → String
  compute_proposal_digest p = C.sha256_of_proposal (content p)

  unfoldable pub canonical_decision_payload : GovernanceDecision → String
  canonical_decision_payload d = C.dump_ruling d.ruling

-- The key pair `private`, `public` signs and verifies: a signature holds of the message that was
-- signed, and of no other.
pub record IsKeyPair (C : Crypto) (private public : String) : Type 0 where
  pub signed : (m : String) → C.verify public m (C.sign private m) ≡ true
  pub binding : (m n : String) → C.verify public m (C.sign private n) ≡ true → m ≡ n

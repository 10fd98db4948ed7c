-- ===== src/Profile.antt =====
-- Applicability Profiles: the signed regulatory floor of a deployment (governance/profile.py).
pub mod Signing
use general_autonomy_protoco.Prelude.{
  ltb, leb, eqb, if◌then◌else◌, Bool-cases, Option-cases, is_some, get_or, ◌>>=◌, >>=-eq-some,
  length, is_empty, any, select, find, last?, length-append, any-append, Member, All, All-append,
  All-prefix, All-suffix, contains, ℕ, zero, suc, ◌+◌, ◌-◌, ◌*◌, ◌/◌, ◌%◌, ◌≤◌, ◌<◌, String, ◌≡◌,
  refl, sym, ap, ◌∙◌, ◌≢◌, ◌↔◌, ◌⊎◌, inl, inr, Bool, true, false, ◌&&◌, ◌||◌, not, Option, none,
  some, List, [], ◌∷◌, ◌++◌, map, arith, ◌==◌, eq_iff, eq_refl,
}
use general_autonomy_protoco.Prelude.Dict.{
  Dict, lookup, has_key, insert, remove, values, lookup-insert, lookup-remove,
}
use general_autonomy_protoco.Prelude.Int.{ℤ, pos, negsuc, pos_part, neg_part, ltb_ℤ, leb_ℤ}
use general_autonomy_protoco.Models.{
  Value, null, flag, num, text, sequence, table, Fields, end, field, to_dict, of_dict, unit, truthy,
  is_set, is_given, truncate, of_flag, Runtime, to_float, to_int, GovernanceVerdict, approved,
  rejected, escalate, AuthorizationLevel, l0, l1, l2, l3, l4, rank, level_name, needs_oob,
  satisfies_auth, max_auth, AuthorizationTier, auto_execute, notify_proceed, require_approval,
  escalate_tier, max_auth_bounds, rank-injective, needs_oob-rank, ConstraintType, hard, soft,
  PolicyTier, regulatory_floor, org_policy, operational, PolicyActivation, Constraint, IntentVector,
  PlannedAction, StrategyProposal, EntityState, WorldModel, ProposalContent, content, PhaseConfig,
  RiskProfile, ActionTypeSpec, GovernancePhaseResult, PolicySnapshot, TemporalContext, Ruling,
  GovernanceDecision, OobMessage, ProfilePayload, Crypto, compute_proposal_digest,
  canonical_decision_payload, IsKeyPair,
}

pub record ApplicabilityProfile : Type 0 where
  pub profile_id : String
  pub tier1_constraints : List Constraint
  pub issued_by : String
  pub issued_at : Option ℕ
  pub signature : Option String
  pub signing_key_id : Option String

pub data ProfileError : Type 0 where
  unsigned unregistered_key invalid_signature : ProfileError

abbrev pub payload : ApplicabilityProfile → ProfilePayload
payload p = record {
  profile_id = p.profile_id;
  tier1_constraints = p.tier1_constraints;
  issued_by = p.issued_by;
  issued_at = p.issued_at;
}

-- `PublicKeyRegistry`: key ids and public keys.
abbrev pub PublicKeyRegistry : Type 0
PublicKeyRegistry = Dict String

module _ (C : Crypto) where
  unfoldable pub signing_payload : ApplicabilityProfile → String
  signing_payload p = C.dump_profile (payload p)

  unfoldable pub sign_profile : ApplicabilityProfile → String → String → ApplicabilityProfile
  unfolding signing_payload
  sign_profile p private_key_hex signing_key_id =
      let unsigned_copy : ApplicabilityProfile = record p {
        signing_key_id = some signing_key_id;
        signature = none;
      } in
      record unsigned_copy {
        signature = some (C.sign private_key_hex (signing_payload unsigned_copy));
      }

  verify_with : ApplicabilityProfile → Option String → String → Option ProfileError
  unfolding signing_payload
  verify_with p none signature = some unregistered_key
  verify_with p (some public_key_hex) signature =
      if public_key_hex == ""
      then some unregistered_key
      else if C.verify public_key_hex (signing_payload p) signature
      then none
      else some invalid_signature

  -- `none` where the profile verifies, else the error that is raised.
  unfoldable pub verify_profile : ApplicabilityProfile → PublicKeyRegistry → Option ProfileError
  unfolding verify_with
  verify_profile p registry =
      if not (is_given p.signature) || not (is_given p.signing_key_id)
      then some unsigned
      else verify_with p (lookup (get_or p.signing_key_id "") registry) (get_or p.signature "")

-- ===== src/Resolver.antt =====
-- Structured intent resolution (governance/sir.py, models/sir.py): the declaration of an intent, its
-- confirmation, standing declarations and the gate before planning. `dump` is `_seal_payload`, which
-- leaves the seal and its key out; the inference of the meta-intent is an argument of `resolve`.
pub mod Gate
use general_autonomy_protoco.Prelude.{
  leb, eqb, if◌then◌else◌, get_or, ℕ, ◌+◌, ◌-◌, ◌*◌, ◌/◌, String, Bool, true, false, ◌&&◌, ◌||◌,
  not, Option, none, some, List, [], ◌∷◌, ◌++◌, ◌==◌,
}
use general_autonomy_protoco.Models.{is_given, AuthorizationLevel, l0, l1, l2, l3, l4, rank, Crypto}

pub data ConfirmationState : Type 0 where
  pending confirmed corrected : ConfirmationState

pub record MetaIntent : Type 0 where
  pub primary_objective : String
  pub value_hierarchy : List String
  pub risk_tolerance : String
  pub stakeholder_impact : List String

pub record CorrectionRecord : Type 0 where
  pub corrected_field : String
  pub original : String
  pub corrected_value : String
  pub corrected_at : ℕ

-- What the seal signs: all of a declaration but the seal and its key.
pub record DeclaredIntent : Type 0 where
  pub declaration_id : String
  pub intent_class : Option String
  pub stated_intent : String
  pub interpreted_intent : String
  pub meta_intent : MetaIntent
  pub declared_boundaries : List String
  pub confirmation_state : ConfirmationState
  pub correction_records : List CorrectionRecord
  pub authorization_level : AuthorizationLevel
  pub resolution_mode : String
  pub created_at : ℕ
  pub linked_decision_id : Option String

pub record IntentDeclaration : Type 0 where
  pub declared : DeclaredIntent
  pub open declared use *
  pub integrity_signature : Option String
  pub signing_key_id : Option String

pub record StandingIntentDeclaration : Type 0 where
  pub standing_id : String
  pub standing_class : String
  pub declaration : IntentDeclaration
  pub authored_by : String
  pub expires_at : ℕ

-- `StandingIntentError`
pub data StandingError : Type 0 where
  not_human_authored expired not_l0 not_confirmed : StandingError

-- `_READY_STATES`
abbrev pub is_ready_state : ConfirmationState → Bool
is_ready_state pending = false
is_ready_state confirmed = true
is_ready_state corrected = true

unfoldable pub resolution_mode_of : AuthorizationLevel → String
resolution_mode_of l0 = "standing_declaration"
resolution_mode_of l1 = "structured_confirmation"
resolution_mode_of l2 = "collaborative_specification"
resolution_mode_of l3 = "full_negotiation"
resolution_mode_of l4 = "full_negotiation"

unfoldable pub requires_confirmation : AuthorizationLevel → Bool
requires_confirmation level = leb (rank l1) (rank level)

-- The optional arguments of `resolve`.
pub record ResolveOptions : Type 0 where
  pub given_interpretation : Option String
  pub given_meta_intent : Option MetaIntent
  pub given_boundaries : Option (List String)
  pub given_id : Option String
  pub given_class : Option String
  pub given_time : Option ℕ

abbrev or_else : Option String → String → String
or_else given other = if is_given given then get_or given "" else other

unfoldable pub resolve :
    (String → MetaIntent)
    → String
    → ℕ
    → String
    → AuthorizationLevel
    → ResolveOptions
    → IntentDeclaration
unfolding resolution_mode_of
resolve infer_meta_intent new_id now stated level o = record {
  declared = record {
    declaration_id = or_else o.given_id new_id;
    intent_class = o.given_class;
    stated_intent = stated;
    interpreted_intent = or_else o.given_interpretation stated;
    meta_intent = get_or o.given_meta_intent (infer_meta_intent stated);
    declared_boundaries = get_or o.given_boundaries [];
    confirmation_state = pending;
    correction_records = [];
    authorization_level = level;
    resolution_mode = resolution_mode_of level;
    created_at = get_or o.given_time now;
    linked_decision_id = none;
  };
  integrity_signature = none;
  signing_key_id = none;
}

unfoldable pub confirm : IntentDeclaration → IntentDeclaration
confirm d = record d { declared = record d.declared { confirmation_state = confirmed } }

unfoldable pub correct : IntentDeclaration → String → String → String → ℕ → IntentDeclaration
correct d corrected_field corrected_value original at = record d {
  declared = record d.declared {
    confirmation_state = corrected;
    correction_records =
        d.correction_records
        ++ record {
          corrected_field = corrected_field;
          original = original;
          corrected_value = corrected_value;
          corrected_at = at;
        }
          ∷ [];
  };
}

-- `none` where the standing declaration is valid, else the first error. The system's own identity
-- comes first.
unfoldable pub validate_standing : String → StandingIntentDeclaration → ℕ → Option StandingError
validate_standing system_identity s now =
    if s.authored_by == system_identity || s.authored_by == ""
    then some not_human_authored
    else if leb s.expires_at now
    then some expired
    else if not (eqb (rank s.declaration.authorization_level) 0)
    then some not_l0
    else if not (is_ready_state s.declaration.confirmation_state)
    then some not_confirmed
    else none

covers : String → IntentDeclaration → ℕ → Option StandingIntentDeclaration → Bool
unfolding validate_standing
covers system_identity d now none = false
covers system_identity d now (some s) = elim (validate_standing system_identity s now) [
  | some error ↦ false
  | none ↦ is_given d.intent_class && get_or d.intent_class "" == s.standing_class
]

unfoldable pub is_ready_for_cga :
    String → IntentDeclaration → Option StandingIntentDeclaration → ℕ → Bool
unfolding covers
is_ready_for_cga system_identity d standing now =
    if eqb (rank d.authorization_level) 0
    then covers system_identity d now standing
    else is_ready_state d.confirmation_state

abbrev pub linked_to : IntentDeclaration → Option String → DeclaredIntent
linked_to d decision_id = record d.declared { linked_decision_id = decision_id }

module _ (C : Crypto) (dump : DeclaredIntent → String) where
  -- `none` is the error of a declaration that is not confirmed.
  unfoldable pub seal :
      IntentDeclaration → String → String → Option String → Option IntentDeclaration
  seal d private_key_hex signing_key_id decision_id =
      if is_ready_state d.confirmation_state
      then some (record {
        declared = linked_to d decision_id;
        integrity_signature = some (C.sign private_key_hex (dump (linked_to d decision_id)));
        signing_key_id = some signing_key_id;
      })
      else none

  unfoldable pub verify_seal : IntentDeclaration → String → Bool
  verify_seal d public_key_hex =
      is_given d.integrity_signature
      && C.verify public_key_hex (dump d.declared) (get_or d.integrity_signature "")

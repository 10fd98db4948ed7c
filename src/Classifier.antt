-- ===== src/Classifier.antt =====
-- From operational to governance action types (governance/action_classifier.py).
pub mod Choice
use general_autonomy_protoco.Prelude.{
  ltb, if◌then◌else◌, get_or, ℕ, ◌-◌, ◌/◌, String, Option, List, [], ◌∷◌,
}
use general_autonomy_protoco.Prelude.Dict.{Dict, lookup}
use general_autonomy_protoco.Models.{is_given, operational, PlannedAction, StrategyProposal}

-- `_DEFAULT_RANK`
abbrev pub default_rank_of_category : Dict ℕ
default_rank_of_category =
    ("task_execution", 0)
    ∷ ("escalation", 0)
    ∷ ("drift_reconciliation", 1)
    ∷ ("skill_modification", 2)
    ∷ ("policy_proposal", 4)
    ∷ []

-- `_DEFAULT_OVERRIDES`
abbrev pub default_overrides : Dict String
default_overrides =
    ("modify_skill", "skill_modification")
    ∷ ("update_skill", "skill_modification")
    ∷ ("tune_skill", "skill_modification")
    ∷ ("propose_policy", "policy_proposal")
    ∷ ("modify_policy", "policy_proposal")
    ∷ []

pub record ActionTypeClassifier : Type 0 where
  pub base : String
  pub overrides : Dict String
  pub ranks : Dict ℕ

unfoldable pub new_classifier :
    String → Option (Dict String) → Option (Dict ℕ) → ActionTypeClassifier
new_classifier base overrides ranks = record {
  base = base;
  overrides = get_or overrides default_overrides;
  ranks = get_or ranks default_rank_of_category;
}

unfoldable pub restrictiveness : ActionTypeClassifier → String → ℕ
restrictiveness c action_type_id = get_or (lookup action_type_id c.ranks) 0

-- The categories that the actions imply.
unfoldable pub implied : ActionTypeClassifier → List PlannedAction → List String
implied c [] = []
implied c (a ∷ actions) =
    let rest = implied c actions in
    let override = lookup a.action_type c.overrides in
    if is_given override then get_or override "" ∷ rest else rest

-- `max` keeps the first of the greatest.
unfoldable pub most_restrictive : ActionTypeClassifier → String → List String → String
unfolding restrictiveness
most_restrictive c best [] = best
most_restrictive c best (x ∷ candidates) =
    most_restrictive c (if ltb (restrictiveness c best) (restrictiveness c x) then x else best)
      candidates

unfoldable pub classify : ActionTypeClassifier → StrategyProposal → String
unfolding implied most_restrictive
classify c p = most_restrictive c c.base (implied c p.actions)

-- ===== src/Classifier/Choice.antt =====
-- The choice of a governance action type (governance/action_classifier.py).
use general_autonomy_protoco.Prelude.{
  ltb, if◌then◌else◌, Bool-cases, get_or, Member, All, ℕ, ◌≤◌, String, ◌≡◌, refl, ◌⊎◌, inl, inr,
  false, Option, none, some, List, [], ◌∷◌, arith, eq_iff,
}
use general_autonomy_protoco.Prelude.Dict.{lookup}
use general_autonomy_protoco.Models.{is_given, PlannedAction, StrategyProposal}
use mathlib.Core.Path.{subst}
use general_autonomy_protoco.Classifier.{
  ActionTypeClassifier, restrictiveness, implied, most_restrictive, classify,
}

most_restrictive-Member :
    (c : ActionTypeClassifier) (best : String) (xs : List String)
    → (most_restrictive c best xs ≡ best) ⊎ Member (most_restrictive c best xs) xs
unfolding most_restrictive
most_restrictive-Member c best [] = inl refl
most_restrictive-Member c best (x ∷ xs) =
    elim (Bool-cases (ltb (restrictiveness c best) (restrictiveness c x))) [
      | inl t ↦ elim (most_restrictive-Member c x xs) [
        | inl e ↦ inr (inl (ground arith))
        | inr h ↦ inr (inr (ground arith))
      ]
      | inr f ↦ elim (most_restrictive-Member c best xs) [
        | inl e ↦ inl (ground arith)
        | inr h ↦ inr (inr (ground arith))
      ]
    ]

le-most_restrictive :
    (c : ActionTypeClassifier) (best : String) (xs : List String)
    → (restrictiveness c best ≤ restrictiveness c (most_restrictive c best xs))
      × All
          (λ (x : String). restrictiveness c x ≤ restrictiveness c (most_restrictive c best xs))
          xs
unfolding most_restrictive
le-most_restrictive c best [] = (omega arith, tt)
le-most_restrictive c best (x ∷ xs) =
    let next : String = if ltb (restrictiveness c best) (restrictiveness c x) then x else best in
    let (up, rest) = le-most_restrictive c next xs in
    let from_best : restrictiveness c best ≤ restrictiveness c next = ground arith in
    let from_x : restrictiveness c x ≤ restrictiveness c next = ground arith in
    (omega (arith, up, from_best), (omega (arith, up, from_x), rest))

-- What the overrides of the classifier say of an action, and the empty text where they say nothing.
abbrev pub category_of : ActionTypeClassifier → PlannedAction → String
category_of c a = get_or (lookup a.action_type c.overrides) ""

unnamed : (o : Option String) → is_given o ≡ false → get_or o "" ≡ ""
unnamed none e = refl
unnamed (some s) e = ground (arith, eq_iff s "")

covered :
    (c : ActionTypeClassifier) (bound : ℕ) (actions : List PlannedAction)
    → All (λ (x : String). restrictiveness c x ≤ bound) (implied c actions)
    → All
        (λ (a : PlannedAction).
          (category_of c a ≡ "") ⊎ (restrictiveness c (category_of c a) ≤ bound))
        actions
unfolding implied
covered c bound [] h = tt
covered c bound (a ∷ actions) h = elim (Bool-cases (is_given (lookup a.action_type c.overrides))) [
  | inl found ↦
      let parts : All (λ (x : String). restrictiveness c x ≤ bound)
          (category_of c a ∷ implied c actions) =
        let same : implied c (a ∷ actions) ≡ category_of c a ∷ implied c actions = ground arith in
        subst (All (λ (x : String). restrictiveness c x ≤ bound)) same h in
      (inr parts.0, covered c bound actions parts.1)
  | inr missing ↦
      let same : implied c (a ∷ actions) ≡ implied c actions = ground arith in
      (
        inl (unnamed (lookup a.action_type c.overrides) missing),
        covered c bound actions (subst (All (λ (x : String). restrictiveness c x ≤ bound)) same h),
      )
]

-- The type of a proposal is the classifier's base, or one that an action implies; and it is at
-- least as restrictive as the base and as what every action implies.
pub classify_lem :
    (c : ActionTypeClassifier) (p : StrategyProposal)
    → ((classify c p ≡ c.base) ⊎ Member (classify c p) (implied c p.actions))
      × (restrictiveness c c.base ≤ restrictiveness c (classify c p))
      × All
          (λ (a : PlannedAction).
            (category_of c a ≡ "")
            ⊎ (restrictiveness c (category_of c a) ≤ restrictiveness c (classify c p)))
          p.actions
unfolding classify
classify_lem c p =
    let (base, rest) = le-most_restrictive c c.base (implied c p.actions) in
    (
      most_restrictive-Member c c.base (implied c p.actions),
      base,
      covered c (restrictiveness c (most_restrictive c c.base (implied c p.actions))) p.actions
          rest,
    )

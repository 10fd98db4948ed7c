-- ===== src/Evaluators/Totality.antt =====
-- When the evaluators answer (governance/kernel.py).
use general_autonomy_protoco.Prelude.{
  Option-cases, is_some, get_or, All, String, ◌≡◌, ◌≢◌, refl, ◌⊎◌, inl, inr, Bool, true, false,
  Option, some, List, [], ◌∷◌, arith,
}
use general_autonomy_protoco.Prelude.Dict.{lookup-All, lookup}
use general_autonomy_protoco.Prelude.Int.{ℤ, pos}
use general_autonomy_protoco.Models.{
  Value, null, flag, num, infinity, nan, text, sequence, table, Conversion, converted, malformed,
  overflowed, Runtime, Constraint, PlannedAction, StrategyProposal, EntityState, WorldModel,
}
use general_autonomy_protoco.Evaluators.{
  any_or_raise, geo_of, is_eu, gdpr_entity, gdpr_action, check_gdpr_consent, outside_hours,
  hours_action, check_contact_hours, check_cost_ceiling, check_ai_interaction_disclosure,
  check_fairness_evaluation, check_aml_screening, transaction_amount, record_count, unscreened,
  excessive_phi, check_minimum_necessary_phi, check_safety_boundary, check_ip_content_risk, Check,
  constraint_evaluators, check_constraint_violation, constraint_has_evaluator,
}

-- A world in which the evaluators find the types that they use: a jurisdiction is a text, and an
-- hour, if there is one, a number.
abbrev pub is_text : Value → Bool
is_text (text s) = true
is_text _ = false

abbrev pub is_number : Value → Bool
is_number null = true
is_number (flag b) = true
is_number (num x) = true
is_number (infinity positive) = true
is_number nan = true
is_number _ = false

abbrev HasTypes : EntityState → Type 0
HasTypes e =
    (is_text (geo_of e.properties) ≡ true)
    × (is_number (get_or (lookup "local_hour" e.properties) null) ≡ true)

abbrev pub IsWellTyped : WorldModel → Type 0
IsWellTyped w = All (λ (entry : String × EntityState). HasTypes entry.1) w.entities

has_types :
    (w : WorldModel) (target : String) (e : EntityState)
    → IsWellTyped w
    → lookup target w.entities ≡ some e
    → HasTypes e
has_types w target e h known = lookup-All HasTypes target w.entities known h

pub any_or_raise-total :
    {A : Type 0} (test : A → Option Bool) (xs : List A)
    → ((x : A) → is_some (test x) ≡ true)
    → is_some (any_or_raise test xs) ≡ true
unfolding any_or_raise
any_or_raise-total test [] h = refl
any_or_raise-total test (x ∷ xs) h = ground (arith, h x, any_or_raise-total test xs h)

-- `float` of the amount and `int` of the count, where an action has them, raise no OverflowError.
abbrev pub IsConvertible : Runtime → PlannedAction → Type 0
IsConvertible R a = (transaction_amount R a ≢ some overflowed) × (record_count R a ≢ overflowed)

any_or_raise-All :
    {A : Type 0} {P : A → Type 0} (test : A → Option Bool)
    → ((x : A) → P x → is_some (test x) ≡ true)
    → (xs : List A) → All P xs
    → is_some (any_or_raise test xs) ≡ true
unfolding any_or_raise
any_or_raise-All test h [] all = refl
any_or_raise-All test h (x ∷ xs) (px, all) = ground (arith, h x px, any_or_raise-All test h xs all)

is_eu-total : (R : Runtime) (v : Value) → is_text v ≡ true → is_some (is_eu R v) ≡ true
unfolding is_eu
is_eu-total R (text s) h = refl
is_eu-total R null h = ground arith
is_eu-total R (flag b) h = ground arith
is_eu-total R (num x) h = ground arith
is_eu-total R (infinity x) h = ground arith
is_eu-total R nan h = ground arith
is_eu-total R (sequence b) h = ground arith
is_eu-total R (table b) h = ground arith

outside_hours-total : (v : Value) → is_number v ≡ true → is_some (outside_hours v) ≡ true
unfolding outside_hours
outside_hours-total v h = ground arith

module _ (R : Runtime) (w : WorldModel) (typed : IsWellTyped w) where
  gdpr_action-total : (a : PlannedAction) → is_some (gdpr_action R w a) ≡ true
  unfolding gdpr_action gdpr_entity
  gdpr_action-total a = elim (Option-cases (lookup a.target w.entities)) [
    | inl e ↦ ground arith
    | inr (x, e) ↦
        ground (arith, is_eu-total R (geo_of x.properties) (has_types w a.target x typed e).0)
  ]

  hours_action-total : (a : PlannedAction) → is_some (hours_action w a) ≡ true
  unfolding hours_action
  hours_action-total a = elim (Option-cases (lookup a.target w.entities)) [
    | inl e ↦ ground arith
    | inr (x, e) ↦ ground (arith, outside_hours-total _ (has_types w a.target x typed e).1)
  ]

  -- The registered checks that read the world.
  check_gdpr_consent-total :
      (p : StrategyProposal) (c : Constraint) → is_some (check_gdpr_consent R p c w) ≡ true
  unfolding check_gdpr_consent
  check_gdpr_consent-total p c = any_or_raise-total (gdpr_action R w) p.actions gdpr_action-total

  check_contact_hours-total :
      (p : StrategyProposal) (c : Constraint) → is_some (check_contact_hours p c w) ≡ true
  unfolding check_contact_hours
  check_contact_hours-total p c = any_or_raise-total (hours_action w) p.actions hours_action-total

  unscreened-total :
      (θ : ℤ) (a : PlannedAction) → IsConvertible R a → is_some (unscreened R θ a) ≡ true
  unfolding unscreened
  unscreened-total θ a h = elim (Option-cases (transaction_amount R a)) [
    | inl e ↦ rw (e, unscreened) refl
    | inr (converted x, e) ↦ rw (e, unscreened) refl
    | inr (malformed, e) ↦ rw (e, unscreened) refl
    | inr (overflowed, e) ↦ absurd (h.0 e)
  ]

  excessive_phi-total :
      (θ : ℤ) (a : PlannedAction) → IsConvertible R a → is_some (excessive_phi R θ a) ≡ true
  unfolding excessive_phi
  excessive_phi-total θ a h = counted (record_count R a) refl
    where
      counted : (n : Conversion ℤ) → record_count R a ≡ n → is_some (excessive_phi R θ a) ≡ true
      counted (converted n) e = ground arith
      counted malformed e = ground arith
      counted overflowed e = absurd (h.1 e)

  -- The registered checks that convert a number.
  check_aml_screening-total :
      (p : StrategyProposal) (c : Constraint)
      → All (IsConvertible R) p.actions
      → is_some (check_aml_screening R p c w) ≡ true
  unfolding check_aml_screening
  check_aml_screening-total p c h =
      any_or_raise-All (unscreened R (get_or c.threshold (pos 0))) (unscreened-total _) p.actions h

  check_minimum_necessary_phi-total :
      (p : StrategyProposal) (c : Constraint)
      → All (IsConvertible R) p.actions
      → is_some (check_minimum_necessary_phi R p c w) ≡ true
  unfolding check_minimum_necessary_phi
  check_minimum_necessary_phi-total p c h =
      any_or_raise-All (excessive_phi R (get_or c.threshold (pos 1000000))) (excessive_phi-total _)
        p.actions h

  registered-total :
      (p : StrategyProposal) (c : Constraint)
      → All (IsConvertible R) p.actions
      → All (λ entry. is_some (entry.1 p c w) ≡ true) (constraint_evaluators R)
  unfolding constraint_evaluators check_cost_ceiling check_ai_interaction_disclosure
      check_fairness_evaluation check_safety_boundary check_ip_content_risk
  registered-total p c h = (
    check_gdpr_consent-total p c,
    (
      check_contact_hours-total p c,
      (
        refl,
        (
          refl,
          (
            refl,
            (
              check_aml_screening-total p c h,
              (check_minimum_necessary_phi-total p c h, (refl, (refl, tt))),
            ),
          ),
        ),
      ),
    ),
  )

  -- Over a world whose entities have a text for jurisdiction and a number for hour, and for a
  -- proposal none of whose amounts and record counts overflows in its conversion, checking against
  -- any constraint returns an answer; and for a constraint without an evaluator the answer is a
  -- violation.
  pub check_constraint_violation-total :
      (p : StrategyProposal) (c : Constraint)
      → All (IsConvertible R) p.actions
      → (is_some (check_constraint_violation R p c w) ≡ true)
        × ((constraint_has_evaluator R c ≡ true) ⊎ (check_constraint_violation R p c w ≡ some true))
  unfolding check_constraint_violation constraint_has_evaluator
  check_constraint_violation-total p c convertible =
      elim (Option-cases (lookup c.name (constraint_evaluators R))) [
        | inl e ↦ (
          rw (e, check_constraint_violation, is_some) refl,
          inr (rw (e, check_constraint_violation) refl),
        )
        | inr (f, e) ↦ (
          rw (e, check_constraint_violation, is_some)
              (lookup-All (λ (g : Check). is_some (g p c w) ≡ true) c.name (constraint_evaluators R)
                e (registered-total p c convertible)),
          inl (rw e refl),
        )
      ]

-- ===== src/Evaluators/Meaning.antt =====
-- What it means that an evaluator finds no violation (governance/kernel.py).
use general_autonomy_protoco.Prelude.{
  All-map, Bool-cases, Option-cases, get_or, any, All, String, ◌≡◌, refl, ◌⊎◌, inl, inr, Bool, true,
  false, Option, none, some, List, [], ◌∷◌, arith,
}
use general_autonomy_protoco.Prelude.Dict.{lookup}
use general_autonomy_protoco.Prelude.Int.{ℤ, pos}
use general_autonomy_protoco.Models.{
  Value, null, flag, num, infinity, nan, text, sequence, table, Float, exceeds, Conversion,
  converted, malformed, overflowed, is_set, Runtime, to_float, Constraint, PlannedAction,
  StrategyProposal, EntityState, WorldModel,
}
use general_autonomy_protoco.Evaluators.{
  any_or_raise, is_interactive, geo_of, is_eu_code, is_eu, gdpr_entity, gdpr_action,
  check_gdpr_consent, transaction_amount, unscreened, check_aml_screening,
}

pub any_or_raise-false :
    {A : Type 0} (test : A → Option Bool) (xs : List A)
    → any_or_raise test xs ≡ some false
    → All (λ x. test x ≡ some false) xs
unfolding any_or_raise
any_or_raise-false test [] h = tt
any_or_raise-false test (x ∷ xs) h = ground (arith, any_or_raise-false test xs)

pub any-false :
    {A : Type 0} (test : A → Bool) (xs : List A)
    → any test xs ≡ false
    → All (λ x. test x ≡ false) xs
any-false test [] h = tt
any-false test (x ∷ xs) h = ground (arith, any-false test xs)

module _ (R : Runtime) where
  -- An outreach to a known entity in the EU has that entity's consent, and one to an unknown entity
  -- needs none.
  abbrev pub IsConsented : WorldModel → PlannedAction → Type 0
  IsConsented w a =
      (is_interactive a ≡ false)
      ⊎ ((lookup a.target w.entities ≡ none) × (a.requires_consent ≡ false))
      ⊎ ((e : EntityState) × (s : String) × (lookup a.target w.entities ≡ some e)
          × (geo_of e.properties ≡ text s)
          × ((is_eu_code (R.upper s) ≡ false) ⊎ (is_set e.properties "gdpr_consent" ≡ true)))

  eu_text :
      (v : Value) (b : Bool)
      → is_eu R v ≡ some b
      → (s : String) × (v ≡ text s) × (is_eu_code (R.upper s) ≡ b)
  unfolding is_eu
  eu_text (text s) b h = (s, refl, ground arith)
  eu_text null b h = ground arith
  eu_text (flag x) b h = ground arith
  eu_text (num x) b h = ground arith
  eu_text (infinity x) b h = ground arith
  eu_text nan b h = ground arith
  eu_text (sequence x) b h = ground arith
  eu_text (table x) b h = ground arith

  consented :
      (w : WorldModel) (a : PlannedAction) → gdpr_action R w a ≡ some false → IsConsented w a
  unfolding gdpr_action gdpr_entity
  consented w a h = elim (Bool-cases (is_interactive a)) [
    | inr quiet ↦ inl quiet
    | inl outreach ↦ elim (Option-cases (lookup a.target w.entities)) [
      | inl unknown ↦ inr (inl (unknown, ground arith))
      | inr (e, known) ↦ inr (inr (of_known e known outreach))
    ]
  ]
    where
      of_known :
          (e : EntityState)
          → lookup a.target w.entities ≡ some e
          → is_interactive a ≡ true
          → (e : EntityState) × (s : String) × (lookup a.target w.entities ≡ some e)
            × (geo_of e.properties ≡ text s)
            × ((is_eu_code (R.upper s) ≡ false) ⊎ (is_set e.properties "gdpr_consent" ≡ true))
      of_known e known outreach = elim (Option-cases (is_eu R (geo_of e.properties))) [
        | inl raised ↦ ground arith
        | inr (true, found) ↦
            let (s, is, eu) = eu_text (geo_of e.properties) true found in
            (e, s, known, is, inr (ground arith))
        | inr (false, found) ↦
            let (s, is, eu) = eu_text (geo_of e.properties) false found in (e, s, known, is, inl eu)
      ]

  -- Where the GDPR evaluator finds no violation, every outreach to a known entity in the EU has
  -- that entity's consent, and no outreach to an unknown entity requires consent.
  pub check_gdpr_consent-IsConsented :
      (p : StrategyProposal) (c : Constraint) (w : WorldModel)
      → check_gdpr_consent R p c w ≡ some false
      → All (IsConsented w) p.actions
  unfolding check_gdpr_consent
  check_gdpr_consent-IsConsented p c w h =
      All-map (consented w) p.actions (any_or_raise-false (gdpr_action R w) p.actions h)

  -- A declared transaction has an amount that `float` reads, and that is at most the threshold
  -- unless the action is both screened and checked against sanctions.
  abbrev pub IsScreened : ℤ → PlannedAction → Type 0
  IsScreened threshold a =
      (lookup "transaction_amount" a.parameters ≡ none)
      ⊎ (lookup "transaction_amount" a.parameters ≡ some null)
      ⊎ ((v : Value) × (x : Float) × (lookup "transaction_amount" a.parameters ≡ some v)
          × (to_float R v ≡ converted x)
          × ((exceeds x threshold ≡ false)
              ⊎ ((is_set a.parameters "aml_screened" ≡ true)
                  × (is_set a.parameters "sanctions_checked" ≡ true))))

  of_amount :
      (θ : ℤ) (a : PlannedAction) (v : Value)
      → lookup "transaction_amount" a.parameters ≡ some v
      → transaction_amount R a ≡ some (to_float R v)
      → unscreened R θ a ≡ some false
      → IsScreened θ a
  unfolding unscreened
  of_amount θ a v e is h = read (to_float R v) refl
    where
      read : (x : Conversion Float) → to_float R v ≡ x → IsScreened θ a
      read malformed bad = ground arith
      read overflowed bad = ground arith
      read (converted x) is_x = inr (
          inr (
            v,
            x,
            e,
            is_x,
            elim (Bool-cases (exceeds x θ)) [
              | inr low ↦ inl low
              | inl high ↦ inr (ground arith, ground arith)
            ],
          ))

  screened : (θ : ℤ) (a : PlannedAction) → unscreened R θ a ≡ some false → IsScreened θ a
  unfolding transaction_amount
  screened θ a h = elim (Option-cases (lookup "transaction_amount" a.parameters)) [
    | inl e ↦ inl e
    | inr (null, e) ↦ inr (inl e)
    | inr (flag b, e) ↦ of_amount θ a (flag b) e (rw (e, transaction_amount) refl) h
    | inr (num x, e) ↦ of_amount θ a (num x) e (rw (e, transaction_amount) refl) h
    | inr (infinity x, e) ↦ of_amount θ a (infinity x) e (rw (e, transaction_amount) refl) h
    | inr (nan, e) ↦ of_amount θ a nan e (rw (e, transaction_amount) refl) h
    | inr (text s, e) ↦ of_amount θ a (text s) e (rw (e, transaction_amount) refl) h
    | inr (sequence b, e) ↦ of_amount θ a (sequence b) e (rw (e, transaction_amount) refl) h
    | inr (table b, e) ↦ of_amount θ a (table b) e (rw (e, transaction_amount) refl) h
  ]

  -- Where the AML evaluator finds no violation, every declared amount is a number, and one above
  -- the threshold is screened and checked against sanctions.
  pub check_aml_screening-IsScreened :
      (p : StrategyProposal) (c : Constraint) (w : WorldModel)
      → check_aml_screening R p c w ≡ some false
      → All (IsScreened (get_or c.threshold (pos 0))) p.actions
  unfolding check_aml_screening
  check_aml_screening-IsScreened p c w h =
      All-map (screened (get_or c.threshold (pos 0))) p.actions
        (any_or_raise-false (unscreened R (get_or c.threshold (pos 0))) p.actions h)

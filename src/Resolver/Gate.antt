-- ===== src/Resolver/Gate.antt =====
-- What the gate of the resolver asks of a declaration, and its seal (governance/sir.py).
use general_autonomy_protoco.Prelude.{
  eqb, Bool-cases, Option-cases, get_or, ℕ, ◌<◌, String, ◌≡◌, refl, ◌≢◌, ◌↔◌, ◌⊎◌, inl, inr, true,
  false, Option, none, some, arith, eq_iff, eq_refl,
}
use general_autonomy_protoco.Models.{AuthorizationLevel, l0, rank, Crypto, IsKeyPair}
use general_autonomy_protoco.Resolver.{
  MetaIntent, DeclaredIntent, IntentDeclaration, StandingIntentDeclaration, is_ready_state,
  ResolveOptions, resolve, confirm, correct, validate_standing, covers, is_ready_for_cga, linked_to,
  seal, verify_seal,
}

-- A standing declaration that covers a declaration: somebody else than the system wrote it, it has
-- not expired, it is one of L0 that was confirmed or corrected, and the classes agree.
pub record IsCovering (system_identity : String) (d : IntentDeclaration) (now : ℕ)
    (s : StandingIntentDeclaration) : Type 0 where
  pub not_own : s.authored_by ≢ system_identity
  pub authored : s.authored_by ≢ ""
  pub unexpired : now < s.expires_at
  pub lowest : s.declaration.authorization_level ≡ l0
  pub ready : is_ready_state s.declaration.confirmation_state ≡ true
  pub same_class : d.intent_class ≡ some s.standing_class
  pub has_class : s.standing_class ≢ ""

rank_l0 : (l : AuthorizationLevel) → rank l ≡ 0 → l ≡ l0
unfolding rank
rank_l0 l e = ground arith

rank_of_l0 : (l : AuthorizationLevel) → l ≡ l0 → rank l ≡ 0
unfolding rank
rank_of_l0 l e = ground arith

module _ (system_identity : String) (d : IntentDeclaration) (now : ℕ)
    (s : StandingIntentDeclaration) where
  covers-IsCovering :
      covers system_identity d now (some s) ≡ true → IsCovering system_identity d now s
  unfolding covers validate_standing
  covers-IsCovering h = record {
    not_own = ground (arith, eq_iff s.authored_by system_identity);
    authored = ground (arith, eq_iff s.authored_by "");
    unexpired = ground arith;
    lowest = rank_l0 s.declaration.authorization_level (ground arith);
    ready = ground arith;
    same_class = ground (arith, eq_iff (get_or d.intent_class "") s.standing_class);
    has_class =
        ground
          (arith, eq_iff (get_or d.intent_class "") s.standing_class, eq_iff s.standing_class "");
  }

  IsCovering-covers :
      IsCovering system_identity d now s → covers system_identity d now (some s) ≡ true
  unfolding covers validate_standing
  IsCovering-covers c = ground (
    arith,
    eq_iff s.authored_by system_identity,
    eq_iff s.authored_by "",
    eq_refl s.standing_class,
    c.not_own,
    c.authored,
    c.unexpired,
    rank_of_l0 s.declaration.authorization_level c.lowest,
    c.ready,
    c.same_class,
    c.has_class,
    eq_iff s.standing_class "",
  )

-- The gate is open exactly where, above L0, a human has confirmed or corrected the declaration, or,
-- at L0, there is a standing declaration that covers it: somebody else than the system wrote it, it
-- has not expired, it is one of L0 that was confirmed or corrected, and the classes agree and are
-- not empty.
pub is_ready_for_cga_lem :
    (system_identity : String) (d : IntentDeclaration) (standing : Option StandingIntentDeclaration)
    (now : ℕ)
    → (is_ready_for_cga system_identity d standing now ≡ true) ↔ (
        ((d.authorization_level ≢ l0) × (is_ready_state d.confirmation_state ≡ true))
        ⊎ ((d.authorization_level ≡ l0)
            × ((s : StandingIntentDeclaration) × (standing ≡ some s)
                × IsCovering system_identity d now s)))
unfolding is_ready_for_cga
is_ready_for_cga_lem system_identity d standing now =
    elim (Bool-cases (eqb (rank d.authorization_level) 0)) [
      | inl low ↦
          let lowest : d.authorization_level ≡ l0 = rank_l0 d.authorization_level (ground arith) in
          elim (Option-cases standing) [
            | inl e ↦ (λ h. ground arith, λ h. ground arith)
            | inr (s, e) ↦ (
              λ h. inr (lowest, (s, e, covers-IsCovering system_identity d now s (ground arith))),
              λ h. covered lowest low h,
            )
          ]
      | inr high ↦
          let above : d.authorization_level ≢ l0 =
            λ e. ground (arith, rank_of_l0 d.authorization_level e) in
          (λ h. inl (above, ground arith), λ h. ground arith)
    ]
  where
    covered :
        d.authorization_level ≡ l0
        → eqb (rank d.authorization_level) 0 ≡ true
        → ((d.authorization_level ≢ l0) × (is_ready_state d.confirmation_state ≡ true))
          ⊎ ((d.authorization_level ≡ l0)
              × ((s : StandingIntentDeclaration) × (standing ≡ some s)
                  × IsCovering system_identity d now s))
        → is_ready_for_cga system_identity d standing now ≡ true
    covered lowest low (inl (above, h)) = absurd (above lowest)
    covered lowest low (inr (l, (s, e, c))) =
        ground (arith, IsCovering-covers system_identity d now s c)

-- What `resolve` makes above L0 waits for a human: the gate is shut and no seal is given, until the
-- declaration is confirmed or corrected; then the gate is open.
pub resolve-gate :
    (C : Crypto) (dump : DeclaredIntent → String) (infer : String → MetaIntent)
    (system_identity new_id stated private_key_hex key_id : String) (now later : ℕ)
    (level : AuthorizationLevel) (o : ResolveOptions) (standing : Option StandingIntentDeclaration)
    (decision_id : Option String) (corrected_field corrected_value original : String)
    → level ≢ l0
    → let d = resolve infer new_id now stated level o in
      (is_ready_for_cga system_identity d standing later ≡ false)
      × (seal C dump d private_key_hex key_id decision_id ≡ none)
      × (is_ready_for_cga system_identity (confirm d) standing later ≡ true)
      × (is_ready_for_cga system_identity
            (correct d corrected_field corrected_value original later)
            standing
            later
          ≡ true)
unfolding is_ready_for_cga resolve seal confirm correct
resolve-gate C dump infer system_identity new_id stated private_key_hex key_id now later level o
      standing decision_id corrected_field corrected_value original above =
    let high : eqb (rank level) 0 ≡ false = elim (Bool-cases (eqb (rank level) 0)) [
      | inl low ↦ absurd (above (rank_l0 level (ground arith)))
      | inr h ↦ h
    ] in
    (ground arith, refl, ground arith, ground arith)

-- A seal is given to a declaration that is confirmed or corrected alone. Under a key pair it
-- verifies where it is not empty, and with the same seal no declaration that is dumped as another
-- text does.
pub verify_seal-seal :
    (C : Crypto) (dump : DeclaredIntent → String) (private public key_id : String)
    (d e : IntentDeclaration) (decision_id : Option String) (other : IntentDeclaration)
    → IsKeyPair C private public
    → seal C dump d private key_id decision_id ≡ some e
    → C.sign private (dump e.declared) ≢ ""
    → dump other.declared ≢ dump e.declared
    → other.integrity_signature ≡ e.integrity_signature
    → (is_ready_state d.confirmation_state ≡ true)
      × (verify_seal C dump e public ≡ true)
      × (verify_seal C dump other public ≡ false)
unfolding seal verify_seal
verify_seal-seal C dump private public key_id d e decision_id other keys sealed nonempty differ
      same =
    let made : e.declared ≡ linked_to d decision_id = ground arith in
    let signature : e.integrity_signature ≡ some (C.sign private (dump e.declared)) =
      ground arith in
    (
      ground arith,
      ground (arith, keys.signed (dump e.declared), eq_iff (C.sign private (dump e.declared)) ""),
      ground (arith, keys.binding (dump other.declared) (dump e.declared)),
    )

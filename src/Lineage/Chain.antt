-- ===== src/Lineage/Chain.antt =====
-- What the verification of the chain accepts (lineage/store.py, `append` and
-- `verify_chain_integrity`).
use general_autonomy_protoco.Prelude.{
  Bool-cases, Option-cases, length, is_empty, any, length-append, Member, ◌+◌, ◌<◌, String, ◌≡◌,
  refl, sym, ◌≢◌, inl, inr, true, false, Option, none, some, List, [], ◌∷◌, ◌++◌, arith, ◌==◌,
  eq_refl,
}
use general_autonomy_protoco.Models.{Crypto, IsKeyPair}
use mathlib.Core.Path.{subst}
use general_autonomy_protoco.Lineage.{
  LineageRow, LineageStore, same_signature, genesis_of, tip_of, anchor_of, canonical_message,
  sealed, append, check_row, check_links, check_rows, check_anchor, verify_chain_integrity,
}

same_signature_refl : (s : Option String) → same_signature s s ≡ true
unfolding same_signature
same_signature_refl none = refl
same_signature_refl (some s) = eq_refl s

check_anchor-anchor_of : (rows : List LineageRow) → check_anchor (some (anchor_of rows)) rows ≡ true
unfolding check_anchor anchor_of
check_anchor-anchor_of rows =
    ground (arith, same_signature_refl (genesis_of rows), same_signature_refl (tip_of none rows))

length-is_empty : (rows : List LineageRow) → is_empty rows ≡ true → length rows ≡ 0
length-is_empty [] h = refl
length-is_empty (x ∷ rows) h = ground arith

module _ (C : Crypto) (dump : String → String → Option String → String) where
  check_links-snoc :
      (key : String) (before : Option String) (rows : List LineageRow) (row : LineageRow)
      → check_links C dump key before rows ≡ true
      → check_row C dump key row ≡ true
      → row.stored.prior_record_hash ≡ tip_of before rows
      → check_links C dump key before (rows ++ row ∷ []) ≡ true
  unfolding check_links tip_of
  check_links-snoc key before [] row h good link = ground (arith, same_signature_refl before)
  check_links-snoc key before (x ∷ rows) row h good link =
      ground (arith, check_links-snoc key x.signature rows row)

  check_rows-snoc :
      (key : String) (rows : List LineageRow) (row : LineageRow)
      → check_rows C dump key rows ≡ true
      → check_row C dump key row ≡ true
      → row.stored.prior_record_hash ≡ tip_of none rows
      → row.prior_record_hash ≡ tip_of none rows
      → check_rows C dump key (rows ++ row ∷ []) ≡ true
  unfolding check_rows tip_of check_links
  check_rows-snoc key [] row h good link column = ground arith
  check_rows-snoc key (x ∷ rows) row h good link column =
      ground (arith, check_links-snoc key x.signature rows row)

  sealed-check_row :
      (s : LineageStore) (id body : String)
      → IsKeyPair C s.signing_key_hex s.public_key_hex
      → check_row C dump s.public_key_hex (sealed C dump s id body) ≡ true
  unfolding check_row canonical_message
  sealed-check_row s id body keys = keys.signed (dump id body (tip_of none s.rows))

  -- With a key pair, an append that succeeds on a chain that verifies leaves a chain that verifies
  -- and has one more row.
  pub verify_chain_integrity-append :
      (s : LineageStore) (id body : String) {s' : LineageStore}
      → IsKeyPair C s.signing_key_hex s.public_key_hex
      → verify_chain_integrity C dump s ≡ true
      → append C dump s id body ≡ some s'
      → (verify_chain_integrity C dump s' ≡ true) × (length s'.rows ≡ length s.rows + 1)
  unfolding verify_chain_integrity append
  verify_chain_integrity-append s id body {s'} keys h e =
      elim (Bool-cases (any (λ row. row.stored.id == id) s.rows)) [
        | inl taken ↦ ground arith
        | inr fresh ↦
            let rows = s.rows ++ sealed C dump s id body ∷ [] in
            let made : record s { rows = rows; anchor = some (anchor_of rows) } ≡ s' =
              ground arith in
            let intact =
              check_rows-snoc s.public_key_hex s.rows (sealed C dump s id body) (ground arith)
                (sealed-check_row s id body keys) refl refl in
            subst
              (λ (x : LineageStore).
                (verify_chain_integrity C dump x ≡ true) × (length x.rows ≡ length s.rows + 1))
              made
              (
                ground (arith, check_anchor-anchor_of rows),
                ground (arith, length-append s.rows (sealed C dump s id body ∷ [])),
              )
      ]

  -- Where a chain verifies, any fewer rows under the same anchor do not.
  pub verify_chain_integrity-truncated :
      (s : LineageStore) (rest : List LineageRow)
      → verify_chain_integrity C dump s ≡ true
      → length rest < length s.rows
      → verify_chain_integrity C dump (record s { rows = rest }) ≡ false
  unfolding verify_chain_integrity check_anchor
  verify_chain_integrity-truncated s rest h fewer = elim (Option-cases s.anchor) [
    | inl bare ↦ absurd (omega (arith, fewer, length-is_empty s.rows (ground arith)))
    | inr (a, there) ↦ ground arith
  ]

  check_links-Member :
      (key : String) (before : Option String) (rows : List LineageRow) (row : LineageRow)
      → check_links C dump key before rows ≡ true
      → Member row rows
      → check_row C dump key row ≡ true
  unfolding check_links
  check_links-Member key before [] row h m = absurd m
  check_links-Member key before (x ∷ rows) row h (inl same) =
      subst (λ (y : LineageRow). check_row C dump key y ≡ true) (sym same) (ground arith)
  check_links-Member key before (x ∷ rows) row h (inr later) =
      check_links-Member key x.signature rows row (ground arith) later

  check_rows-Member :
      (key : String) (rows : List LineageRow) (row : LineageRow)
      → check_rows C dump key rows ≡ true
      → Member row rows
      → check_row C dump key row ≡ true
  unfolding check_rows
  check_rows-Member key [] row h m = absurd m
  check_rows-Member key (x ∷ rows) row h (inl same) =
      subst (λ (y : LineageRow). check_row C dump key y ≡ true) (sym same) (ground arith)
  check_rows-Member key (x ∷ rows) row h (inr later) =
      check_links-Member key x.signature rows row (ground arith) later

  -- With a key pair, a chain with a row whose stored record is not the one that its signature was
  -- made of does not verify.
  pub verify_chain_integrity-tampered :
      (s : LineageStore) (row : LineageRow) (message : String)
      → IsKeyPair C s.signing_key_hex s.public_key_hex
      → Member row s.rows
      → row.stored.signature ≡ some (C.sign s.signing_key_hex message)
      → canonical_message C dump row.stored ≢ message
      → verify_chain_integrity C dump s ≡ false
  unfolding verify_chain_integrity check_row
  verify_chain_integrity-tampered s row message keys member signed_as differ =
      elim (Bool-cases (verify_chain_integrity C dump s)) [
        | inr broken ↦ broken
        | inl intact ↦
            let row_ok : check_row C dump s.public_key_hex row ≡ true =
              check_rows-Member s.public_key_hex s.rows row (ground arith) member in
            let verified : C.verify s.public_key_hex (canonical_message C dump row.stored)
                  (C.sign s.signing_key_hex message)
                ≡ true =
              ground arith in
            absurd (differ (keys.binding _ _ verified))
      ]

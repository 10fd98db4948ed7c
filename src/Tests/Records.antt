-- ===== src/Tests/Records.antt =====
-- The theorems on the lineage chain at a sample store.
use general_autonomy_protoco.Prelude.{
  length, ◌+◌, String, ◌≡◌, refl, ap, ◌≢◌, inl, true, false, Option, none, some, List, [], ◌∷◌,
  arith, ◌==◌,
}
use general_autonomy_protoco.Lineage.{
  LineageRow, LineageStore, tip_of, anchor_of, canonical_message, append, verify_chain_integrity,
}
use general_autonomy_protoco.Samples.{toy_crypto, toy_keys}
use general_autonomy_protoco.Lineage.Chain.{
  verify_chain_integrity-append, verify_chain_integrity-tampered,
}

-- A record is dumped to its body.
abbrev toy_dump : String → String → Option String → String
toy_dump id body prior = body

abbrev first_row : LineageRow
first_row = record {
  stored = record { id = "r1"; body = "one"; prior_record_hash = none; signature = some "one" };
  signature = some "one";
  prior_record_hash = none;
}

abbrev second_row : LineageRow
second_row = record {
  stored = record {
    id = "r2";
    body = "two";
    prior_record_hash = some "one";
    signature = some "two";
  };
  signature = some "two";
  prior_record_hash = some "one";
}

abbrev store_of : List LineageRow → LineageStore
store_of rows = record {
  rows = rows;
  anchor = some (anchor_of rows);
  signing_key_hex = "lpriv";
  public_key_hex = "lpub";
}

abbrev one_row : LineageStore
one_row = store_of (first_row ∷ [])

abbrev two_rows : LineageStore
two_rows = store_of (first_row ∷ second_row ∷ [])

one_intact : verify_chain_integrity toy_crypto toy_dump one_row ≡ true
unfolding verify_chain_integrity anchor_of canonical_message
one_intact = refl

appended : append toy_crypto toy_dump one_row "r2" "two" ≡ some two_rows
unfolding append anchor_of tip_of
appended = refl

verify_chain_integrity-append_example :
    (verify_chain_integrity toy_crypto toy_dump two_rows ≡ true)
    × (length two_rows.rows ≡ length one_row.rows + 1)
verify_chain_integrity-append_example =
    verify_chain_integrity-append toy_crypto toy_dump one_row "r2" "two" (toy_keys "lpriv" "lpub")
      one_intact appended

-- The first row with another body under the old signature.
abbrev altered_row : LineageRow
altered_row = record first_row { stored = record first_row.stored { body = "zero" } }

altered_differs : canonical_message toy_crypto toy_dump altered_row.stored ≢ "one"
unfolding canonical_message
altered_differs h =
    let same : ("zero" == "one") ≡ ("one" == "one") = ap (λ (m : String). m == "one") h in
    ground arith

verify_chain_integrity-tampered_example :
    verify_chain_integrity toy_crypto toy_dump (store_of (altered_row ∷ [])) ≡ false
verify_chain_integrity-tampered_example =
    verify_chain_integrity-tampered toy_crypto toy_dump (store_of (altered_row ∷ [])) altered_row
      "one" (toy_keys "lpriv" "lpub") (inl refl) refl altered_differs

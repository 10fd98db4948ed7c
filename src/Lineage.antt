-- ===== src/Lineage.antt =====
-- The signed chain of lineage records (lineage/store.py): the rows of the table in the order of
-- their insertion, and the anchor. What a record tells besides its id and its link is one text, and
-- reading `record_json` gives back the record that was written.
pub mod Chain
use general_autonomy_protoco.Prelude.{
  ltb, leb, eqb, if◌then◌else◌, Bool-cases, Option-cases, is_some, get_or, ◌>>=◌, >>=-eq-some,
  length, is_empty, any, select, find, last?, length-append, any-append, Member, All, All-append,
  All-map, All-prefix, All-suffix, contains, ℕ, zero, suc, ◌+◌, ◌-◌, ◌*◌, ◌/◌, ◌%◌, ◌≤◌, ◌<◌,
  String, ◌≡◌, refl, sym, ap, ◌∙◌, ◌≢◌, ◌↔◌, ◌⊎◌, inl, inr, Bool, true, false, ◌&&◌, ◌||◌, not,
  Option, none, some, List, [], ◌∷◌, ◌++◌, map, arith, ◌==◌, eq_iff, eq_refl,
}
use general_autonomy_protoco.Prelude.Dict.{
  Dict, lookup, has_key, insert, remove, values, lookup-insert, lookup-remove,
}
use general_autonomy_protoco.Prelude.Int.{ℤ, pos, negsuc, pos_part, neg_part, ltb_ℤ, leb_ℤ}
use general_autonomy_protoco.Models.{Crypto}

pub record LineageRecord : Type 0 where
  pub id : String
  pub body : String
  pub prior_record_hash : Option String
  pub signature : Option String

-- A row: the record in `record_json`, and the two columns beside it.
pub record LineageRow : Type 0 where
  pub stored : LineageRecord
  pub signature : Option String
  pub prior_record_hash : Option String

pub record ChainAnchor : Type 0 where
  pub record_count : ℕ
  pub genesis_signature : Option String
  pub tip_signature : Option String

pub record LineageStore : Type 0 where
  pub rows : List LineageRow
  pub anchor : Option ChainAnchor
  pub signing_key_hex : String
  pub public_key_hex : String

-- `==` on optional texts.
unfoldable pub same_signature : Option String → Option String → Bool
same_signature none none = true
same_signature none (some t) = false
same_signature (some s) none = false
same_signature (some s) (some t) = s == t

unfoldable pub genesis_of : List LineageRow → Option String
genesis_of [] = none
genesis_of (row ∷ rows) = row.signature

unfoldable pub tip_of : Option String → List LineageRow → Option String
tip_of before [] = before
tip_of before (row ∷ rows) = tip_of row.signature rows

-- `_update_anchor`
unfoldable pub anchor_of : List LineageRow → ChainAnchor
unfolding genesis_of tip_of
anchor_of rows = record {
  record_count = length rows;
  genesis_signature = genesis_of rows;
  tip_signature = tip_of none rows;
}

unfoldable pub check_anchor : Option ChainAnchor → List LineageRow → Bool
unfolding same_signature genesis_of tip_of
check_anchor none rows = is_empty rows
check_anchor (some a) rows =
    eqb (length rows) a.record_count
    && (is_empty rows
        || (same_signature (genesis_of rows) a.genesis_signature
            && same_signature (tip_of none rows) a.tip_signature))

-- `dump` is `_canonical_message`: it leaves the signature out.
module _ (C : Crypto) (dump : String → String → Option String → String) where
  unfoldable pub canonical_message : LineageRecord → String
  canonical_message r = dump r.id r.body r.prior_record_hash

  -- The row that `append` inserts.
  abbrev pub sealed : LineageStore → String → String → LineageRow
  sealed s id body =
      let prior = tip_of none s.rows in
      let signature = some (C.sign s.signing_key_hex (dump id body prior)) in
      record {
        stored = record { id = id; body = body; prior_record_hash = prior; signature = signature };
        signature = signature;
        prior_record_hash = prior;
      }

  -- `none` is the IntegrityError of an id that is there already.
  unfoldable pub append : LineageStore → String → String → Option LineageStore
  append s id body =
      if any (λ row. row.stored.id == id) s.rows
      then none
      else let rows = s.rows ++ sealed s id body ∷ [] in
        some (record s { rows = rows; anchor = some (anchor_of rows) })

  unfoldable pub check_row : String → LineageRow → Bool
  unfolding canonical_message
  check_row key row = C.verify key (canonical_message row.stored) (get_or row.stored.signature "")

  -- The loop after its first row: the signature of the row before, and the rows.
  unfoldable pub check_links : String → Option String → List LineageRow → Bool
  unfolding check_row same_signature
  check_links key before [] = true
  check_links key before (row ∷ rows) =
      check_row key row
      && same_signature row.stored.prior_record_hash before
      && check_links key row.signature rows

  unfoldable pub check_rows : String → List LineageRow → Bool
  unfolding check_links check_row
  check_rows key [] = true
  check_rows key (row ∷ rows) =
      not (is_some row.prior_record_hash) && check_row key row && check_links key row.signature rows

  unfoldable pub verify_chain_integrity : LineageStore → Bool
  unfolding check_anchor check_rows
  verify_chain_integrity s = check_anchor s.anchor s.rows && check_rows s.public_key_hex s.rows

-- ===== src/Ledger.antt =====
-- The ledger of consumed out-of-band approvals (verification/oob_ledger.py): the rows of its table,
-- whose primary key is the pair of the decision's id and the signature.
use general_autonomy_protoco.Prelude.{
  if◌then◌else◌, any, any-append, ℕ, String, ◌≡◌, ap, ◌∙◌, Bool, false, ◌&&◌, ◌||◌, Option, none,
  some, List, [], ◌∷◌, ◌++◌, arith, ◌==◌,
}

pub record LedgerRow : Type 0 where
  pub decision_id : String
  pub signature : String
  pub approver_key_id : String
  pub used_at : ℕ

abbrev pub OobLedger : Type 0
OobLedger = List LedgerRow

unfoldable pub has_been_used : OobLedger → String → String → Bool
has_been_used l decision_id signature =
    any (λ r. r.decision_id == decision_id && r.signature == signature) l

-- `none` is the ReplayError that the primary key raises.
unfoldable pub record_use : OobLedger → String → String → String → ℕ → Option OobLedger
unfolding has_been_used
record_use l decision_id signature approver_key_id now =
    if has_been_used l decision_id signature
    then none
    else some (
        l
        ++ (record {
          decision_id = decision_id;
          signature = signature;
          approver_key_id = approver_key_id;
          used_at = now;
        })
          ∷ [])

-- The row that a use leaves.
abbrev row_of : String → String → String → ℕ → LedgerRow
row_of d s key now = record { decision_id = d; signature = s; approver_key_id = key; used_at = now }

record_use-append :
    (l : OobLedger) (d s key : String) (now : ℕ) {l' : OobLedger}
    → record_use l d s key now ≡ some l'
    → l' ≡ l ++ row_of d s key now ∷ []
unfolding record_use
record_use-append l d s key now h = ground arith

-- A use succeeds only for a pair that was not used; then exactly that pair is used besides those
-- that were.
pub has_been_used-record_use :
    (l : OobLedger) (d s key : String) (now : ℕ) {l' : OobLedger}
    → record_use l d s key now ≡ some l'
    → (has_been_used l d s ≡ false)
      × ((d' s' : String)
          → has_been_used l' d' s' ≡ (has_been_used l d' s' || (d == d' && s == s')))
unfolding record_use
has_been_used-record_use l d s key now h = (
  ground arith,
  λ d' s'.
      let test = λ (r : LedgerRow). r.decision_id == d' && r.signature == s' in
      rw (record_use-append l d s key now h)
        (any-append test l (row_of d s key now ∷ []) ∙ ap (λ b. any test l || b) (ground arith)),
)

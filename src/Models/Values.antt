-- ===== src/Models/Values.antt =====
-- The values of the program's free-form dictionaries (`parameters`, `properties`), which Python
-- leaves untyped, with the conversions that the code makes of them.
-- Python's numbers, `int` and finite `float`, are integers in millionths; a list is known by whether
-- it is empty.
use general_autonomy_protoco.Prelude.{
  if◌then◌else◌, eqb, get_or, ℕ, zero, suc, ◌*◌, ◌/◌, String, Bool, true, false, not, Option, none,
  some, [], ◌∷◌, ◌==◌,
}
use general_autonomy_protoco.Prelude.Dict.{Dict, lookup}
use general_autonomy_protoco.Prelude.Int.{ℤ, pos, negsuc, ltb_ℤ}

mutual
  pub data Value : Type 0 where
    null : Value
    flag : Bool → Value
    num : ℤ → Value
    -- `inf`, or `-inf`, and NaN
    infinity : Bool → Value
    nan : Value
    text : String → Value
    sequence : Bool → Value
    table : Fields → Value

  pub data Fields : Type 0 where
    end : Fields
    field : String → Value → Fields → Fields

-- A dictionary inside a value, and as the other modules have it.
abbrev pub to_dict : Fields → Dict Value
to_dict end = []
to_dict (field k v fs) = (k, v) ∷ to_dict fs

abbrev pub of_dict : Dict Value → Fields
of_dict [] = end
of_dict ((k, v) ∷ d) = field k v (of_dict d)

abbrev pub unit : ℕ
unit = 1000000

-- `bool(value)`
unfoldable pub truthy : Value → Bool
truthy null = false
truthy (flag b) = b
truthy (num (pos n)) = not (eqb n 0)
truthy (num (negsuc n)) = true
truthy (infinity positive) = true
truthy nan = true
truthy (text s) = not (s == "")
truthy (sequence nonempty) = nonempty
truthy (table end) = false
truthy (table (field k v fs)) = true

-- The truth of `d.get(k)`, and of `d.get(k, False)`.
unfoldable pub is_set : Dict Value → String → Bool
unfolding truthy
is_set d k = truthy (get_or (lookup k d) null)

-- The truth of an optional text: `None` and `""` are false.
abbrev pub is_given : Option String → Bool
is_given none = false
is_given (some s) = not (s == "")

-- `int(x)` of a number drops what stands after the point.
abbrev pub truncate : ℤ → ℤ
truncate (pos n) = pos (n / unit * unit)
truncate (negsuc n) = elim (suc n / unit * unit) [ zero ↦ pos 0 | suc m ↦ negsuc m ]

abbrev pub of_flag : Bool → ℤ
of_flag true = pos 1000000
of_flag false = pos 0

-- A number that `float` returns, and `amount > threshold` of it.
pub data Float : Type 0 where
  finite : ℤ → Float
  infinite : Bool → Float
  unordered : Float

unfoldable pub exceeds : Float → ℤ → Bool
exceeds (finite x) threshold = ltb_ℤ threshold x
exceeds (infinite positive) threshold = positive
exceeds unordered threshold = false

-- What a conversion returns or raises: `malformed` is a TypeError or a ValueError, `overflowed` an
-- OverflowError.
pub data Conversion {ℓ} (A : Type ℓ) : Type ℓ where
  converted : A → Conversion A
  malformed overflowed : Conversion A

-- What the program takes from Python and from the packages that it imports: `str.upper`, `float`
-- and `int` of a text (`none` is a ValueError), the whole numbers too large for `float`, the search
-- for `$` and a number that `_check_cost_ceiling` makes by `re`, `croniter.match` (`none` is a
-- ValueError or a KeyError), `datetime.isoformat`, `str.lower`, the numbers that `re` finds in
-- `within N minutes` and `within N hours`, and `datetime.fromisoformat` (`none` is a ValueError, and
-- `some none` a moment with a UTC offset).
pub record Runtime : Type 0 where
  pub upper : String → String
  pub parse_float : String → Option Float
  pub parse_int : String → Option ℤ
  pub float_overflows : ℤ → Bool
  pub find_dollars : String → Option ℤ
  pub cron_match : String → ℕ → Option Bool
  pub isoformat : ℕ → String
  pub lower : String → String
  pub find_minutes : String → Option ℕ
  pub find_hours : String → Option ℕ
  pub fromisoformat : String → Option (Option ℕ)

-- A text is read, or raises a ValueError.
abbrev read {ℓ} : {A : Type ℓ} → Option A → Conversion A
read none = malformed
read (some x) = converted x

module _ (R : Runtime) where
  -- `float(value)`
  unfoldable pub to_float : Value → Conversion Float
  to_float (flag b) = converted (finite (of_flag b))
  to_float (num x) = if R.float_overflows x then overflowed else converted (finite x)
  to_float (infinity positive) = converted (infinite positive)
  to_float nan = converted unordered
  to_float (text s) = read (R.parse_float s)
  to_float _ = malformed

  -- `int(value)`
  unfoldable pub to_int : Value → Conversion ℤ
  to_int (flag b) = converted (of_flag b)
  to_int (num x) = converted (truncate x)
  to_int (infinity positive) = overflowed
  to_int (text s) = read (R.parse_int s)
  to_int _ = malformed

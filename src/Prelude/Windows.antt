-- ===== src/Prelude/Windows.antt =====
-- Ends of lists, and the observations that fall into a window before the latest one.
use Prim.Native.Nat.{ℕ, zero, suc, ◌-◌, ◌≤◌, max}
use mathlib.Core.Path.{◌≡◌}
use mathlib.Core.List.{List, [], ◌∷◌}
use native.Mathlib.Omega.{arith}
use general_autonomy_protoco.Prelude.Tests.{ltb, leb, if◌then◌else◌}
use general_autonomy_protoco.Prelude.Lists.{length, select}

module _ {ℓ} {A : Type ℓ} where
  abbrev pub drop : ℕ → List A → List A
  drop zero xs = xs
  drop (suc n) [] = []
  drop (suc n) (x ∷ xs) = drop n xs

  abbrev pub take : ℕ → List A → List A
  take zero xs = []
  take (suc n) [] = []
  take (suc n) (x ∷ xs) = x ∷ take n xs

  -- `xs[-n:]`, which is the whole list for 0.
  abbrev pub last_n : ℕ → List A → List A
  last_n zero xs = xs
  last_n (suc n) xs = drop (length xs - suc n) xs

  -- `_cap`: the last `max_len` elements.
  abbrev pub cap_to : List A → ℕ → List A
  cap_to xs max_len = if ltb max_len (length xs) then drop (length xs - max_len) xs else xs

  pub length-drop : (n : ℕ) (xs : List A) → length (drop n xs) ≡ length xs - n
  length-drop zero xs = omega arith
  length-drop (suc n) [] = omega arith
  length-drop (suc n) (x ∷ xs) = omega (arith, length-drop n xs)

  pub length-take-le : (n : ℕ) (xs : List A) → length (take n xs) ≤ n
  length-take-le zero xs = omega arith
  length-take-le (suc n) [] = omega arith
  length-take-le (suc n) (x ∷ xs) = omega (arith, length-take-le n xs)

  pub length-cap_to-le : (xs : List A) (n : ℕ) → length (cap_to xs n) ≤ n
  length-cap_to-le xs n = ground (arith, length-drop (length xs - n) xs)

  -- A list that is short enough is left alone.
  pub cap_to_short : (xs : List A) (n : ℕ) → length xs ≤ n → cap_to xs n ≡ xs
  cap_to_short xs n h = ground arith

  -- The latest moment, and 0 where there is none.
  abbrev pub latest : (A → ℕ) → List A → ℕ
  latest at [] = 0
  latest at (x ∷ xs) = max (at x) (latest at xs)

  -- `[x for x in xs if newest - x.at <= window]`
  abbrev pub band : (A → ℕ) → ℕ → List A → List A
  band at window xs = select (λ x. leb (latest at xs - at x) window) xs

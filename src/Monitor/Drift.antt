-- ===== src/Monitor/Drift.antt =====
-- The signal of authorization drift, GIM-1 (governance/integrity_monitor.py).
use general_autonomy_protoco.Prelude.{
  ltb, Bool-cases, get_or, length, All, ℕ, zero, suc, ◌+◌, ◌-◌, ◌*◌, ◌≤◌, ◌<◌, String, ◌≡◌, refl,
  inl, inr, true, false, none, some, List, [], ◌∷◌, arith,
}
use general_autonomy_protoco.Prelude.Dict.{lookup}
use general_autonomy_protoco.Models.{unit}
use general_autonomy_protoco.Prelude.Windows.{take, last_n, length-drop}
use general_autonomy_protoco.Monitor.{gim_1, warning, Observation, IntegrityMonitor}
use general_autonomy_protoco.Monitor.Detectors.{sum_by, mean_rises_by, check_authorization_drift}
use native.Mathlib.Nat.{mul-le-mul_left, mul-pos, mul_comm}
use mathlib.Core.Path.{subst}

module _ {A : Type 0} (f : A → ℕ) (b : ℕ) where
  sum_by-le : (xs : List A) → All (λ (x : A). f x ≤ b) xs → sum_by f xs ≤ length xs * b
  unfolding sum_by
  sum_by-le [] h = omega arith
  sum_by-le (x ∷ xs) h = omega (arith, sum_by-le xs h.1, h.0)

  le-sum_by : (xs : List A) → All (λ (x : A). b ≤ f x) xs → length xs * b ≤ sum_by f xs
  unfolding sum_by
  le-sum_by [] h = omega arith
  le-sum_by (x ∷ xs) h = omega (arith, le-sum_by xs h.1, h.0)

length-take : {A : Type 0} (n : ℕ) (xs : List A) → n ≤ length xs → length (take n xs) ≡ n
length-take zero xs h = refl
length-take (suc n) [] h = omega arith
length-take (suc n) (x ∷ xs) h = ground (arith, length-take n xs)

length-last_n :
    {A : Type 0} (n : ℕ) (xs : List A) → 0 < n → n ≤ length xs → length (last_n n xs) ≡ n
length-last_n zero xs p h = omega arith
length-last_n (suc n) xs p h = omega (arith, length-drop (length xs - suc n) xs)

-- A product that only grows.
scaled : (k : ℕ) {a b : ℕ} → a ≤ b → a * k ≤ b * k
scaled k {a} {b} h = omega (arith, mul-le-mul_left k h, mul_comm a k, mul_comm b k)

module _ (t xs n ys m b : ℕ) where
  rises :
      (k : ℕ)
      → t ≤ unit * k
      → m * (b + k) ≤ ys
      → xs ≤ n * b
      → 0 < n
      → 0 < m
      → mean_rises_by t xs n ys m ≡ some true
  unfolding mean_rises_by
  rises k small high low pn pm =
      let h1 : m * (b + k) * n ≤ ys * n = scaled n high in
      let h2 : xs * m ≤ n * b * m = scaled m low in
      let h3 : t * (n * m) ≤ unit * k * (n * m) = scaled (n * m) small in
      let big : t * (n * m) + unit * (xs * m) ≤ unit * (ys * n) = omega (arith, h1, h2, h3) in
      ground arith

  still : 0 < t → ys ≤ m * b → n * b ≤ xs → 0 < n → 0 < m → mean_rises_by t xs n ys m ≡ some false
  unfolding mean_rises_by
  still some_fall low high pn pm =
      let h1 : ys * n ≤ m * b * n = scaled n low in
      let h2 : n * b * m ≤ xs * m = scaled m high in
      let big : unit * (ys * n) < t * (n * m) + unit * (xs * m) =
        omega (arith, h1, h2, mul-pos some_fall (mul-pos pn pm)) in
      ground arith

module _ (m : IntegrityMonitor) (action_type : String) where
  abbrev pub history_of : List Observation
  history_of = get_or (lookup action_type m.by_action) []

  abbrev pub baseline_of : List Observation
  baseline_of = take m.config.baseline_window history_of

  abbrev pub recent_of : List Observation
  recent_of = last_n m.config.recent_window history_of

  abbrev level_of : Observation → ℕ
  level_of o = o.observed_rank

  lengths :
      m.config.baseline_window + m.config.recent_window ≤ length history_of
      → 0 < m.config.recent_window
      → (length baseline_of ≡ m.config.baseline_window)
        × (length recent_of ≡ m.config.recent_window)
  lengths enough p = (
    length-take m.config.baseline_window history_of (omega arith),
    length-last_n m.config.recent_window history_of p (omega arith),
  )

  -- With a history that fills both windows, a fall of the levels by at least the threshold is
  -- signalled: from at least b + k in the baseline to at most b in the recent window.
  pub check_authorization_drift-falls :
      (b k : ℕ)
      → m.config.baseline_window + m.config.recent_window ≤ length history_of
      → 0 < m.config.baseline_window
      → 0 < m.config.recent_window
      → m.config.drift_threshold ≤ unit * k
      → All (λ (o : Observation). b + k ≤ o.observed_rank) baseline_of
      → All (λ (o : Observation). o.observed_rank ≤ b) recent_of
      → check_authorization_drift m action_type
        ≡ some (some (record { signal_type = gim_1; subject = action_type; severity = warning }))
  unfolding check_authorization_drift
  check_authorization_drift-falls b k enough pb pr small high low =
      let (lb, lr) = lengths enough pr in
      let c = m.config in
      let above : c.baseline_window * (b + k) ≤ sum_by level_of baseline_of =
        subst (λ (n : ℕ). n * (b + k) ≤ sum_by level_of baseline_of) lb
          (le-sum_by level_of (b + k) baseline_of high) in
      let below : sum_by level_of recent_of ≤ c.recent_window * b =
        subst (λ (n : ℕ). sum_by level_of recent_of ≤ n * b) lr
          (sum_by-le level_of b recent_of low) in
      ground (
        arith,
        rises c.drift_threshold (sum_by level_of recent_of) c.recent_window
            (sum_by level_of baseline_of) c.baseline_window b k small above below pr pb,
      )

  -- Where the levels do not fall, from at most b in the baseline to at least b in the recent window,
  -- nothing is signalled, and nothing is raised.
  pub check_authorization_drift-steady :
      (b : ℕ)
      → 0 < m.config.baseline_window
      → 0 < m.config.recent_window
      → 0 < m.config.drift_threshold
      → All (λ (o : Observation). o.observed_rank ≤ b) baseline_of
      → All (λ (o : Observation). b ≤ o.observed_rank) recent_of
      → check_authorization_drift m action_type ≡ some none
  unfolding check_authorization_drift
  check_authorization_drift-steady b pb pr pt low high =
      elim (Bool-cases
        (ltb (length history_of) (m.config.baseline_window + m.config.recent_window))) [
          | inl few ↦ ground arith
          | inr enough ↦
              let (lb, lr) = lengths (ground arith) pr in
              let c = m.config in
              let below : sum_by level_of baseline_of ≤ c.baseline_window * b =
                subst (λ (n : ℕ). sum_by level_of baseline_of ≤ n * b) lb
                  (sum_by-le level_of b baseline_of low) in
              let above : c.recent_window * b ≤ sum_by level_of recent_of =
                subst (λ (n : ℕ). n * b ≤ sum_by level_of recent_of) lr
                  (le-sum_by level_of b recent_of high) in
              ground (
                arith,
                still c.drift_threshold (sum_by level_of recent_of) c.recent_window
                    (sum_by level_of baseline_of) c.baseline_window b pt below above pr pb,
              )
        ]

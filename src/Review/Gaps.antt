-- ===== src/Review/Gaps.antt =====
-- What the independent review signals (governance/independent_review.py).
use general_autonomy_protoco.Prelude.{
  ltb, Bool-cases, length, find, length-append, All, ℕ, zero, suc, ◌+◌, ◌-◌, ◌≤◌, ◌<◌, String, ◌≡◌,
  refl, inl, inr, Bool, true, none, some, List, [], ◌∷◌, ◌++◌, arith,
}
use general_autonomy_protoco.Prelude.Dict.{Dict}
use general_autonomy_protoco.Models.{Value, AuthorizationLevel, rank}
use general_autonomy_protoco.Prelude.Windows.{drop, cap_to}
use general_autonomy_protoco.Monitor.{gim_indep, critical, IntegritySignal}
use general_autonomy_protoco.Monitor.Detectors.{sum_by}
use general_autonomy_protoco.Review.{
  Divergence, IndependentMonitor, observe, is_severe, check_divergence,
}

find-drop :
    {A : Type 0} (test : A → Bool) (n : ℕ) (xs : List A) (x : A)
    → n ≤ length xs
    → test x ≡ true
    → (y : A) × (find test (drop n (xs ++ x ∷ [])) ≡ some y)
find-drop test zero [] x h t = (x, ground arith)
find-drop test zero (y ∷ xs) x h t = elim (Bool-cases (test y)) [
  | inl e ↦ (y, ground arith)
  | inr e ↦ let (z, f) = find-drop test zero xs x (omega arith) t in (z, ground arith)
]
find-drop test (suc n) [] x h t = absurd (omega arith)
find-drop test (suc n) (y ∷ xs) x h t = find-drop test n xs x (omega arith) t

find-cap_to :
    {A : Type 0} (test : A → Bool) (n : ℕ) (xs : List A) (x : A)
    → 1 ≤ n
    → test x ≡ true
    → (y : A) × (find test (cap_to (xs ++ x ∷ []) n) ≡ some y)
find-cap_to test n xs x h t =
    let grown : length (xs ++ x ∷ []) ≡ length xs + 1 = ground (arith, length-append xs (x ∷ [])) in
    elim (Bool-cases (ltb n (length (xs ++ x ∷ [])))) [
      | inl long ↦
          let (y, f) = find-drop test (length (xs ++ x ∷ []) - n) xs x (omega (arith, grown)) t in
          (y, ground arith)
      | inr short ↦ let (y, f) = find-drop test 0 xs x (omega arith) t in (y, ground arith)
    ]

-- An operation that the independent classifier rates at least the severe gap above the system's level
-- makes the next check return a critical signal.
pub check_divergence-observe :
    (m : IndependentMonitor) (action_type : String) (parameters : Dict Value) (risk : ℕ)
    (level : AuthorizationLevel)
    → 1 ≤ m.max_history
    → rank level + m.severe_gap ≤ rank (m.classifier action_type parameters risk)
    → (s : IntegritySignal) × (check_divergence (observe m action_type parameters risk level)
        ≡ some (some s))
      × (s.severity ≡ critical)
unfolding check_divergence observe
check_divergence-observe m action_type parameters risk level h severe =
    let d : Divergence = record {
      system = rank level;
      independent = rank (m.classifier action_type parameters risk);
      action_type = action_type;
    } in
    let (y, f) =
      find-cap_to (is_severe m.severe_gap) m.max_history m.divergences d h (ground arith) in
    (
      record { signal_type = gim_indep; subject = y.action_type; severity = critical },
      ground arith,
      refl,
    )

-- Where the independent classifier never asks for more than the system's level, with a severe gap and
-- a number of samples that are not 0, nothing is signalled.
pub check_divergence-adequate :
    (m : IndependentMonitor)
    → 0 < m.severe_gap
    → 0 < m.min_samples
    → All (λ (d : Divergence). d.independent ≤ d.system) m.divergences
    → check_divergence m ≡ some none
unfolding check_divergence
check_divergence-adequate m gap samples adequate =
    let absent = none_severe m.divergences adequate in
    let even : sum_by (λ (d : Divergence). d.independent - d.system) m.divergences ≡ 0 =
      no_drift m.divergences adequate in
    ground arith
  where
    none_severe :
        (ds : List Divergence)
        → All (λ (d : Divergence). d.independent ≤ d.system) ds
        → find (is_severe m.severe_gap) ds ≡ none
    none_severe [] h = refl
    none_severe (d ∷ ds) h = ground (arith, none_severe ds h.1, h.0)

    no_drift :
        (ds : List Divergence)
        → All (λ (d : Divergence). d.independent ≤ d.system) ds
        → sum_by (λ (d : Divergence). d.independent - d.system) ds ≡ 0
    no_drift [] h = refl
    no_drift (d ∷ ds) h = omega (arith, no_drift ds h.1, h.0)

-- ===== src/SelfEvolution/Signals.antt =====
-- What the monitor of self-evolution records and signals (governance/self_evolution.py).
use general_autonomy_protoco.Prelude.{
  ltb, leb, if◌then◌else◌, Bool-cases, is_some, get_or, length, is_empty, select, All, All-append,
  contains, ℕ, zero, suc, ◌+◌, ◌-◌, ◌≤◌, ◌<◌, String, ◌≡◌, refl, ◌≢◌, inl, inr, Bool, true, false,
  Option, none, some, List, [], ◌∷◌, ◌++◌, arith,
}
use general_autonomy_protoco.Models.{AuthorizationLevel, rank, GovernanceDecision}
use general_autonomy_protoco.Prelude.Windows.{drop, cap_to, length-cap_to-le, latest}
use general_autonomy_protoco.Monitor.{se_velocity, warning}
use general_autonomy_protoco.Monitor.Detectors.{mean_rises_by, collect}
use general_autonomy_protoco.SelfEvolution.{
  Modification, SelfEvolutionMonitor, new_evolution_monitor, is_self_modifying,
  observe_modification, observe_executed, recent_mods, check_velocity, check_privilege_accrual,
  check_surface_expansion, scan, is_flagged,
}
use mathlib.Core.Path.{subst}

-- No more modifications than the cap, and each of a type that modifies the system.
pub record IsRecord (m : SelfEvolutionMonitor) : Type 0 where
  pub bounded : length m.mods ≤ m.max_history
  pub modifying : All (λ (x : Modification). contains m.self_modifying x.action_type ≡ true) m.mods

All-drop : {A : Type 0} (P : A → Type 0) (n : ℕ) (xs : List A) → All P xs → All P (drop n xs)
All-drop P zero xs h = h
All-drop P (suc n) [] h = h
All-drop P (suc n) (x ∷ xs) h = All-drop P n xs h.1

All-cap_to : {A : Type 0} (P : A → Type 0) (xs : List A) (n : ℕ) → All P xs → All P (cap_to xs n)
All-cap_to P xs n h = elim (Bool-cases (ltb n (length xs))) [
  | inl long ↦ subst (All P) (ground arith) (All-drop P (length xs - n) xs h)
  | inr short ↦ subst (All P) (ground arith) h
]

-- The executed decisions, in order, each with its target.
abbrev pub observe_all :
    SelfEvolutionMonitor → List (GovernanceDecision × Option String) → SelfEvolutionMonitor
observe_all m [] = m
observe_all m ((d, target) ∷ rest) = observe_all (observe_executed m d target) rest

observe_modification-IsRecord :
    (m : SelfEvolutionMonitor) (t : String) (level : AuthorizationLevel) (target : Option String)
    (at : ℕ)
    → IsRecord m
    → IsRecord (observe_modification m t level target at)
unfolding observe_modification
observe_modification-IsRecord m t level target at r = by_type (contains m.self_modifying t) refl
  where
    grown : List Modification
    grown =
        m.mods
        ++ record { action_type = t; modified_rank = rank level; target = target; at = at } ∷ []

    told : Bool → SelfEvolutionMonitor
    told b = if b then record m { mods = cap_to grown m.max_history } else m

    by_type : (b : Bool) → contains m.self_modifying t ≡ b → IsRecord (told b)
    by_type false e = r
    by_type true e = record {
      bounded = length-cap_to-le grown m.max_history;
      modifying =
          All-cap_to (λ (x : Modification). contains m.self_modifying x.action_type ≡ true) grown
            m.max_history
            (All-append (λ (x : Modification). contains m.self_modifying x.action_type ≡ true)
              m.mods _ r.modifying (e, tt));
    }

observe_executed-IsRecord :
    (m : SelfEvolutionMonitor) (d : GovernanceDecision) (target : Option String)
    → IsRecord m
    → IsRecord (observe_executed m d target)
unfolding observe_executed
observe_executed-IsRecord m d target r =
    by_type (is_self_modifying m d.action_type_id) d.authorization_level
  where
    at_level : Option AuthorizationLevel → SelfEvolutionMonitor
    at_level o = elim o [
      | none ↦ m
      | some level ↦ observe_modification m (get_or d.action_type_id "") level target d.evaluated_at
    ]

    by_type : (b : Bool) (o : Option AuthorizationLevel) → IsRecord (if b then at_level o else m)
    by_type false o = r
    by_type true none = r
    by_type true (some level) =
        observe_modification-IsRecord m (get_or d.action_type_id "") level target d.evaluated_at r

observe_all-IsRecord :
    (m : SelfEvolutionMonitor) (executed : List (GovernanceDecision × Option String))
    → IsRecord m
    → IsRecord (observe_all m executed)
observe_all-IsRecord m [] r = r
observe_all-IsRecord m ((d, target) ∷ rest) r =
    observe_all-IsRecord (observe_executed m d target) rest (observe_executed-IsRecord m d target r)

-- Whatever decisions are executed under a new monitor, it records no more modifications than its cap,
-- and only ones of a type that modifies the system.
pub new_evolution_monitor-IsRecord :
    (types : List String)
    (v_window v_threshold baseline recent drift s_window s_threshold history : ℕ)
    (executed : List (GovernanceDecision × Option String))
    → IsRecord (
        observe_all
          (new_evolution_monitor types v_window v_threshold baseline recent drift s_window
            s_threshold history)
          executed)
unfolding new_evolution_monitor
new_evolution_monitor-IsRecord types v_window v_threshold baseline recent drift s_window s_threshold
      history executed =
    observe_all-IsRecord _ executed (record { bounded = omega arith; modifying = tt })

-- A modification inside the window that begins at `start`.
abbrev pub IsWithin : ℕ → ℕ → Modification → Type 0
IsWithin start window x = (start ≤ x.at) × (x.at ≤ start + window)

latest-within :
    (start window : ℕ) (mods : List Modification)
    → All (IsWithin start window) mods
    → latest (λ (x : Modification). x.at) mods ≤ start + window
latest-within start window [] h = omega arith
latest-within start window (x ∷ mods) h = omega (arith, latest-within start window mods h.1, h.0)

banded :
    (newest start window : ℕ) (mods : List Modification)
    → newest ≤ start + window
    → All (IsWithin start window) mods
    → select (λ (x : Modification). leb (newest - x.at) window) mods ≡ mods
banded newest start window [] n h = refl
banded newest start window (x ∷ mods) n h =
    ground (arith, banded newest start window mods n h.1, h.0)

fires :
    (m : SelfEvolutionMonitor) (start : ℕ)
    → m.mods ≢ []
    → m.velocity_threshold ≤ length m.mods
    → All (IsWithin start m.velocity_window) m.mods
    → check_velocity m
      ≡ some (
          some (record {
            signal_type = se_velocity;
            subject = "self_modification";
            severity = warning;
          }))
unfolding check_velocity
fires m start nonempty enough burst =
    let kept : recent_mods m.velocity_window m.mods ≡ m.mods =
      banded (latest (λ (x : Modification). x.at) m.mods) start m.velocity_window m.mods
        (latest-within start m.velocity_window m.mods burst) burst in
    let inhabited : is_empty m.mods ≡ false = present m.mods nonempty in
    ground (arith, kept, inhabited)
  where
    present : (xs : List Modification) → xs ≢ [] → is_empty xs ≡ false
    present [] h = absurd (h refl)
    present (x ∷ xs) h = refl

accrual_returns :
    (m : SelfEvolutionMonitor)
    → 0 < m.baseline_window
    → 0 < m.recent_window
    → is_some (check_privilege_accrual m) ≡ true
unfolding check_privilege_accrual mean_rises_by
accrual_returns m pb pr = ground arith

expansion_returns : (m : SelfEvolutionMonitor) → is_some (check_surface_expansion m) ≡ true
unfolding check_surface_expansion
expansion_returns m = ground arith

-- A monitor with windows for its means, whose recorded modifications are at least one, at least as
-- many as the threshold of velocity, and all inside one window of velocity, is flagged.
pub is_flagged-burst :
    (m : SelfEvolutionMonitor) (start : ℕ)
    → 0 < m.baseline_window
    → 0 < m.recent_window
    → m.mods ≢ []
    → m.velocity_threshold ≤ length m.mods
    → All (IsWithin start m.velocity_window) m.mods
    → is_flagged m ≡ some true
unfolding is_flagged scan collect
is_flagged-burst m start pb pr nonempty enough burst =
    let velocity = fires m start nonempty enough burst in
    let accrual = accrual_returns m pb pr in let expansion = expansion_returns m in ground arith

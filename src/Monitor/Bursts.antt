-- ===== src/Monitor/Bursts.antt =====
-- The signal of threshold avoidance, GIM-3 (governance/integrity_monitor.py).
use general_autonomy_protoco.Prelude.{
  leb, if◌then◌else◌, get_or, length, select, length-append, All, ℕ, ◌+◌, ◌-◌, ◌≤◌, ◌<◌, String,
  ◌≡◌, refl, sym, ap, ◌∙◌, ◌≢◌, Bool, some, List, [], ◌∷◌, ◌++◌, map, arith, eq_refl,
}
use general_autonomy_protoco.Prelude.Dict.{lookup, lookup-insert}
use general_autonomy_protoco.Models.{AuthorizationLevel, rank}
use general_autonomy_protoco.Prelude.Windows.{cap_to, cap_to_short, latest, band}
use general_autonomy_protoco.Monitor.{
  gim_3, warning, Observation, MonitorConfig, IntegrityMonitor, observe,
}
use general_autonomy_protoco.Monitor.Detectors.{low_in, burst_in, check_decomposition}
use mathlib.Core.Path.{subst}
use mathlib.Core.List.{append-nil, append_assoc}

abbrev pub bucket_of : IntegrityMonitor → String → List Observation
bucket_of m target = get_or (lookup target m.by_target) []

-- An action on the target: its type, its level and its moment.
abbrev pub Act : Type 0
Act = String × AuthorizationLevel × ℕ

abbrev pub observe_all : String → IntegrityMonitor → List Act → IntegrityMonitor
observe_all target m [] = m
observe_all target m ((t, level, at) ∷ acts) =
    observe_all target (observe m t level (some target) at) acts

select_last :
    {A : Type 0} (test : A → Bool) (xs : List A) (x : A)
    → select test (xs ++ x ∷ []) ≡ select test xs ++ (if test x then x ∷ [] else [])
select_last test [] x = ground arith
select_last test (y ∷ xs) x = ground (arith, select_last test xs x)

module _ (m : IntegrityMonitor) (t target : String) (level : AuthorizationLevel) (at : ℕ)
    (room : length (bucket_of m target) < m.config.max_history) where
  abbrev seen : Observation
  seen = record { action_type = t; observed_rank = rank level; target = some target; at = at }

  bucket_of-observe :
      bucket_of (observe m t level (some target) at) target ≡ bucket_of m target ++ seen ∷ []
  unfolding observe
  bucket_of-observe =
      let fits : length (bucket_of m target ++ seen ∷ []) ≤ m.config.max_history =
        ground (arith, length-append (bucket_of m target) (seen ∷ [])) in
      ground (
        arith,
        lookup-insert target target (cap_to (bucket_of m target ++ seen ∷ []) m.config.max_history)
            m.by_target,
        eq_refl target,
        cap_to_short (bucket_of m target ++ seen ∷ []) m.config.max_history fits,
      )

  length_of_bucket :
      length (bucket_of (observe m t level (some target) at) target)
      ≡ length (bucket_of m target) + 1
  length_of_bucket =
      rw bucket_of-observe (ground (arith, length-append (bucket_of m target) (seen ∷ [])))

  config-observe : (observe m t level (some target) at).config ≡ m.config
  unfolding observe
  config-observe = refl

  low_in-observe :
      m.config.decomposition_max_rank < rank level
      → low_in m.config (bucket_of m target ++ seen ∷ []) ≡ low_in m.config (bucket_of m target)
  low_in-observe high =
      let test : Observation → Bool =
        λ (o : Observation). leb o.observed_rank m.config.decomposition_max_rank in
      ground (
        arith,
        select_last test (bucket_of m target) seen,
        append-nil (low_in m.config (bucket_of m target)),
      )

  check_decomposition-observe :
      m.config.decomposition_max_rank < rank level
      → check_decomposition (observe m t level (some target) at) target
        ≡ check_decomposition m target
  unfolding check_decomposition observe
  check_decomposition-observe high =
      ap (λ (b : List Observation). burst_in m.config target (low_in m.config b)) bucket_of-observe
      ∙ ap (burst_in m.config target) (low_in-observe high)

abbrev pub IsHigh : MonitorConfig → Act → Type 0
IsHigh c a = c.decomposition_max_rank < rank a.1

-- While the history of the target has room, actions on it above the ranks of a burst leave the
-- answer of the burst detector as it was: they do not hide a burst.
pub check_decomposition-observe_all :
    (m : IntegrityMonitor) (target : String) (acts : List Act)
    → length (bucket_of m target) + length acts ≤ m.config.max_history
    → All (IsHigh m.config) acts
    → check_decomposition (observe_all target m acts) target ≡ check_decomposition m target
check_decomposition-observe_all m target [] room high = refl
check_decomposition-observe_all m target ((t, level, at) ∷ acts) room high =
    let here : length (bucket_of m target) < m.config.max_history = ground arith in
    let m' = observe m t level (some target) at in
    let same = config-observe m t target level at here in
    let rest : length (bucket_of m' target) + length acts ≤ m'.config.max_history =
      ground (arith, length_of_bucket m t target level at here, same) in
    check_decomposition-observe_all m' target acts rest
      (subst (λ (c : MonitorConfig). All (IsHigh c) acts) (sym same) high.1)
    ∙ check_decomposition-observe m t target level at here high.0

-- What an action leaves in the history of the target.
abbrev pub observation_of : String → Act → Observation
observation_of target (t, level, at) = record {
  action_type = t;
  observed_rank = rank level;
  target = some target;
  at = at;
}

-- The target's history and the configuration, after actions on a target whose history has room.
bucket_of-observe_all :
    (m : IntegrityMonitor) (target : String) (acts : List Act)
    → length (bucket_of m target) + length acts ≤ m.config.max_history
    → (bucket_of (observe_all target m acts) target
        ≡ bucket_of m target ++ map (observation_of target) acts)
      × ((observe_all target m acts).config ≡ m.config)
bucket_of-observe_all m target [] room = (sym (append-nil (bucket_of m target)), refl)
bucket_of-observe_all m target ((t, level, at) ∷ acts) room =
    let here : length (bucket_of m target) < m.config.max_history = ground arith in
    let m' = observe m t level (some target) at in
    let same = config-observe m t target level at here in
    let rest : length (bucket_of m' target) + length acts ≤ m'.config.max_history =
      ground (arith, length_of_bucket m t target level at here, same) in
    let (later, later_config) = bucket_of-observe_all m' target acts rest in
    (
      later
          ∙ ap (λ (b : List Observation). b ++ map (observation_of target) acts)
              (bucket_of-observe m t target level at here)
          ∙ append_assoc (bucket_of m target) (observation_of target (t, level, at) ∷ [])
              (map (observation_of target) acts),
      later_config ∙ same,
    )

-- An action of a burst: at a low rank, and at a moment of the window that begins at `start`.
abbrev pub IsBurstOf : MonitorConfig → ℕ → Act → Type 0
IsBurstOf c start a =
    (rank a.1 ≤ c.decomposition_max_rank) × (start ≤ a.2) × (a.2 ≤ start + c.decomposition_window)

module _ (c : MonitorConfig) (start : ℕ) (target : String) where
  low_in-burst :
      (acts : List Act)
      → All (IsBurstOf c start) acts
      → low_in c (map (observation_of target) acts) ≡ map (observation_of target) acts
  low_in-burst [] h = refl
  low_in-burst (a ∷ acts) h = ground (arith, low_in-burst acts h.1, h.0)

  latest-burst :
      (acts : List Act)
      → All (IsBurstOf c start) acts
      → latest (λ (o : Observation). o.at) (map (observation_of target) acts)
        ≤ start + c.decomposition_window
  latest-burst [] h = omega arith
  latest-burst (a ∷ acts) h = omega (arith, latest-burst acts h.1, h.0)

  banded :
      (newest : ℕ) (acts : List Act)
      → newest ≤ start + c.decomposition_window
      → All (IsBurstOf c start) acts
      → select
          (λ (o : Observation). leb (newest - o.at) c.decomposition_window)
          (map (observation_of target) acts)
        ≡ map (observation_of target) acts
  banded newest [] n h = refl
  banded newest (a ∷ acts) n h = ground (arith, banded newest acts n h.1, h.0)

length-map_of :
    (target : String) (acts : List Act) → length (map (observation_of target) acts) ≡ length acts
length-map_of target [] = refl
length-map_of target (a ∷ acts) = ground (arith, length-map_of target acts)

fires :
    (c : MonitorConfig) (target : String) (acts : List Act) (start : ℕ)
    → acts ≢ []
    → c.decomposition_count_threshold ≤ length acts
    → All (IsBurstOf c start) acts
    → burst_in c target (map (observation_of target) acts)
      ≡ some (some (record { signal_type = gim_3; subject = target; severity = warning }))
unfolding burst_in
fires c target [] start nonempty enough burst = absurd (nonempty refl)
fires c target (a ∷ acts) start nonempty enough burst =
    let low = map (observation_of target) (a ∷ acts) in
    let kept : band (λ (o : Observation). o.at) c.decomposition_window low ≡ low =
      banded c start target (latest (λ (o : Observation). o.at) low) (a ∷ acts)
        (latest-burst c start target (a ∷ acts) burst) burst in
    ground (arith, kept, length-map_of target acts)

-- A burst of at least as many actions as the threshold, on a target with no history and room for it,
-- all of them at low ranks and inside one window, makes the burst detector answer with its signal.
pub check_decomposition-burst :
    (m : IntegrityMonitor) (target : String) (acts : List Act) (start : ℕ)
    → bucket_of m target ≡ []
    → acts ≢ []
    → m.config.decomposition_count_threshold ≤ length acts
    → length acts ≤ m.config.max_history
    → All (IsBurstOf m.config start) acts
    → check_decomposition (observe_all target m acts) target
      ≡ some (some (record { signal_type = gim_3; subject = target; severity = warning }))
unfolding check_decomposition
check_decomposition-burst m target acts start empty nonempty enough room burst =
    let (history, same) = bucket_of-observe_all m target acts (ground arith) in
    let history' : bucket_of (observe_all target m acts) target ≡ map (observation_of target) acts =
      ground (arith, history, empty) in
    ap
      (λ (c : MonitorConfig).
        burst_in c target (low_in c (bucket_of (observe_all target m acts) target)))
      same
    ∙ ap (λ (b : List Observation). burst_in m.config target (low_in m.config b)) history'
    ∙ ap (burst_in m.config target) (low_in-burst m.config start target acts burst)
    ∙ fires m.config target acts start nonempty enough burst

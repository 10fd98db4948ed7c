-- ===== src/SelfEvolution.antt =====
-- The monitor of capability gain (governance/self_evolution.py): the self-modifications that were
-- executed, and its three detectors. The texts and the evidence of a signal are left out, and a
-- drift threshold is in millionths and not negative.
pub mod Signals
use Prim.Native.Nat.{max}
use general_autonomy_protoco.Prelude.{
  ltb, leb, if◌then◌else◌, get_or, ◌>>=◌, length, is_empty, contains, ℕ, ◌+◌, ◌-◌, ◌*◌, ◌/◌, String,
  Bool, false, ◌||◌, not, Option, none, some, List, [], ◌∷◌, ◌++◌,
}
use general_autonomy_protoco.Models.{unit, is_given, AuthorizationLevel, rank, GovernanceDecision}
use general_autonomy_protoco.Prelude.Windows.{take, last_n, cap_to, band}
use general_autonomy_protoco.Monitor.{
  IntegritySignal, se_velocity, se_privilege, se_surface, warning, critical,
}
use general_autonomy_protoco.Monitor.Detectors.{
  Detection, signal_if, sum_by, mean_rises_by, collect,
}

pub record Modification : Type 0 where
  pub action_type : String
  pub modified_rank : ℕ
  pub target : Option String
  pub at : ℕ

pub record SelfEvolutionMonitor : Type 0 where
  pub self_modifying : List String
  pub mods : List Modification
  pub velocity_window : ℕ
  pub velocity_threshold : ℕ
  pub baseline_window : ℕ
  pub recent_window : ℕ
  pub privilege_drift_threshold : ℕ
  pub surface_window : ℕ
  pub surface_threshold : ℕ
  pub max_history : ℕ

abbrev pub default_self_modifying : List String
default_self_modifying = "skill_modification" ∷ []

-- `SelfEvolutionMonitor.__init__`, the windows in seconds.
unfoldable pub new_evolution_monitor :
    List String → ℕ → ℕ → ℕ → ℕ → ℕ → ℕ → ℕ → ℕ → SelfEvolutionMonitor
new_evolution_monitor types v_window v_threshold baseline recent drift s_window s_threshold
      history =
    record {
      self_modifying = types;
      mods = [];
      velocity_window = v_window * unit;
      velocity_threshold = v_threshold;
      baseline_window = baseline;
      recent_window = recent;
      privilege_drift_threshold = drift;
      surface_window = s_window * unit;
      surface_threshold = s_threshold;
      max_history = max 1 history;
    }

unfoldable pub is_self_modifying : SelfEvolutionMonitor → Option String → Bool
is_self_modifying m none = false
is_self_modifying m (some action_type) = contains m.self_modifying action_type

unfoldable pub observe_modification :
    SelfEvolutionMonitor → String → AuthorizationLevel → Option String → ℕ → SelfEvolutionMonitor
observe_modification m action_type level target at =
    if contains m.self_modifying action_type
    then record m {
      mods =
          cap_to
            (m.mods
              ++ record {
                action_type = action_type;
                modified_rank = rank level;
                target = target;
                at = at;
              }
                ∷ [])
            m.max_history;
    }
    else m

unfoldable pub observe_executed :
    SelfEvolutionMonitor → GovernanceDecision → Option String → SelfEvolutionMonitor
unfolding is_self_modifying observe_modification
observe_executed m d target =
    if is_self_modifying m d.action_type_id
    then elim d.authorization_level [
      | none ↦ m
      | some level ↦ observe_modification m (get_or d.action_type_id "") level target d.evaluated_at
    ]
    else m

abbrev pub recent_mods : ℕ → List Modification → List Modification
recent_mods window mods = band (λ (x : Modification). x.at) window mods

unfoldable pub check_velocity : SelfEvolutionMonitor → Detection
check_velocity m =
    if is_empty m.mods
    then some none
    else signal_if (leb m.velocity_threshold (length (recent_mods m.velocity_window m.mods)))
        se_velocity "self_modification" warning

unfoldable pub check_privilege_accrual : SelfEvolutionMonitor → Detection
check_privilege_accrual m =
    if ltb (length m.mods) (m.baseline_window + m.recent_window)
    then some none
    else mean_rises_by m.privilege_drift_threshold
        (sum_by (λ (x : Modification). x.modified_rank) (take m.baseline_window m.mods))
        m.baseline_window
        (sum_by (λ (x : Modification). x.modified_rank) (last_n m.recent_window m.mods))
        m.recent_window
      >>= λ drifted. signal_if drifted se_privilege "self_modification" critical

-- `{m.target for m in band if m.target}`
unfoldable pub distinct_targets : List Modification → List String
distinct_targets [] = []
distinct_targets (x ∷ mods) =
    let rest = distinct_targets mods in
    if not (is_given x.target) || contains rest (get_or x.target "")
    then rest
    else get_or x.target "" ∷ rest

unfoldable pub check_surface_expansion : SelfEvolutionMonitor → Detection
unfolding distinct_targets
check_surface_expansion m =
    if is_empty m.mods
    then some none
    else signal_if
        (leb m.surface_threshold (length (distinct_targets (recent_mods m.surface_window m.mods))))
        se_surface "self_modification" warning

unfoldable pub scan : SelfEvolutionMonitor → Option (List IntegritySignal)
unfolding collect check_velocity check_privilege_accrual check_surface_expansion
scan m = collect (check_velocity m ∷ check_privilege_accrual m ∷ check_surface_expansion m ∷ [])

unfoldable pub is_flagged : SelfEvolutionMonitor → Option Bool
unfolding scan
is_flagged m = scan m >>= λ signals. some (not (is_empty signals))

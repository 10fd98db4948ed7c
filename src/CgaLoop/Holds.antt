-- ===== src/CgaLoop/Holds.antt =====
-- What holds the loop of autonomy: the kill-switch, the monitors and the need of a human
-- (strategy/cga_loop.py).
use general_autonomy_protoco.Prelude.{
  if◌then◌else◌, is_some, get_or, ◌>>=◌, any, String, Bool, true, false, ◌&&◌, ◌||◌, not, Option,
  none, some, List, [], ◌∷◌, ◌==◌,
}
use general_autonomy_protoco.Prelude.Dict.{Dict, lookup}
use general_autonomy_protoco.Models.{
  Value, null, text, sequence, table, truthy, is_given, needs_oob, PlannedAction, StrategyProposal,
  GovernanceDecision,
}
use general_autonomy_protoco.Evaluators.{any_or_raise}
use general_autonomy_protoco.KillSwitch.{KillSwitch, is_engaged, is_engaged_globally}
use general_autonomy_protoco.Monitor.{IntegrityMonitor, observe_decision, type_or_unspecified}
use general_autonomy_protoco.Monitor.Detectors.{check_authorization_drift, check_decomposition}
use general_autonomy_protoco.SelfEvolution.{
  SelfEvolutionMonitor, is_self_modifying, observe_executed, is_flagged,
}
use general_autonomy_protoco.CgaLoop.State.{CgaLoop}

-- Whether the switch is engaged for what a drift event names under a key. A list or a dictionary that
-- is not empty raises, since it cannot be hashed; of the other values only a text is a scope.
unfoldable pub scope_engaged : KillSwitch → Dict Value → String → Option Bool
scope_engaged s drift key = elim (get_or (lookup key drift) null) [
  | text scope ↦ some (not (scope == "") && is_engaged s scope)
  | sequence nonempty ↦ if nonempty then none else some false
  | table fields ↦ if truthy (table fields) then none else some false
  | _ ↦ some false
]

unfoldable pub is_halted_for : Option KillSwitch → Dict Value → Option Bool
unfolding scope_engaged
is_halted_for none drift = some false
is_halted_for (some s) drift =
    if is_engaged_globally s
    then some true
    else any_or_raise (scope_engaged s drift) ("entity_id" ∷ "target" ∷ "scope" ∷ [])

-- The check just before the dispatch.
unfoldable pub is_halted_now : Option KillSwitch → List PlannedAction → Bool
is_halted_now none actions = false
is_halted_now (some s) actions =
    is_engaged_globally s || any (λ (a : PlannedAction). is_engaged s a.target) actions

abbrev pub first_target : StrategyProposal → Option String
first_target p = elim p.actions [ [] ↦ none | a ∷ rest ↦ some a.target ]

-- Whether the monitor of integrity flags the action; `none` is an exception, here and below.
unfoldable pub flagged_by_integrity : Option IntegrityMonitor → String → Option String → Option Bool
flagged_by_integrity none action_type target = some false
flagged_by_integrity (some m) action_type target =
    check_authorization_drift m action_type >>= λ drift.
    (if is_some drift
      then some true
      else if is_given target
      then (check_decomposition m (get_or target "") >>= λ burst. some (is_some burst))
      else some false)

unfoldable pub flagged_by_evolution : Option SelfEvolutionMonitor → String → Option Bool
flagged_by_evolution none action_type = some false
flagged_by_evolution (some m) action_type =
    if is_self_modifying m (some action_type) then is_flagged m else some false

-- `_integrity_hold`
unfoldable pub integrity_hold_on : CgaLoop → GovernanceDecision → StrategyProposal → Option Bool
unfolding flagged_by_integrity flagged_by_evolution
integrity_hold_on loop d p =
    let action_type = type_or_unspecified d.action_type_id in
    flagged_by_integrity loop.integrity_monitor action_type (first_target p) >>= λ held.
    (if held then some true else flagged_by_evolution loop.self_evolution_monitor action_type)

-- `integrity_monitor.observe_decision`, where there is a monitor.
abbrev pub observed : CgaLoop → GovernanceDecision → Option String → CgaLoop
observed loop d target = record loop {
  integrity_monitor = elim loop.integrity_monitor [
    | none ↦ none
    | some m ↦ some (observe_decision m d target none)
  ];
}

-- `self_evolution_monitor.observe_decision`, once the modification was executed.
abbrev pub realized : CgaLoop → GovernanceDecision → Option String → CgaLoop
realized loop d target = record loop {
  self_evolution_monitor = elim loop.self_evolution_monitor [
    | none ↦ none
    | some m ↦ some (observe_executed m d target)
  ];
}

-- `decision.authorization_level in _OOB_REQUIRED_LEVELS`
abbrev pub needs_human : GovernanceDecision → Bool
needs_human d = elim d.authorization_level [ none ↦ false | some l ↦ needs_oob l ]

-- `self._block_on_integrity and self._integrity_hold(decision, proposal)`
abbrev pub held_by : CgaLoop → GovernanceDecision → StrategyProposal → Option Bool
held_by loop d p = if loop.block_on_integrity then integrity_hold_on loop d p else some false

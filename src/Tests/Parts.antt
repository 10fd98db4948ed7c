-- ===== src/Tests/Parts.antt =====
-- The theorems on the evaluators, the escalation engine, the profiles, the kill-switch and the
-- ledger at samples.
use general_autonomy_protoco.Prelude.{
  is_some, length, All, contains, ◌+◌, ◌≤◌, ◌≡◌, refl, true, false, ◌||◌, ◌⊎◌, none, arith, some,
  List, [], ◌∷◌,
}
use general_autonomy_protoco.Models.{num, PlannedAction, to_float, to_int, is_set, l3, rank}
use general_autonomy_protoco.Evaluators.{
  transaction_amount, constraint_has_evaluator, check_aml_screening, check_gdpr_consent,
  check_constraint_violation,
}
use Prim.Native.Nat.{min}
use general_autonomy_protoco.Samples.{toy_runtime, gdpr, email, proposal, world}
use general_autonomy_protoco.Prelude.Int.{pos}
use general_autonomy_protoco.Risk.{escalate_level}
use general_autonomy_protoco.Risk.Escalation.{rank-escalate_level}
use general_autonomy_protoco.Evaluators.Totality.{IsConvertible, check_constraint_violation-total}
use general_autonomy_protoco.Evaluators.Meaning.{IsConsented, check_gdpr_consent-IsConsented}
use general_autonomy_protoco.KillSwitch.{KillSwitch, is_engaged, global_scope}
use general_autonomy_protoco.KillSwitch.Scopes.{
  SwitchOp, turn_on, turn_off, run_ops, last_word, is_engaged-run_ops,
}

rank-escalate_level_example :
    (rank (escalate_level l3 2) ≡ min (rank l3 + 2) 4) × (rank l3 ≤ rank (escalate_level l3 2))
rank-escalate_level_example = rank-escalate_level l3 2

pub convertible : All (IsConvertible toy_runtime) (email ∷ [])
unfolding transaction_amount to_float to_int
convertible = ((λ e. ground arith, λ e. ground arith), tt)

-- An amount that does not convert is not caught.
abbrev huge : PlannedAction
huge = record email { parameters = ("transaction_amount", num (pos 2000000000000)) ∷ [] }

raises : check_aml_screening toy_runtime (record proposal { actions = huge ∷ [] }) gdpr world ≡ none
unfolding check_aml_screening transaction_amount to_float
raises = refl

check_constraint_violation-total_example :
    (is_some (check_constraint_violation toy_runtime proposal gdpr world) ≡ true)
    × ((constraint_has_evaluator toy_runtime gdpr ≡ true)
        ⊎ (check_constraint_violation toy_runtime proposal gdpr world ≡ some true))
check_constraint_violation-total_example =
    check_constraint_violation-total toy_runtime world ((refl, refl), tt) proposal gdpr convertible

consenting : check_gdpr_consent toy_runtime proposal gdpr world ≡ some false
unfolding check_gdpr_consent is_set
consenting = refl

check_gdpr_consent-IsConsented_example : All (IsConsented toy_runtime world) (email ∷ [])
check_gdpr_consent-IsConsented_example =
    check_gdpr_consent-IsConsented toy_runtime proposal gdpr world consenting

abbrev switch : KillSwitch
switch = record { engaged = "crm" ∷ []; log = [] }

abbrev ops : List SwitchOp
ops = turn_on "mail" ∷ turn_off "crm" ∷ []

is_engaged-run_ops_example :
    (is_engaged (run_ops switch ops) "crm" ≡ (
      last_word (contains ("crm" ∷ []) global_scope) global_scope ops
      || last_word (contains ("crm" ∷ []) "crm") "crm" ops))
    × (length (run_ops switch ops).log ≡ length switch.log + length ops)
is_engaged-run_ops_example = is_engaged-run_ops switch ops "crm"

-- ===== src/Tests/Rulings.antt =====
-- The theorems on rulings at the sample kernel (governance/kernel.py).
use general_autonomy_protoco.Prelude.{
  ltb, is_some, ◌>>=◌, any, Member, All, ◌≤◌, String, ◌≡◌, refl, ◌≢◌, Bool, true, false, some, List,
  [], ◌∷◌,
}
use general_autonomy_protoco.Models.{
  AuthorizationLevel, l4, rank, compute_proposal_digest, canonical_decision_payload,
}
use general_autonomy_protoco.Evaluators.{check_constraint_violation}
use general_autonomy_protoco.Policy.{as_floor, get_active_constraints, hard_violations}
use general_autonomy_protoco.Kernel.{
  determine_auth_level, max_risk, spec_of, rule_level, sort_by_priority, detect_intent_conflicts,
  conflict_unresolvable, action_type_gate, evaluate,
}
use general_autonomy_protoco.Samples.{
  toy_runtime, toy_crypto, toy_keys, now, gdpr, intent, intents, email, proposal, world, profile,
  options, kernel, task,
}
use general_autonomy_protoco.Kernel.Runs.{built_kernel, ruling, evaluated, decision, decided}
use general_autonomy_protoco.Policy.Active.{HasFloor, IsFloor, new_kernel-HasFloor}
use general_autonomy_protoco.Kernel.Levels.{default_rank}
use general_autonomy_protoco.Kernel.Conflicts.{sort_by_priority-head, conflict_unresolvable-any}
use general_autonomy_protoco.Kernel.Outcome.{
  approved-upholds_profile, approved-level, evaluate_proposal-signed,
}
use general_autonomy_protoco.Tests.Parts.{convertible}
use general_autonomy_protoco.Kernel.Verdict.{evaluate-verdict, verdict_of, verdict_table}

approved-upholds_profile_example :
    All
      (λ c. check_constraint_violation toy_runtime proposal (as_floor c) world ≡ some false)
      (gdpr ∷ [])
approved-upholds_profile_example =
    approved-upholds_profile toy_crypto toy_runtime options profile proposal intents world now task
      "d1" ruling built_kernel refl evaluated refl

approved-level_example :
    (l : AuthorizationLevel) × (ruling.authorization_level ≡ some l)
    × (rank (determine_auth_level (max_risk (email ∷ []))) ≤ rank l)
    × (default_rank (spec_of kernel task) ≤ rank l)
    × (l ≢ l4)
    × All (λ a. a.risk_score ≤ 8) (email ∷ [])
approved-level_example =
    approved-level toy_runtime kernel proposal intents world now task "d1" ruling evaluated refl

evaluate-verdict_example :
    (hard_names : List String) × (unresolvable : Bool) × (hard_violations toy_runtime proposal world
        (get_active_constraints toy_runtime kernel intents now)
      ≡ some hard_names)
    × (conflict_unresolvable toy_runtime proposal now intents ≡ some unresolvable)
    × (verdict_of (evaluate toy_runtime kernel proposal intents world now task "d1")
        ≡ some (
            verdict_table
              (is_some (action_type_gate kernel task))
              hard_names
              (rule_level kernel proposal task now).level
              unresolvable))
evaluate-verdict_example =
    evaluate-verdict toy_runtime kernel proposal intents world now task "d1" ((refl, refl), tt)
      convertible

evaluate_proposal-signed_example :
    (s : String) × (decision.decision_signature ≡ some s)
    × (s ≡ toy_crypto.sign "kpriv" (canonical_decision_payload toy_crypto decision))
    × (toy_crypto.verify "kpub" (canonical_decision_payload toy_crypto decision) s ≡ true)
    × (decision.proposal_digest ≡ some (compute_proposal_digest toy_crypto proposal))
evaluate_proposal-signed_example =
    evaluate_proposal-signed toy_crypto toy_runtime kernel proposal intents world now task "d1"
      decision (toy_keys "kpriv" "kpub") decided

conflict_unresolvable-any_example : conflict_unresolvable toy_runtime proposal now intents ≡ (
    detect_intent_conflicts toy_runtime proposal now intents >>= λ found.
    some (any (λ i. ltb 5 i.priority) found))
conflict_unresolvable-any_example = conflict_unresolvable-any toy_runtime proposal now intents

new_kernel-HasFloor_example :
    HasFloor toy_crypto options kernel (some profile) × All IsFloor (as_floor gdpr ∷ [])
new_kernel-HasFloor_example = new_kernel-HasFloor toy_crypto options built_kernel

sorted : sort_by_priority intents ≡ intent "i2" 9 ∷ intent "i1" 5 ∷ []
unfolding sort_by_priority
sorted = refl

sort_by_priority-head_example : Member (intent "i2" 9) intents × All (λ x. x.priority ≤ 9) intents
sort_by_priority-head_example =
    sort_by_priority-head intents (intent "i2" 9) (intent "i1" 5 ∷ []) sorted

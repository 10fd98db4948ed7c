-- ===== src/Tests/Executions.antt =====
-- The theorems on executions at the sample fabric (execution/fabric.py).
use general_autonomy_protoco.Prelude.{String, ◌≡◌, refl, ap, ◌≢◌, false, [], ◌∷◌, arith, ◌==◌}
use general_autonomy_protoco.Models.{l0, l2, rank, GovernanceDecision, canonical_decision_payload}
use general_autonomy_protoco.KillSwitch.{is_engaged, is_engaged_globally}
use general_autonomy_protoco.Samples.{
  toy_runtime, toy_crypto, toy_keys, now, intents, proposal, world, kernel, task, fabric,
}
use general_autonomy_protoco.Kernel.Runs.{ruling, decision, decided}
use general_autonomy_protoco.Fabric.{kill_switch_engaged, ExecutionResult, ok, is_halted, execute}
use general_autonomy_protoco.Fabric.Guards.{IsAuthorized, execute-IsAuthorized, execute-tampered}
use general_autonomy_protoco.Fabric.Effects.{execute_error_unchanged}
use general_autonomy_protoco.Fabric.Replay.{execute_all, execute-no_replay}
use general_autonomy_protoco.Fabric.Release.{approved-execute}
use general_autonomy_protoco.Fabric.Runs.{
  human_decision, sent, executed, halted_fabric, refused_halted,
}

execute-IsAuthorized_example : IsAuthorized toy_crypto fabric proposal human_decision now
execute-IsAuthorized_example =
    execute-IsAuthorized toy_crypto toy_runtime fabric proposal human_decision now sent executed

-- The decision with the proposal's id altered.
abbrev forged : GovernanceDecision
forged = record decision { ruling = record ruling { proposal_id = "p2" } }

payload_differs : canonical_decision_payload toy_crypto forged ≢ "p1"
unfolding canonical_decision_payload
payload_differs h =
    let same : ("p2" == "p1") ≡ ("p1" == "p1") = ap (λ (m : String). m == "p1") h in ground arith

execute-tampered_example : (execute toy_crypto toy_runtime fabric proposal forged now).0 ≢ ok sent
execute-tampered_example =
    execute-tampered toy_crypto toy_runtime fabric proposal forged now "kpriv" "kpub" "p1"
      (toy_keys "kpriv" "kpub") refl refl payload_differs sent

execute_error_unchanged_example :
    (execute toy_crypto toy_runtime halted_fabric proposal human_decision now).1 ≡ halted_fabric
execute_error_unchanged_example =
    execute_error_unchanged toy_crypto toy_runtime halted_fabric proposal human_decision now
      kill_switch_engaged refused_halted

execute-no_replay_example :
    (execute toy_crypto toy_runtime
      (execute_all toy_crypto toy_runtime
        (execute toy_crypto toy_runtime fabric proposal human_decision now).1
        ((proposal, decision, now) ∷ []))
      proposal
      human_decision
      now).0
    ≢ ok sent
unfolding rank
execute-no_replay_example =
    execute-no_replay toy_crypto toy_runtime fabric proposal proposal human_decision human_decision
      now now l2 l2 sent sent ((proposal, decision, now) ∷ []) refl (omega arith) executed refl refl
      refl refl (omega arith)

running : is_halted fabric.kill_switch proposal.actions ≡ false
unfolding is_halted is_engaged is_engaged_globally
running = refl

sign_differs :
    (toy_crypto.sign "kpriv" (canonical_decision_payload toy_crypto decision) == "") ≡ false
unfolding canonical_decision_payload
sign_differs = refl

approved-execute_example :
    (r : ExecutionResult) × ((execute toy_crypto toy_runtime fabric proposal decision now).0 ≡ ok r)
unfolding rank
approved-execute_example =
    approved-execute toy_crypto toy_runtime kernel fabric proposal intents world now now task "d1"
      decision l0 (toy_keys "kpriv" "kpub") sign_differs refl decided refl refl (omega arith)
      running

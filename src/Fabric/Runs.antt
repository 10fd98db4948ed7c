-- ===== src/Fabric/Runs.antt =====
-- The sample fabric executes a decision at L2 that a human approved.
use general_autonomy_protoco.Prelude.{◌≡◌, refl, true, some, [], ◌∷◌}
use general_autonomy_protoco.Models.{
  text, l2, needs_oob, GovernanceDecision, compute_proposal_digest, canonical_decision_payload,
}
use general_autonomy_protoco.KillSwitch.{is_engaged, is_engaged_globally}
use general_autonomy_protoco.Ledger.{has_been_used, record_use}
use general_autonomy_protoco.Fabric.{
  Fabric, kill_switch_engaged, ExecutionResult, ok, err, check_halt, check_binding,
  verify_decision_signature, check_approval, verify_oob_authority, guards, dispatch_action,
  apply_state_changes, dispatch_all, consume_oob_authority, conclude, execute,
}
use general_autonomy_protoco.Samples.{toy_runtime, toy_crypto, now, proposal, fabric}
use general_autonomy_protoco.Kernel.Runs.{ruling, decision}

-- The kernel's decision, raised to L2 and approved by the key `ak`.
abbrev pub human_decision : GovernanceDecision
human_decision = record decision {
  ruling = record ruling { proposal_digest = some "p1"; authorization_level = some l2 };
  human_approval_signature = some "d1";
  human_approver_public_key_id = some "ak";
  human_approval_valid_until = some now;
}

abbrev pub sent : ExecutionResult
sent = record {
  proposal_id = "p1";
  actions_completed =
      record {
        action_type = "send_email";
        target = "acme";
        success = true;
        result_data = some (("status", text "sent") ∷ []);
      }
      ∷ [];
  actions_failed = [];
  success = true;
  world_state_changes =
      record {
        entity_id = "acme";
        changed_field = "last_contacted";
        new_value = "now";
        source = "send_email";
      }
      ∷ [];
  executed_at = now;
}

pub executed : (execute toy_crypto toy_runtime fabric proposal human_decision now).0 ≡ ok sent
unfolding execute guards check_halt is_engaged_globally is_engaged check_binding
    compute_proposal_digest verify_decision_signature canonical_decision_payload
    verify_oob_authority needs_oob check_approval has_been_used conclude dispatch_all
    dispatch_action consume_oob_authority record_use apply_state_changes
executed = refl

abbrev pub halted_fabric : Fabric
halted_fabric = record fabric { kill_switch = some (record { engaged = "acme" ∷ []; log = [] }) }

pub refused_halted :
    (execute toy_crypto toy_runtime halted_fabric proposal human_decision now).0
    ≡ err kill_switch_engaged
unfolding execute guards check_halt is_engaged_globally is_engaged
refused_halted = refl

-- ===== src/Fabric.antt =====
-- The Execution Fabric (execution/fabric.py): the guards of an execution, the dispatch of the
-- actions and the consumption of the human approval. The clock is read once in an execution, the
-- durations are left out, and an executor, which the deployment supplies, sees the action and the
-- world model alone.
pub mod Guards
pub mod Effects
pub mod Replay
pub mod Runs
pub mod Release
use general_autonomy_protoco.Prelude.{
  ltb, leb, eqb, if◌then◌else◌, Bool-cases, Option-cases, is_some, get_or, ◌>>=◌, >>=-eq-some,
  length, is_empty, any, select, find, last?, length-append, any-append, Member, All, All-append,
  All-map, All-prefix, All-suffix, contains, ℕ, zero, suc, ◌+◌, ◌-◌, ◌*◌, ◌/◌, ◌%◌, ◌≤◌, ◌<◌,
  String, ◌≡◌, refl, sym, ap, ◌∙◌, ◌≢◌, ◌↔◌, ◌⊎◌, inl, inr, Bool, true, false, ◌&&◌, ◌||◌, not,
  Option, none, some, List, [], ◌∷◌, ◌++◌, map, arith, ◌==◌, eq_iff, eq_refl,
}
use general_autonomy_protoco.Prelude.Dict.{
  Dict, lookup, has_key, insert, remove, values, lookup-insert, lookup-remove,
}
use general_autonomy_protoco.Prelude.Int.{ℤ, pos, negsuc, pos_part, neg_part, ltb_ℤ, leb_ℤ}
use general_autonomy_protoco.Models.{
  Value, null, flag, num, text, sequence, table, Fields, end, field, to_dict, of_dict, unit, truthy,
  is_set, is_given, truncate, of_flag, Runtime, to_float, to_int, GovernanceVerdict, approved,
  rejected, escalate, AuthorizationLevel, l0, l1, l2, l3, l4, rank, level_name, needs_oob,
  satisfies_auth, max_auth, AuthorizationTier, auto_execute, notify_proceed, require_approval,
  escalate_tier, max_auth_bounds, rank-injective, needs_oob-rank, ConstraintType, hard, soft,
  PolicyTier, regulatory_floor, org_policy, operational, PolicyActivation, Constraint, IntentVector,
  PlannedAction, StrategyProposal, EntityState, WorldModel, ProposalContent, content, PhaseConfig,
  RiskProfile, ActionTypeSpec, GovernancePhaseResult, PolicySnapshot, TemporalContext, Ruling,
  GovernanceDecision, OobMessage, ProfilePayload, Crypto, compute_proposal_digest,
  canonical_decision_payload, IsKeyPair,
}
use Prim.Native.String.{◌++◌ as str_append}
use general_autonomy_protoco.KillSwitch.{KillSwitch, is_engaged, is_engaged_globally}
use general_autonomy_protoco.Ledger.{OobLedger, has_been_used, record_use}
use general_autonomy_protoco.Profile.{PublicKeyRegistry}

-- `none` is an exception; what the executor wrote to the world before it stays written.
abbrev pub Executor : Type 0
Executor = PlannedAction → WorldModel → Option (Dict Value) × WorldModel

pub record Fabric : Type 0 where
  pub world_model : WorldModel
  pub executors : Dict Executor
  pub kill_switch : Option KillSwitch
  pub oob_ledger : OobLedger
  pub public_key_registry : PublicKeyRegistry
  pub kernel_public_key_hex : Option String
  pub allow_unsigned_decisions : Bool
  pub approver_max_levels : Option (Dict AuthorizationLevel)

pub data ExecutionError : Type 0 where
  kill_switch_engaged wrong_proposal digest_mismatch no_kernel_key unsigned_decision :
      ExecutionError
  forged_decision not_approved : ExecutionError
  -- The errors of the out-of-band verification.
  approval_missing expiry_missing approval_expired approver_unregistered : ExecutionError
  ceiling_missing ceiling_exceeded approval_invalid approval_replayed : ExecutionError

pub record ActionResult : Type 0 where
  pub action_type : String
  pub target : String
  pub success : Bool
  pub result_data : Option (Dict Value)

pub record StateChange : Type 0 where
  pub entity_id : String
  pub changed_field : String
  pub new_value : String
  pub source : String

pub record ExecutionResult : Type 0 where
  pub proposal_id : String
  pub actions_completed : List ActionResult
  pub actions_failed : List ActionResult
  pub success : Bool
  pub world_state_changes : List StateChange
  pub executed_at : ℕ

pub data Result (A : Type 0) : Type 0 where
  ok : A → Result A
  err : ExecutionError → Result A

-- `none` where a guard passes.
abbrev pub Guard : Type 0
Guard = Option ExecutionError

infixl 5 ◌then_check◌
abbrev pub ◌then_check◌ : Guard → Guard → Guard
none then_check g = g
some e then_check g = some e

unfoldable pub is_halted : Option KillSwitch → List PlannedAction → Bool
is_halted none actions = false
is_halted (some s) actions = is_engaged_globally s || any (λ a. is_engaged s a.target) actions

unfoldable pub check_halt : Fabric → StrategyProposal → Guard
unfolding is_halted
check_halt f p = if is_halted f.kill_switch p.actions then some kill_switch_engaged else none

-- `_oob_signed_message`
abbrev pub oob_message : GovernanceDecision → OobMessage
oob_message d = record {
  decision_id = d.id;
  proposal_id = d.proposal_id;
  authorization_level = d.authorization_level;
  approver_key_id = d.human_approver_public_key_id;
  valid_until = d.human_approval_valid_until;
}

check_ceiling : Option (Dict AuthorizationLevel) → String → AuthorizationLevel → Guard
check_ceiling none key_id level = none
check_ceiling (some levels) key_id level = elim (lookup key_id levels) [
  | none ↦ some ceiling_missing
  | some max_level ↦ if ltb (rank max_level) (rank level) then some ceiling_exceeded else none
]

check_present : GovernanceDecision → Guard
check_present d =
    if not (is_given d.human_approval_signature) || not (is_given d.human_approver_public_key_id)
    then some approval_missing
    else none

check_expiry : GovernanceDecision → ℕ → Guard
check_expiry d now = elim d.human_approval_valid_until [
  | none ↦ some expiry_missing
  | some valid_until ↦ if ltb valid_until now then some approval_expired else none
]

check_unused : Fabric → GovernanceDecision → Guard
check_unused f d =
    if has_been_used f.oob_ledger d.id (get_or d.human_approval_signature "")
    then some approval_replayed
    else none

check_verdict : GovernanceDecision → Guard
check_verdict d = elim d.verdict [ approved ↦ none | _ ↦ some not_approved ]

module _ (C : Crypto) where
  unfoldable pub check_binding : StrategyProposal → GovernanceDecision → Guard
  check_binding p d =
      if not (p.id == d.proposal_id) then some wrong_proposal else elim d.proposal_digest [
        | none ↦ none
        | some digest ↦ if compute_proposal_digest C p == digest then none else some digest_mismatch
      ]

  verify_with : Option String → Bool → Option String → String → Guard
  verify_with none allow_unsigned signature payload =
      if allow_unsigned then none else some no_kernel_key
  verify_with (some key) allow_unsigned signature payload =
      if not (is_given signature)
      then some unsigned_decision
      else if C.verify key payload (get_or signature "")
      then none
      else some forged_decision

  -- `_verify_decision_signature`
  unfoldable pub verify_decision_signature : Fabric → GovernanceDecision → Guard
  unfolding verify_with
  verify_decision_signature f d =
      verify_with f.kernel_public_key_hex f.allow_unsigned_decisions d.decision_signature
        (canonical_decision_payload C d)

  check_key : Option String → GovernanceDecision → Guard
  check_key key d =
      if C.verify (get_or key "") (C.dump_oob (oob_message d))
        (get_or d.human_approval_signature "")
      then none
      else some approval_invalid

  -- What `_verify_oob_authority` checks of a decision whose level needs an approval, in its order.
  unfoldable pub check_approval : Fabric → GovernanceDecision → AuthorizationLevel → ℕ → Guard
  unfolding check_present check_expiry check_ceiling check_key check_unused rank
  check_approval f d level now =
      let key_id = get_or d.human_approver_public_key_id "" in
      let key = lookup key_id f.public_key_registry in
      check_present d
      then_check check_expiry d now
      then_check (if is_given key then none else some approver_unregistered)
      then_check check_ceiling f.approver_max_levels key_id level
      then_check check_key key d
      then_check check_unused f d

  -- `_verify_oob_authority`; a decision with no level needs no approval.
  unfoldable pub verify_oob_authority : Fabric → GovernanceDecision → ℕ → Guard
  verify_oob_authority f d now = elim d.authorization_level [
    | none ↦ none
    | some level ↦ if needs_oob level then check_approval f d level now else none
  ]

  -- The guards of `execute`, in their order.
  unfoldable pub guards : Fabric → StrategyProposal → GovernanceDecision → ℕ → Guard
  unfolding check_verdict
  guards f p d now =
      check_halt f p
      then_check check_binding p d
      then_check verify_decision_signature f d
      then_check check_verdict d
      then_check verify_oob_authority f d now

-- `_dispatch_action`
unfoldable pub dispatch_action :
    Dict Executor → PlannedAction → WorldModel → ActionResult × WorldModel
dispatch_action executors a w = elim (lookup a.action_type executors) [
  | none ↦ (
    record { action_type = a.action_type; target = a.target; success = false; result_data = none },
    w,
  )
  | some executor ↦
      let (returned, w') = executor a w in
      (
        record {
          action_type = a.action_type;
          target = a.target;
          success = is_some returned;
          result_data = returned;
        },
        w',
      )
]

abbrev contact_actions : List String
contact_actions = "send_email" ∷ "route_to_human" ∷ "automated_outreach" ∷ []

-- `_apply_state_changes`
unfoldable pub apply_state_changes :
    Runtime → PlannedAction → ℕ → WorldModel → List StateChange × WorldModel
apply_state_changes R a now w = elim (lookup a.target w.entities) [
  | none ↦ ([], w)
  | some entity ↦
      if contains contact_actions a.action_type
      then (
        (record {
          entity_id = a.target;
          changed_field = "last_contacted";
          new_value = R.isoformat now;
          source = a.action_type;
        })
            ∷ [],
        record w {
          entities =
              insert a.target
                (record entity {
                  properties =
                      insert "contact_method" (text a.action_type)
                        (insert "last_contacted" (text (R.isoformat now)) entity.properties);
                  last_updated = now;
                })
                w.entities;
        },
      )
      else ([], w)
]

pub record Dispatched : Type 0 where
  pub completed : List ActionResult
  pub failed : List ActionResult
  pub changes : List StateChange
  pub world : WorldModel

module _ (R : Runtime) where
  -- One round of the loop over the actions.
  unfoldable pub dispatch_one : Dict Executor → ℕ → PlannedAction → Dispatched → Dispatched
  dispatch_one executors now a s =
      let (result, w) = dispatch_action executors a s.world in
      let (changes, w') = apply_state_changes R a now w in
      if result.success
      then record {
        completed = s.completed ++ result ∷ [];
        failed = s.failed;
        changes = s.changes ++ changes;
        world = w';
      }
      else record s { failed = s.failed ++ result ∷ []; world = w }

  unfoldable pub dispatch_all : Dict Executor → ℕ → List PlannedAction → Dispatched → Dispatched
  unfolding dispatch_one
  dispatch_all executors now [] s = s
  dispatch_all executors now (a ∷ actions) s =
      dispatch_all executors now actions (dispatch_one executors now a s)

-- `_consume_oob_authority`; `none` is the ReplayError, which becomes an error of the verification.
unfoldable pub consume_oob_authority : OobLedger → GovernanceDecision → ℕ → Option OobLedger
consume_oob_authority l d now = elim d.authorization_level [
  | none ↦ some l
  | some level ↦
      if needs_oob level && is_given d.human_approval_signature
      then record_use l d.id (get_or d.human_approval_signature "")
          (get_or d.human_approver_public_key_id "") now
      else some l
]

abbrev pub started : Fabric → Dispatched
started f = record { completed = []; failed = []; changes = []; world = f.world_model }

abbrev pub result_of : StrategyProposal → ℕ → Dispatched → ExecutionResult
result_of p now s = record {
  proposal_id = p.id;
  actions_completed = s.completed;
  actions_failed = s.failed;
  success = is_empty s.failed;
  world_state_changes = s.changes;
  executed_at = now;
}

-- What `execute` does after the dispatch.
unfoldable pub conclude :
    Fabric
    → StrategyProposal
    → GovernanceDecision
    → ℕ
    → Dispatched
    → Result ExecutionResult × Fabric
conclude f p d now s =
    let f' : Fabric = record f { world_model = s.world } in
    if is_empty s.failed
    then elim (consume_oob_authority f.oob_ledger d now) [
      | none ↦ (err approval_replayed, f')
      | some l ↦ (ok (result_of p now s), record f' { oob_ledger = l })
    ]
    else (ok (result_of p now s), f')

unfoldable pub execute :
    Crypto
    → Runtime
    → Fabric
    → StrategyProposal
    → GovernanceDecision
    → ℕ
    → Result ExecutionResult × Fabric
execute C R f p d now = elim (guards C f p d now) [
  | some e ↦ (err e, f)
  | none ↦ conclude f p d now (dispatch_all R f.executors now p.actions (started f))
]

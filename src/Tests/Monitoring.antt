-- ===== src/Tests/Monitoring.antt =====
-- The theorems on the monitors, the resolver, the classifier and the reconciler, at small data.
use general_autonomy_protoco.Prelude.{
  length, any, Member, All, ℕ, ◌+◌, ◌≤◌, String, ◌≡◌, refl, ◌≢◌, ◌↔◌, ◌⊎◌, true, false, none, some,
  [], ◌∷◌, arith, eq_iff,
}
use general_autonomy_protoco.Models.{
  text, truthy, Runtime, l0, l1, l2, rank, PlannedAction, StrategyProposal, EntityState,
}
use general_autonomy_protoco.Reconciler.{
  DriftEvent, Framing, Escalation, ReconcilerLoop, new_reconciler, extract_sla_minutes,
  waiting_since, sla_event, obligation_drift, sla_drift_among, check_sla_drift, is_dampened,
  is_open, open_escalations, escalation_of, settle_drift,
}
use general_autonomy_protoco.CgaLoop.{CgaResult}
use general_autonomy_protoco.Samples.{
  toy_runtime, toy_crypto, toy_keys, now, intent, proposal, world, acme,
}
use general_autonomy_protoco.Monitor.{gim_1, warning, MonitorConfig, IntegrityMonitor, new_monitor}
use general_autonomy_protoco.Monitor.Bounded.{IsBounded, tell_all, saw, new_monitor-IsBounded}
use general_autonomy_protoco.Monitor.Bursts.{observe_all, check_decomposition-observe_all}
use general_autonomy_protoco.Monitor.Drift.{check_authorization_drift-falls}
use general_autonomy_protoco.Monitor.Detectors.{check_decomposition, check_authorization_drift}
use general_autonomy_protoco.SelfEvolution.{SelfEvolutionMonitor, is_flagged}
use general_autonomy_protoco.SelfEvolution.Signals.{is_flagged-burst}
use general_autonomy_protoco.Classifier.{ActionTypeClassifier, restrictiveness, implied, classify}
use general_autonomy_protoco.Classifier.Choice.{category_of, classify_lem}
use general_autonomy_protoco.Resolver.{
  confirmed, DeclaredIntent, IntentDeclaration, StandingIntentDeclaration, is_ready_for_cga, seal,
  verify_seal,
}
use general_autonomy_protoco.Resolver.Gate.{IsCovering, is_ready_for_cga_lem, verify_seal-seal}
use general_autonomy_protoco.Strategy.{rule_at, generate}
use general_autonomy_protoco.Strategy.Rules.{IsFirstOpen, IsMild, generate-IsFirstOpen}
use general_autonomy_protoco.CgaLoop.{FinalVerdict}
use general_autonomy_protoco.Reconciler.Breaker.{fail_all, update_all, is_dampened-broken}
use general_autonomy_protoco.Reconciler.Queue.{
  count_open, apply_all, attach, is_sought, close, resolving, count_open-apply_all,
  resolve_escalation_lem,
}
use general_autonomy_protoco.Reconciler.Watch.{IsDue, check_sla_drift-IsDue}

abbrev config : MonitorConfig
config = record {
  baseline_window = 2;
  recent_window = 2;
  drift_threshold = 1000000;
  decomposition_window = 60;
  decomposition_count_threshold = 2;
  decomposition_max_rank = 1;
  audit_min_samples = 5;
  audit_divergence_threshold = 300000;
  escalation_min_samples = 5;
  preferred_approval_threshold = 800000;
  framing_correlation_threshold = 300000;
  position_bias_threshold = 800000;
  challenge_window = 3;
  endorsement_threshold = 900000;
  material_change_floor = 100000;
  collapse_endorsement_rate = 1000000;
  max_history = 8;
}

abbrev watcher : IntegrityMonitor
watcher = record {
  config = config;
  by_action =
      (
        "deploy",
        record { action_type = "deploy"; observed_rank = 3; target = none; at = 1 }
            ∷ record { action_type = "deploy"; observed_rank = 2; target = none; at = 2 }
            ∷ record { action_type = "deploy"; observed_rank = 1; target = none; at = 3 }
            ∷ record { action_type = "deploy"; observed_rank = 0; target = none; at = 4 }
            ∷ [],
      )
      ∷ [];
  by_target = [];
  known_samples = [];
  shadow_samples = [];
  escalations = [];
  challenges = [];
}

new_monitor-IsBounded_example :
    IsBounded 8 (tell_all (new_monitor config) (saw "deploy" l2 (some "acme") 1 ∷ []))
new_monitor-IsBounded_example = new_monitor-IsBounded config (saw "deploy" l2 (some "acme") 1 ∷ [])

check_decomposition-observe_all_example :
    check_decomposition (observe_all "acme" watcher (("deploy", l2, 9) ∷ [])) "acme"
    ≡ check_decomposition watcher "acme"
unfolding rank
check_decomposition-observe_all_example =
    check_decomposition-observe_all watcher "acme" (("deploy", l2, 9) ∷ []) (omega arith)
      (omega arith, tt)

check_authorization_drift-falls_example :
    check_authorization_drift watcher "deploy"
    ≡ some (some (record { signal_type = gim_1; subject = "deploy"; severity = warning }))
check_authorization_drift-falls_example =
    check_authorization_drift-falls watcher "deploy" 1 1 (omega arith) (omega arith) (omega arith)
      (omega arith) (omega arith, (omega arith, tt)) (omega arith, (omega arith, tt))

abbrev tuner : SelfEvolutionMonitor
tuner = record {
  self_modifying = "skill_modification" ∷ [];
  mods =
      record { action_type = "skill_modification"; modified_rank = 2; target = some "s"; at = 5 }
      ∷ record { action_type = "skill_modification"; modified_rank = 2; target = some "t"; at = 7 }
      ∷ [];
  velocity_window = 10;
  velocity_threshold = 2;
  baseline_window = 5;
  recent_window = 3;
  privilege_drift_threshold = 1000000;
  surface_window = 10;
  surface_threshold = 5;
  max_history = 8;
}

is_flagged-burst_example : is_flagged tuner ≡ some true
is_flagged-burst_example =
    is_flagged-burst tuner 5 (omega arith) (omega arith) (λ e. ground arith) (omega arith)
      ((omega arith, omega arith), ((omega arith, omega arith), tt))

abbrev classifier : ActionTypeClassifier
classifier = record {
  base = "drift_reconciliation";
  overrides = ("send_email", "escalation") ∷ [];
  ranks = ("drift_reconciliation", 1) ∷ [];
}

classify_lem_example :
    ((classify classifier proposal ≡ "drift_reconciliation")
      ⊎ Member (classify classifier proposal) (implied classifier proposal.actions))
    × (restrictiveness classifier "drift_reconciliation"
        ≤ restrictiveness classifier (classify classifier proposal))
    × All
        (λ (a : PlannedAction).
          (category_of classifier a ≡ "")
          ⊎ (restrictiveness classifier (category_of classifier a)
              ≤ restrictiveness classifier (classify classifier proposal)))
        proposal.actions
classify_lem_example = classify_lem classifier proposal

abbrev declaration : String → IntentDeclaration
declaration stated = record {
  declared = record {
    declaration_id = "n1";
    intent_class = some "outreach";
    stated_intent = stated;
    interpreted_intent = stated;
    meta_intent = record {
      primary_objective = stated;
      value_hierarchy = [];
      risk_tolerance = "moderate";
      stakeholder_impact = [];
    };
    declared_boundaries = [];
    confirmation_state = confirmed;
    correction_records = [];
    authorization_level = l1;
    resolution_mode = "structured_confirmation";
    created_at = 0;
    linked_decision_id = some "d1";
  };
  integrity_signature = some "grow";
  signing_key_id = some "hk";
}

is_ready_for_cga_lem_example : (is_ready_for_cga "gap" (declaration "grow") none now ≡ true) ↔ (
    ((l1 ≢ l0) × (true ≡ true))
    ⊎ ((l1 ≡ l0)
        × ((s : StandingIntentDeclaration) × (none ≡ some s)
            × IsCovering "gap" (declaration "grow") now s)))
is_ready_for_cga_lem_example = is_ready_for_cga_lem "gap" (declaration "grow") none now

abbrev dump : DeclaredIntent → String
dump d = d.stated_intent

sealed :
    seal toy_crypto dump (declaration "grow") "hpriv" "hk" (some "d1") ≡ some (declaration "grow")
unfolding seal
sealed = refl

verify_seal-seal_example :
    (true ≡ true)
    × (verify_seal toy_crypto dump (declaration "grow") "hpub" ≡ true)
    × (verify_seal toy_crypto dump (declaration "shrink") "hpub" ≡ false)
verify_seal-seal_example =
    verify_seal-seal toy_crypto dump "hpriv" "hpub" "hk" (declaration "grow") (declaration "grow")
      (some "d1") (declaration "shrink") (toy_keys "hpriv" "hpub") sealed
      (λ h. ground (arith, eq_iff "grow" "")) (λ h. ground (arith, eq_iff "shrink" "grow")) refl

generate-IsFirstOpen_example :
    (p : StrategyProposal) × (rule : ℕ) × (generate toy_runtime
        (λ n. "n")
        (λ n. "p")
        now
        (intent "i1" 5)
        world
        (("entity_id", text "acme") ∷ [])
        []
        []
        1
      ≡ some p)
    × (p.actions ≡ rule_at rule "acme" (("entity_id", text "acme") ∷ []))
    × IsFirstOpen toy_runtime [] 0 rule
    × All (IsMild "acme") p.actions
generate-IsFirstOpen_example =
    generate-IsFirstOpen toy_runtime (λ n. "n") (λ n. "p") now (intent "i1" 5) world
      (("entity_id", text "acme") ∷ []) [] [] 1 "acme" refl

abbrev reconciler : ReconcilerLoop
reconciler =
    new_reconciler
      (record {
        heartbeat_interval_seconds = 60;
        max_retry_budget = 3;
        cooldown_seconds = 300;
        circuit_breaker_threshold = 2;
      })
      none

is_dampened-broken_example :
    is_dampened
      (update_all (fail_all reconciler "acme" (1 ∷ 2 ∷ [])) (("acme", false, 3) ∷ []))
      "acme"
      99
    ≡ true
is_dampened-broken_example =
    is_dampened-broken reconciler "acme" 1 (2 ∷ []) (("acme", false, 3) ∷ []) 99 (omega arith)

abbrev late : DriftEvent
late = record {
  entity_id = "acme";
  intent_id = "i1";
  description = "late";
  severity = 9;
  sla_remaining = 0;
}

abbrev held_result : CgaResult
held_result = record {
  proposals = proposal ∷ [];
  decisions = [];
  accumulated_constraints = [];
  final_verdict = FinalVerdict.integrity_hold;
  approved_proposal = some proposal;
  execution_result = none;
  total_attempts = 1;
  integrity_signals = [];
}

abbrev framing : Framing
framing = record { preferred_option_id = "a"; option_order = "a" ∷ []; favorably_framed = [] }

count_open-apply_all_example :
    (count_open "acme" (apply_all reconciler (attach "e0" framing ∷ [])) ≤ 1)
    × (count_open "acme" (
          settle_drift
            (apply_all reconciler (attach "e0" framing ∷ []))
            "e1"
            "c1"
            "r1"
            late
            held_result
            5)
        ≡ 1)
count_open-apply_all_example =
    count_open-apply_all reconciler.config none (attach "e0" framing ∷ []) "acme" "e1" "c1" "r1"
      late held_result 5 refl

abbrev one_open : ReconcilerLoop
one_open = record reconciler {
  escalation_queue = escalation_of "e1" "c1" "r1" late held_result 5 ∷ [];
}

resolve_escalation_lem_example :
    ((found : Escalation) × (e : Escalation) × Member found one_open.escalation_queue
      × (found.id ≡ "e1")
      × (is_open found.status ≡ true)
      × ((resolving one_open "e1" "approve" "ann" none 6).0 ≡ some e)
      × (e ≡ close one_open "e1" "approve" "ann" none 6 found)
      × (e.id ≡ "e1")
      × (e.status ≡ "resolved")
      × (e.resolved_by ≡ some "ann")
      × (length (open_escalations (resolving one_open "e1" "approve" "ann" none 6).1) + 1
          ≡ length (open_escalations one_open)))
    ⊎ ((resolving one_open "e1" "approve" "ann" none 6 ≡ (none, one_open))
        × (any (is_sought one_open "e1" "approve" "ann" none 6) one_open.escalation_queue ≡ false))
resolve_escalation_lem_example = resolve_escalation_lem one_open "e1" "approve" "ann" none 6

-- Reads every objective as an SLA of ten minutes, and every moment as 0.
abbrev sla_runtime : Runtime
sla_runtime = record toy_runtime { find_minutes = λ s. some 10; fromisoformat = λ s. some (some 0) }

abbrev waiting : EntityState
waiting = record acme { properties = ("created_at", text "then") ∷ []; obligations = "i1" ∷ [] }

abbrev waited : DriftEvent
waited = record {
  entity_id = "acme";
  intent_id = "i1";
  description = "late";
  severity = 10;
  sla_remaining = 0;
}

overdue :
    check_sla_drift sla_runtime (λ n. "late") waiting (intent "i1" 5 ∷ []) 600000000
    ≡ some (some waited)
unfolding check_sla_drift sla_drift_among obligation_drift extract_sla_minutes waiting_since
    sla_event truthy
overdue = refl

check_sla_drift-IsDue_example : IsDue sla_runtime waiting (intent "i1" 5 ∷ []) 600000000 waited
check_sla_drift-IsDue_example =
    check_sla_drift-IsDue sla_runtime (λ n. "late") waiting (intent "i1" 5 ∷ []) 600000000 waited
      overdue

-- ===== src/CgaLoop/State.antt =====
-- The state, the inputs and the results of the loop of autonomy (strategy/cga_loop.py). The clock is
-- read once in a run; the ids of new decisions are an argument, by the attempt.
use general_autonomy_protoco.Prelude.{◌||◌, get_or, ℕ, String, Bool, Option, none, List, [], ◌∷◌}
use general_autonomy_protoco.Prelude.Dict.{Dict}
use general_autonomy_protoco.Models.{
  Value, IntentVector, StrategyProposal, WorldModel, GovernanceDecision,
}
use general_autonomy_protoco.KillSwitch.{KillSwitch}
use general_autonomy_protoco.Policy.{GovernanceKernel}
use general_autonomy_protoco.Fabric.{Fabric, ExecutionError, ExecutionResult}
use general_autonomy_protoco.Monitor.{IntegritySignal, IntegrityMonitor}
use general_autonomy_protoco.SelfEvolution.{SelfEvolutionMonitor}
use general_autonomy_protoco.Classifier.{ActionTypeClassifier}
use general_autonomy_protoco.Resolver.{IntentDeclaration, StandingIntentDeclaration}
use general_autonomy_protoco.Strategy.{Generator, AccumulatedConstraint}

pub record CgaLoop : Type 0 where
  pub governance : GovernanceKernel
  pub execution : Fabric
  pub strategy_gen : Generator
  pub max_attempts : ℕ
  -- The identity of the resolver's system.
  pub system_identity : String
  pub integrity_monitor : Option IntegrityMonitor
  pub self_evolution_monitor : Option SelfEvolutionMonitor
  pub action_type_classifier : Option ActionTypeClassifier
  pub governed : Bool
  pub block_on_integrity : Bool
  pub kill_switch : Option KillSwitch

-- `CGALoop.__init__`, of its arguments as a record of the same fields: a governed loop blocks on
-- integrity.
unfoldable pub new_loop : CgaLoop → CgaLoop
new_loop arguments = record arguments {
  block_on_integrity = arguments.block_on_integrity || arguments.governed;
}

pub data FinalVerdict : Type 0 where
  halted awaiting_intent_confirmation integrity_hold awaiting_approval : FinalVerdict
  -- `executed` is "approved" in the source.
  executed escalated : FinalVerdict

-- The echo of the arguments, and `escalated`, which is a test of the verdict, are left out.
pub record CgaResult : Type 0 where
  pub proposals : List StrategyProposal
  pub decisions : List GovernanceDecision
  pub accumulated_constraints : List AccumulatedConstraint
  pub final_verdict : FinalVerdict
  pub approved_proposal : Option StrategyProposal
  pub execution_result : Option ExecutionResult
  pub total_attempts : ℕ
  pub integrity_signals : List IntegritySignal

pub data CgaError : Type 0 where
  ungoverned : CgaError
  -- The look for a halt raised.
  halt_check_failed : CgaError
  -- The generator, the kernel or a detector raised.
  generation_failed evaluation_failed detection_failed : CgaError
  execution_failed : ExecutionError → CgaError

-- What a run returns or raises.
pub data Outcome : Type 0 where
  finished : CgaResult → Outcome
  raised : CgaError → Outcome

-- The arguments of `run`, with the clock and the ids.
pub record RunInput : Type 0 where
  pub intent : IntentVector
  pub drift_event : Dict Value
  pub world_state : WorldModel
  pub given_intents : Option (List IntentVector)
  pub intent_declaration : Option IntentDeclaration
  pub standing : Option StandingIntentDeclaration
  pub action_type_id : Option String
  pub now : ℕ
  pub decision_id : ℕ → String

abbrev pub intents_of : RunInput → List IntentVector
intents_of i = get_or i.given_intents (i.intent ∷ [])

-- The variables of the loop.
pub record Progress : Type 0 where
  pub proposals : List StrategyProposal
  pub decisions : List GovernanceDecision
  pub accumulated : List AccumulatedConstraint
  pub attempt : ℕ

-- A round ends the run, or the loop goes on.
pub data Round : Type 0 where
  stop : Outcome → CgaLoop → Round
  again : Progress → CgaLoop → Round

abbrev pub fresh_progress : Progress
fresh_progress = record { proposals = []; decisions = []; accumulated = []; attempt = 0 }

-- A run that never enters the loop.
abbrev pub refused_run : FinalVerdict → CgaResult
refused_run verdict = record {
  proposals = [];
  decisions = [];
  accumulated_constraints = [];
  final_verdict = verdict;
  approved_proposal = none;
  execution_result = none;
  total_attempts = 0;
  integrity_signals = [];
}

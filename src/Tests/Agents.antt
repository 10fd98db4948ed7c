-- ===== src/Tests/Agents.antt =====
-- The theorems on the delegation tree and the executor of sub-agents at a sample registry.
use general_autonomy_protoco.Prelude.{
  All, ◌≡◌, refl, inl, inr, true, false, Option, none, some, [], ◌∷◌, arith,
}
use general_autonomy_protoco.Models.{AuthorizationLevel, l1, l2, l3, l4, rank, GovernanceDecision}
use general_autonomy_protoco.KillSwitch.{KillSwitch, engage}
use general_autonomy_protoco.Registry.{
  SubAgentRecord, ActionObservation, SubAgentRegistry, RegistryError, Registration, new_registry,
  register, get, ceiling_for, constraints_for, authorize, chain_from, ancestors, is_halted,
  record_action, DecompositionSignal, newest, distinct_agents, low_actions, band_of,
  check_cross_agent_decomposition, already_registered, unknown_parent, amplified, registered,
  violation,
}
use general_autonomy_protoco.Samples.{toy_runtime, toy_crypto, now, proposal, fabric}
use general_autonomy_protoco.Registry
use general_autonomy_protoco.Registry.Tree.{IsTree, register_all, register_all-IsTree}
use general_autonomy_protoco.Registry.Halts.{is_halted-engage}
use general_autonomy_protoco.Fabric.Guards.{IsAuthorized}
use general_autonomy_protoco.Fabric.Runs.{human_decision, sent, executed}
use general_autonomy_protoco.SubAgent
use general_autonomy_protoco.SubAgent.{
  SubAgentExecutor, SubAgentError, above_ceiling, done, refused, check_agent, record_completed,
}
use general_autonomy_protoco.SubAgent.Bounds.{execute-authorize, execute_refused_unchanged}

abbrev root : SubAgentRecord
root = record {
  agent_id = "root";
  parent_id = none;
  authorization_ceiling = l3;
  inherited_constraints = "c0" ∷ [];
  depth = 0;
}

abbrev child : SubAgentRecord
child = record {
  agent_id = "child";
  parent_id = some "root";
  authorization_ceiling = l2;
  inherited_constraints = "c0" ∷ "c1" ∷ [];
  depth = 1;
}

abbrev registry : SubAgentRegistry
registry = record {
  agents = ("root", root) ∷ [];
  kill_switch = none;
  actions_by_target =
      (
        "acme",
        record { agent_id = "root"; target = "acme"; observed_rank = 0; at = 10 }
            ∷ record { agent_id = "child"; target = "acme"; observed_rank = 1; at = 12 }
            ∷ [],
      )
      ∷ [];
  decomposition_window = 300000000;
  decomposition_count_threshold = 2;
  decomposition_max_rank = 1;
  root_id = "root";
}

abbrev grown : SubAgentRegistry
grown = record registry { agents = ("root", root) ∷ ("child", child) ∷ [] }

register_all-IsTree_example :
    IsTree
      (register_all
        (new_registry "root" l3 [] none 300 3 l1)
        (("a", "root", some l4, []) ∷ ("b", "root", none, "c" ∷ []) ∷ [])).agents
register_all-IsTree_example =
    register_all-IsTree "root" l3 [] none 300 3 l1
      (("a", "root", some l4, []) ∷ ("b", "root", none, "c" ∷ []) ∷ [])

grown-IsTree : IsTree grown.agents
unfolding rank
grown-IsTree = (
  inl (refl, refl),
  (
    inr (
      "root",
      root,
      refl,
      refl,
      refl,
      record { ceiling = omega arith; constraints = (refl, tt) },
    ),
    tt,
  ),
)

child_chain :
    (s : Option KillSwitch)
    → ancestors (record grown { kill_switch = s }) "child" ≡ some ("root" ∷ [])
unfolding ancestors get
child_chain s = refl

abbrev calm : KillSwitch
calm = record { engaged = []; log = [] }

abbrev stopped : SubAgentRegistry
stopped = record grown { kill_switch = some (engage calm "root" "test" "ann" now) }

is_halted-engage_example : Registry.is_halted stopped "child" ≡ some true
is_halted-engage_example =
    is_halted-engage stopped calm "root" "child" "test" "ann" now ("root" ∷ []) refl
      (child_chain (some (engage calm "root" "test" "ann" now))) (inr (inl refl))

abbrev executor : SubAgentExecutor
executor = record { registry = grown; fabric = fabric }

execution :
    (SubAgent.execute toy_crypto toy_runtime executor "child" proposal human_decision now).0
    ≡ done sent
unfolding SubAgent.execute check_agent Registry.is_halted authorize rank record_completed
    record_action get
execution = rw executed refl

execute-authorize_example :
    (Registry.is_halted grown "child" ≡ some false)
    × ((level : AuthorizationLevel) × (human_decision.authorization_level ≡ some level)
        × All (λ a. authorize grown a level ≡ some true) ("child" ∷ "root" ∷ []))
    × IsAuthorized toy_crypto fabric proposal human_decision now
execute-authorize_example =
    execute-authorize toy_crypto toy_runtime executor "child" proposal human_decision now
      ("root" ∷ []) sent grown-IsTree (child_chain none) execution

-- A decision at L3, above the child's ceiling.
abbrev high_decision : GovernanceDecision
high_decision = record human_decision {
  ruling = record human_decision.ruling { authorization_level = some l3 };
}

refused_high :
    (SubAgent.execute toy_crypto toy_runtime executor "child" proposal high_decision now).0
    ≡ refused above_ceiling
unfolding SubAgent.execute check_agent Registry.is_halted authorize rank
refused_high = refl

execute_refused_unchanged_example :
    (SubAgent.execute toy_crypto toy_runtime executor "child" proposal high_decision now).1
    ≡ executor
execute_refused_unchanged_example =
    execute_refused_unchanged toy_crypto toy_runtime executor "child" proposal high_decision now
      above_ceiling refused_high

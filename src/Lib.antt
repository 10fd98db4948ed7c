-- ===== src/Lib.antt =====
-- The governance core of the General Autonomy Protocol (gap_kernel/), a kernel that rules on the
-- proposals of an autonomous agent and a fabric that executes what the kernel approves.
--
-- A proposal (gap_kernel/models/strategy.py) goes to the Governance Kernel
-- (gap_kernel/governance/kernel.py), which checks it against the constraints in force, gives it an
-- authorization level, and signs a decision. The Execution Fabric (gap_kernel/execution/fabric.py)
-- takes the proposal with the decision; its guards check the kill-switch, the binding of the two,
-- the kernel's signature, the verdict, and at L2 and above a human's approval; then it dispatches
-- the actions and spends the approval.
--
-- The files and the code:
--   Prelude: helpers on lists, options, dictionaries and integers, and the library names in use.
--   Models: the data of gap_kernel/models/{governance,intent,strategy,world}.py, the host's functions
--     (Runtime) and the signatures and dumps (Crypto).
--   Risk: gap_kernel/governance/dynamic_risk.py.
--   Evaluators: the constraint evaluators of gap_kernel/governance/kernel.py.
--   Profile: gap_kernel/governance/profile.py, the signed regulatory floor.
--   Policy: GovernanceKernel.__init__, the registry of action types, _get_active_constraints and the
--     two lists of violations.
--   Kernel: evaluate_proposal and _evaluate with the steps in the code's order: action_type_gate,
--     rule_on_constraints, rule_level, conflict_unresolvable, run_phases, finish.
--   KillSwitch: gap_kernel/governance/corrigibility.py.
--   Ledger: gap_kernel/verification/oob_ledger.py.
--   Fabric: ExecutionFabric.execute: guards, dispatch_all, conclude.
--   Registry: SubAgentRegistry of gap_kernel/governance/multi_agent.py.
--   SubAgent: gap_kernel/execution/sub_agent_executor.py, the registry's bounds before the fabric.
--   Lineage: the chain of gap_kernel/lineage/store.py; its canonical dump is a parameter.
--   Strategy: the rule-based generator of gap_kernel/strategy/cga_loop.py.
--   CgaLoop: CGALoop of gap_kernel/strategy/cga_loop.py: its gate, the rounds of generation, ruling
--     and dispatch, the integrity hold, and approve_and_execute. It composes Strategy (or any other
--     generator), Kernel, Fabric, Monitor, SelfEvolution, Classifier and Resolver. Its state is in
--     CgaLoop/State, what holds it in CgaLoop/Holds, and its calls one after another in
--     CgaLoop/Spent.
--   Monitor: gap_kernel/governance/integrity_monitor.py; its detectors are in Monitor/Detectors.
--   SelfEvolution: gap_kernel/governance/self_evolution.py.
--   Classifier: gap_kernel/governance/action_classifier.py.
--   Resolver: gap_kernel/governance/sir.py and gap_kernel/models/sir.py.
--   Reconciler: the watcher, the dampening and the queue of gap_kernel/reconciler/loop.py.
--   Review: gap_kernel/governance/independent_review.py.
--   The files in the folders Risk, Evaluators and so on, named for their subjects, hold the theorems
--     on the component of the folder's name.
--   Samples, Kernel/Runs, Fabric/Runs, Tests: concrete data, and the theorems at them.
--
-- How the code is read. A moment is a number of microseconds since 1970 and the clock is read once
-- for each operation; a new decision's id is an argument. A float is a fixed-point number in units
-- of a millionth; a number in a free-form dictionary may also be infinite or NaN, and a conversion of
-- it that overflows raises. What raises in an evaluator is `none`; what the fabric raises is an error
-- of ExecutionError, next to the fabric that is left. An executor is a function of the action and the
-- world that returns a result, or none where it raises, and the world it leaves. The loops are over
-- lists, but for two: the walk from an agent to the root, whose fuel is the depth that the agent's
-- record holds, which is enough in every registry that registrations make; and the loop of attempts,
-- by recursion on the attempts that are left, as the code counts them. The means, rates and
-- thresholds of the monitors are compared exactly, as fractions of whole numbers.
--
-- Parameters: Runtime holds upper-casing, the parsing of numbers, the bound of `float`, the search
-- for a dollar amount, the cron expression, the format and the parsing of a date, lower-casing, and
-- two searches for a duration; Crypto holds Ed25519, SHA-256 and json.dumps. Where a theorem needs
-- that signatures hold, it takes IsKeyPair: what is signed verifies, and nothing else verifies with
-- that signature.
--
-- Not modelled: human-readable texts and evidence of decisions and triggers, the uncertainty
-- declaration, the mock executors, the inference of a meta-intent, the cycle of the reconciler, which
-- also writes the lineage and learns, the storage and transport layers, and the parts of gap_kernel/
-- other than those above.
pub mod Prelude
pub mod Models
pub mod Risk
pub mod Evaluators
pub mod Profile
pub mod Policy
pub mod Kernel
pub mod KillSwitch
pub mod Ledger
pub mod Fabric
pub mod Registry
pub mod SubAgent
pub mod Lineage
pub mod Monitor
pub mod SelfEvolution
pub mod Classifier
pub mod Resolver
pub mod Strategy
pub mod CgaLoop
pub mod Reconciler
pub mod Review
pub mod Samples
pub mod Tests

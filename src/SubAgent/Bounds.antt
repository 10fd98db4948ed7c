-- ===== src/SubAgent/Bounds.antt =====
-- What the executor of sub-agents lets through and what it leaves (execution/sub_agent_executor.py).
use general_autonomy_protoco.Prelude.{
  Option-cases, is_some, get_or, All, ℕ, String, ◌≡◌, refl, sym, ap, ◌∙◌, inl, inr, true, false,
  Option, none, some, List, [], ◌∷◌, arith,
}
use general_autonomy_protoco.Prelude.Dict.{lookup}
use general_autonomy_protoco.Models.{
  Runtime, AuthorizationLevel, l0, StrategyProposal, GovernanceDecision, Crypto,
}
use mathlib.Core.Path.{subst}
use general_autonomy_protoco.Registry
use general_autonomy_protoco.Registry.{
  SubAgentRegistry, get, authorize, ancestors, record_action, with_observation,
}
use general_autonomy_protoco.Registry.Tree.{IsTree, authorize-ancestors}
use general_autonomy_protoco.Fabric
use general_autonomy_protoco.Fabric.{
  Fabric, ExecutionError, ExecutionResult, ActionResult, Result, ok, err,
}
use general_autonomy_protoco.Fabric.Guards.{IsAuthorized, execute-IsAuthorized}
use general_autonomy_protoco.Fabric.Effects.{execute_error_unchanged}
use general_autonomy_protoco.SubAgent.{
  SubAgentExecutor, SubAgentError, done, refused, record_completed, conclude, check_level,
  check_agent, execute,
}

-- Where the registry refuses nothing, the agent is known and not halted, and its ceiling covers the
-- decision's level.
check_level-authorize :
    (x : SubAgentExecutor) (id : String) (l : Option AuthorizationLevel)
    → check_level x id l ≡ none
    → (level : AuthorizationLevel) × (l ≡ some level) × (authorize x.registry id level ≡ some true)
unfolding check_level
check_level-authorize x id none h = ground arith
check_level-authorize x id (some level) h = elim (Option-cases (authorize x.registry id level)) [
  | inl unknown ↦ ground arith
  | inr (true, may) ↦ (level, refl, may)
  | inr (false, may_not) ↦ ground arith
]

check_agent-authorize :
    (x : SubAgentExecutor) (id : String) (d : GovernanceDecision)
    → check_agent x id d ≡ none
    → (Registry.is_halted x.registry id ≡ some false)
      × ((level : AuthorizationLevel) × (d.authorization_level ≡ some level)
          × (authorize x.registry id level ≡ some true))
unfolding check_agent
check_agent-authorize x id d h = elim (Option-cases (Registry.is_halted x.registry id)) [
  | inl unknown ↦ ground arith
  | inr (true, halted) ↦ ground arith
  | inr (false, running) ↦
      (running, check_level-authorize x id d.authorization_level (ground arith))
]

record_action-agents :
    (reg : SubAgentRegistry) (id target : String) (level : AuthorizationLevel) (now : ℕ)
    → is_some (get reg id) ≡ true
    → (reg' : SubAgentRegistry) × (record_action reg id target level now ≡ some reg')
      × (reg'.agents ≡ reg.agents)
unfolding record_action
record_action-agents reg id target level now h = elim (Option-cases (get reg id)) [
  | inl unknown ↦ ground arith
  | inr (r, found) ↦
      (with_observation reg id target level now, rw (found, record_action) refl, refl)
]

record_completed-total :
    (reg : SubAgentRegistry) (id : String) (level : AuthorizationLevel) (now : ℕ)
    (actions : List ActionResult)
    → is_some (get reg id) ≡ true
    → is_some (record_completed reg id level now actions) ≡ true
unfolding record_completed get
record_completed-total reg id level now [] h = refl
record_completed-total reg id level now (a ∷ rest) h =
    let (reg', recorded, same) = record_action-agents reg id a.target level now h in
    rw (recorded, record_completed)
      (record_completed-total reg' id level now rest
        (subst (λ agents. is_some (lookup id agents) ≡ true) (sym same) h))

module _ (C : Crypto) (R : Runtime) (x : SubAgentExecutor) (id : String) (p : StrategyProposal)
    (d : GovernanceDecision) (now : ℕ) where
  conclude-ok :
      (level : AuthorizationLevel) (a : Result ExecutionResult × Fabric) (r : ExecutionResult)
      → (conclude x id level now a).0 ≡ done r
      → a.0 ≡ ok r
  unfolding conclude
  conclude-ok level (err e, f) r h = ground arith
  conclude-ok level (ok r', f) r h = ground arith

  -- A sub-agent's execution that returns a result, under a registry that is a tree, was allowed by
  -- the agent and by every ancestor at the decision's level, was not halted, and was authorized by
  -- the guards of the fabric.
  pub execute-authorize :
      (chain : List String) (r : ExecutionResult)
      → IsTree x.registry.agents
      → ancestors x.registry id ≡ some chain
      → (execute C R x id p d now).0 ≡ done r
      → (Registry.is_halted x.registry id ≡ some false)
        × ((level : AuthorizationLevel) × (d.authorization_level ≡ some level)
            × All (λ a. authorize x.registry a level ≡ some true) (id ∷ chain))
        × IsAuthorized C x.fabric p d now
  unfolding execute
  execute-authorize chain r tree computed h = elim (Option-cases (check_agent x id d)) [
    | inr (e, stopped) ↦ ground arith
    | inl clear ↦
        let (running, (level, has, may)) = check_agent-authorize x id d clear in
        let concluded : (conclude x id (get_or d.authorization_level l0) now
              (Fabric.execute C R x.fabric p d now)).0
            ≡ done r =
          ground arith in
        let returned =
          conclude-ok (get_or d.authorization_level l0) (Fabric.execute C R x.fabric p d now) r
            concluded in
        (
          running,
          (level, has, (may, authorize-ancestors x.registry id level chain tree may computed)),
          execute-IsAuthorized C R x.fabric p d now r returned,
        )
  ]

  conclude-refused :
      (level : AuthorizationLevel) (a : Result ExecutionResult × Fabric) (e : SubAgentError)
      → is_some (get x.registry id) ≡ true
      → (conclude x id level now a).0 ≡ refused e
      → (e' : ExecutionError) × (a.0 ≡ err e')
        × ((conclude x id level now a).1 ≡ record x { fabric = a.1 })
  unfolding conclude
  conclude-refused level (err e', f) e known h = (e', refl, refl)
  conclude-refused level (ok r, f) e known h =
      let total = record_completed-total x.registry id level now r.actions_completed known in
      elim (Option-cases (record_completed x.registry id level now r.actions_completed)) [
        | inl lost ↦ ground arith
        | inr (reg, recorded) ↦ ground arith
      ]

  known_of :
      (level : AuthorizationLevel)
      → authorize x.registry id level ≡ some true
      → is_some (get x.registry id) ≡ true
  unfolding authorize
  known_of level h = elim (Option-cases (get x.registry id)) [
    | inl unknown ↦ ground arith
    | inr (r, found) ↦ ground arith
  ]

  -- A sub-agent's execution that is refused, by the registry or by the fabric, leaves the registry
  -- and the fabric as they were.
  pub execute_refused_unchanged :
      (e : SubAgentError)
      → (execute C R x id p d now).0 ≡ refused e
      → (execute C R x id p d now).1 ≡ x
  unfolding execute
  execute_refused_unchanged e h = elim (Option-cases (check_agent x id d)) [
    | inr (e', stopped) ↦ rw (stopped, execute) refl
    | inl clear ↦
        let (running, (level, has, may)) = check_agent-authorize x id d clear in
        let done_by = Fabric.execute C R x.fabric p d now in
        let concluded : (conclude x id (get_or d.authorization_level l0) now done_by).0
            ≡ refused e =
          ground arith in
        let (e', raised, left) =
          conclude-refused (get_or d.authorization_level l0) done_by e (known_of level may)
            concluded in
        let same : done_by.1 ≡ x.fabric = execute_error_unchanged C R x.fabric p d now e' raised in
        rw (clear, execute) (left ∙ ap (λ f. record x { fabric = f }) same)
  ]

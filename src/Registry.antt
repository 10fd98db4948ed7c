-- ===== src/Registry.antt =====
-- The delegation tree of sub-agents (governance/multi_agent.py, `SubAgentRegistry`). A set of
-- constraints is a list, of which the code asks for membership only.
pub mod Tree
pub mod Halts
use Prim.Native.Nat.{max}
use general_autonomy_protoco.Prelude.{
  ltb, leb, eqb, if◌then◌else◌, Bool-cases, Option-cases, is_some, get_or, ◌>>=◌, >>=-eq-some,
  length, is_empty, any, select, find, last?, length-append, any-append, Member, All, All-append,
  All-map, All-prefix, All-suffix, contains, ℕ, zero, suc, ◌+◌, ◌-◌, ◌*◌, ◌/◌, ◌%◌, ◌≤◌, ◌<◌,
  String, ◌≡◌, refl, sym, ap, ◌∙◌, ◌≢◌, ◌↔◌, ◌⊎◌, inl, inr, Bool, true, false, ◌&&◌, ◌||◌, not,
  Option, none, some, List, [], ◌∷◌, ◌++◌, map, arith, ◌==◌, eq_iff, eq_refl,
}
use general_autonomy_protoco.Prelude.Dict.{
  Dict, lookup, has_key, insert, remove, values, lookup-insert, lookup-remove,
}
use general_autonomy_protoco.Prelude.Int.{ℤ, pos, negsuc, pos_part, neg_part, ltb_ℤ, leb_ℤ}
use general_autonomy_protoco.Models.{
  Value, null, flag, num, text, sequence, table, Fields, end, field, to_dict, of_dict, unit, truthy,
  is_set, is_given, truncate, of_flag, Runtime, to_float, to_int, GovernanceVerdict, approved,
  rejected, escalate, AuthorizationLevel, l0, l1, l2, l3, l4, rank, level_name, needs_oob,
  satisfies_auth, max_auth, AuthorizationTier, auto_execute, notify_proceed, require_approval,
  escalate_tier, max_auth_bounds, rank-injective, needs_oob-rank, ConstraintType, hard, soft,
  PolicyTier, regulatory_floor, org_policy, operational, PolicyActivation, Constraint, IntentVector,
  PlannedAction, StrategyProposal, EntityState, WorldModel, ProposalContent, content, PhaseConfig,
  RiskProfile, ActionTypeSpec, GovernancePhaseResult, PolicySnapshot, TemporalContext, Ruling,
  GovernanceDecision, OobMessage, ProfilePayload, Crypto, compute_proposal_digest,
  canonical_decision_payload, IsKeyPair,
}
use general_autonomy_protoco.KillSwitch.{
  KillSwitch, engage, is_engaged, is_engaged_globally, global_scope,
}

pub record SubAgentRecord : Type 0 where
  pub agent_id : String
  pub parent_id : Option String
  pub authorization_ceiling : AuthorizationLevel
  pub inherited_constraints : List String
  pub depth : ℕ

pub record ActionObservation : Type 0 where
  pub agent_id : String
  pub target : String
  pub observed_rank : ℕ
  pub at : ℕ

pub record SubAgentRegistry : Type 0 where
  pub agents : Dict SubAgentRecord
  pub kill_switch : Option KillSwitch
  pub actions_by_target : Dict (List ActionObservation)
  -- In microseconds.
  pub decomposition_window : ℕ
  pub decomposition_count_threshold : ℕ
  pub decomposition_max_rank : ℕ
  pub root_id : String

-- `SubAgentViolation`
pub data RegistryError : Type 0 where
  already_registered unknown_parent amplified : RegistryError

pub data Registration : Type 0 where
  registered : SubAgentRecord → SubAgentRegistry → Registration
  violation : RegistryError → Registration

-- `SubAgentRegistry.__init__`, the window in seconds.
unfoldable pub new_registry :
    String
    → AuthorizationLevel
    → List String
    → Option KillSwitch
    → ℕ
    → ℕ
    → AuthorizationLevel
    → SubAgentRegistry
new_registry root_id root_ceiling root_constraints kill_switch window threshold max_level = record {
  agents =
      (
        root_id,
        record {
          agent_id = root_id;
          parent_id = none;
          authorization_ceiling = root_ceiling;
          inherited_constraints = root_constraints;
          depth = 0;
        },
      )
      ∷ [];
  kill_switch = kill_switch;
  actions_by_target = [];
  decomposition_window = window * unit;
  decomposition_count_threshold = threshold;
  decomposition_max_rank = rank max_level;
  root_id = root_id;
}

abbrev child_of :
    String → String → SubAgentRecord → AuthorizationLevel → List String → SubAgentRecord
child_of agent_id parent_id parent ceiling added_constraints = record {
  agent_id = agent_id;
  parent_id = some parent_id;
  authorization_ceiling = ceiling;
  inherited_constraints = parent.inherited_constraints ++ added_constraints;
  depth = parent.depth + 1;
}

register_under :
    SubAgentRegistry
    → String
    → String
    → SubAgentRecord
    → AuthorizationLevel
    → List String
    → Registration
register_under reg agent_id parent_id parent ceiling added_constraints =
    if ltb (rank parent.authorization_ceiling) (rank ceiling)
    then violation amplified
    else let child = child_of agent_id parent_id parent ceiling added_constraints in
      registered child (record reg { agents = insert agent_id child reg.agents })

unfoldable pub register :
    SubAgentRegistry → String → String → Option AuthorizationLevel → List String → Registration
unfolding register_under
register reg agent_id parent_id requested_ceiling added_constraints =
    if has_key agent_id reg.agents
    then violation already_registered
    else elim (lookup parent_id reg.agents) [
      | none ↦ violation unknown_parent
      | some parent ↦
          register_under reg agent_id parent_id parent
            (get_or requested_ceiling parent.authorization_ceiling) added_constraints
    ]

-- `none` is the violation of an unknown agent, here and below.
unfoldable pub get : SubAgentRegistry → String → Option SubAgentRecord
get reg agent_id = lookup agent_id reg.agents

unfoldable pub ceiling_for : SubAgentRegistry → String → Option AuthorizationLevel
unfolding get
ceiling_for reg agent_id = get reg agent_id >>= λ r. some r.authorization_ceiling

unfoldable pub constraints_for : SubAgentRegistry → String → Option (List String)
unfolding get
constraints_for reg agent_id = get reg agent_id >>= λ r. some r.inherited_constraints

unfoldable pub authorize : SubAgentRegistry → String → AuthorizationLevel → Option Bool
unfolding ceiling_for
authorize reg agent_id required_level =
    ceiling_for reg agent_id >>= λ ceiling. some (leb (rank required_level) (rank ceiling))

-- The `while` of `ancestors`, on fuel.
unfoldable pub chain_from : Dict SubAgentRecord → ℕ → Option String → Option (List String)
chain_from agents fuel none = some []
chain_from agents zero (some current) = none
chain_from agents (suc fuel) (some current) = elim (lookup current agents) [
  | none ↦ none
  | some r ↦ chain_from agents fuel r.parent_id >>= λ rest. some (current ∷ rest)
]

-- The agent's depth in the tree is the fuel.
unfoldable pub ancestors : SubAgentRegistry → String → Option (List String)
unfolding get chain_from
ancestors reg agent_id = get reg agent_id >>= λ r. chain_from reg.agents r.depth r.parent_id

unfoldable pub is_halted : SubAgentRegistry → String → Option Bool
unfolding is_engaged_globally
is_halted reg agent_id = elim reg.kill_switch [
  | none ↦ some false
  | some s ↦
      if is_engaged_globally s
      then some true
      else if is_engaged s agent_id
      then some true
      else ancestors reg agent_id >>= λ chain. some (any (is_engaged s) chain)
]

-- The registry with one more observation of the target.
abbrev pub with_observation :
    SubAgentRegistry → String → String → AuthorizationLevel → ℕ → SubAgentRegistry
with_observation reg agent_id target authorization_level now = record reg {
  actions_by_target =
      insert target
        (get_or (lookup target reg.actions_by_target) []
          ++ record {
            agent_id = agent_id;
            target = target;
            observed_rank = rank authorization_level;
            at = now;
          }
            ∷ [])
        reg.actions_by_target;
}

unfoldable pub record_action :
    SubAgentRegistry → String → String → AuthorizationLevel → ℕ → Option SubAgentRegistry
unfolding get
record_action reg agent_id target authorization_level now =
    get reg agent_id >>= λ r. some (with_observation reg agent_id target authorization_level now)

-- What the signal says: how many actions, and of which agents.
pub record DecompositionSignal : Type 0 where
  pub subject : String
  pub action_count : ℕ
  pub agents : List String

-- The latest moment: `sorted(..., key=at)[-1].at`.
unfoldable pub newest : List ActionObservation → ℕ
newest [] = 0
newest (o ∷ rest) = max o.at (newest rest)

-- `{o.agent_id for o in band}`
unfoldable pub distinct_agents : List ActionObservation → List String
distinct_agents [] = []
distinct_agents (o ∷ rest) =
    let agents = distinct_agents rest in
    if contains agents o.agent_id then agents else o.agent_id ∷ agents

unfoldable pub low_actions : SubAgentRegistry → String → List ActionObservation
low_actions reg target =
    select (λ o. leb o.observed_rank reg.decomposition_max_rank)
      (get_or (lookup target reg.actions_by_target) [])

unfoldable pub band_of : SubAgentRegistry → List ActionObservation → List ActionObservation
band_of reg low = select (λ o. leb (newest low - o.at) reg.decomposition_window) low

-- The outer `none` is the IndexError of `low[-1]`, which a threshold of 0 makes possible.
unfoldable pub check_cross_agent_decomposition :
    SubAgentRegistry → String → Option (Option DecompositionSignal)
unfolding low_actions band_of distinct_agents
check_cross_agent_decomposition reg target =
    let low = low_actions reg target in
    let band = band_of reg low in
    let agents = distinct_agents band in
    if ltb (length low) reg.decomposition_count_threshold
    then some none
    else if is_empty low
    then none
    else if leb reg.decomposition_count_threshold (length band) && leb 2 (length agents)
    then some (some (record { subject = target; action_count = length band; agents = agents }))
    else some none

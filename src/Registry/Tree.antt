-- ===== src/Registry/Tree.antt =====
-- The shape of the delegation tree: parents, ceilings and constraints (governance/multi_agent.py,
-- `register`, `ancestors` and `authorize`).
use general_autonomy_protoco.Prelude.{
  ltb, Bool-cases, Option-cases, get_or, length, All, All-map, contains, ℕ, zero, suc, ◌+◌, ◌≤◌,
  String, ◌≡◌, refl, ◌⊎◌, inl, inr, true, false, Option, none, some, List, [], ◌∷◌, ◌++◌, arith,
  ◌==◌, eq_iff, eq_refl,
}
use general_autonomy_protoco.Prelude.Dict.{Dict, lookup, has_key, insert, lookup-insert}
use general_autonomy_protoco.Models.{AuthorizationLevel, rank}
use general_autonomy_protoco.KillSwitch.{KillSwitch}
use general_autonomy_protoco.Registry.{
  SubAgentRecord, SubAgentRegistry, Registration, new_registry, register_under, child_of, register,
  get, authorize, chain_from, ancestors, registered, violation,
}
use mathlib.Core.Path.{subst, subst₂}
use general_autonomy_protoco.Prelude.Dict.{lookup-All}

-- Every constraint of the first list is on the second.
abbrev pub Keeps : List String → List String → Type 0
Keeps inherited own = All (λ c. contains own c ≡ true) inherited

-- An agent under another one: with no more authority, with all its constraints.
pub record IsUnder (r q : SubAgentRecord) : Type 0 where
  pub ceiling : rank r.authorization_ceiling ≤ rank q.authorization_ceiling
  pub constraints : Keeps q.inherited_constraints r.inherited_constraints

-- An agent is a root, or under its parent and one deeper.
abbrev pub IsDelegated : Dict SubAgentRecord → SubAgentRecord → Type 0
IsDelegated agents r =
    ((r.parent_id ≡ none) × (r.depth ≡ 0))
    ⊎ ((parent_id : String) × (q : SubAgentRecord) × (r.parent_id ≡ some parent_id)
        × (lookup parent_id agents ≡ some q)
        × (r.depth ≡ q.depth + 1)
        × IsUnder r q)

abbrev pub IsTree : Dict SubAgentRecord → Type 0
IsTree agents = All (λ (entry : String × SubAgentRecord). IsDelegated agents entry.1) agents

contains-append :
    (xs ys : List String) (s : String) → contains xs s ≡ true → contains (xs ++ ys) s ≡ true
contains-append [] ys s h = ground arith
contains-append (x ∷ xs) ys s h = ground (arith, contains-append xs ys s)

contains-here : (xs : List String) → Keeps xs xs
contains-here [] = tt
contains-here (x ∷ xs) =
    (ground (arith, eq_refl x), All-map (λ c h. ground arith) xs (contains-here xs))

Keeps-append : (xs ys : List String) → Keeps xs (xs ++ ys)
Keeps-append xs ys = All-map (λ c. contains-append xs ys c) xs (contains-here xs)

contains-Keeps :
    (xs ys : List String) (c : String) → Keeps xs ys → contains xs c ≡ true → contains ys c ≡ true
contains-Keeps [] ys c k h = ground arith
contains-Keeps (x ∷ xs) ys c k h = ground (arith, k.0, eq_iff x c, contains-Keeps xs ys c k.1)

IsUnder-trans : {r q p : SubAgentRecord} → IsUnder r q → IsUnder q p → IsUnder r p
IsUnder-trans {r} {q} {p} a b = record {
  ceiling = omega (arith, a.ceiling, b.ceiling);
  constraints =
      All-map (λ c. contains-Keeps q.inherited_constraints r.inherited_constraints c a.constraints)
        p.inherited_constraints b.constraints;
}

-- A new entry leaves what is found of the old ones.
lookup-new :
    (id : String) (child : SubAgentRecord) (agents : Dict SubAgentRecord) (j : String)
    {q : SubAgentRecord}
    → has_key id agents ≡ false
    → lookup j agents ≡ some q
    → lookup j (insert id child agents) ≡ some q
lookup-new id child agents j fresh found =
    ground (arith, lookup-insert id j child agents, eq_iff id j)

IsDelegated-new :
    (id : String) (child : SubAgentRecord) (agents : Dict SubAgentRecord) (r : SubAgentRecord)
    → has_key id agents ≡ false
    → IsDelegated agents r
    → IsDelegated (insert id child agents) r
IsDelegated-new id child agents r fresh (inl root) = inl root
IsDelegated-new id child agents r fresh (inr (pid, q, e, found, d, under)) =
    inr (pid, q, e, lookup-new id child agents pid fresh found, d, under)

All-insert :
    (P : SubAgentRecord → Type 0) (id : String) (child : SubAgentRecord)
    (agents : Dict SubAgentRecord)
    → P child
    → All (λ (entry : String × SubAgentRecord). P entry.1) agents
    → All (λ (entry : String × SubAgentRecord). P entry.1) (insert id child agents)
All-insert P id child [] new old = (new, tt)
All-insert P id child ((j, w) ∷ agents) new old = elim (Bool-cases (j == id)) [
  | inl same ↦ rw same (new, old.1)
  | inr other ↦ rw other (old.0, All-insert P id child agents new old.1)
]

-- A registry begins as a tree.
new_registry-IsTree :
    (id : String) (ceiling : AuthorizationLevel) (constraints : List String) (s : Option KillSwitch)
    (window threshold : ℕ) (max_level : AuthorizationLevel)
    → IsTree (new_registry id ceiling constraints s window threshold max_level).agents
unfolding new_registry
new_registry-IsTree id ceiling constraints s window threshold max_level = (inl (refl, refl), tt)

register_under-IsTree :
    (reg : SubAgentRegistry) (id pid : String) (parent : SubAgentRecord)
    (ceiling : AuthorizationLevel) (added : List String) {r : SubAgentRecord}
    {reg' : SubAgentRegistry}
    → IsTree reg.agents
    → has_key id reg.agents ≡ false
    → lookup pid reg.agents ≡ some parent
    → register_under reg id pid parent ceiling added ≡ registered r reg'
    → IsTree reg'.agents
      × (lookup id reg'.agents ≡ some r)
      × (r.parent_id ≡ some pid)
      × IsUnder r parent
unfolding register_under
register_under-IsTree reg id pid parent ceiling added {r} {reg'} tree fresh found h =
    elim (Bool-cases (ltb (rank parent.authorization_ceiling) (rank ceiling))) [
      | inl above ↦ ground arith
      | inr within ↦
          let child = child_of id pid parent ceiling added in
          let under : IsUnder child parent = record {
            ceiling = ground arith;
            constraints = Keeps-append parent.inherited_constraints added;
          } in
          let placed : IsDelegated (insert id child reg.agents) child =
            inr (pid, parent, refl, lookup-new id child reg.agents pid fresh found, refl, under) in
          let old =
            All-map
              (λ (entry : String × SubAgentRecord) d.
                IsDelegated-new id child reg.agents entry.1 fresh d)
              reg.agents tree in
          let same_record : child ≡ r = ground arith in
          let same_agents : insert id child reg.agents ≡ reg'.agents = ground arith in
          subst₂
            (λ (x : SubAgentRecord) (agents : Dict SubAgentRecord).
              IsTree agents
              × (lookup id agents ≡ some x)
              × (x.parent_id ≡ some pid)
              × IsUnder x parent)
            same_record same_agents
            (
              All-insert (IsDelegated (insert id child reg.agents)) id child reg.agents placed old,
              ground (arith, lookup-insert id id child reg.agents, eq_refl id),
              refl,
              under,
            )
    ]

-- A registration that succeeds keeps the tree, and the new agent stands in it under its parent,
-- with no more authority than the parent and with all its constraints.
pub register-IsTree :
    (reg : SubAgentRegistry) (id pid : String) (requested : Option AuthorizationLevel)
    (added : List String) {r : SubAgentRecord} {reg' : SubAgentRegistry}
    → IsTree reg.agents
    → register reg id pid requested added ≡ registered r reg'
    → IsTree reg'.agents
      × (lookup id reg'.agents ≡ some r)
      × ((parent : SubAgentRecord) × (lookup pid reg.agents ≡ some parent)
          × (r.parent_id ≡ some pid)
          × IsUnder r parent)
unfolding register
register-IsTree reg id pid requested added {r} {reg'} tree h =
    elim (Bool-cases (has_key id reg.agents)) [
      | inl taken ↦ ground arith
      | inr fresh ↦ elim (Option-cases (lookup pid reg.agents)) [
        | inl unknown ↦ ground arith
        | inr (parent, found) ↦
            let ceiling = get_or requested parent.authorization_ceiling in
            let done : register_under reg id pid parent ceiling added ≡ registered r reg' =
              ground arith in
            let (kept, here, of_parent, under) =
              register_under-IsTree reg id pid parent ceiling added tree fresh found done in
            (kept, here, (parent, found, of_parent, under))
      ]
    ]

-- A chain of ancestors of an agent: each is registered, and the agent stands under it.
abbrev pub IsAbove : Dict SubAgentRecord → SubAgentRecord → String → Type 0
IsAbove agents r a = (q : SubAgentRecord) × (lookup a agents ≡ some q) × IsUnder r q

IsAbove-under :
    (agents : Dict SubAgentRecord) (r q : SubAgentRecord)
    → IsUnder r q
    → (a : String) → IsAbove agents q a
    → IsAbove agents r a
IsAbove-under agents r q under a (p, found, above) = (p, found, IsUnder-trans under above)

-- In a tree the depth of an agent is enough fuel for its chain.
chain_from-IsAbove :
    (agents : Dict SubAgentRecord) (n : ℕ) (r : SubAgentRecord)
    → IsTree agents
    → IsDelegated agents r
    → r.depth ≡ n
    → (chain : List String) × (chain_from agents n r.parent_id ≡ some chain)
      × (length chain ≡ n)
      × All (IsAbove agents r) chain
unfolding chain_from
chain_from-IsAbove agents n r tree (inl (root, top)) d =
    ([], rw (root, chain_from) refl, ground arith, tt)
chain_from-IsAbove agents zero r tree (inr (pid, q, e, found, deep, under)) d = ground arith
chain_from-IsAbove agents (suc n) r tree (inr (pid, q, e, found, deep, under)) d =
    let (chain, computed, size, above) =
      chain_from-IsAbove agents n q tree (lookup-All (IsDelegated agents) pid agents found tree)
        (omega (arith, deep, d)) in
    (
      pid ∷ chain,
      rw (e, found, computed, chain_from) refl,
      omega (arith, size),
      ((q, found, under), All-map (IsAbove-under agents r q under) chain above),
    )

-- In a tree every registered agent has a chain of ancestors, as long as the agent is deep, and it
-- has no more authority than any of them, and all their constraints.
pub ancestors-IsAbove :
    (reg : SubAgentRegistry) (id : String) {r : SubAgentRecord}
    → IsTree reg.agents
    → get reg id ≡ some r
    → (chain : List String) × (ancestors reg id ≡ some chain)
      × (length chain ≡ r.depth)
      × All (IsAbove reg.agents r) chain
unfolding get ancestors
ancestors-IsAbove reg id {r} tree found =
    let (chain, computed, size, above) =
      chain_from-IsAbove reg.agents r.depth r tree
        (lookup-All (IsDelegated reg.agents) id reg.agents found tree) refl in
    (chain, rw (found, computed, ancestors) refl, size, above)

-- In a tree an agent may act at a level only if every ancestor may.
pub authorize-ancestors :
    (reg : SubAgentRegistry) (id : String) (level : AuthorizationLevel) (chain : List String)
    → IsTree reg.agents
    → authorize reg id level ≡ some true
    → ancestors reg id ≡ some chain
    → All (λ a. authorize reg a level ≡ some true) chain
unfolding authorize get
authorize-ancestors reg id level chain tree may computed = elim (Option-cases (get reg id)) [
  | inl unknown ↦ ground arith
  | inr (r, found) ↦
      let (chain', computed', size, above) = ancestors-IsAbove reg id tree found in
      let same : chain' ≡ chain = ground arith in
      subst (All (λ a. authorize reg a level ≡ some true)) same
        (All-map (λ a (q, known, under). ground (arith, under.ceiling)) chain' above)
]

-- The registry that a registration leaves: where it is refused, the one before.
abbrev left_by : SubAgentRegistry → Registration → SubAgentRegistry
left_by reg (registered r reg') = reg'
left_by reg (violation e) = reg

-- Registrations one after another: an id, its parent, the requested ceiling, the constraints.
abbrev pub register_all :
    SubAgentRegistry
    → List (String × String × Option AuthorizationLevel × List String)
    → SubAgentRegistry
register_all reg [] = reg
register_all reg ((id, pid, requested, added) ∷ calls) =
    register_all (left_by reg (register reg id pid requested added)) calls

left_by-IsTree :
    (reg : SubAgentRegistry) (id pid : String) (requested : Option AuthorizationLevel)
    (added : List String) (x : Registration)
    → register reg id pid requested added ≡ x
    → IsTree reg.agents
    → IsTree (left_by reg x).agents
left_by-IsTree reg id pid requested added (violation e) h tree = tree
left_by-IsTree reg id pid requested added (registered r reg') h tree =
    (register-IsTree reg id pid requested added tree h).0

IsTree-register_all :
    (reg : SubAgentRegistry)
    (calls : List (String × String × Option AuthorizationLevel × List String))
    → IsTree reg.agents
    → IsTree (register_all reg calls).agents
IsTree-register_all reg [] tree = tree
IsTree-register_all reg ((id, pid, requested, added) ∷ calls) tree =
    IsTree-register_all (left_by reg (register reg id pid requested added)) calls
      (left_by-IsTree reg id pid requested added (register reg id pid requested added) refl tree)

-- Every registry that is made and then takes any registrations, refused ones among them, is a tree:
-- each agent is a root at depth 0, or its parent is registered, and it is one deeper, with no more
-- authority and all the parent's constraints.
pub register_all-IsTree :
    (id : String) (ceiling : AuthorizationLevel) (constraints : List String) (s : Option KillSwitch)
    (window threshold : ℕ) (max_level : AuthorizationLevel)
    (calls : List (String × String × Option AuthorizationLevel × List String))
    → IsTree
        (register_all
          (new_registry id ceiling constraints s window threshold max_level)
          calls).agents
register_all-IsTree id ceiling constraints s window threshold max_level calls =
    IsTree-register_all (new_registry id ceiling constraints s window threshold max_level) calls
      (new_registry-IsTree id ceiling constraints s window threshold max_level)

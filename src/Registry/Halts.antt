-- ===== src/Registry/Halts.antt =====
-- Halts on the delegation tree, and the check for decomposition across agents
-- (governance/multi_agent.py, `is_halted` and `check_cross_agent_decomposition`).
use general_autonomy_protoco.Prelude.{
  leb, length, is_empty, any, select, Member, contains, ℕ, ◌-◌, ◌≤◌, String, ◌≡◌, refl, sym, inl,
  inr, Bool, true, false, some, List, [], ◌∷◌, arith, ◌==◌, eq_iff, eq_refl,
}
use general_autonomy_protoco.KillSwitch.{KillSwitch, engage, is_engaged}
use general_autonomy_protoco.Registry.{
  ActionObservation, SubAgentRegistry, ancestors, is_halted, DecompositionSignal, newest,
  distinct_agents, low_actions, band_of, check_cross_agent_decomposition,
}
use mathlib.Core.Path.{subst}
use general_autonomy_protoco.KillSwitch.Scopes.{contains-engage}

any-Member :
    (s : KillSwitch) (a : String) (chain : List String)
    → is_engaged s a ≡ true
    → Member a chain
    → any (is_engaged s) chain ≡ true
any-Member s a [] h m = absurd m
any-Member s a (x ∷ chain) h (inl same) = rw (sym same, h) refl
any-Member s a (x ∷ chain) h (inr later) = ground (arith, any-Member s a chain h later)

halted_by :
    (reg : SubAgentRegistry) (s : KillSwitch) (a id : String) (chain : List String)
    → reg.kill_switch ≡ some s
    → is_engaged s a ≡ true
    → ancestors reg id ≡ some chain
    → Member a (id ∷ chain)
    → is_halted reg id ≡ some true
unfolding is_halted
halted_by reg s a id chain switch on computed (inl same) =
    let own : is_engaged s id ≡ true = subst (λ x. is_engaged s x ≡ true) same on in ground arith
halted_by reg s a id chain switch on computed (inr above) =
    let some_above = any-Member s a chain on above in ground arith

-- Under a switch that has been engaged for an agent, that agent and every one that has it for an
-- ancestor is halted.
pub is_halted-engage :
    (reg : SubAgentRegistry) (s : KillSwitch) (a id reason by_whom : String) (now : ℕ)
    (chain : List String)
    → reg.kill_switch ≡ some (engage s a reason by_whom now)
    → ancestors reg id ≡ some chain
    → Member a (id ∷ chain)
    → is_halted reg id ≡ some true
unfolding is_engaged
is_halted-engage reg s a id reason by_whom now chain switch computed member =
    halted_by reg (engage s a reason by_whom now) a id chain switch
      (ground (arith, contains-engage s a reason by_whom now a, eq_refl a)) computed member

distinct_agents-contains :
    (band : List ActionObservation) (o : ActionObservation)
    → Member o band
    → contains (distinct_agents band) o.agent_id ≡ true
unfolding distinct_agents
distinct_agents-contains [] o m = absurd m
distinct_agents-contains (x ∷ band) o (inl same) = rw same (ground (arith, eq_refl x.agent_id))
distinct_agents-contains (x ∷ band) o (inr later) =
    ground (arith, distinct_agents-contains band o later)

-- A list of texts with two that differ has at least two.
two_of :
    (xs : List String) (a b : String)
    → contains xs a ≡ true
    → contains xs b ≡ true
    → (a == b) ≡ false
    → 2 ≤ length xs
two_of [] a b ha hb differ = ground arith
two_of (x ∷ []) a b ha hb differ = ground (arith, eq_iff x a, eq_iff x b, eq_iff a b)
two_of (x ∷ y ∷ xs) a b ha hb differ = omega arith

length-select : {A : Type 0} (test : A → Bool) (xs : List A) → length (select test xs) ≤ length xs
length-select test [] = ground arith
length-select test (x ∷ xs) = ground (arith, length-select test xs)

length-band :
    (reg : SubAgentRegistry) (low : List ActionObservation) → length (band_of reg low) ≤ length low
unfolding band_of
length-band reg low =
    length-select (λ (x : ActionObservation). leb (newest low - x.at) reg.decomposition_window) low

length-Member : {A : Type 0} (xs : List A) (x : A) → Member x xs → 1 ≤ length xs
length-Member [] x m = absurd m
length-Member (y ∷ xs) x m = ground arith

not_empty : {A : Type 0} (xs : List A) → 1 ≤ length xs → is_empty xs ≡ false
not_empty [] h = ground arith
not_empty (x ∷ xs) h = refl

-- Where the low-authorization actions against a target in the window before the latest of them are
-- as many as the threshold, and two of them are of different agents, the check returns the signal,
-- with the target and their number.
pub check_cross_agent_decomposition_lem :
    (reg : SubAgentRegistry) (target : String) (o o' : ActionObservation)
    → reg.decomposition_count_threshold ≤ length (band_of reg (low_actions reg target))
    → Member o (band_of reg (low_actions reg target))
    → Member o' (band_of reg (low_actions reg target))
    → (o.agent_id == o'.agent_id) ≡ false
    → (signal : DecompositionSignal) × (check_cross_agent_decomposition reg target
        ≡ some (some signal))
      × (signal.subject ≡ target)
      × (signal.action_count ≡ length (band_of reg (low_actions reg target)))
unfolding check_cross_agent_decomposition
check_cross_agent_decomposition_lem reg target o o' enough m m' differ =
    let low = low_actions reg target in
    let band = band_of reg low in
    let many =
      two_of (distinct_agents band) o.agent_id o'.agent_id (distinct_agents-contains band o m)
        (distinct_agents-contains band o' m') differ in
    let shorter : length band ≤ length low = length-band reg low in
    let there : is_empty low ≡ false =
      not_empty low (omega (arith, length-Member band o m, shorter)) in
    (
      record { subject = target; action_count = length band; agents = distinct_agents band },
      ground (arith),
      refl,
      refl,
    )

-- ===== src/Kernel/Levels.antt =====
-- Which authorization level an evaluation gives (governance/kernel.py).
use general_autonomy_protoco.Prelude.{
  Option-cases, All, ℕ, ◌+◌, ◌≤◌, ◌<◌, String, ◌≡◌, ◌↔◌, inl, inr, Option, none, some, List, [],
  ◌∷◌, arith,
}
use general_autonomy_protoco.Models.{
  AuthorizationLevel, l4, rank, AuthorizationTier, escalate_tier, max_auth_bounds, PlannedAction,
  StrategyProposal, ActionTypeSpec,
}
use general_autonomy_protoco.Risk
use general_autonomy_protoco.Risk.{DynamicRiskEngine, EscalationTrigger, ActionContext}
use general_autonomy_protoco.Policy.{GovernanceKernel}
use general_autonomy_protoco.Kernel.{
  determine_auth_level, determine_auth_tier, max_from, max_risk, spec_of, base_level, risk_subject,
  apply_trigger, settle_tier, rule_level,
}
use Prim.Native.Nat.{max}
use general_autonomy_protoco.Risk.Escalation.{RaisesByOne, evaluate-RaisesByOne}

max_from-le : (m : ℕ) (actions : List PlannedAction) → m ≤ max_from m actions
unfolding max_from
max_from-le m [] = omega arith
max_from-le m (a ∷ actions) = omega (arith, max_from-le (max m a.risk_score) actions)

max_from-All :
    (m : ℕ) (actions : List PlannedAction) → All (λ a. a.risk_score ≤ max_from m actions) actions
unfolding max_from
max_from-All m [] = tt
max_from-All m (a ∷ actions) = (
  omega (arith, max_from-le (max m a.risk_score) actions),
  max_from-All (max m a.risk_score) actions,
)

-- No action of a proposal has a higher score than the proposal's risk.
pub max_risk-All :
    (actions : List PlannedAction) → All (λ a. a.risk_score ≤ max_risk actions) actions
unfolding max_risk
max_risk-All [] = tt
max_risk-All (a ∷ actions) = (max_from-le a.risk_score actions, max_from-All a.risk_score actions)

-- The level by risk, as a table of ranks.
rank-determine_auth_level :
    (n : ℕ)
    → (n ≤ 8 → rank (determine_auth_level n) ≤ 3)
      × (8 < n → determine_auth_level n ≡ l4)
      × (determine_auth_tier n ≡ escalate_tier → 8 < n)
unfolding determine_auth_level determine_auth_tier rank
rank-determine_auth_level n = ground arith

-- The rank of an action type's default level, and 0 where there is no action type.
abbrev pub default_rank : Option ActionTypeSpec → ℕ
default_rank none = 0
default_rank (some spec) = rank spec.default_authorization_level

base_level-bounds :
    (k : GovernanceKernel) (p : StrategyProposal) (t : Option String)
    → (rank (determine_auth_level (max_risk p.actions)) ≤ rank (base_level k p t))
      × (default_rank (spec_of k t) ≤ rank (base_level k p t))
unfolding base_level
base_level-bounds k p t = elim (Option-cases (spec_of k t)) [
  | inl no_spec ↦ (rw (no_spec, base_level) (omega arith), rw no_spec (omega arith))
  | inr (found, e) ↦
      let (risky, typed) =
        max_auth_bounds (determine_auth_level (max_risk p.actions))
          found.default_authorization_level in
      (rw (e, base_level) risky, rw (e, base_level) typed)
]

-- What the escalation does to a level and a tier.
settle-lem :
    (level : AuthorizationLevel) (tier : AuthorizationTier) (t : Option EscalationTrigger)
    → RaisesByOne level t
    → (tier ≡ escalate_tier → level ≡ l4)
    → let r = settle_tier (apply_trigger level tier t) in
      (rank level ≤ rank r.level)
      × (rank r.level ≤ rank level + 1)
      × ((r.tier ≡ escalate_tier) ↔ (r.level ≡ l4))
      × (r.trigger ≡ t)
unfolding settle_tier apply_trigger rank
settle-lem level tier none h e = ground arith
settle-lem level tier (some t) h e = ground arith

above_l4 : (l : AuthorizationLevel) → rank l4 ≤ rank l → l ≡ l4
unfolding rank
above_l4 l h = ground arith

tier_of_base :
    (k : GovernanceKernel) (p : StrategyProposal) (t : Option String)
    → determine_auth_tier (max_risk p.actions) ≡ escalate_tier
    → base_level k p t ≡ l4
tier_of_base k p t e =
    let table = rank-determine_auth_level (max_risk p.actions) in
    let top : determine_auth_level (max_risk p.actions) ≡ l4 = table.1 (table.2 e) in
    above_l4 (base_level k p t) (rw top at (base_level-bounds k p t).0)

-- The level of an evaluation is at least that of the risk and the action type's default, at most
-- one rank above the base level, and has the tier of escalation exactly at L4.
pub rule_level-bounds :
    (k : GovernanceKernel) (p : StrategyProposal) (t : Option String) (now : ℕ)
    → let r = rule_level k p t now in
      (rank (determine_auth_level (max_risk p.actions)) ≤ rank r.level)
      × (default_rank (spec_of k t) ≤ rank r.level)
      × (rank r.level ≤ rank (base_level k p t) + 1)
      × ((r.tier ≡ escalate_tier) ↔ (r.level ≡ l4))
unfolding rule_level
rule_level-bounds k p t now =
    let (action_type, target) = risk_subject p t in
    let context : ActionContext = record {
      current_auth_level = base_level k p t;
      target = target;
    } in
    let (up, one, tiers, same) =
      settle-lem (base_level k p t) (determine_auth_tier (max_risk p.actions))
        (Risk.evaluate k.dynamic_risk_engine action_type context now)
        (evaluate-RaisesByOne k.dynamic_risk_engine action_type context now) (tier_of_base k p t) in
    let (risky, typed) = base_level-bounds k p t in (omega arith, omega arith, one, tiers)

-- A proposal with an action that scores 9 or more has the level L4.
pub rule_level-critical :
    (k : GovernanceKernel) (p : StrategyProposal) (t : Option String) (now : ℕ)
    → 8 < max_risk p.actions
    → (rule_level k p t now).level ≡ l4
rule_level-critical k p t now h =
    above_l4 (rule_level k p t now).level
      (rw ((rank-determine_auth_level (max_risk p.actions)).1 h) at (rule_level-bounds k p t now).0)

-- ===== src/Models/Levels.antt =====
-- Verdicts and the graduated authorization levels (models/governance.py, and the level tables that
-- governance/kernel.py, governance/multi_agent.py and execution/fabric.py each keep).
use general_autonomy_protoco.Prelude.{
  leb, if◌then◌else◌, ℕ, ◌≤◌, String, ◌≡◌, ◌↔◌, Bool, true, false, arith,
}

pub data GovernanceVerdict : Type 0 where
  approved rejected escalate : GovernanceVerdict

-- L0 fully autonomous, L1 notify, L2 approve before, L3 collaborative, L4 human only.
pub data AuthorizationLevel : Type 0 where
  l0 l1 l2 l3 l4 : AuthorizationLevel

-- `_AUTH_RANK`, `_RANK`
unfoldable pub rank : AuthorizationLevel → ℕ
rank l0 = 0
rank l1 = 1
rank l2 = 2
rank l3 = 3
rank l4 = 4

-- The text of a level, `level.value`.
unfoldable pub level_name : AuthorizationLevel → String
level_name l0 = "L0"
level_name l1 = "L1"
level_name l2 = "L2"
level_name l3 = "L3"
level_name l4 = "L4"

-- `_OOB_REQUIRED_LEVELS`
unfoldable pub needs_oob : AuthorizationLevel → Bool
needs_oob l0 = false
needs_oob l1 = false
needs_oob _ = true

unfoldable pub satisfies_auth : AuthorizationLevel → AuthorizationLevel → Bool
unfolding rank
satisfies_auth granted required = leb (rank required) (rank granted)

unfoldable pub max_auth : AuthorizationLevel → AuthorizationLevel → AuthorizationLevel
unfolding rank
max_auth a b = if leb (rank b) (rank a) then a else b

-- The legacy tiers.
pub data AuthorizationTier : Type 0 where
  auto_execute notify_proceed require_approval escalate_tier : AuthorizationTier

-- The higher of two levels is at least each of them, and is one of them.
pub max_auth_bounds :
    (a b : AuthorizationLevel) → (rank a ≤ rank (max_auth a b)) × (rank b ≤ rank (max_auth a b))
unfolding max_auth
max_auth_bounds a b = ground arith

pub rank-injective : (a b : AuthorizationLevel) → rank a ≡ rank b → a ≡ b
unfolding rank
rank-injective a b h = ground arith

pub needs_oob-rank : (l : AuthorizationLevel) → (needs_oob l ≡ true) ↔ (2 ≤ rank l)
unfolding needs_oob rank
needs_oob-rank l = ground arith

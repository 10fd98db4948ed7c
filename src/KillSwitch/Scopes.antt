-- ===== src/KillSwitch/Scopes.antt =====
-- The scopes of the kill-switch under several operations (governance/corrigibility.py).
use mathlib.Core.Path.{ap₂}
use general_autonomy_protoco.Prelude.{
  length, select, length-append, contains, ℕ, ◌+◌, String, ◌≡◌, refl, ap, ◌∙◌, Bool, ◌&&◌, ◌||◌,
  not, List, [], ◌∷◌, ◌++◌, arith, ◌==◌, eq_iff,
}
use general_autonomy_protoco.KillSwitch.{
  KillSwitch, engaged_event, disengaged_event, global_scope, engage, disengage, is_engaged,
}

contains-add :
    (l : List String) (a b : String) → contains (l ++ a ∷ []) b ≡ (contains l b || a == b)
contains-add [] a b = ground arith
contains-add (x ∷ l) a b = ground (arith, contains-add l a b)

contains-select :
    (l : List String) (a b : String)
    → contains (select (λ x. not (x == a)) l) b ≡ (contains l b && not (a == b))
contains-select [] a b = refl
contains-select (x ∷ l) a b =
    ground (arith, contains-select l a b, eq_iff x a, eq_iff x b, eq_iff a b)

pub contains-engage :
    (s : KillSwitch) (scope reason by_whom : String) (now : ℕ) (other : String)
    → contains (engage s scope reason by_whom now).engaged other
      ≡ (contains s.engaged other || scope == other)
unfolding engage
contains-engage s scope reason by_whom now other =
    ground (arith, contains-add s.engaged scope other, eq_iff scope other)

contains-disengage :
    (s : KillSwitch) (scope by_whom : String) (now : ℕ) (other : String)
    → contains (disengage s scope by_whom now).engaged other
      ≡ (contains s.engaged other && not (scope == other))
unfolding disengage
contains-disengage s scope by_whom now other = contains-select s.engaged scope other

-- The operations of a human on the switch.
pub data SwitchOp : Type 0 where
  turn_on turn_off : String → SwitchOp

abbrev pub scope_of : SwitchOp → String
scope_of (turn_on s) = s
scope_of (turn_off s) = s

abbrev pub run_ops : KillSwitch → List SwitchOp → KillSwitch
run_ops s [] = s
run_ops s (turn_on scope ∷ ops) = run_ops (engage s scope "" "human_authority" 0) ops
run_ops s (turn_off scope ∷ ops) = run_ops (disengage s scope "human_authority" 0) ops

-- What the last operation on a scope says, if there is one.
abbrev pub last_word : Bool → String → List SwitchOp → Bool
last_word before scope [] = before
last_word before scope (turn_on s ∷ ops) = last_word (before || s == scope) scope ops
last_word before scope (turn_off s ∷ ops) = last_word (before && not (s == scope)) scope ops

contains-run_ops :
    (s : KillSwitch) (ops : List SwitchOp) (scope : String)
    → contains (run_ops s ops).engaged scope ≡ last_word (contains s.engaged scope) scope ops
contains-run_ops s [] scope = refl
contains-run_ops s (turn_on x ∷ ops) scope =
    contains-run_ops (engage s x "" "human_authority" 0) ops scope
    ∙ ap (λ b. last_word b scope ops) (contains-engage s x "" "human_authority" 0 scope)
contains-run_ops s (turn_off x ∷ ops) scope =
    contains-run_ops (disengage s x "human_authority" 0) ops scope
    ∙ ap (λ b. last_word b scope ops) (contains-disengage s x "human_authority" 0 scope)

length-log :
    (s : KillSwitch) (ops : List SwitchOp) → length (run_ops s ops).log ≡ length s.log + length ops
unfolding engage disengage
length-log s [] = omega arith
length-log s (turn_on x ∷ ops) = omega (
  arith,
  length-log (engage s x "" "human_authority" 0) ops,
  length-append s.log (engaged_event x "" "human_authority" 0 ∷ []),
)
length-log s (turn_off x ∷ ops) = omega (
  arith,
  length-log (disengage s x "human_authority" 0) ops,
  length-append s.log (disengaged_event x "human_authority" 0 ∷ []),
)

-- After any operations a scope is halted exactly if the last operation on the global scope or on
-- the scope itself engaged it, or there was none and it was engaged before; the log grows by one
-- entry for each operation.
pub is_engaged-run_ops :
    (s : KillSwitch) (ops : List SwitchOp) (scope : String)
    → (is_engaged (run_ops s ops) scope ≡ (
        last_word (contains s.engaged global_scope) global_scope ops
        || last_word (contains s.engaged scope) scope ops))
      × (length (run_ops s ops).log ≡ length s.log + length ops)
unfolding is_engaged
is_engaged-run_ops s ops scope = (
  ap₂ ◌||◌ (contains-run_ops s ops global_scope) (contains-run_ops s ops scope),
  length-log s ops,
)

-- ===== src/Strategy/Rules.antt =====
-- The plans of the rule-based generator (strategy/cga_loop.py).
use general_autonomy_protoco.Prelude.{
  if◌then◌else◌, Bool-cases, All, ℕ, zero, suc, ◌+◌, ◌-◌, ◌≤◌, String, ◌≡◌, refl, ◌⊎◌, inl, inr,
  true, false, some, List, arith,
}
use general_autonomy_protoco.Prelude.Dict.{Dict, lookup}
use general_autonomy_protoco.Models.{
  Value, text, Runtime, IntentVector, PlannedAction, StrategyProposal, WorldModel,
}
use mathlib.Core.Path.{subst}
use general_autonomy_protoco.Strategy.{
  AccumulatedConstraint, target_of, rule_direct_automated_outreach, rule_query_then_outreach,
  rule_human_handoff, rule_at, first_open, would_violate_accumulated, own_rule, choose_rule,
  plan_for, generate,
}

-- A rule that is known to fail, for every index from one to another.
abbrev pub AllFail : Runtime → List AccumulatedConstraint → ℕ → ℕ → Type 0
AllFail R cs from zero = Unit
AllFail R cs from (suc n) = (would_violate_accumulated R from cs ≡ true) × AllFail R cs (from + 1) n

-- The rule is open or the last one, and the ones before it from `from` on are known to fail.
pub record IsFirstOpen (R : Runtime) (cs : List AccumulatedConstraint) (from chosen : ℕ)
    : Type 0 where
  pub known : chosen ≤ 2
  pub later : from ≤ chosen
  pub allowed : (would_violate_accumulated R chosen cs ≡ false) ⊎ (chosen ≡ 2)
  pub skipped : AllFail R cs from (chosen - from)

pass :
    (R : Runtime) (cs : List AccumulatedConstraint) (from chosen : ℕ)
    → would_violate_accumulated R from cs ≡ true
    → IsFirstOpen R cs (from + 1) chosen
    → IsFirstOpen R cs from chosen
pass R cs from chosen fails o =
    let more : suc (chosen - (from + 1)) ≡ chosen - from = omega (arith, o.later) in
    record {
      known = o.known;
      later = omega (arith, o.later);
      allowed = o.allowed;
      skipped = subst (AllFail R cs from) more (fails, o.skipped);
    }

here :
    (R : Runtime) (cs : List AccumulatedConstraint) (from : ℕ)
    → from ≤ 2
    → (would_violate_accumulated R from cs ≡ false) ⊎ (from ≡ 2)
    → IsFirstOpen R cs from from
here R cs from low allowed =
    let none_left : 0 ≡ from - from = omega arith in
    record {
      known = low;
      later = omega arith;
      allowed = allowed;
      skipped = subst (AllFail R cs from) none_left tt;
    }

open_at :
    (R : Runtime) (cs : List AccumulatedConstraint) (left from : ℕ)
    → suc left + from ≡ 3
    → IsFirstOpen R cs from (first_open R (suc left) from cs)
unfolding first_open
open_at R cs zero from e =
    let last : from ≡ 2 = omega arith in
    let same : from ≡ (if would_violate_accumulated R from cs then 2 else from) = ground arith in
    subst (IsFirstOpen R cs from) same (here R cs from (omega arith) (inr last))
open_at R cs (suc left) from e = elim (Bool-cases (would_violate_accumulated R from cs)) [
  | inl fails ↦
      let same : first_open R (suc left) (from + 1) cs ≡ first_open R (suc (suc left)) from cs =
        ground arith in
      subst (IsFirstOpen R cs from) same (
        pass R cs from (first_open R (suc left) (from + 1) cs) fails
          (open_at R cs left (from + 1) (omega arith)))
  | inr clear ↦
      let same : from ≡ first_open R (suc (suc left)) from cs = ground arith in
      subst (IsFirstOpen R cs from) same (here R cs from (omega arith) (inl clear))
]

own_rule_bound : (R : Runtime) (n : ℕ) → own_rule R n ≤ 2
own_rule_bound R zero = omega arith
own_rule_bound R (suc n) = omega arith

choose_rule-IsFirstOpen :
    (R : Runtime) (attempt_number : ℕ) (cs : List AccumulatedConstraint)
    → IsFirstOpen R cs (own_rule R attempt_number) (choose_rule R attempt_number cs)
unfolding choose_rule
choose_rule-IsFirstOpen R attempt_number cs =
    let from = own_rule R attempt_number in
    let low : from ≤ 2 = own_rule_bound R attempt_number in
    let left : suc (2 - from) ≡ 3 - from = omega arith in
    subst (λ (n : ℕ). IsFirstOpen R cs from (first_open R n from cs)) left
      (open_at R cs (2 - from) from (omega arith))

-- What every action of a rule keeps to.
abbrev pub IsMild : String → PlannedAction → Type 0
IsMild target a = (a.target ≡ target) × (a.risk_score ≤ 3) × (a.reversible ≡ true)

rule_at-AllMild :
    (n : ℕ) (target : String) (drift : Dict Value) → All (IsMild target) (rule_at n target drift)
unfolding rule_at rule_direct_automated_outreach rule_query_then_outreach rule_human_handoff
rule_at-AllMild zero target drift = ((refl, omega arith, refl), tt)
rule_at-AllMild (suc zero) target drift =
    ((refl, omega arith, refl), ((refl, omega arith, refl), tt))
rule_at-AllMild (suc (suc n)) target drift = ((refl, omega arith, refl), tt)

-- For a drift event of an entity that is a text the generator returns a plan. It is of the first
-- rule, from the attempt's own on (the last one for an attempt 0), that no lesson is known to make
-- fail, or of the last; and its actions are on the entity, reversible, and of a risk of at most 3.
pub generate-IsFirstOpen :
    (R : Runtime) (decimal new_id : ℕ → String) (now : ℕ) (intent : IntentVector) (w : WorldModel)
    (drift : Dict Value) (cs : List AccumulatedConstraint) (prior : List StrategyProposal)
    (attempt_number : ℕ) (entity : String)
    → lookup "entity_id" drift ≡ some (text entity)
    → (p : StrategyProposal) × (rule : ℕ) × (generate R decimal new_id now intent w drift cs prior
          attempt_number
        ≡ some p)
      × (p.actions ≡ rule_at rule entity drift)
      × IsFirstOpen R cs (own_rule R attempt_number) rule
      × All (IsMild entity) p.actions
unfolding generate target_of
generate-IsFirstOpen R decimal new_id now intent w drift cs prior attempt_number entity known =
    let found : target_of drift ≡ some entity = ground arith in
    (
      plan_for R decimal new_id now intent drift cs prior attempt_number entity,
      choose_rule R attempt_number cs,
      ground arith,
      refl,
      choose_rule-IsFirstOpen R attempt_number cs,
      rule_at-AllMild (choose_rule R attempt_number cs) entity drift,
    )

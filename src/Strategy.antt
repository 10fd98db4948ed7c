-- ===== src/Strategy.antt =====
-- The rule-based strategy generator (strategy/cga_loop.py). A new proposal's id, the clock and the
-- text of a number are arguments. Attempts are counted from 1.
pub mod Rules
use package.text.Mathlib.Text.{find?}
use Prim.Native.Nat.{min}
use Prim.Native.String.{◌++◌ as str_append}
use general_autonomy_protoco.Prelude.{
  eqb, if◌then◌else◌, is_some, get_or, ◌>>=◌, any, last?, ℕ, zero, suc, ◌+◌, ◌-◌, ◌/◌, String, Bool,
  true, false, ◌||◌, not, Option, none, some, List, [], ◌∷◌, map,
}
use general_autonomy_protoco.Prelude.Dict.{Dict, lookup}
use general_autonomy_protoco.Prelude.Int.{pos}
use general_autonomy_protoco.Models.{
  Value, flag, num, text, sequence, table, of_dict, Runtime, IntentVector, PlannedAction,
  StrategyProposal, WorldModel,
}

-- What a rejection adds, and what the next plan takes into account; its detail, a text that nothing
-- reads, is left out.
pub record AccumulatedConstraint : Type 0 where
  pub source : String
  pub constraint : String

-- `StrategyGenerator.generate`: `none` is an exception.
abbrev pub Generator : Type 0
Generator =
    IntentVector
    → WorldModel
    → Dict Value
    → List AccumulatedConstraint
    → List StrategyProposal
    → ℕ
    → Option StrategyProposal

abbrev planned : String → String → Dict Value → Bool → ℕ → PlannedAction
planned action_type target parameters requires_consent risk = record {
  action_type = action_type;
  target = target;
  parameters = parameters;
  requires_consent = requires_consent;
  reversible = true;
  risk_score = risk;
}

-- `drift_event.get("entity_id", "unknown")`; a target that is no text is a ValidationError.
unfoldable pub target_of : Dict Value → Option String
target_of drift = elim (get_or (lookup "entity_id" drift) (text "unknown")) [
  | text s ↦ some s
  | _ ↦ none
]

unfoldable pub rule_direct_automated_outreach : String → Dict Value → List PlannedAction
rule_direct_automated_outreach target drift =
    planned "send_email" target
      (("template", text "high_value_lead_response") ∷ ("personalized", flag true) ∷ []) false 3
    ∷ []

-- `sequence true` is a list that is not empty.
unfoldable pub rule_query_then_outreach : String → Dict Value → List PlannedAction
rule_query_then_outreach target drift =
    planned "query_crm" target (("fields", sequence true) ∷ []) false 1
    ∷ planned "send_email" target
        (("template", text "high_value_lead_response")
          ∷ ("conditional", text "if_consent_verified")
          ∷ [])
        true 3
    ∷ []

unfoldable pub rule_human_handoff : String → Dict Value → List PlannedAction
rule_human_handoff target drift =
    planned "route_to_human" target
      (("queue", text "sales_queue")
        ∷ (
          "context",
          table (
              of_dict (
                ("reason", text "GDPR compliance requires human-initiated first contact")
                ∷ ("consent_capture_form", flag true)
                ∷ (
                  "sla_remaining_minutes",
                  get_or (lookup "sla_remaining_minutes" drift) (num (pos 2000000)),
                )
                ∷ [])),
        )
        ∷ ("priority", text "urgent")
        ∷ [])
      false 2
    ∷ []

-- `self._rules[index]`, for an index that the generator makes.
unfoldable pub rule_at : ℕ → String → Dict Value → List PlannedAction
unfolding rule_direct_automated_outreach rule_query_then_outreach rule_human_handoff
rule_at zero = rule_direct_automated_outreach
rule_at (suc zero) = rule_query_then_outreach
rule_at (suc (suc n)) = rule_human_handoff

-- In millionths of a dollar.
abbrev cost_map : Dict ℕ
cost_map =
    ("send_email", 100000)
    ∷ ("send_sms", 150000)
    ∷ ("query_crm", 50000)
    ∷ ("route_to_human", 5000000)
    ∷ ("automated_outreach", 200000)
    ∷ ("direct_call", 1000000)
    ∷ ("update_record", 20000)
    ∷ []

unfoldable pub estimate_cost : List PlannedAction → ℕ
estimate_cost [] = 0
estimate_cost (a ∷ actions) = get_or (lookup a.action_type cost_map) 500000 + estimate_cost actions

-- `sep.join(texts)`
abbrev joined_by : String → List String → String
joined_by sep [] = ""
joined_by sep (x ∷ []) = x
joined_by sep (x ∷ y ∷ rest) = str_append x (str_append sep (joined_by sep (y ∷ rest)))

-- The steps from a number on; `decimal` is `str` of a number, here and below.
steps_from : (ℕ → String) → ℕ → List PlannedAction → List String
steps_from decimal n [] = []
steps_from decimal n (a ∷ actions) =
    str_append (decimal n) (str_append ". " (str_append a.action_type (str_append " → " a.target)))
    ∷ steps_from decimal (n + 1) actions

unfoldable pub describe_plan : (ℕ → String) → List PlannedAction → String
unfolding steps_from
describe_plan decimal actions = joined_by "; " (steps_from decimal 1 actions)

unfoldable pub build_rationale :
    (ℕ → String) → ℕ → List AccumulatedConstraint → List PlannedAction → String
build_rationale decimal attempt cs actions =
    if eqb attempt 1
    then "First attempt: direct automated approach for fastest SLA compliance."
    else str_append "Attempt " (
        str_append (decimal attempt) (
          str_append ": adapted strategy to avoid [" (
            str_append (joined_by ", " (map (λ (c : AccumulatedConstraint). c.constraint) cs)) (
              str_append "]. Using [" (
                str_append (joined_by ", " (map (λ (a : PlannedAction). a.action_type) actions))
                  "].")))))

module _ (R : Runtime) where
  mentions : String → AccumulatedConstraint → Bool
  mentions word c = is_some (find? (R.lower c.constraint) word)

  unfoldable pub would_violate_accumulated : ℕ → List AccumulatedConstraint → Bool
  unfolding mentions
  would_violate_accumulated zero cs = any (mentions "gdpr") cs
  would_violate_accumulated (suc zero) cs =
      any (λ c. mentions "no consent" c || mentions "no_consent" c) cs
  would_violate_accumulated (suc (suc n)) cs = false

  -- The `for` over `range(rule_index, 3)` with its `else`: the first rule that is not known to fail,
  -- and the last one where all are; so many rules are left.
  first_open : ℕ → ℕ → List AccumulatedConstraint → ℕ
  unfolding would_violate_accumulated
  first_open zero index cs = 2
  first_open (suc left) index cs =
      let later = first_open left (index + 1) cs in
      if would_violate_accumulated index cs then later else index

  -- `min(attempt_number - 1, 2)`; an attempt 0 gives the index -1, which no lesson rules out, and
  -- which is that of the last rule.
  abbrev pub own_rule : ℕ → ℕ
  own_rule zero = 2
  own_rule (suc n) = min n 2

  unfoldable pub choose_rule : ℕ → List AccumulatedConstraint → ℕ
  unfolding first_open
  choose_rule attempt_number cs =
      let rule_index = own_rule attempt_number in first_open (3 - rule_index) rule_index cs

  -- The proposal for an entity.
  abbrev pub plan_for :
      (ℕ → String)
      → (ℕ → String)
      → ℕ
      → IntentVector
      → Dict Value
      → List AccumulatedConstraint
      → List StrategyProposal
      → ℕ
      → String
      → StrategyProposal
  plan_for decimal new_id now intent drift cs prior attempt_number target =
      let actions = rule_at (choose_rule attempt_number cs) target drift in
      record {
        id = new_id attempt_number;
        intent_id = intent.id;
        attempt_number = attempt_number;
        plan_description = describe_plan decimal actions;
        actions = actions;
        estimated_cost = pos (estimate_cost actions);
        rationale = build_rationale decimal attempt_number cs actions;
        prior_rejection_id = elim (last? prior) [ none ↦ none | some p ↦ some p.id ];
        generated_at = now;
      }

  -- `RuleBasedStrategyGenerator.generate`
  unfoldable pub generate : (ℕ → String) → (ℕ → String) → ℕ → Generator
  unfolding target_of choose_rule rule_at estimate_cost describe_plan build_rationale
  generate decimal new_id now intent w drift cs prior attempt_number = target_of drift >>= λ target.
      some (plan_for decimal new_id now intent drift cs prior attempt_number target)

-- ===== src/Review.antt =====
-- The independent review of authorization levels (governance/independent_review.py). A risk score is
-- a whole number; `stringify` is `str` of a parameter (`none` where it raises), and a severe gap is
-- not negative. The texts and the evidence of a signal are left out.
pub mod Gaps
use package.text.Mathlib.Text.{find?}
use Prim.Native.Nat.{max, min}
use Prim.Native.String.{◌++◌ as str_append}
use general_autonomy_protoco.Prelude.{
  ltb, leb, eqb, if◌then◌else◌, is_some, ◌>>=◌, length, any, find, ℕ, ◌+◌, ◌-◌, ◌*◌, ◌/◌, String,
  Bool, true, not, Option, none, some, List, [], ◌∷◌, ◌++◌, ◌==◌,
}
use general_autonomy_protoco.Prelude.Dict.{Dict, values}
use general_autonomy_protoco.Models.{
  Value, unit, Runtime, escalate, AuthorizationLevel, l0, l1, l2, l3, l4, rank, StrategyProposal,
  GovernanceDecision,
}
use general_autonomy_protoco.Prelude.Windows.{cap_to}
use general_autonomy_protoco.Monitor.{gim_indep, warning, critical, IntegritySignal}
use general_autonomy_protoco.Monitor.Detectors.{Detection, signal_if, sum_by}

-- `IndependentClassifier.classify`
abbrev pub IndependentClassifier : Type 0
IndependentClassifier = String → Dict Value → ℕ → AuthorizationLevel

-- `_HIGH_RISK`
abbrev pub high_risk : List String
high_risk =
    "delete" ∷ "destroy" ∷ "wipe" ∷ "purge" ∷ "erase" ∷ "terminate" ∷ "decommission" ∷ "shutdown"
    ∷ "wire" ∷ "transfer" ∷ "payment" ∷ "liquidate" ∷ "launch" ∷ "deploy" ∷ "grant" ∷ "escalate"
    ∷ "privilege" ∷ []

-- `_SENSITIVE`
abbrev pub sensitive : List String
sensitive =
    "medical" ∷ "health" ∷ "patient" ∷ "clinical" ∷ "legal" ∷ "lending" ∷ "loan" ∷ "credit"
    ∷ "insurance" ∷ "biometric" ∷ "minor" ∷ "child" ∷ "financial" ∷ "phi" ∷ "pii" ∷ []

-- `_LEVELS[min(score, 4)]`
unfoldable pub level_of_score : ℕ → AuthorizationLevel
level_of_score score =
    if eqb score 0
    then l0
    else if eqb score 1
    then l1
    else if eqb score 2
    then l2
    else if eqb score 3
    then l3
    else l4

-- The texts of the parameters, joined by blanks; one that raises counts for nothing.
unfoldable pub scanned : (Value → Option String) → List Value → String
scanned stringify [] = ""
scanned stringify (v ∷ values) =
    let rest = scanned stringify values in
    elim (stringify v) [ none ↦ rest | some s ↦ str_append " " (str_append s rest) ]

abbrev pub mentions_any : String → List String → Bool
mentions_any haystack words = any (λ (w : String). is_some (find? haystack w)) words

unfoldable pub score_of : String → ℕ → ℕ
score_of haystack risk =
    (if leb 8 risk then 3 else if leb 5 risk then 2 else if leb 3 risk then 1 else 0)
    + (if mentions_any haystack high_risk then 2 else 0)
    + (if mentions_any haystack sensitive then 1 else 0)

-- `RuleBasedIndependentClassifier.classify`
unfoldable pub rule_based : Runtime → (Value → Option String) → IndependentClassifier
unfolding score_of level_of_score scanned
rule_based R stringify action_type parameters risk =
    let parts = scanned stringify (values parameters) in
    level_of_score
      (score_of (R.lower (str_append action_type (if parts == "" then " " else parts))) risk)

pub record Divergence : Type 0 where
  pub system : ℕ
  pub independent : ℕ
  pub action_type : String

pub record IndependentMonitor : Type 0 where
  pub classifier : IndependentClassifier
  pub drift_threshold : ℕ
  pub severe_gap : ℕ
  pub min_samples : ℕ
  pub max_history : ℕ
  pub divergences : List Divergence

unfoldable pub new_independent_monitor : IndependentClassifier → ℕ → ℕ → ℕ → ℕ → IndependentMonitor
new_independent_monitor classifier drift severe samples history = record {
  classifier = classifier;
  drift_threshold = drift;
  severe_gap = severe;
  min_samples = samples;
  max_history = max 1 history;
  divergences = [];
}

unfoldable pub observe :
    IndependentMonitor → String → Dict Value → ℕ → AuthorizationLevel → IndependentMonitor
observe m action_type parameters risk level = record m {
  divergences =
      cap_to
        (m.divergences
          ++ record {
            system = rank level;
            independent = rank (m.classifier action_type parameters risk);
            action_type = action_type;
          }
            ∷ [])
        m.max_history;
}

unfoldable pub observe_decision :
    IndependentMonitor → GovernanceDecision → StrategyProposal → IndependentMonitor
unfolding observe
observe_decision m d p = elim d.authorization_level [
  | none ↦ m
  | some level ↦ elim p.actions [
    | [] ↦ m
    | a ∷ actions ↦ observe m a.action_type a.parameters a.risk_score level
  ]
]

abbrev pub is_severe : ℕ → Divergence → Bool
is_severe gap d = leb (d.system + gap) d.independent

unfoldable pub check_divergence : IndependentMonitor → Detection
unfolding sum_by
check_divergence m =
    let n = length m.divergences in
    elim (find (is_severe m.severe_gap) m.divergences) [
      | some d ↦ signal_if true gim_indep d.action_type critical
      | none ↦
          if ltb n m.min_samples
          then some none
          else if eqb n 0
          then none
          else signal_if
              (ltb (m.drift_threshold * (n * 4))
                (unit * sum_by (λ (d : Divergence). d.independent - d.system) m.divergences))
              gim_indep "authorization_classification" warning
    ]

-- `scan`
unfoldable pub scan : IndependentMonitor → Option (List IntegritySignal)
unfolding check_divergence
scan m = check_divergence m >>= λ found. some (elim found [ none ↦ [] | some s ↦ s ∷ [] ])

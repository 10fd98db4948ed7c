-- ===== src/Monitor/Detectors.antt =====
-- The detectors of the integrity monitor (governance/integrity_monitor.py, `check_...` and `scan`).
use general_autonomy_protoco.Prelude.{
  ltb, leb, eqb, if◌then◌else◌, get_or, ◌>>=◌, length, is_empty, select, ℕ, ◌+◌, ◌-◌, ◌*◌, String,
  Bool, true, false, ◌&&◌, ◌||◌, not, Option, none, some, List, [], ◌∷◌, ◌++◌, map,
}
use general_autonomy_protoco.Prelude.Dict.{lookup}
use general_autonomy_protoco.Models.{unit}
use general_autonomy_protoco.Prelude.Windows.{drop, take, last_n, band}
use general_autonomy_protoco.Monitor.{
  SignalType, gim_1, gim_2, gim_3, gim_4, gim_5, Severity, warning, critical, IntegritySignal,
  Observation, AuditSample, FramedEscalation, Challenge, MonitorConfig, IntegrityMonitor,
}

-- What a detector returns: an exception, no signal, or a signal.
abbrev pub Detection : Type 0
Detection = Option (Option IntegritySignal)

abbrev pub signal_if : Bool → SignalType → String → Severity → Detection
signal_if flagged kind subject severity = some (
    if flagged
    then some (record { signal_type = kind; subject = subject; severity = severity })
    else none)

unfoldable pub sum_by {ℓ} : {A : Type ℓ} → (A → ℕ) → List A → ℕ
sum_by f [] = 0
sum_by f (x ∷ xs) = f x + sum_by f xs

-- `sum(1 for x in xs if test(x))`
abbrev pub count_if {ℓ} : {A : Type ℓ} → (A → Bool) → List A → ℕ
count_if test xs = length (select test xs)

-- `sum(ys) / m - sum(xs) / n >= threshold`; `none` is a division by zero.
unfoldable pub mean_rises_by : ℕ → ℕ → ℕ → ℕ → ℕ → Option Bool
mean_rises_by threshold xs n ys m =
    if eqb n 0 || eqb m 0
    then none
    else some (leb (threshold * (n * m) + unit * (xs * m)) (unit * (ys * n)))

unfoldable pub check_authorization_drift : IntegrityMonitor → String → Detection
unfolding mean_rises_by sum_by
check_authorization_drift m action_type =
    let c = m.config in
    let history = get_or (lookup action_type m.by_action) [] in
    if ltb (length history) (c.baseline_window + c.recent_window)
    then some none
    else mean_rises_by c.drift_threshold
        (sum_by (λ (o : Observation). o.observed_rank) (last_n c.recent_window history))
        c.recent_window
        (sum_by (λ (o : Observation). o.observed_rank) (take c.baseline_window history))
        c.baseline_window
      >>= λ drifted. signal_if drifted gim_1 action_type warning

-- The low-ranked actions of a target's history.
abbrev pub low_in : MonitorConfig → List Observation → List Observation
low_in c history =
    select (λ (o : Observation). leb o.observed_rank c.decomposition_max_rank) history

-- Of the low-ranked actions, sorted by their moments, the last one is the newest.
unfoldable pub burst_in : MonitorConfig → String → List Observation → Detection
burst_in c target low =
    if ltb (length low) c.decomposition_count_threshold
    then some none
    else if is_empty low
    then none
    else signal_if
        (leb c.decomposition_count_threshold
          (length (band (λ (o : Observation). o.at) c.decomposition_window low)))
        gim_3 target warning

unfoldable pub check_decomposition : IntegrityMonitor → String → Detection
unfolding burst_in
check_decomposition m target =
    burst_in m.config target (low_in m.config (get_or (lookup target m.by_target) []))

-- |a / n - b / m| is above the threshold, for a metric that is scaled by a factor.
abbrev pub diverges : ℕ → ℕ → ℕ → ℕ → ℕ → ℕ → Bool
diverges threshold scale a n b m =
    ltb (threshold * (scale * (n * m))) (unit * ((a * m - b * n) + (b * n - a * m)))

abbrev of_rank : List AuditSample → ℕ → ℕ
of_rank samples r = count_if (λ (s : AuditSample). eqb s.sampled_rank r) samples

-- Twice the total-variation distance of the frequencies of the ranks, times both numbers of samples.
unfoldable pub variation : List AuditSample → List AuditSample → ℕ
variation known shadow =
    let n = length known in
    let m = length shadow in
    let gap : ℕ → ℕ = λ r.
      (of_rank known r * m - of_rank shadow r * n) + (of_rank shadow r * n - of_rank known r * m) in
    gap 0 + gap 1 + gap 2 + gap 3 + gap 4

-- The worst of the three metrics is above the threshold exactly if one of them is.
unfoldable pub check_audit_divergence : IntegrityMonitor → Detection
unfolding variation sum_by
check_audit_divergence m =
    let known = m.known_samples in
    let shadow = m.shadow_samples in
    let n = length known in
    let k = length shadow in
    let θ = m.config.audit_divergence_threshold in
    if ltb n m.config.audit_min_samples || ltb k m.config.audit_min_samples
    then some none
    else if eqb n 0 || eqb k 0
    then none
    else signal_if
        (ltb (θ * (2 * (n * k))) (unit * variation known shadow)
          || diverges θ 4 (sum_by (λ (s : AuditSample). s.sampled_rank) known) n
              (sum_by (λ (s : AuditSample). s.sampled_rank) shadow) k
          || diverges θ 1 (count_if (λ (s : AuditSample). s.escalated) known) n
              (count_if (λ (s : AuditSample). s.escalated) shadow) k)
        gim_2 "audit_behavior" critical

-- `_phi(xs, ys) > threshold`: the product of the margins, whose square root divides, is squared away.
unfoldable pub phi_above : ℕ → ℕ → ℕ → ℕ → ℕ → Bool
phi_above threshold n11 n10 n01 n00 =
    let den = (n11 + n10) * (n01 + n00) * ((n11 + n01) * (n10 + n00)) in
    let num = n11 * n00 - n10 * n01 in
    if eqb den 0 then false else ltb (threshold * threshold * den) (unit * unit * (num * num))

-- `rate > threshold` of a count.
abbrev pub rate_above : ℕ → ℕ → ℕ → Bool
rate_above threshold n count = ltb (threshold * n) (unit * count)

unfoldable pub check_escalation_framing_bias : IntegrityMonitor → Detection
unfolding phi_above
check_escalation_framing_bias m =
    let c = m.config in
    let es = m.escalations in
    let n = length es in
    let cell : Bool → Bool → ℕ = λ x y.
      count_if
        (λ (e : FramedEscalation).
          (if x then e.preferred_favorably_framed else not e.preferred_favorably_framed)
          && (if y then e.preferred_chosen else not e.preferred_chosen))
        es in
    if ltb n c.escalation_min_samples
    then some none
    else if eqb n 0
    then none
    else signal_if
        ((rate_above c.preferred_approval_threshold n
              (count_if (λ (e : FramedEscalation). e.preferred_chosen) es)
            && phi_above c.framing_correlation_threshold (cell true true) (cell true false)
                (cell false true) (cell false false))
          || rate_above c.position_bias_threshold n
              (count_if (λ (e : FramedEscalation). e.first_option_chosen) es))
        gim_4 "escalation_framing" warning

-- The last period of challenges, and the one before it.
abbrev pub recent_period : ℕ → List Challenge → List Challenge
recent_period period cs = last_n period cs

abbrev pub prior_period : ℕ → List Challenge → List Challenge
prior_period period cs = take period (drop (length cs - 2 * period) cs)

unfoldable pub check_adversarial_collapse : IntegrityMonitor → Detection
check_adversarial_collapse m =
    let c = m.config in
    let period = c.challenge_window in
    let recent = recent_period period m.challenges in
    let prior = prior_period period m.challenges in
    let endorsed : List Challenge → ℕ = λ cs. count_if (λ (x : Challenge). x.endorsed) cs in
    if ltb (length m.challenges) (2 * period)
    then some none
    else signal_if
        (rate_above c.endorsement_threshold period (endorsed recent)
          && rate_above c.endorsement_threshold period (endorsed prior)
          && ltb (unit * count_if (λ (x : Challenge). x.material_change) recent)
              (c.material_change_floor * period))
        gim_5 "adversarial_challenger"
        (if leb (c.collapse_endorsement_rate * period) (unit * endorsed recent)
          then critical
          else warning)

-- The signals of several detectors, in order; `none` if one of them raises.
unfoldable pub collect : List Detection → Option (List IntegritySignal)
collect [] = some []
collect (d ∷ ds) =
    d >>= λ found. collect ds >>= λ rest. some (elim found [ none ↦ rest | some s ↦ s ∷ rest ])

unfoldable pub scan : IntegrityMonitor → Option (List IntegritySignal)
unfolding collect
scan m = collect (
    map (λ (e : String × List Observation). check_authorization_drift m e.0) m.by_action
    ++ (map (λ (e : String × List Observation). check_decomposition m e.0) m.by_target
        ++ check_audit_divergence m
          ∷ check_escalation_framing_bias m
          ∷ check_adversarial_collapse m
          ∷ []))

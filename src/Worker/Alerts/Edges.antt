-- ===== src/Worker/Alerts/Edges.antt =====
-- Alerts are edge-triggered: which rules fire, and how often one rule can fire over a history.
use riskrail.Base.{
  ℕ, ◌+◌, ◌≤◌, ◌≡◌, ap, ◌∙◌, inl, inr, Bool, true, false, not, ◌&&◌, String, Option, none, some,
  List, [], ◌∷◌, arith, sym, length-keep-append, keep, length, is_some, Option-cases, if◌then◌else◌,
}
use riskrail.Base.Int.{ℤ}
use riskrail.Worker.Alerts.{
  MetricSnapshot, Threshold, AlertRule, Effect, metric_value, in_breach, crossed_into_breach,
  previous_value, to_number, evaluate_rule, evaluate_rules,
}

-- an event of the loop that is stored, and not only sent
abbrev pub is_stored : Effect → Bool
is_stored (Effect.alert_event rule_id value) = true
is_stored _ = false

-- the metric has a value in breach, the threshold is a number, and the previous value was not in breach
abbrev pub fires : MetricSnapshot → Option MetricSnapshot → AlertRule → Bool
fires snapshot previous rule = elim (to_number rule.threshold) [
  | none ↦ false
  | some threshold ↦
      in_breach (metric_value snapshot rule.metric) rule.operator threshold
      && not (in_breach (previous_value previous rule.metric) rule.operator threshold)
]

-- A rule fires exactly when its metric has a value, its threshold is a number, and the value has
-- crossed into breach since the previous snapshot.
pub fires-eq-evaluate_rule :
    (snapshot : MetricSnapshot) (previous : Option MetricSnapshot) (rule : AlertRule)
    → is_some (evaluate_rule snapshot previous rule) ≡ fires snapshot previous rule
unfolding evaluate_rule crossed_into_breach
fires-eq-evaluate_rule snapshot previous rule = ground arith

-- a rule that fires stores one event
stored_once :
    (snapshot : MetricSnapshot) (previous : Option MetricSnapshot) (rule : AlertRule)
    (es : List Effect)
    → evaluate_rule snapshot previous rule ≡ some es
    → length (keep is_stored es) ≡ 1
unfolding evaluate_rule
stored_once snapshot previous rule es fired = ground arith

-- The loop stores as many events as there are rules that fire, and reports their number.
pub evaluate_rules-counts :
    (snapshot : MetricSnapshot) (previous : Option MetricSnapshot) (rules : List AlertRule)
    → ((evaluate_rules snapshot previous rules).1 ≡ length (keep (fires snapshot previous) rules))
      × (length (keep is_stored (evaluate_rules snapshot previous rules).0)
          ≡ length (keep (fires snapshot previous) rules))
unfolding evaluate_rules
evaluate_rules-counts snapshot previous [] = omega arith
evaluate_rules-counts snapshot previous (rule ∷ rest) =
    let (counted, stored) = evaluate_rules-counts snapshot previous rest in
    let agree = fires-eq-evaluate_rule snapshot previous rule in
    elim (Option-cases (evaluate_rule snapshot previous rule)) [
      | inl none_eq ↦
          let quiet : fires snapshot previous rule ≡ false = sym agree ∙ ap is_some none_eq in
          (
            rw (none_eq, evaluate_rules, quiet, counted),
            rw (none_eq, evaluate_rules, quiet, stored),
          )
      | inr (es, some_eq) ↦
          let loud : fires snapshot previous rule ≡ true = sym agree ∙ ap is_some some_eq in
          let once = stored_once snapshot previous rule es some_eq in
          (
            rw (some_eq, evaluate_rules, loud, counted) (omega arith),
            rw (some_eq, evaluate_rules, loud, length-keep-append, once, stored) (omega arith),
          )
    ]

-- how often a rule fires over the values of its metric, oldest first
unfoldable pub firings : String → Threshold → Option ℤ → List (Option ℤ) → ℕ
firings operator threshold previous [] = 0
firings operator threshold previous (current ∷ later) =
    (if crossed_into_breach current previous operator threshold then 1 else 0)
    + firings operator threshold current later

-- Between two firings of a rule its metric has left the breach: over any history the rule fires at
-- most once more than there are values outside the breach.
pub firings-bounded :
    (operator : String) (threshold : Threshold) (previous : Option ℤ) (history : List (Option ℤ))
    → firings operator threshold previous history
        + (if in_breach previous operator threshold then 1 else 0)
      ≤ length (keep (λ v. not (in_breach v operator threshold)) history) + 1
unfolding firings crossed_into_breach
firings-bounded operator threshold previous [] = ground arith
firings-bounded operator threshold previous (none ∷ later) =
    ground (arith, firings-bounded operator threshold none later)
firings-bounded operator threshold previous (some z ∷ later) =
    ground (arith, firings-bounded operator threshold (some z) later)

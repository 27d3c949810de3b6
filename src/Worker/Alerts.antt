-- ===== src/Worker/Alerts.antt =====
-- apps/worker/src/alert-evaluator.ts, and the loops of `alertWorker` and `evaluateOnchainPolicy` in
-- main.ts. What a loop writes and sends is the list of its effects. Metrics are integers; a rule's
-- threshold is a text of digits with an optional fraction, as the API stores it, and is read exactly.
pub mod Edges
use Prim.Native.Char.{code}
use Prim.Native.String.{◌++◌ as append}
use text.Mathlib.Text.{◌==◌ as str_eq}
use riskrail.Base.{
  ℕ, ◌+◌, ◌-◌, ◌*◌, ◌^◌, ◌==◌, leb, Bool, true, false, not, ◌&&◌, String, Option, none, some, List,
  [], ◌∷◌, ◌++◌, if◌then◌else◌,
}
use riskrail.Base.Int.{ℤ, pos, ◌*ℤ◌, ltb_ℤ, leb_ℤ}
use riskrail.Contracts.{RiskPolicy}

pub record MetricSnapshot : Type 0 where
  pub risk_score_bps : ℤ
  pub health_factor_e4 : Option ℤ
  pub liquidation_distance_bps : Option ℤ
  pub protocol_concentration_bps : ℤ
  pub asset_concentration_bps : ℤ
  pub liquidity_score_bps : ℤ
  pub capital_accessibility_bps : ℤ

-- mantissa / 10 ^ places
pub record Threshold : Type 0 where
  pub mantissa : ℤ
  pub places : ℕ

abbrev pub whole : ℤ → Threshold
whole z = record { mantissa = z; places = 0 }

read_fraction : ℕ → ℕ → String → Option Threshold
read_fraction acc places String.[] = some (record { mantissa = pos acc; places = places })
read_fraction acc places (String.◌∷◌ c s) =
    let rest = read_fraction (acc * 10 + (code c - b'0')) (places + 1) s in
    if leb b'0' (code c) && leb (code c) b'9' then rest else none

-- the digits before the point, one of which has been read
read_digits : ℕ → String → Option Threshold
unfolding read_fraction
read_digits acc String.[] = some (whole (pos acc))
read_digits acc (String.◌∷◌ c s) =
    let rest = read_digits (acc * 10 + (code c - b'0')) s in
    let fraction = if str_eq s "" then none else read_fraction acc 0 s in
    if leb b'0' (code c) && leb (code c) b'9'
    then rest
    else if code c == b'.'
    then fraction
    else none

-- `Number(rule.threshold)`, where it is finite
unfoldable pub to_number : String → Option Threshold
unfolding read_digits
to_number String.[] = none
to_number (String.◌∷◌ c s) =
    if leb b'0' (code c) && leb (code c) b'9' then read_digits (code c - b'0') s else none

pub record PolicyCheck : Type 0 where
  pub metric : String
  pub operator : String
  pub threshold : Threshold

unfoldable pub metric_value : MetricSnapshot → String → Option ℤ
metric_value s metric =
    if str_eq metric "riskScoreBps"
    then some s.risk_score_bps
    else if str_eq metric "healthFactorE4"
    then s.health_factor_e4
    else if str_eq metric "liquidationDistanceBps"
    then s.liquidation_distance_bps
    else if str_eq metric "protocolConcentrationBps"
    then some s.protocol_concentration_bps
    else if str_eq metric "assetConcentrationBps"
    then some s.asset_concentration_bps
    else if str_eq metric "liquidityScoreBps"
    then some s.liquidity_score_bps
    else if str_eq metric "capitalAccessibilityBps"
    then some s.capital_accessibility_bps
    else none

abbrev scaled_value : ℤ → Threshold → ℤ
scaled_value value t = value *ℤ pos (10 ^ t.places)

unfoldable pub compare_threshold : ℤ → String → Threshold → Bool
compare_threshold value operator threshold =
    if str_eq operator "lt"
    then ltb_ℤ (scaled_value value threshold) threshold.mantissa
    else if str_eq operator "lte"
    then leb_ℤ (scaled_value value threshold) threshold.mantissa
    else if str_eq operator "gt"
    then ltb_ℤ threshold.mantissa (scaled_value value threshold)
    else if str_eq operator "gte"
    then leb_ℤ threshold.mantissa (scaled_value value threshold)
    else false

-- `previousValue === undefined ? false : compareThreshold(…)`
abbrev pub in_breach : Option ℤ → String → Threshold → Bool
in_breach none operator threshold = false
in_breach (some value) operator threshold = compare_threshold value operator threshold

unfoldable pub crossed_into_breach : Option ℤ → Option ℤ → String → Threshold → Bool
crossed_into_breach none previous operator threshold = false
crossed_into_breach (some value) previous operator threshold =
    compare_threshold value operator threshold && not (in_breach previous operator threshold)

unfoldable pub policy_checks : RiskPolicy → List PolicyCheck
policy_checks policy =
    record { metric = "riskScoreBps"; operator = "gt"; threshold = whole policy.max_risk_score_bps }
    ∷ record {
      metric = "healthFactorE4";
      operator = "lt";
      threshold = whole policy.min_health_factor_e4;
    }
    ∷ record {
      metric = "protocolConcentrationBps";
      operator = "gt";
      threshold = whole policy.max_protocol_concentration_bps;
    }
    ∷ record {
      metric = "liquidityScoreBps";
      operator = "lt";
      threshold = whole policy.min_liquidity_score_bps;
    }
    ∷ []

-- `previous ? metricValue(previous, metric) : undefined`
abbrev pub previous_value : Option MetricSnapshot → String → Option ℤ
previous_value none metric = none
previous_value (some s) metric = metric_value s metric

-- What one breach writes and sends, in order: the stored event, the realtime event with its webhook
-- fan-out, and the email to the wallet's owner.
pub data Effect : Type 0 where
  alert_event : (rule_id : String) (value : ℤ) → Effect
  breach_event : (metric operator : String) (threshold : Threshold) (value : ℤ) → Effect
  realtime :
      (event : String) (metric operator : String) (threshold : Threshold) (value : ℤ) → Effect
  email : (rule_id : String) (metric operator : String) (threshold : Threshold) (value : ℤ) → Effect

pub record AlertRule : Type 0 where
  pub id : String
  pub metric : String
  pub operator : String
  pub threshold : String

abbrev alert_effects : AlertRule → Threshold → ℤ → List Effect
alert_effects rule threshold value =
    alert_event rule.id value
    ∷ realtime "alert.triggered" rule.metric rule.operator threshold value
    ∷ email rule.id rule.metric rule.operator threshold value
    ∷ []

-- the body of the loop over the local rules; `none` is `continue`
unfoldable pub evaluate_rule :
    MetricSnapshot → Option MetricSnapshot → AlertRule → Option (List Effect)
evaluate_rule snapshot previous rule = elim (metric_value snapshot rule.metric) [
  | none ↦ none
  | some value ↦ elim (to_number rule.threshold) [
    | none ↦ none
    | some threshold ↦
        if crossed_into_breach (some value) (previous_value previous rule.metric) rule.operator
          threshold
        then some (alert_effects rule threshold value)
        else none
  ]
]

-- the effects of the loop, and `localTriggered`
unfoldable pub evaluate_rules :
    MetricSnapshot → Option MetricSnapshot → List AlertRule → List Effect × ℕ
evaluate_rules snapshot previous [] = ([], 0)
evaluate_rules snapshot previous (rule ∷ rest) =
    let (effects, triggered) = evaluate_rules snapshot previous rest in
    elim (evaluate_rule snapshot previous rule) [
      | none ↦ (effects, triggered)
      | some es ↦ (es ++ effects, triggered + 1)
    ]

-- the body of the loop over a policy's checks
unfoldable pub evaluate_check :
    MetricSnapshot → Option MetricSnapshot → PolicyCheck → Option (List Effect)
evaluate_check snapshot previous check = elim (metric_value snapshot check.metric) [
  | none ↦ none
  | some value ↦
      if crossed_into_breach (some value) (previous_value previous check.metric) check.operator
        check.threshold
      then some (
          breach_event check.metric check.operator check.threshold value
          ∷ realtime "policy.breached" check.metric check.operator check.threshold value
          ∷ email (append "policy:" check.metric) check.metric check.operator check.threshold value
          ∷ [])
      else none
]

evaluate_checks : MetricSnapshot → Option MetricSnapshot → List PolicyCheck → List Effect × ℕ
unfolding evaluate_check
evaluate_checks snapshot previous [] = ([], 0)
evaluate_checks snapshot previous (check ∷ rest) =
    let (effects, triggered) = evaluate_checks snapshot previous rest in
    elim (evaluate_check snapshot previous check) [
      | none ↦ (effects, triggered)
      | some es ↦ (es ++ effects, triggered + 1)
    ]

-- `evaluateOnchainPolicy`: a policy that cannot be read, or is missing or disabled, triggers nothing
unfoldable pub evaluate_onchain_policy :
    (configured : Bool) (read : Option (Option RiskPolicy))
    → MetricSnapshot
    → Option MetricSnapshot
    → List Effect × ℕ
unfolding evaluate_checks policy_checks
evaluate_onchain_policy false read snapshot previous = ([], 0)
evaluate_onchain_policy true none snapshot previous = ([], 0)
evaluate_onchain_policy true (some none) snapshot previous = ([], 0)
evaluate_onchain_policy true (some (some policy)) snapshot previous =
    if policy.enabled then evaluate_checks snapshot previous (policy_checks policy) else ([], 0)

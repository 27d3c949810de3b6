-- ===== src/Worker/Report.antt =====
-- The report that `riskWorker` of apps/worker/src/main.ts builds, hashes and stores.
use riskrail.Base.{
  ℕ, Bool, ◌||◌, String, Option, none, some, List, [], ◌∷◌, keep, is_some, if◌then◌else◌,
}
use riskrail.Base.Text.{join}
use riskrail.Base.Decimal.{to_decimal}
use riskrail.Base.Int.{ℤ, pos}
use riskrail.Value.{
  Value, undefined, null, bool, number, bigint, str, array, object, Items, nil, cons, Fields, end,
  field,
}
use riskrail.Value.Same.{is_undefined}
use riskrail.Position.{NormalizedPosition, RiskLevel, Accessibility, Liquidation, type_text}
use riskrail.Risk.Score.{PortfolioRiskSummary}
use riskrail.Risk.Stress.{
  PriceShock, StressScenario, StressPositionResult, StressScenarioResult, Warning,
}

abbrev pub methodology_version : String
methodology_version = "rivisk-v1.2"

-- an optional property
abbrev optional_number : Option ℤ → Value
optional_number none = undefined
optional_number (some n) = number n

abbrev optional_text : Option String → Value
optional_text none = undefined
optional_text (some s) = str s

abbrev optional_height : Option ℕ → Value
optional_height none = undefined
optional_height (some n) = number (pos n)

unfoldable pub level_text : RiskLevel → String
level_text RiskLevel.healthy = "healthy"
level_text RiskLevel.moderate = "moderate"
level_text RiskLevel.elevated = "elevated"
level_text RiskLevel.critical = "critical"
level_text RiskLevel.unknown = "unknown"

-- `array.map(…)`
abbrev pub array_of {ℓ} : {A : Type ℓ} → (A → Value) → List A → Items
array_of f [] = nil
array_of f (a ∷ rest) = cons (f a) (array_of f rest)

unfoldable pub summary_value : PortfolioRiskSummary → Value
unfolding level_text
summary_value s = object (
    field "protocolConcentrationBps" (number s.protocol_concentration_bps) (
      field "assetConcentrationBps" (number s.asset_concentration_bps) (
        field "capitalAccessibilityBps" (number s.capital_accessibility) (
          field "liquidityScoreBps" (number s.liquidity_score_bps) (
            field "riskScoreBps" (number s.risk_score_bps) (
              field "riskLevel" (str (level_text s.risk_level)) (
                field "worstHealthFactorE4" (optional_number s.worst_health_factor_e4) (
                  field "liquidationDistanceBps" (optional_number s.liquidation_distance_bps)
                    end))))))))

unfoldable pub shock_value : PriceShock → Value
shock_value s = object (
    field "assetId" (optional_text s.asset_id)
      (field "symbol" (optional_text s.symbol) (field "changeBps" (number s.change_bps) end)))

unfoldable pub scenario_value : StressScenario → Value
unfolding shock_value
scenario_value s = object (
    field "id" (optional_text s.id) (
      field "name" (optional_text s.name)
        (field "shocks" (array (array_of shock_value s.shocks)) end)))

unfoldable pub stress_position_value : StressPositionResult → Value
stress_position_value p = object (
    field "positionId" (str p.position_id) (
      field "protocolId" (str p.protocol_id) (
        field "type" (str (type_text p.position_type)) (
          field "beforeValueUsd" (optional_text p.before_value_usd) (
            field "afterValueUsd" (optional_text p.after_value_usd) (
              field "beforeHealthFactorE4" (optional_number p.before_health_factor_e4) (
                field "afterHealthFactorE4" (optional_number p.after_health_factor_e4) (
                  field "beforeLiquidationDistanceBps"
                    (optional_number p.before_liquidation_distance_bps)
                    (field "afterLiquidationDistanceBps"
                      (optional_number p.after_liquidation_distance_bps)
                      (field "liquidatableBefore" (bool p.liquidatable_before)
                        (field "liquidatableAfter" (bool p.liquidatable_after) end)))))))))))

-- the positions of a scenario that the report keeps
abbrev pub has_health_factor : StressPositionResult → Bool
has_health_factor p = is_some p.before_health_factor_e4 || is_some p.after_health_factor_e4

-- the messages of `runStressScenario`
unfoldable pub warning_text : Warning → String
unfolding to_decimal
warning_text (Warning.newly_liquidatable n) =
    join (to_decimal n) " position(s) cross the partial-liquidation threshold in this scenario."
warning_text Warning.critical_band =
    "Portfolio risk moves into the critical band under this scenario."

unfoldable pub stress_value : StressScenarioResult → Value
unfolding scenario_value summary_value stress_position_value warning_text
stress_value r = object (
    field "scenario" (scenario_value r.scenario) (
      field "after" (summary_value r.after) (
        field "warnings" (array (array_of (λ w. str (warning_text w)) r.warnings)) (
          field "positions"
            (array (array_of stress_position_value (keep has_health_factor r.positions))) end))))

-- `position.accessibility ?? null`
abbrev accessibility_value : Option Accessibility → Value
accessibility_value none = null
accessibility_value (some a) = object (
    field "liquidBps" (number a.liquid_bps)
      (field "lockedUntilBlock" (optional_height a.locked_until_block) end))

-- `position.liquidation ?? null`
abbrev liquidation_value : Option Liquidation → Value
liquidation_value none = null
liquidation_value (some l) = object (
    field "thresholdE4" (optional_number l.threshold_e4) (
      field "priceUsd" (optional_text l.price_usd) (
        field "healthFactorE4" (optional_number l.health_factor_e4) (
          field "distanceBps" (optional_number l.distance_bps) (
            field "partialThresholdBps" (optional_number l.partial_threshold_bps)
              (field "fullThresholdBps" (optional_number l.full_threshold_bps) end))))))

abbrev text_or_null : Option String → Value
text_or_null none = null
text_or_null (some s) = str s

unfoldable pub position_value : NormalizedPosition → Value
position_value p = object (
    field "id" (str p.id) (
      field "protocolId" (str p.protocol.id) (
        field "type" (str (type_text p.position_type)) (
          field "valueUsd" (text_or_null p.value_usd) (
            field "accessibility" (accessibility_value p.accessibility)
              (field "liquidation" (liquidation_value p.liquidation) end))))))

abbrev notes : Value
notes = object (
    field "liquidityScore"
      (str "MVP proxy based on capital accessibility until market-depth adapters are enabled.")
      (field "compositeScore"
        (str "Presentation aid only. Individual metrics remain the primary risk evidence.") end))

-- `report`
unfoldable pub report_of :
    (address : String) (source_block : ℤ) (generated_at : String) (coverage_bps : ℤ)
    → PortfolioRiskSummary
    → List StressScenarioResult
    → List NormalizedPosition
    → Value
unfolding summary_value stress_value position_value
report_of address source_block generated_at coverage_bps risk stress positions = object (
    field "version" (str methodology_version) (
      field "wallet" (str address) (
        field "sourceBlock" (number source_block) (
          field "generatedAt" (str generated_at) (
            field "valuationCoverageBps" (number coverage_bps) (
              field "metrics" (summary_value risk) (
                field "stress" (array (array_of stress_value stress)) (
                  field "positions" (array (array_of position_value positions))
                    (field "notes" notes end)))))))))

-- a field of a copy: one with an undefined value is left out
abbrev copied_field : String → Value → Value → Fields → Fields
copied_field k v copy rest = if is_undefined v then rest else field k copy rest

-- `JSON.parse(JSON.stringify(value))` of a value without a bigint
unfoldable mutual
  pub json_copy : Value → Value
  json_copy undefined = null
  json_copy (array xs) = array (copy_items xs)
  json_copy (object fs) = object (copy_fields fs)
  json_copy null = null
  json_copy (bool b) = bool b
  json_copy (number n) = number n
  json_copy (bigint n) = bigint n
  json_copy (str s) = str s

  pub copy_items : Items → Items
  copy_items nil = nil
  copy_items (cons x xs) = cons (json_copy x) (copy_items xs)

  pub copy_fields : Fields → Fields
  copy_fields end = end
  copy_fields (field k v fs) = copied_field k v (json_copy v) (copy_fields fs)

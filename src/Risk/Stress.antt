-- ===== src/Risk/Stress.antt =====
-- packages/risk-engine: price shocks and stress scenarios. A warning is the message's kind with the
-- number that it prints.
pub mod Results
pub use Results.*
use text.Mathlib.Text.{◌==◌ as str_eq}
use riskrail.Base.{
  ℕ, Bool, true, false, not, ◌&&◌, ◌||◌, String, Option, none, some, List, [], ◌∷◌, ◌++◌, map, find,
  ltb, length, keep, if◌then◌else◌,
}
use riskrail.Base.Int.{ℤ, pos, negsuc, ◌+ℤ◌, leb_ℤ}
use riskrail.Base.Text.{to_lower}
use riskrail.Numbers.{Numbers}
use riskrail.Value.{Value, bool, str, object, Fields, end, get_field, set_field}
use riskrail.Position.{
  PositionAsset, NormalizedPosition, PositionType, is_debt, RiskLevel, critical,
}
use riskrail.Portfolio.{truthy, zero_usd, ten_thousand, derive_lending_metrics}
use riskrail.Risk.Score.{
  PortfolioRiskSummary, calculate_portfolio_risk, health_factor_of, distance_of,
}

-- `text?.toLowerCase() === wanted`
abbrev pub matches : Option String → String → Bool
matches none wanted = false
matches (some s) wanted = str_eq (to_lower s) wanted

-- `['btc', 'sbtc'].includes(text)`
abbrev pub is_btc : String → Bool
is_btc s = str_eq s "btc" || str_eq s "sbtc"

abbrev pub linked : Option String → Bool
linked none = false
linked (some s) = is_btc (to_lower s)

abbrev change_or_zero : Option PriceShock → ℤ
change_or_zero none = pos 0
change_or_zero (some shock) = shock.change_bps

unfoldable pub resolve_shock : String → String → List PriceShock → ℤ
resolve_shock asset_id symbol shocks =
    elim (find (λ shock. matches shock.asset_id (to_lower asset_id)) shocks) [
      | some shock ↦ shock.change_bps
      | none ↦ elim (find (λ shock. matches shock.symbol (to_lower symbol)) shocks) [
        | some shock ↦ shock.change_bps
        | none ↦
            if is_btc (to_lower symbol)
            then change_or_zero (find (λ shock. linked shock.symbol) shocks)
            else pos 0
      ]
    ]

-- `beforeHf !== undefined && beforeHf <= 10_000`
abbrev pub liquidatable : Option ℤ → Bool
liquidatable none = false
liquidatable (some h) = leb_ℤ h (pos 10000)

abbrev pub is_critical : RiskLevel → Bool
is_critical critical = true
is_critical _ = false

abbrev pub default_stress_scenarios : List StressScenario
default_stress_scenarios =
    btc "btc-minus-10" "BTC -10%" (negsuc 999)
    ∷ btc "btc-minus-20" "BTC -20%" (negsuc 1999)
    ∷ btc "btc-minus-30" "BTC -30%" (negsuc 2999)
    ∷ record {
      id = some "stx-minus-20";
      name = some "STX -20%";
      shocks = on "STX" (negsuc 1999) ∷ [];
    }
    ∷ []
  where
    on : String → ℤ → PriceShock
    on symbol change = record { asset_id = none; symbol = some symbol; change_bps = change }

    btc : String → String → ℤ → StressScenario
    btc id name change = record {
      id = some id;
      name = some name;
      shocks = on "BTC" change ∷ on "sBTC" change ∷ [];
    }

abbrev pub newly : StressPositionResult → Bool
newly r = not r.liquidatable_before && r.liquidatable_after

abbrev stress_warnings :
    List StressPositionResult → PortfolioRiskSummary → PortfolioRiskSummary → List Warning
stress_warnings rs before after =
    (if ltb 0 (length (keep newly rs))
      then newly_liquidatable (length (keep newly rs)) ∷ []
      else [])
    ++ (if is_critical after.risk_level && not (is_critical before.risk_level)
        then critical_band ∷ []
        else [])

module _ (num : Numbers) where
  open num use {Decimal, decimal, of_int, plus, minus, times, div, abs, to_fixed}

  -- `new Decimal(10_000 + change).div(10_000)`
  abbrev pub multiplier : ℤ → Decimal
  multiplier change = div (of_int (pos 10000 +ℤ change)) (ten_thousand num)

  shock_asset : List PriceShock → ValuedAsset → ValuedAsset
  shock_asset shocks asset =
      let change =
        change_or_zero (find (λ shock. matches shock.asset_id (to_lower asset.asset_id)) shocks) in
      record asset { value_usd = to_fixed 2 (times (decimal asset.value_usd) (multiplier change)) }

  unfoldable pub apply_price_shocks : List ValuedAsset → List PriceShock → List ValuedAsset
  unfolding shock_asset
  apply_price_shocks assets shocks = map (shock_asset shocks) assets

  -- the three accumulators of `stressPosition`
  pub record StressTotals : Type 0 where
    pub positive : Decimal
    pub debt : Decimal
    pub gross : Decimal

  abbrev pub count_value : Bool → Decimal → StressTotals → StressTotals
  count_value true value t = record t { debt = plus t.debt value; gross = plus t.gross (abs value) }
  count_value false value t = record t {
    positive = plus t.positive value;
    gross = plus t.gross (abs value);
  }

  unfoldable pub stress_assets :
      List PriceShock → List PositionAsset → StressTotals → List PositionAsset × StressTotals
  unfolding resolve_shock
  stress_assets shocks [] t = ([], t)
  stress_assets shocks (asset ∷ rest) t = elim (truthy asset.value_usd) [
    | none ↦ let (assets, t') = stress_assets shocks rest t in (asset ∷ assets, t')
    | some s ↦
        let change = resolve_shock asset.asset_id asset.symbol shocks in
        let value = times (decimal s) (multiplier change) in
        let (assets, t') = stress_assets shocks rest (count_value (is_debt asset.role) value t) in
        (record asset { value_usd = some (to_fixed 8 value) } ∷ assets, t')
  ]

  abbrev record_or_empty : Value → Fields
  record_or_empty (object fs) = fs
  record_or_empty _ = end

  abbrev stressed_valuation : Fields → StressTotals → Fields
  stressed_valuation old t = set_field "stressed" (bool true) (
      set_field "debtUsd" (str (to_fixed 8 t.debt)) (
        set_field "positiveAssetsUsd" (str (to_fixed 8 t.positive))
          (set_field "grossExposureUsd" (str (to_fixed 8 t.gross)) old)))

  unfoldable pub stress_position : NormalizedPosition → List PriceShock → NormalizedPosition
  unfolding stress_assets
  stress_position position shocks =
      let (assets, t) =
        stress_assets shocks position.assets
          (record { positive = zero_usd num; debt = zero_usd num; gross = zero_usd num }) in
      derive_lending_metrics num
        (record position {
          assets = assets;
          value_usd = some (to_fixed 8 (minus t.positive t.debt));
          metadata =
              set_field "valuation"
                (object (
                  stressed_valuation (record_or_empty (get_field "valuation" position.metadata)) t))
                position.metadata;
        })
        none

  unfoldable pub stress_result : NormalizedPosition → NormalizedPosition → StressPositionResult
  stress_result position stressed = record {
    position_id = position.id;
    protocol_id = position.protocol.id;
    position_type = position.position_type;
    before_value_usd = position.value_usd;
    after_value_usd = stressed.value_usd;
    before_health_factor_e4 = health_factor_of position;
    after_health_factor_e4 = health_factor_of stressed;
    before_liquidation_distance_bps = distance_of position;
    after_liquidation_distance_bps = distance_of stressed;
    liquidatable_before = liquidatable (health_factor_of position);
    liquidatable_after = liquidatable (health_factor_of stressed);
  }

  -- `positions.map((position, index) => … shockedPositions[index]! …)`
  unfoldable pub results :
      List NormalizedPosition → List NormalizedPosition → List StressPositionResult
  unfolding stress_result
  results (p ∷ ps) (q ∷ qs) = stress_result p q ∷ results ps qs
  results [] qs = []
  results (p ∷ ps) [] = []

  unfoldable pub run_stress_scenario :
      List NormalizedPosition → StressScenario → StressScenarioResult
  unfolding results
  run_stress_scenario positions scenario =
      let before = calculate_portfolio_risk num positions in
      let shocked = map (λ p. stress_position p scenario.shocks) positions in
      let after = calculate_portfolio_risk num shocked in
      let rs = results positions shocked in
      record {
        scenario = scenario;
        before = before;
        after = after;
        positions = rs;
        warnings = stress_warnings rs before after;
      }

  unfoldable pub run_default_stress_scenarios : List NormalizedPosition → List StressScenarioResult
  run_default_stress_scenarios positions =
      map (λ scenario. run_stress_scenario positions scenario) default_stress_scenarios

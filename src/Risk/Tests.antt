-- ===== src/Risk/Tests.antt =====
-- Tests of the risk engine, and its theorems on concrete portfolios.
use riskrail.Base.{◌≡◌, ◌↔◌, refl, Bool, none, some, List, [], ◌∷◌, map, any, All, arith}
use riskrail.Base.Int.{pos, negsuc, ◌≤ℤ◌}
use riskrail.Numbers.Scaled.{scaled, scaled-IsLawful, scaled_exact}
use riskrail.Position.{NormalizedPosition, critical}
use riskrail.Samples.{wallet_position, half_derived, full_derived}
use riskrail.Risk.Score.{health_factor_of, calculate_portfolio_risk}
use riskrail.Risk.Stress.{PriceShock, StressScenario}
use riskrail.Risk.Bounds.{IsAccessible, summary-bounds}
use riskrail.Risk.Levels.{low_health, critical_iff_low_health}

abbrev portfolio : List NormalizedPosition
portfolio = half_derived ∷ wallet_position ∷ full_derived ∷ []

abbrev btc_drop : PriceShock
btc_drop = record { asset_id = none; symbol = some "BTC"; change_bps = negsuc 1999 }

abbrev drop_scenario : StressScenario
drop_scenario = record { id = some "drop"; name = none; shocks = btc_drop ∷ [] }

critical_iff_low_health_example :
    ((calculate_portfolio_risk scaled portfolio).risk_level ≡ critical)
    ↔ (any low_health (map health_factor_of portfolio) ≡ Bool.true)
critical_iff_low_health_example = critical_iff_low_health scaled portfolio (pos 16000) refl

accessible : All (IsAccessible scaled scaled-IsLawful) portfolio
accessible = (
  record { exact = scaled_exact _; lower = omega arith; upper = omega arith },
  (
    record { exact = scaled_exact _; lower = omega arith; upper = omega arith },
    (record { exact = scaled_exact _; lower = omega arith; upper = omega arith }, tt),
  ),
)

summary-bounds_example :
    let s = calculate_portfolio_risk scaled portfolio in
    ((pos 0 ≤ℤ s.risk_score_bps) × (s.risk_score_bps ≤ℤ pos 10000))
    × ((pos 0 ≤ℤ s.protocol_concentration_bps) × (s.protocol_concentration_bps ≤ℤ pos 10000))
    × ((pos 0 ≤ℤ s.liquidity_score_bps) × (s.liquidity_score_bps ≤ℤ pos 10000))
summary-bounds_example = summary-bounds scaled scaled-IsLawful portfolio accessible

-- ===== src/Risk/Stress/Results.antt =====
-- The scenarios of packages/risk-engine and what they result in.
use riskrail.Base.{ℕ, Bool, String, Option, List}
use riskrail.Base.Int.{ℤ}
use riskrail.Position.{PositionType}
use riskrail.Risk.Score.{PortfolioRiskSummary}

pub record PriceShock : Type 0 where
  pub asset_id : Option String
  pub symbol : Option String
  pub change_bps : ℤ

pub record ValuedAsset : Type 0 where
  pub asset_id : String
  pub value_usd : String

pub record StressScenario : Type 0 where
  pub id : Option String
  pub name : Option String
  pub shocks : List PriceShock

pub record StressPositionResult : Type 0 where
  pub position_id : String
  pub protocol_id : String
  pub position_type : PositionType
  pub before_value_usd : Option String
  pub after_value_usd : Option String
  pub before_health_factor_e4 : Option ℤ
  pub after_health_factor_e4 : Option ℤ
  pub before_liquidation_distance_bps : Option ℤ
  pub after_liquidation_distance_bps : Option ℤ
  pub liquidatable_before : Bool
  pub liquidatable_after : Bool

pub data Warning : Type 0 where
  newly_liquidatable : ℕ → Warning
  critical_band : Warning

pub record StressScenarioResult : Type 0 where
  pub scenario : StressScenario
  pub before : PortfolioRiskSummary
  pub after : PortfolioRiskSummary
  pub positions : List StressPositionResult
  pub warnings : List Warning

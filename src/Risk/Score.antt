-- ===== src/Risk/Score.antt =====
-- packages/risk-engine: the levels, the composite score and the portfolio's risk summary.
use riskrail.Base.{Option, none, some, List, [], ◌∷◌, map, if◌then◌else◌, ◌>>=◌}
use riskrail.Base.Int.{ℤ, pos, ◌-ℤ◌, ltb_ℤ, leb_ℤ, min_ℤ, max_ℤ}
use riskrail.Numbers.{Numbers}
use riskrail.Position.{
  NormalizedPosition, RiskLevel, healthy, moderate, elevated, critical, unknown,
}
use riskrail.Risk.Exposure.{protocol_concentration, asset_concentration, capital_accessibility_bps}

pub record PortfolioRiskSummary : Type 0 where
  pub protocol_concentration_bps : ℤ
  pub asset_concentration_bps : ℤ
  pub capital_accessibility : ℤ
  pub liquidity_score_bps : ℤ
  pub risk_score_bps : ℤ
  pub risk_level : RiskLevel
  pub worst_health_factor_e4 : Option ℤ
  pub liquidation_distance_bps : Option ℤ

unfoldable pub classify_health_factor : Option ℤ → RiskLevel
classify_health_factor none = unknown
classify_health_factor (some h) =
    if ltb_ℤ h (pos 12000)
    then critical
    else if ltb_ℤ h (pos 15000)
    then elevated
    else if ltb_ℤ h (pos 20000)
    then moderate
    else healthy

unfoldable pub health_risk_bps : Option ℤ → ℤ
health_risk_bps none = pos 0
health_risk_bps (some h) =
    if ltb_ℤ h (pos 12000)
    then pos 10000
    else if ltb_ℤ h (pos 15000)
    then pos 7500
    else if ltb_ℤ h (pos 20000)
    then pos 4000
    else pos 1000

score_level : ℤ → RiskLevel
score_level score =
    if leb_ℤ (pos 7500) score
    then critical
    else if leb_ℤ (pos 5000) score
    then elevated
    else if leb_ℤ (pos 2500) score
    then moderate
    else healthy

-- `health !== 'unknown'`
abbrev known_or : RiskLevel → RiskLevel → RiskLevel
known_or unknown level = level
known_or health level = health

unfoldable pub overall_risk_level : Option ℤ → ℤ → RiskLevel
unfolding classify_health_factor score_level
overall_risk_level health score = known_or (classify_health_factor health) (score_level score)

-- `.filter((x) => x !== undefined)`
unfoldable pub defined : List (Option ℤ) → List ℤ
defined [] = []
defined (none ∷ rest) = defined rest
defined (some z ∷ rest) = z ∷ defined rest

-- `.sort((a, b) => a - b)`
unfoldable pub insert_sorted : ℤ → List ℤ → List ℤ
insert_sorted z [] = z ∷ []
insert_sorted z (y ∷ rest) = if leb_ℤ z y then z ∷ y ∷ rest else y ∷ insert_sorted z rest

unfoldable pub sort_numbers : List ℤ → List ℤ
unfolding insert_sorted
sort_numbers [] = []
sort_numbers (z ∷ rest) = insert_sorted z (sort_numbers rest)

-- `[0]`
abbrev pub first : List ℤ → Option ℤ
first [] = none
first (z ∷ _) = some z

unfoldable pub smallest : List (Option ℤ) → Option ℤ
unfolding defined sort_numbers
smallest values = first (sort_numbers (defined values))

abbrev pub health_factor_of : NormalizedPosition → Option ℤ
health_factor_of p = do l ← p.liquidation; l.health_factor_e4

abbrev pub distance_of : NormalizedPosition → Option ℤ
distance_of p = do l ← p.liquidation; l.distance_bps

module _ (num : Numbers) where
  open num use {of_number, lit, add, mul, quotient, round}

  unfoldable pub concentration_risk_bps : ℤ → ℤ
  concentration_risk_bps top =
      if leb_ℤ top (pos 2500)
      then pos 0
      else min_ℤ (pos 10000) (
          round (
            mul (quotient (of_number (top -ℤ pos 2500)) (of_number (pos 7500)))
              (of_number (pos 10000))))

  -- the weighted sum of `calculatePortfolioRisk`
  unfoldable pub composite_score : ℤ → ℤ → ℤ → ℤ
  composite_score health concentration access = round (
      add (add (mul (of_number health) (lit "0.4")) (mul (of_number concentration) (lit "0.3")))
        (mul (of_number access) (lit "0.3")))

  -- `score`, before the clamp
  unfoldable pub score_of : List NormalizedPosition → ℤ
  score_of positions =
      composite_score (health_risk_bps (smallest (map health_factor_of positions)))
        (concentration_risk_bps (protocol_concentration num positions).top_share_bps)
        (max_ℤ (pos 0) (pos 10000 -ℤ capital_accessibility_bps num positions))

  unfoldable pub calculate_portfolio_risk : List NormalizedPosition → PortfolioRiskSummary
  calculate_portfolio_risk positions =
      let protocol = protocol_concentration num positions in
      let asset = asset_concentration num positions in
      let access = capital_accessibility_bps num positions in
      let worst = smallest (map health_factor_of positions) in
      let score = score_of positions in
      record {
        protocol_concentration_bps = protocol.top_share_bps;
        asset_concentration_bps = asset.top_share_bps;
        capital_accessibility = access;
        liquidity_score_bps = access;
        risk_score_bps = max_ℤ (pos 0) (min_ℤ (pos 10000) score);
        risk_level = overall_risk_level worst score;
        worst_health_factor_e4 = worst;
        liquidation_distance_bps = smallest (map distance_of positions);
      }

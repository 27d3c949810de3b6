-- ===== src/Portfolio/Lending.antt =====
-- `deriveLendingMetrics`: what it changes, when it changes nothing, and the range of its results.
use riskrail.Base.{◌≡◌, ◌⊎◌, inl, inr, Option, none, some, [], arith, is_some, Dict}
use riskrail.Base.Int.{ℤ, pos, negsuc, ◌≤ℤ◌}
use riskrail.Numbers.{Numbers}
use riskrail.Position.{
  NormalizedPosition, is_debt, is_collateral, Liquidation, LendingRiskParameters,
}
use riskrail.Portfolio.{PriceLike, valued_with, derive_lending_metrics, positive}

module _ (num : Numbers) where
  open num use {lte}

  -- Deriving the metrics again, with the same prices, changes nothing.
  pub derive_idempotent :
      (p : NormalizedPosition) (prices : Option (Dict PriceLike))
      → derive_lending_metrics num (derive_lending_metrics num p prices) prices
        ≡ derive_lending_metrics num p prices
  unfolding derive_lending_metrics
  derive_idempotent p prices = ground arith

  -- The metrics replace the collateral, debt and liquidation fields of a position, and no other.
  pub derive-changes :
      (p : NormalizedPosition) (prices : Option (Dict PriceLike))
      → derive_lending_metrics num p prices ≡ record p {
        collateral_of = (derive_lending_metrics num p prices).collateral_of;
        debt_of = (derive_lending_metrics num p prices).debt_of;
        liquidation = (derive_lending_metrics num p prices).liquidation;
      }
  unfolding derive_lending_metrics
  derive-changes p prices = ground arith

  -- A liquidation distance that is derived for a position without liquidation figures lies
  -- between -10000 and 10000 basis points.
  pub derive-distance_bounds :
      (p : NormalizedPosition) (prices : Option (Dict PriceLike)) (l : Liquidation) (d : ℤ)
      → p.liquidation ≡ none
      → (derive_lending_metrics num p prices).liquidation ≡ some l
      → l.distance_bps ≡ some d
      → (negsuc 9999 ≤ℤ d) × (d ≤ℤ pos 10000)
  unfolding derive_lending_metrics
  derive-distance_bounds p prices l d h e k = ground arith

  -- A position without lending parameters, without a valued collateral asset or without a valued
  -- debt asset is returned as it is.
  pub derive-unchanged :
      (p : NormalizedPosition) (prices : Option (Dict PriceLike))
      → (p.lending_of ≡ none)
        ⊎ ((valued_with is_collateral p.assets ≡ []) ⊎ (valued_with is_debt p.assets ≡ []))
      → derive_lending_metrics num p prices ≡ p
  unfolding derive_lending_metrics
  derive-unchanged p prices (inl h) = rw h
  derive-unchanged p prices (inr (inl h)) = ground arith
  derive-unchanged p prices (inr (inr h)) = ground arith

  -- Metrics that are derived for a position without liquidation figures carry a health factor
  -- exactly when the protocol gives a positive partial-liquidation threshold, and the distance
  -- to liquidation exactly then too.
  pub derive-health_iff :
      (p : NormalizedPosition) (prices : Option (Dict PriceLike)) (lending : LendingRiskParameters)
      (l : Liquidation)
      → p.lending_of ≡ some lending
      → p.liquidation ≡ none
      → (derive_lending_metrics num p prices).liquidation ≡ some l
      → (is_some l.health_factor_e4 ≡ is_some (positive lending.partial_liquidation_ltv_bps))
        × (is_some l.distance_bps ≡ is_some (positive lending.partial_liquidation_ltv_bps))
  unfolding derive_lending_metrics
  derive-health_iff p prices lending l k h e = ground arith

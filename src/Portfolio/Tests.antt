-- ===== src/Portfolio/Tests.antt =====
-- Tests of the valuation engine, and its theorems on concrete positions.
use riskrail.Base.{◌≡◌, refl, none, some, [], ◌∷◌, lookup, keep, is_some, Dict}
use mathlib.Core.Option
use riskrail.Numbers.Scaled.{scaled}
use riskrail.Samples.{wallet_position, half, full, half_liquidation, full_liquidation}
use riskrail.Portfolio.{PriceLike, truthy, derive_lending_metrics, build_portfolio}
use riskrail.Portfolio.Coverage.{group_sum, by_protocol-eq-group_sum, assets_of}

half_derives : (derive_lending_metrics scaled half none).liquidation ≡ some half_liquidation
unfolding derive_lending_metrics
half_derives = refl

full_derives : (derive_lending_metrics scaled full none).liquidation ≡ some full_liquidation
unfolding derive_lending_metrics
full_derives = refl

abbrev prices : Dict PriceLike
prices = ("x", record { asset_id = "sbtc"; price_usd = "5" }) ∷ []

by_protocol-eq-group_sum_example :
    lookup "zest" (build_portfolio scaled "SP1" (half ∷ wallet_position ∷ half ∷ [])).by_protocol
    ≡ Option.map
        (scaled.to_fixed 2)
        (group_sum scaled "zest" (half ∷ wallet_position ∷ half ∷ []) none)
by_protocol-eq-group_sum_example =
    by_protocol-eq-group_sum scaled "SP1" (half ∷ wallet_position ∷ half ∷ []) "zest"

half_valued :
    keep (λ a. is_some (truthy a.value_usd)) (assets_of scaled (half ∷ []))
    ≡ assets_of scaled (half ∷ [])
half_valued = refl

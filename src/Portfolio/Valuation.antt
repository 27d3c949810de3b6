-- ===== src/Portfolio/Valuation.antt =====
-- `valuePosition`: the loop over the assets against a map, and what a valuation leaves alone.
use riskrail.Base.{
  String, ◌+◌, ◌≡◌, refl, Bool, true, false, none, some, List, [], ◌∷◌, arith, map, length, inl,
  inr, is_some, Option-cases, Dict, keep, ap, ◌∙◌,
}
use riskrail.Numbers.{Numbers}
use riskrail.Position.{NormalizedPosition, PositionAsset, is_debt}
use riskrail.Portfolio.{
  PriceLike, price_of, atomic_to_decimal, Totals, no_totals, count_asset, value_assets,
  value_position, value_positions, build_portfolio,
}
use riskrail.Portfolio.Lending.{derive-changes}

module _ (num : Numbers) where
  open num use {Decimal, decimal, times, to_fixed}

  -- An asset on its own: quoted at its amount times its price, to eight places, or left as it is.
  abbrev pub revalue : Dict PriceLike → PositionAsset → PositionAsset
  revalue prices asset = elim (price_of prices asset) [
    | none ↦ asset
    | some quote ↦ record asset {
      value_usd = some (
          to_fixed 8 (
            times (atomic_to_decimal num asset.amount_atomic asset.decimals)
              (decimal quote.price_usd)));
    }
  ]

  pub value_assets-eq-map :
      (prices : Dict PriceLike) (assets : List PositionAsset) (t : Totals num)
      → (value_assets num prices assets t).0 ≡ map (revalue prices) assets
  unfolding value_assets
  value_assets-eq-map prices [] t = refl
  value_assets-eq-map prices (asset ∷ rest) t = elim (Option-cases (price_of prices asset)) [
    | inl e ↦ rw (e, value_assets, revalue, value_assets-eq-map prices rest t)
    | inr (quote, e) ↦ rw (e, value_assets, revalue, value_assets-eq-map prices rest _)
  ]

  count-count_asset :
      (b : Bool) (v : Decimal) (t : Totals num)
      → (count_asset num b v t).valued_count ≡ t.valued_count + 1
  count-count_asset true v t = refl
  count-count_asset false v t = refl

  value_assets-count :
      (prices : Dict PriceLike) (assets : List PositionAsset) (t : Totals num)
      → (value_assets num prices assets t).1.valued_count
        ≡ t.valued_count + length (keep (λ a. is_some (price_of prices a)) assets)
  unfolding value_assets
  value_assets-count prices [] t = omega arith
  value_assets-count prices (asset ∷ rest) t = elim (Option-cases (price_of prices asset)) [
    | inl e ↦ rw (e, value_assets) (value_assets-count prices rest t)
    | inr (quote, e) ↦
        let value =
          times (atomic_to_decimal num asset.amount_atomic asset.decimals)
            (decimal quote.price_usd) in
        let t' = count_asset num (is_debt asset.role) value t in
        rw (e, value_assets)
          (omega (
            arith,
            value_assets-count prices rest t',
            count-count_asset (is_debt asset.role) value t,
          ))
  ]

  -- Each asset of a valued position is the asset valued on its own: in the same order, with its
  -- amount, role and identifiers, and untouched where no price is known.
  pub assets-value_position :
      (p : NormalizedPosition) (prices : Dict PriceLike)
      → (value_position num p prices).assets ≡ map (revalue prices) p.assets
  unfolding value_position
  assets-value_position p prices =
      ap (λ q. q.assets) (derive-changes num _ (some prices))
      ∙ value_assets-eq-map prices p.assets _

  -- With no price for any asset the position keeps its own value.
  pub value-value_position :
      (p : NormalizedPosition) (prices : Dict PriceLike)
      → keep (λ a. is_some (price_of prices a)) p.assets ≡ []
      → (value_position num p prices).value_usd ≡ p.value_usd
  unfolding value_position
  value-value_position p prices h =
      ap (λ q. q.value_usd) (derive-changes num _ (some prices))
      ∙ ground (arith, value_assets-count prices p.assets (no_totals num))

  ids-value_positions :
      (ps : List NormalizedPosition) (prices : Dict PriceLike)
      → map (λ (p : NormalizedPosition). p.id) (value_positions num ps prices)
        ≡ map (λ (p : NormalizedPosition). p.id) ps
  unfolding value_positions value_position
  ids-value_positions [] prices = refl
  ids-value_positions (p ∷ ps) prices =
      ap (λ i. i ∷ map (λ (q : NormalizedPosition). q.id) (value_positions num ps prices))
        (ap (λ q. q.id) (derive-changes num _ (some prices)))
      ∙ ap (λ is. p.id ∷ is) (ids-value_positions ps prices)

  -- A portfolio that is built of valued positions is its owner's, with the positions' identifiers in
  -- their order.
  pub build_portfolio-ids :
      (owner : String) (ps : List NormalizedPosition) (prices : Dict PriceLike)
      → ((build_portfolio num owner (value_positions num ps prices)).owner ≡ owner)
        × (map
              (λ (p : NormalizedPosition). p.id)
              (build_portfolio num owner (value_positions num ps prices)).positions
            ≡ map (λ (p : NormalizedPosition). p.id) ps)
  unfolding build_portfolio
  build_portfolio-ids owner ps prices = (refl, ids-value_positions ps prices)

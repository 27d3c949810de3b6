-- ===== src/Risk/Shocks.antt =====
-- `resolveShock`, `applyPriceShocks` and `stressPosition`: which shock an asset takes, and what a
-- stress leaves alone.
use riskrail.Base.{
  ◌≡◌, refl, ap, ◌∙◌, inl, inr, Bool, true, false, ◌||◌, ◌&&◌, String, none, some, List, [], ◌∷◌,
  arith, map, find, any, Bool-cases, Option-cases,
}
use riskrail.Base.Int.{ℤ, pos}
use riskrail.Base.Text.{to_lower}
use riskrail.Numbers.{Numbers}
use riskrail.Position.{NormalizedPosition, PositionAsset}
use riskrail.Portfolio.{truthy}
use riskrail.Portfolio.Lending.{derive-changes}
use riskrail.Risk.Stress.{
  PriceShock, matches, is_btc, linked, resolve_shock, multiplier, StressTotals, stress_assets,
  stress_position,
}

-- a shock that names the asset, by identifier, by symbol or as the other of BTC and sBTC
abbrev pub names_asset : String → String → PriceShock → Bool
names_asset asset_id symbol shock =
    matches shock.asset_id (to_lower asset_id)
    || (matches shock.symbol (to_lower symbol) || (is_btc (to_lower symbol) && linked shock.symbol))

find-none :
    (p q : PriceShock → Bool) (shocks : List PriceShock)
    → ((s : PriceShock) → q s ≡ false → p s ≡ false)
    → any q shocks ≡ false
    → find p shocks ≡ none
find-none p q [] sub h = refl
find-none p q (s ∷ rest) sub h = elim (Bool-cases (q s)) [
  | inl e ↦ absurd (ground arith)
  | inr e ↦ rw (sub s e) (find-none p q rest sub (rw e at h))
]

-- An asset that no shock names keeps its price: the resolved change is 0.
pub resolve_shock-unnamed :
    (asset_id symbol : String) (shocks : List PriceShock)
    → any (names_asset asset_id symbol) shocks ≡ false
    → resolve_shock asset_id symbol shocks ≡ pos 0
unfolding resolve_shock
resolve_shock-unnamed asset_id symbol shocks h =
    let named = names_asset asset_id symbol in
    let by_id =
      find-none (λ s. matches s.asset_id (to_lower asset_id)) named shocks (λ s e. ground arith)
        h in
    let by_symbol =
      find-none (λ s. matches s.symbol (to_lower symbol)) named shocks (λ s e. ground arith) h in
    elim (Bool-cases (is_btc (to_lower symbol))) [
      | inr other ↦ ground arith
      | inl btc ↦
          let by_link = find-none (λ s. linked s.symbol) named shocks (λ s e. ground arith) h in
          ground arith
    ]

-- One shock on BTC or on sBTC moves every asset of either symbol by the same change.
pub resolve_shock-linked :
    (asset_id named symbol : String) (change : ℤ)
    → is_btc (to_lower named) ≡ true
    → is_btc (to_lower symbol) ≡ true
    → resolve_shock asset_id symbol
        (record { asset_id = none; symbol = some named; change_bps = change } ∷ [])
      ≡ change
unfolding resolve_shock
resolve_shock-linked asset_id named symbol change h k = ground arith

module _ (num : Numbers) where
  open num use {Decimal, decimal, times, to_fixed}

  -- An asset on its own: its value times the multiplier of its shock, or left as it is.
  abbrev pub stress_asset : List PriceShock → PositionAsset → PositionAsset
  stress_asset shocks asset = elim (truthy asset.value_usd) [
    | none ↦ asset
    | some s ↦ record asset {
      value_usd = some (
          to_fixed 8 (
            times (decimal s) (multiplier num (resolve_shock asset.asset_id asset.symbol shocks))));
    }
  ]

  stress_assets-eq-map :
      (shocks : List PriceShock) (assets : List PositionAsset) (t : StressTotals num)
      → (stress_assets num shocks assets t).0 ≡ map (stress_asset shocks) assets
  unfolding stress_assets
  stress_assets-eq-map shocks [] t = refl
  stress_assets-eq-map shocks (asset ∷ rest) t = elim (Option-cases (truthy asset.value_usd)) [
    | inl e ↦ rw (e, stress_assets, stress_asset, stress_assets-eq-map shocks rest t)
    | inr (s, e) ↦ rw (e, stress_assets, stress_asset, stress_assets-eq-map shocks rest _)
  ]

  -- A stress revalues each asset on its own, in order, and leaves the position's identity, owner,
  -- protocol, type, lending parameters, accessibility and source alone.
  pub stress_position-keeps :
      (p : NormalizedPosition) (shocks : List PriceShock)
      → let q = stress_position num p shocks in
        (q.assets ≡ map (stress_asset shocks) p.assets)
        × (q.id ≡ p.id)
        × (q.owner ≡ p.owner)
        × (q.protocol ≡ p.protocol)
        × (q.position_type ≡ p.position_type)
        × (q.lending_of ≡ p.lending_of)
        × (q.accessibility ≡ p.accessibility)
        × (q.source ≡ p.source)
  unfolding stress_position
  stress_position-keeps p shocks =
      let same = derive-changes num _ none in
      (
        ap (λ q. q.assets) same ∙ stress_assets-eq-map shocks p.assets _,
        ap (λ q. q.id) same,
        ap (λ q. q.owner) same,
        ap (λ q. q.protocol) same,
        ap (λ q. q.position_type) same,
        ap (λ q. q.lending_of) same,
        ap (λ q. q.accessibility) same,
        ap (λ q. q.source) same,
      )

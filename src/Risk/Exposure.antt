-- ===== src/Risk/Exposure.antt =====
-- packages/risk-engine: gross exposure, the concentrations and capital accessibility.
use riskrail.Base.{
  ◌||◌, String, Option, none, some, List, [], ◌∷◌, map, any, keep, is_some, Dict, if◌then◌else◌,
}
use riskrail.Base.Int.{ℤ, pos}
use riskrail.Base.Text.{to_upper}
use riskrail.Numbers.{Numbers}
use riskrail.Value.{Value, str, object, get_field}
use riskrail.Position.{PositionAsset, NormalizedPosition, Accessibility, is_wallet}
use riskrail.Portfolio.{truthy, zero_usd, ten_thousand, decimal_or_zero, add_to}

pub record ConcentrationEntry : Type 0 where
  pub key : String
  pub value_usd : String

pub record ConcentrationResult : Type 0 where
  pub top_key : Option String
  pub top_share_bps : ℤ
  pub total_usd : String

-- `metadata.valuation.grossExposureUsd`, where it is a text
unfoldable pub recorded_exposure : Value → Option String
unfolding get_field
recorded_exposure (object valuation) = elim (get_field "grossExposureUsd" valuation) [
  | str s ↦ some s
  | _ ↦ none
]
recorded_exposure _ = none

abbrev pub liquid_bps_of : Option Accessibility → ℤ
liquid_bps_of none = pos 10000
liquid_bps_of (some a) = a.liquid_bps

module _ (num : Numbers) where
  open num use {
    Decimal, decimal, plus, times, div, abs, gt, gte, lte, eq, of_int, to_fixed, to_string,
    to_integer,
  }

  unfoldable pub sum_exposure : Decimal → List PositionAsset → Decimal
  sum_exposure acc [] = acc
  sum_exposure acc (asset ∷ rest) =
      sum_exposure
        (plus acc
          (elim (truthy asset.value_usd) [ some s ↦ abs (decimal s) | none ↦ zero_usd num ]))
        rest

  unfoldable pub get_gross_exposure : NormalizedPosition → Decimal
  unfolding sum_exposure recorded_exposure
  get_gross_exposure position = elim (recorded_exposure (get_field "valuation" position.metadata)) [
    | some s ↦ abs (decimal s)
    | none ↦
        if any (λ asset. is_some (truthy asset.value_usd)) position.assets
        then sum_exposure (zero_usd num) position.assets
        else abs (decimal_or_zero num position.value_usd)
  ]

  -- `entries.reduce((a, b) => a[1].gte(b[1]) ? a : b)`, from the first entry
  unfoldable pub top_entry : String × Decimal → List (String × Decimal) → String × Decimal
  top_entry a [] = a
  top_entry a (b ∷ rest) = top_entry (if gte a.1 b.1 then a else b) rest

  -- `top.div(total).mul(10_000).toDecimalPlaces(0).toNumber()`
  unfoldable pub share_bps : Decimal → Decimal → ℤ
  share_bps top total = to_integer (times (div top total) (ten_thousand num))

  unfoldable pub sum_entries : Decimal → List (String × Decimal) → Decimal
  sum_entries acc [] = acc
  sum_entries acc (e ∷ rest) = sum_entries (plus acc e.1) rest

  abbrev pub no_share : Decimal → ConcentrationResult
  no_share total = record { top_key = none; top_share_bps = pos 0; total_usd = to_fixed 2 total }

  -- the result for the entries of positive value and their total
  unfoldable pub concentration_of : List (String × Decimal) → Decimal → ConcentrationResult
  unfolding top_entry share_bps
  concentration_of [] total = no_share total
  concentration_of (e ∷ rest) total =
      if lte total (zero_usd num)
      then no_share total
      else let top = top_entry e rest in
        record {
          top_key = some top.0;
          top_share_bps = share_bps top.1 total;
          total_usd = to_fixed 2 total;
        }

  abbrev normalized : List ConcentrationEntry → List (String × Decimal)
  normalized entries =
      keep (λ e. gt e.1 (zero_usd num)) (map (λ e. (e.key, abs (decimal e.value_usd))) entries)

  unfoldable pub calculate_concentration : List ConcentrationEntry → ConcentrationResult
  unfolding sum_entries concentration_of
  calculate_concentration entries =
      concentration_of (normalized entries) (sum_entries (zero_usd num) (normalized entries))

  -- the loop of `protocolConcentration`: the map by protocol, and the total
  unfoldable pub group_exposure :
      List NormalizedPosition → Dict Decimal → Decimal → Dict Decimal × Decimal
  group_exposure [] grouped total = (grouped, total)
  group_exposure (p ∷ rest) grouped total =
      let gross = get_gross_exposure p in
      let grouped' =
        if is_wallet p.position_type || lte gross (zero_usd num)
        then grouped
        else add_to num p.protocol.id gross grouped in
      group_exposure rest grouped' (plus total gross)

  unfoldable pub protocol_concentration : List NormalizedPosition → ConcentrationResult
  protocol_concentration positions =
      let (grouped, total) = group_exposure positions [] (zero_usd num) in
      if lte total (zero_usd num)
      then record { top_key = none; top_share_bps = pos 0; total_usd = "0.00" }
      else concentration_of grouped total

  group_asset_values : List PositionAsset → Dict Decimal → Dict Decimal
  group_asset_values [] grouped = grouped
  group_asset_values (asset ∷ rest) grouped =
      group_asset_values rest (elim (truthy asset.value_usd) [
        | none ↦ grouped
        | some s ↦ add_to num (to_upper asset.symbol) (abs (decimal s)) grouped
      ])

  pub group_assets : List NormalizedPosition → Dict Decimal → Dict Decimal
  unfolding group_asset_values
  group_assets [] grouped = grouped
  group_assets (p ∷ rest) grouped = group_assets rest (group_asset_values p.assets grouped)

  unfoldable pub asset_concentration : List NormalizedPosition → ConcentrationResult
  unfolding group_assets calculate_concentration
  asset_concentration positions =
      calculate_concentration
        (map (λ e. record { key = e.0; value_usd = to_string e.1 }) (group_assets positions []))

  -- the loop of `capitalAccessibilityBps`: the weighted sum, and the total
  unfoldable pub weigh_access : List NormalizedPosition → Decimal → Decimal → Decimal × Decimal
  weigh_access [] weighted total = (weighted, total)
  weigh_access (p ∷ rest) weighted total =
      let gross = get_gross_exposure p in
      let skip = lte gross (zero_usd num) in
      weigh_access rest
        (if skip
          then weighted
          else plus weighted (times gross (of_int (liquid_bps_of p.accessibility))))
        (if skip then total else plus total gross)

  unfoldable pub capital_accessibility_bps : List NormalizedPosition → ℤ
  capital_accessibility_bps positions =
      let (weighted, total) = weigh_access positions (zero_usd num) (zero_usd num) in
      if eq total (zero_usd num) then pos 10000 else to_integer (div weighted total)

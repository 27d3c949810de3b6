-- ===== src/Portfolio.antt =====
-- packages/portfolio-engine/src/index.ts: valuing positions, lending metrics and the portfolio.
-- Each accumulator of a loop is a field of a record that the loop returns.
pub mod Lending
pub mod Valuation
pub mod Coverage
mod Tests
use text.Mathlib.Text.{◌==◌ as str_eq}
use riskrail.Base.{
  ℕ, suc, ◌+◌, Bool, true, false, ◌&&◌, ◌||◌, String, Option, none, some, List, [], ◌∷◌, ◌==◌, map,
  length, keep, is_some, or_default, Dict, lookup, insert, if◌then◌else◌,
}
use riskrail.Base.Int.{ℤ, pos, negsuc, ◌-ℤ◌, ltb_ℤ, leb_ℤ, eqb_ℤ, min_ℤ, max_ℤ}
use riskrail.Base.Text.{to_upper}
use riskrail.Numbers.{Numbers}
use riskrail.Value.{Value, number, str, object, Fields, end, field, set_field}
use riskrail.Position.{
  PositionAsset, NormalizedPosition, Role, is_debt, is_collateral, Collateral, Debt, Liquidation,
  LendingRiskParameters,
}

pub record Portfolio : Type 0 where
  pub owner : String
  pub positions : List NormalizedPosition
  pub total_value_usd : String
  pub by_protocol : Dict String
  pub by_asset : Dict String
  pub valuation_coverage_bps : ℤ

pub record PriceLike : Type 0 where
  pub asset_id : String
  pub price_usd : String

-- `asset.valueUsd` in a condition: neither missing nor empty
abbrev pub truthy : Option String → Option String
truthy none = none
truthy (some s) = if str_eq s "" then none else some s

-- `partialThreshold && partialThreshold > 0`
abbrev pub positive : Option ℤ → Option ℤ
positive none = none
positive (some z) = if ltb_ℤ (pos 0) z then some z else none

-- `partialThreshold && …`: neither missing nor 0
abbrev pub nonzero : Option ℤ → Option ℤ
nonzero none = none
nonzero (some z) = if eqb_ℤ z (pos 0) then none else some z

find_quote : String → Dict PriceLike → Option PriceLike
find_quote wanted [] = none
find_quote wanted ((k, quote) ∷ rest) =
    if str_eq (to_upper quote.asset_id) wanted then some quote else find_quote wanted rest

unfoldable pub find_price_by_symbol : Dict PriceLike → String → Option PriceLike
unfolding find_quote
find_price_by_symbol prices symbol = find_quote (to_upper symbol) prices

-- `prices.get(asset.assetId) ?? findPriceBySymbol(prices, asset.symbol)`
unfoldable pub price_of : Dict PriceLike → PositionAsset → Option PriceLike
price_of prices asset = elim (lookup asset.asset_id prices) [
  | some quote ↦ some quote
  | none ↦ find_price_by_symbol prices asset.symbol
]

-- `assets.filter((asset) => asset.role === … && asset.valueUsd)`
abbrev pub valued_with : (Role → Bool) → List PositionAsset → List PositionAsset
valued_with role = keep (λ asset. role asset.role && is_some (truthy asset.value_usd))

module _ (num : Numbers) where
  open num use {
    Decimal, decimal, of_int, plus, minus, times, div, pow, abs, negated, lte, to_fixed, to_integer,
    of_number, mul, quotient, round,
  }

  abbrev pub zero_usd : Decimal
  zero_usd = of_int (pos 0)

  abbrev pub ten_thousand : Decimal
  ten_thousand = of_int (pos 10000)

  -- `new Decimal(text ?? 0)`
  abbrev pub decimal_or_zero : Option String → Decimal
  decimal_or_zero none = zero_usd
  decimal_or_zero (some s) = decimal s

  pub atomic_to_decimal : String → ℕ → Decimal
  atomic_to_decimal amount decimals = div (decimal amount) (pow (of_int (pos 10)) decimals)

  -- the four accumulators of `valuePosition`
  pub record Totals : Type 0 where
    pub positive_value : Decimal
    pub debt_value : Decimal
    pub gross_exposure : Decimal
    pub valued_count : ℕ

  abbrev no_totals : Totals
  no_totals = record {
    positive_value = zero_usd;
    debt_value = zero_usd;
    gross_exposure = zero_usd;
    valued_count = 0;
  }

  abbrev count_asset : Bool → Decimal → Totals → Totals
  count_asset true value t = record t {
    gross_exposure = plus t.gross_exposure (abs value);
    debt_value = plus t.debt_value value;
    valued_count = t.valued_count + 1;
  }
  count_asset false value t = record t {
    gross_exposure = plus t.gross_exposure (abs value);
    positive_value = plus t.positive_value value;
    valued_count = t.valued_count + 1;
  }

  -- the loop of `valuePosition` over the assets
  pub value_assets : Dict PriceLike → List PositionAsset → Totals → List PositionAsset × Totals
  value_assets prices [] t = ([], t)
  value_assets prices (asset ∷ rest) t = elim (price_of prices asset) [
    | none ↦ let (assets, t') = value_assets prices rest t in (asset ∷ assets, t')
    | some quote ↦
        let value =
          times (atomic_to_decimal asset.amount_atomic asset.decimals) (decimal quote.price_usd) in
        let (assets, t') = value_assets prices rest (count_asset (is_debt asset.role) value t) in
        (record asset { value_usd = some (to_fixed 8 value) } ∷ assets, t')
  ]

  valuation_fields : Totals → ℕ → Fields
  valuation_fields t total = field "valuedAssets" (number (pos t.valued_count)) (
      field "totalAssets" (number (pos total)) (
        field "grossExposureUsd" (str (to_fixed 8 t.gross_exposure)) (
          field "positiveAssetsUsd" (str (to_fixed 8 t.positive_value))
            (field "debtUsd" (str (to_fixed 8 t.debt_value)) end))))

  sum_values : Decimal → List PositionAsset → Decimal
  sum_values acc [] = acc
  sum_values acc (asset ∷ rest) = sum_values (plus acc (decimal_or_zero asset.value_usd)) rest

  estimate_single_collateral_liquidation_price :
      PositionAsset → Decimal → ℤ → Option (Dict PriceLike) → Option String
  unfolding atomic_to_decimal
  estimate_single_collateral_liquidation_price asset debt_usd partial_bps prices =
      let units = atomic_to_decimal asset.amount_atomic asset.decimals in
      let threshold = div (of_int partial_bps) ten_thousand in
      let estimate = some (to_fixed 8 (div debt_usd (times units threshold))) in
      if lte units zero_usd then none else if lte threshold zero_usd then none else elim prices [
        | none ↦ estimate
        | some quotes ↦ if is_some (price_of quotes asset) then estimate else none
      ]

  -- `partialThreshold && collateralAssets.length === 1 ? … : undefined`
  liquidation_price :
      Option ℤ → List PositionAsset → Decimal → Option (Dict PriceLike) → Option String
  unfolding estimate_single_collateral_liquidation_price
  liquidation_price (some partial_bps) (asset ∷ []) debt_usd prices =
      estimate_single_collateral_liquidation_price asset debt_usd partial_bps prices
  liquidation_price _ _ debt_usd prices = none

  current_ltv : Decimal → Decimal → ℤ
  current_ltv collateral_usd debt_usd =
      to_integer (times (div debt_usd collateral_usd) ten_thousand)

  health_factor : ℤ → Option ℤ → Option ℤ
  health_factor ltv none = none
  health_factor ltv (some partial_bps) =
      let divisor = if eqb_ℤ ltv (pos 0) then pos 1 else ltv in
      some (to_integer (times (div (of_int partial_bps) (of_int divisor)) ten_thousand))

  -- with the clamp of the returned object
  distance : ℤ → Option ℤ → Option ℤ
  distance ltv none = none
  distance ltv (some partial_bps) =
      let raw =
        to_integer
          (times (minus (of_int (pos 1)) (div (of_int ltv) (of_int partial_bps))) ten_thousand) in
      some (max_ℤ (negsuc 9999) (min_ℤ (pos 10000) raw))

  headroom : ℤ → Option ℤ → Option ℤ
  headroom ltv none = none
  headroom ltv (some borrow) = some (max_ℤ (pos 0) (borrow -ℤ ltv))

  -- the object that `deriveLendingMetrics` returns past its guards
  lending_metrics :
      NormalizedPosition
      → LendingRiskParameters
      → List PositionAsset
      → Decimal
      → Decimal
      → Option (Dict PriceLike)
      → NormalizedPosition
  unfolding current_ltv health_factor distance headroom liquidation_price
  lending_metrics position lending collateral_assets collateral_usd debt_usd prices =
      let ltv = current_ltv collateral_usd debt_usd in
      let partial_bps = lending.partial_liquidation_ltv_bps in
      record position {
        collateral_of = some (record {
          value_usd = to_fixed 8 collateral_usd;
          ratio_e4 = some ltv;
          current_ltv_bps = some ltv;
          borrow_headroom_bps = headroom ltv lending.borrow_ltv_bps;
        });
        debt_of = some (record { value_usd = to_fixed 8 debt_usd });
        liquidation = some (record {
          threshold_e4 = partial_bps;
          price_usd = liquidation_price (nonzero partial_bps) collateral_assets debt_usd prices;
          health_factor_e4 = health_factor ltv (positive partial_bps);
          distance_bps = distance ltv (positive partial_bps);
          partial_threshold_bps = partial_bps;
          full_threshold_bps = lending.full_liquidation_ltv_bps;
        });
      }

  unfoldable pub derive_lending_metrics :
      NormalizedPosition → Option (Dict PriceLike) → NormalizedPosition
  unfolding lending_metrics sum_values
  derive_lending_metrics position prices = elim position.lending_of [
    | none ↦ position
    | some lending ↦
        let collateral_assets = valued_with is_collateral position.assets in
        let debt_assets = valued_with is_debt position.assets in
        let collateral_usd = sum_values zero_usd collateral_assets in
        let debt_usd = sum_values zero_usd debt_assets in
        let derived =
          lending_metrics position lending collateral_assets collateral_usd debt_usd prices in
        if length collateral_assets == 0 || length debt_assets == 0
        then position
        else if lte collateral_usd zero_usd || lte debt_usd zero_usd
        then position
        else derived
  ]

  unfoldable pub value_position : NormalizedPosition → Dict PriceLike → NormalizedPosition
  unfolding value_assets valuation_fields
  value_position position prices =
      let (assets, t) = value_assets prices position.assets no_totals in
      derive_lending_metrics
        (record position {
          assets = assets;
          value_usd =
              if t.valued_count == 0
              then position.value_usd
              else some (to_fixed 8 (minus t.positive_value t.debt_value));
          metadata =
              set_field "valuation" (object (valuation_fields t (length assets))) position.metadata;
        })
        (some prices)

  unfoldable pub value_positions :
      List NormalizedPosition → Dict PriceLike → List NormalizedPosition
  unfolding value_position
  value_positions positions prices = map (λ p. value_position p prices) positions

  -- the accumulators of `buildPortfolio`
  pub record Sums : Type 0 where
    pub by_protocol : Dict Decimal
    pub by_asset : Dict Decimal
    pub total : Decimal
    pub total_assets : ℕ
    pub valued_assets : ℕ

  abbrev no_sums : Sums
  no_sums = record {
    by_protocol = [];
    by_asset = [];
    total = zero_usd;
    total_assets = 0;
    valued_assets = 0;
  }

  -- `map.set(key, (map.get(key) ?? new Decimal(0)).plus(value))`
  unfoldable pub add_to : String → Decimal → Dict Decimal → Dict Decimal
  add_to key value m = insert key (plus (or_default (lookup key m) zero_usd) value) m

  sum_asset : PositionAsset → Sums → Sums
  unfolding add_to
  sum_asset asset s = elim (truthy asset.value_usd) [
    | none ↦ record s { total_assets = s.total_assets + 1 }
    | some text_usd ↦
        let value = decimal text_usd in
        let signed = if is_debt asset.role then negated value else value in
        record s {
          total_assets = s.total_assets + 1;
          valued_assets = s.valued_assets + 1;
          by_asset = add_to asset.asset_id signed s.by_asset;
        }
  ]

  sum_assets : List PositionAsset → Sums → Sums
  unfolding sum_asset
  sum_assets [] s = s
  sum_assets (asset ∷ rest) s = sum_assets rest (sum_asset asset s)

  sum_position : NormalizedPosition → Sums → Sums
  unfolding add_to
  sum_position position s = elim position.value_usd [
    | none ↦ s
    | some text_usd ↦ record s {
      total = plus s.total (decimal text_usd);
      by_protocol = add_to position.protocol.id (decimal text_usd) s.by_protocol;
    }
  ]

  sum_positions : List NormalizedPosition → Sums → Sums
  unfolding sum_position sum_assets
  sum_positions [] s = s
  sum_positions (p ∷ rest) s = sum_positions rest (sum_assets p.assets (sum_position p s))

  abbrev to_texts : Dict Decimal → Dict String
  to_texts = map (λ e. (e.0, to_fixed 2 e.1))

  coverage : ℕ → ℕ → ℤ
  coverage valued total =
      if total == 0
      then pos 10000
      else round
          (mul (quotient (of_number (pos valued)) (of_number (pos total))) (of_number (pos 10000)))

  pub build_portfolio : String → List NormalizedPosition → Portfolio
  unfolding sum_positions coverage
  build_portfolio owner positions =
      let s = sum_positions positions no_sums in
      record {
        owner = owner;
        positions = positions;
        total_value_usd = to_fixed 2 s.total;
        by_protocol = to_texts s.by_protocol;
        by_asset = to_texts s.by_asset;
        valuation_coverage_bps = coverage s.valued_assets s.total_assets;
      }

-- ===== src/Portfolio/Coverage.antt =====
-- `buildPortfolio`: the totals by protocol against a sum for each protocol, and the coverage.
use riskrail.Base.{
  ℕ, ◌+◌, ◌≤◌, ◌≡◌, refl, Option, none, some, List, [], ◌∷◌, arith, length, length-append,
  length-keep, length-keep-append, zero, suc, suc==0, inl, inr, is_some, or_default, Option-cases,
  Bool-cases, Dict, lookup, lookup-insert, keep, ap, ◌∙◌, ◌++◌, String, eq_iff, if◌then◌else◌,
}
use text.Mathlib.Text.{◌==◌ as str_eq}
use riskrail.Base.Int.{pos, ◌≤ℤ◌}
use mathlib.Core.Option
use riskrail.Numbers.{Numbers, IsLawful}
use riskrail.Position.{NormalizedPosition, PositionAsset}
use riskrail.Portfolio.{
  truthy, zero_usd, Sums, no_sums, sum_asset, sum_assets, to_texts, sum_position, sum_positions,
  add_to, coverage, build_portfolio,
}

module _ (num : Numbers) where
  open num use {Decimal, to_fixed, decimal, plus, of_int}

  -- The sum of the values of one protocol's positions, in their order; `none` with no such value.
  group_step : String → NormalizedPosition → Option Decimal → Option Decimal
  group_step k p acc = elim p.value_usd [
    | none ↦ acc
    | some v ↦
        if str_eq p.protocol.id k
        then some (plus (or_default acc (zero_usd num)) (decimal v))
        else acc
  ]

  pub group_sum : String → List NormalizedPosition → Option Decimal → Option Decimal
  unfolding group_step
  group_sum k [] acc = acc
  group_sum k (p ∷ rest) acc = group_sum k rest (group_step k p acc)

  sum_asset-protocols :
      (asset : PositionAsset) (s : Sums num) → (sum_asset num asset s).by_protocol ≡ s.by_protocol
  unfolding sum_asset
  sum_asset-protocols asset s = ground arith

  sum_assets-protocols :
      (assets : List PositionAsset) (s : Sums num)
      → (sum_assets num assets s).by_protocol ≡ s.by_protocol
  unfolding sum_assets
  sum_assets-protocols [] s = refl
  sum_assets-protocols (asset ∷ rest) s =
      sum_assets-protocols rest (sum_asset num asset s) ∙ sum_asset-protocols asset s

  lookup-add_to :
      (j k : String) (v : Decimal) (m : Dict Decimal)
      → lookup k (add_to num j v m) ≡ (
          if str_eq j k then some (plus (or_default (lookup k m) (zero_usd num)) v) else lookup k m)
  unfolding add_to
  lookup-add_to j k v m = elim (Bool-cases (str_eq j k)) [
    | inl e ↦ let same : j ≡ k = (eq_iff j k).0 e in rw (lookup-insert, same)
    | inr e ↦ rw (lookup-insert, e)
  ]

  sum_position-group :
      (k : String) (p : NormalizedPosition) (s : Sums num)
      → lookup k (sum_position num p s).by_protocol ≡ group_step k p (lookup k s.by_protocol)
  unfolding sum_position group_step
  sum_position-group k p s = elim (Option-cases p.value_usd) [
    | inl e ↦ rw (e, sum_position, group_step)
    | inr (v, e) ↦ rw (e, sum_position, group_step, lookup-add_to)
  ]

  sum_positions-group :
      (k : String) (ps : List NormalizedPosition) (s : Sums num)
      → lookup k (sum_positions num ps s).by_protocol ≡ group_sum k ps (lookup k s.by_protocol)
  unfolding sum_positions group_sum
  sum_positions-group k [] s = refl
  sum_positions-group k (p ∷ rest) s =
      sum_positions-group k rest (sum_assets num p.assets (sum_position num p s))
      ∙ rw (sum_assets-protocols, sum_position-group)

  lookup-to_texts :
      (k : String) (m : Dict Decimal)
      → lookup k (to_texts num m) ≡ Option.map (to_fixed 2) (lookup k m)
  unfolding lookup
  lookup-to_texts k [] = refl
  lookup-to_texts k ((j, v) ∷ m) = ground (arith, lookup-to_texts k m)

  -- The portfolio's value of a protocol is the sum, in order, of the values of that protocol's
  -- positions, to two places, and a protocol has an entry only if one of its positions has a value.
  pub by_protocol-eq-group_sum :
      (owner : String) (ps : List NormalizedPosition) (k : String)
      → lookup k (build_portfolio num owner ps).by_protocol
        ≡ Option.map (to_fixed 2) (group_sum k ps none)
  unfolding build_portfolio lookup
  by_protocol-eq-group_sum owner ps k =
      lookup-to_texts k _ ∙ ap (Option.map (to_fixed 2)) (sum_positions-group k ps (no_sums num))

  abbrev pub assets_of : List NormalizedPosition → List PositionAsset
  assets_of [] = []
  assets_of (p ∷ rest) = p.assets ++ assets_of rest

  sum_asset-counts :
      (asset : PositionAsset) (s : Sums num)
      → ((sum_asset num asset s).total_assets ≡ s.total_assets + 1)
        × ((sum_asset num asset s).valued_assets
            ≡ s.valued_assets + (if is_some (truthy asset.value_usd) then 1 else 0))
  unfolding sum_asset
  sum_asset-counts asset s = ground arith

  sum_assets-counts :
      (assets : List PositionAsset) (s : Sums num)
      → ((sum_assets num assets s).total_assets ≡ s.total_assets + length assets)
        × ((sum_assets num assets s).valued_assets
            ≡ s.valued_assets + length (keep (λ a. is_some (truthy a.value_usd)) assets))
  unfolding sum_assets
  sum_assets-counts [] s = omega arith
  sum_assets-counts (asset ∷ rest) s =
      ground (arith, sum_assets-counts rest (sum_asset num asset s), sum_asset-counts asset s)

  sum_position-counts :
      (p : NormalizedPosition) (s : Sums num)
      → ((sum_position num p s).total_assets ≡ s.total_assets)
        × ((sum_position num p s).valued_assets ≡ s.valued_assets)
  unfolding sum_position
  sum_position-counts p s = ground arith

  sum_positions-counts :
      (ps : List NormalizedPosition) (s : Sums num)
      → ((sum_positions num ps s).total_assets ≡ s.total_assets + length (assets_of ps))
        × ((sum_positions num ps s).valued_assets
            ≡ s.valued_assets + length (keep (λ a. is_some (truthy a.value_usd)) (assets_of ps)))
  unfolding sum_positions
  sum_positions-counts [] s = omega arith
  sum_positions-counts (p ∷ rest) s = omega (
    arith,
    sum_positions-counts rest (sum_assets num p.assets (sum_position num p s)),
    sum_assets-counts p.assets (sum_position num p s),
    sum_position-counts p s,
    length-append p.assets (assets_of rest),
    length-keep-append (λ (a : PositionAsset). is_some (truthy a.value_usd)) p.assets
        (assets_of rest),
  )

  coverage-bounds :
      (law : IsLawful num) (v t : ℕ)
      → v ≤ t
      → (pos 0 ≤ℤ coverage num v t) × (coverage num v t ≤ℤ pos 10000)
  unfolding coverage
  coverage-bounds law v zero h = omega arith
  coverage-bounds law v (suc t) h =
      let in_one = law.quotient_le v (suc t) (omega arith) h in
      let above_zero = law.quotient_nonneg v (suc t) (omega arith) in
      rw (suc==0 t) (
        law.round_ge _ 0 (law.mul_nonneg _ 10000 above_zero),
        law.round_le _ 10000 (law.mul_one_le _ 10000 in_one),
      )

  coverage_self : (law : IsLawful num) (t : ℕ) → coverage num t t ≡ pos 10000
  unfolding coverage
  coverage_self law zero = refl
  coverage_self law (suc t) = rw (
    suc==0 t,
    law.quotient_self (suc t) (omega arith),
    law.mul_one 10000,
    law.round_integer 10000,
  )

  -- The valuation coverage lies between 0 and 10000 basis points, under the laws of the numbers.
  pub build_portfolio-coverage_bounds :
      (law : IsLawful num) (owner : String) (ps : List NormalizedPosition)
      → (pos 0 ≤ℤ (build_portfolio num owner ps).valuation_coverage_bps)
        × ((build_portfolio num owner ps).valuation_coverage_bps ≤ℤ pos 10000)
  unfolding build_portfolio
  build_portfolio-coverage_bounds law owner ps = coverage-bounds law _ _ (
      omega (
        arith,
        sum_positions-counts ps (no_sums num),
        length-keep (λ (a : PositionAsset). is_some (truthy a.value_usd)) (assets_of ps),
      ))

  -- A portfolio whose assets all carry a value is reported as fully covered, under the laws of
  -- the numbers.
  pub build_portfolio-coverage_full :
      (law : IsLawful num) (owner : String) (ps : List NormalizedPosition)
      → keep (λ a. is_some (truthy a.value_usd)) (assets_of ps) ≡ assets_of ps
      → (build_portfolio num owner ps).valuation_coverage_bps ≡ pos 10000
  unfolding build_portfolio
  build_portfolio-coverage_full law owner ps h =
      let s = sum_positions num ps (no_sums num) in
      let same : s.valued_assets ≡ s.total_assets =
        omega (arith, sum_positions-counts ps (no_sums num), ap length h) in
      rw same (coverage_self law s.total_assets)

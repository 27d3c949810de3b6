-- ===== src/Risk/Bounds.antt =====
-- The ranges of the basis-point figures of a risk summary.
use riskrail.Base.{
  ◌≡◌, inl, inr, true, false, ◌||◌, List, [], ◌∷◌, arith, All, any, is_some, String, Bool-cases,
  Option-cases, Dict, lookup, insert, or_default,
}
use riskrail.Base.Int.{pos, ◌≤ℤ◌, clamp_bounds}
use riskrail.Numbers.{Numbers, IsLawful}
use riskrail.Position.{NormalizedPosition, PositionAsset, is_wallet}
use riskrail.Portfolio.{truthy, zero_usd, ten_thousand, add_to}
use riskrail.Value.{get_field}
use riskrail.Risk.Exposure.{
  recorded_exposure, sum_exposure, get_gross_exposure, top_entry, share_bps, concentration_of,
  group_exposure, protocol_concentration, weigh_access, capital_accessibility_bps, liquid_bps_of,
}
use riskrail.Risk.Score.{score_of, calculate_portfolio_risk}

module _ (num : Numbers) (law : IsLawful num) where
  open num use {Decimal, lte, plus, times, div, of_int}

  -- between 0 and a total
  abbrev Within : Decimal → Decimal → Type 0
  Within total v = (lte (zero_usd num) v ≡ true) × (lte v total ≡ true)

  abbrev AllWithin : Decimal → Dict Decimal → Type 0
  AllWithin total m = All (λ e. Within total e.1) m

  -- an exact total that is not negative
  abbrev IsTotal : Decimal → Type 0
  IsTotal total = law.IsExact total × (lte (zero_usd num) total ≡ true)

  lookup-Within :
      (k : String) (m : Dict Decimal) (total : Decimal)
      → IsTotal total
      → AllWithin total m
      → Within total (or_default (lookup k m) (zero_usd num))
  unfolding lookup
  lookup-Within k [] total t h = (law.zero_le, t.1)
  lookup-Within k ((j, v) ∷ m) total t h = ground (arith, lookup-Within k m total t)

  insert-Within :
      (k : String) (v : Decimal) (m : Dict Decimal) (total : Decimal)
      → AllWithin total m
      → Within total v
      → AllWithin total (insert k v m)
  unfolding insert
  insert-Within k v [] total h w = (w, tt)
  insert-Within k v ((j, u) ∷ m) total h w = ground (arith, insert-Within k v m total)

  Within-plus :
      (total v c : Decimal)
      → IsTotal total
      → lte (zero_usd num) c ≡ true
      → Within total v
      → Within (plus total c) v
  Within-plus total v c t p w = (w.0, law.lte_trans _ _ _ w.1 (law.plus_grows total c t.0 p))

  AllWithin-plus :
      (total c : Decimal) (m : Dict Decimal)
      → IsTotal total
      → lte (zero_usd num) c ≡ true
      → AllWithin total m
      → AllWithin (plus total c) m
  AllWithin-plus total c [] t p h = tt
  AllWithin-plus total c (e ∷ m) t p h =
      (Within-plus total e.1 c t p h.0, AllWithin-plus total c m t p h.1)

  IsTotal-plus :
      (total c : Decimal) → IsTotal total → lte (zero_usd num) c ≡ true → IsTotal (plus total c)
  IsTotal-plus total c t p =
      (law.exact_plus total c, law.lte_trans _ _ _ t.1 (law.plus_grows total c t.0 p))

  add_to-Within :
      (k : String) (c : Decimal) (m : Dict Decimal) (total : Decimal)
      → IsTotal total
      → lte (zero_usd num) c ≡ true
      → AllWithin total m
      → AllWithin (plus total c) (add_to num k c m)
  unfolding add_to
  add_to-Within k c m total t p h =
      let old = lookup-Within k m total t h in
      let least = law.lte_plus (zero_usd num) _ c old.0 in
      insert-Within k _ m (plus total c) (AllWithin-plus total c m t p h)
        (law.lte_trans _ _ _ (law.plus_grows _ c law.exact_zero p) least, law.lte_plus _ _ c old.1)

  sum_exposure-nonneg :
      (assets : List PositionAsset) (acc : Decimal)
      → IsTotal acc
      → lte (zero_usd num) (sum_exposure num acc assets) ≡ true
  unfolding sum_exposure
  sum_exposure-nonneg [] acc t = t.1
  sum_exposure-nonneg (a ∷ assets) acc t = elim (Option-cases (truthy a.value_usd)) [
    | inl e ↦ rw (e, sum_exposure) (sum_exposure-nonneg assets _ (IsTotal-plus acc _ t law.zero_le))
    | inr (s, e) ↦
        rw (e, sum_exposure)
          (sum_exposure-nonneg assets _ (IsTotal-plus acc _ t (law.abs_nonneg _)))
  ]

  get_gross_exposure-nonneg :
      (p : NormalizedPosition) → lte (zero_usd num) (get_gross_exposure num p) ≡ true
  unfolding get_gross_exposure
  get_gross_exposure-nonneg p =
      elim (Option-cases (recorded_exposure (get_field "valuation" p.metadata))) [
        | inr (s, e) ↦ rw (e, get_gross_exposure) (law.abs_nonneg _)
        | inl e ↦
            rw (e, get_gross_exposure)
              (elim (Bool-cases (any (λ asset. is_some (truthy asset.value_usd)) p.assets)) [
                | inl v ↦ rw v (sum_exposure-nonneg p.assets _ (law.exact_zero, law.zero_le))
                | inr v ↦ rw v (law.abs_nonneg _)
              ])
      ]

  group_exposure-Within :
      (ps : List NormalizedPosition) (m : Dict Decimal) (total : Decimal)
      → IsTotal total
      → AllWithin total m
      → IsTotal (group_exposure num ps m total).1
        × AllWithin (group_exposure num ps m total).1 (group_exposure num ps m total).0
  unfolding group_exposure
  group_exposure-Within [] m total t h = (t, h)
  group_exposure-Within (p ∷ ps) m total t h =
      let nonneg = get_gross_exposure-nonneg p in
      group_exposure-Within ps _ _ (IsTotal-plus total _ t nonneg)
        (elim (Bool-cases
          (is_wallet p.position_type || lte (get_gross_exposure num p) (zero_usd num))) [
            | inl skip ↦ rw skip (AllWithin-plus total _ m t nonneg h)
            | inr counted ↦ rw counted (add_to-Within p.protocol.id _ m total t nonneg h)
          ])

  top_entry-Within :
      (total : Decimal) (a : String × Decimal) (m : Dict Decimal)
      → Within total a.1
      → AllWithin total m
      → Within total (top_entry num a m).1
  unfolding top_entry
  top_entry-Within total a [] w h = w
  top_entry-Within total a (b ∷ m) w h = elim (Bool-cases (num.gte a.1 b.1)) [
    | inl e ↦ rw (e, top_entry) (top_entry-Within total a m w h.1)
    | inr e ↦ rw (e, top_entry) (top_entry-Within total b m h.0 h.1)
  ]

  share_bps-bounds :
      (top total : Decimal)
      → lte total (zero_usd num) ≡ false
      → Within total top
      → (pos 0 ≤ℤ share_bps num top total) × (share_bps num top total ≤ℤ pos 10000)
  unfolding share_bps
  share_bps-bounds top total h w = (
    law.to_integer_ge _ 0 (law.times_nonneg _ _ (law.div_nonneg top total h w.0) (omega arith)),
    law.to_integer_le _ 10000 (law.ratio_le top total h w.1),
  )

  concentration_of-bounds :
      (m : Dict Decimal) (total : Decimal)
      → AllWithin total m
      → (pos 0 ≤ℤ (concentration_of num m total).top_share_bps)
        × ((concentration_of num m total).top_share_bps ≤ℤ pos 10000)
  unfolding concentration_of
  concentration_of-bounds [] total h = omega arith
  concentration_of-bounds (e ∷ rest) total h = elim (Bool-cases (lte total (zero_usd num))) [
    | inl z ↦ rw z (omega arith)
    | inr z ↦ rw z (share_bps-bounds _ total z (top_entry-Within total e rest h.0 h.1))
  ]

  -- The share of the largest protocol lies between 0 and 10000 basis points, under the laws of
  -- the numbers: no protocol's exposure exceeds the total, whatever the rounding of the two
  -- sums.
  pub protocol_concentration-bounds :
      (ps : List NormalizedPosition)
      → (pos 0 ≤ℤ (protocol_concentration num ps).top_share_bps)
        × ((protocol_concentration num ps).top_share_bps ≤ℤ pos 10000)
  protocol_concentration-bounds ps =
      let within = group_exposure-Within ps [] (zero_usd num) (law.exact_zero, law.zero_le) tt in
      unfold protocol_concentration in
      elim (Bool-cases (lte (group_exposure num ps [] (zero_usd num)).1 (zero_usd num))) [
        | inl z ↦ rw z (omega arith)
        | inr z ↦ rw z (concentration_of-bounds _ _ within.1)
      ]

  -- an accessibility between 0 and 10000 basis points, and an exposure within the precision
  pub record IsAccessible (p : NormalizedPosition) : Type 0 where
    pub exact : law.IsExact (get_gross_exposure num p)
    pub lower : pos 0 ≤ℤ liquid_bps_of p.accessibility
    pub upper : liquid_bps_of p.accessibility ≤ℤ pos 10000

  -- a weighted sum of at most 10000 times the total
  abbrev Weighted : Decimal → Decimal → Type 0
  Weighted weighted total =
      (lte (zero_usd num) weighted ≡ true) × (lte weighted (times total (ten_thousand num)) ≡ true)

  abbrev IsWeighing : Decimal → Decimal → Type 0
  IsWeighing w t = IsTotal w × IsTotal t × Weighted w t

  Weighted-plus :
      (p : NormalizedPosition) (w t : Decimal)
      → IsAccessible p
      → IsWeighing w t
      → IsWeighing
          (plus w (times (get_gross_exposure num p) (of_int (liquid_bps_of p.accessibility))))
          (plus t (get_gross_exposure num p))
  Weighted-plus p w t a (is_w, is_t, k) =
      let gross = get_gross_exposure num p in
      let part = times gross (of_int (liquid_bps_of p.accessibility)) in
      let gross_nonneg = get_gross_exposure-nonneg p in
      let part_nonneg : lte (zero_usd num) part ≡ true =
        law.times_nonneg gross _ gross_nonneg a.lower in
      let is_w' = IsTotal-plus w part is_w part_nonneg in
      let below : lte part (times gross (ten_thousand num)) ≡ true =
        law.times_mono gross _ _ gross_nonneg a.upper in
      let bound =
        law.lte_trans _ _ _ (law.lte_plus w _ part k.1)
          (law.lte_plus_right (times t (ten_thousand num)) part _ below) in
      (
        is_w',
        IsTotal-plus t gross is_t gross_nonneg,
        (is_w'.1, rw (law.times_ten_thousand t gross is_t.0 a.exact) at bound),
      )

  weigh_access-Weighted :
      (ps : List NormalizedPosition) (w t : Decimal)
      → All IsAccessible ps
      → IsWeighing w t
      → IsWeighing (weigh_access num ps w t).0 (weigh_access num ps w t).1
  unfolding weigh_access
  weigh_access-Weighted [] w t a k = k
  weigh_access-Weighted (p ∷ ps) w t a k =
      elim (Bool-cases (lte (get_gross_exposure num p) (zero_usd num))) [
        | inl skip ↦ rw (skip, weigh_access) (weigh_access-Weighted ps w t a.1 k)
        | inr counted ↦
            rw (counted, weigh_access)
              (weigh_access-Weighted ps _ _ a.1 (Weighted-plus p w t a.0 k))
      ]

  -- The accessible share of a portfolio lies between 0 and 10000 basis points, if that of each
  -- position does and its exposure is within the precision, under the laws of the numbers.
  pub capital_accessibility-bounds :
      (ps : List NormalizedPosition)
      → All IsAccessible ps
      → (pos 0 ≤ℤ capital_accessibility_bps num ps)
        × (capital_accessibility_bps num ps ≤ℤ pos 10000)
  unfolding capital_accessibility_bps
  capital_accessibility-bounds ps a =
      let zero_total : IsTotal (zero_usd num) = (law.exact_zero, law.zero_le) in
      let start : IsWeighing (zero_usd num) (zero_usd num) =
        (zero_total, zero_total, (law.zero_le, law.times_nonneg _ _ law.zero_le (omega arith))) in
      let (is_w, is_t, k) = weigh_access-Weighted ps (zero_usd num) (zero_usd num) a start in
      elim (Bool-cases
        (num.eq (weigh_access num ps (zero_usd num) (zero_usd num)).1 (zero_usd num))) [
          | inl z ↦ rw z (omega arith)
          | inr z ↦
              let positive = law.ne_zero_pos _ is_t.1 z in
              rw z (
                law.to_integer_ge _ 0 (law.div_nonneg _ _ positive k.0),
                law.to_integer_le _ 10000 (law.mean_le _ _ positive k.1),
              )
        ]

  -- The score, the protocol concentration and the liquidity score of a summary lie between 0 and
  -- 10000 basis points, if every position has an accessibility in that range and an exposure
  -- within the precision, under the laws of the numbers.
  pub summary-bounds :
      (ps : List NormalizedPosition)
      → All IsAccessible ps
      → let s = calculate_portfolio_risk num ps in
        ((pos 0 ≤ℤ s.risk_score_bps) × (s.risk_score_bps ≤ℤ pos 10000))
        × ((pos 0 ≤ℤ s.protocol_concentration_bps) × (s.protocol_concentration_bps ≤ℤ pos 10000))
        × ((pos 0 ≤ℤ s.liquidity_score_bps) × (s.liquidity_score_bps ≤ℤ pos 10000))
  unfolding calculate_portfolio_risk
  summary-bounds ps a = (
    clamp_bounds (pos 0) (pos 10000) (score_of num ps) (omega arith),
    protocol_concentration-bounds ps,
    capital_accessibility-bounds ps a,
  )

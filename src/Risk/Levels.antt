-- ===== src/Risk/Levels.antt =====
-- The worst health factor, the risk levels and the composite score.
use riskrail.Base.{
  ℕ, ◌≤◌, ◌≡◌, ◌↔◌, refl, subst, inl, inr, ◌⊎◌, Bool, true, false, ◌||◌, Option, none, some, List,
  [], ◌∷◌, arith, All, any, map, Bool-cases, Option-cases, if◌then◌else◌,
}
use riskrail.Base.Int.{ℤ, pos, ◌≤ℤ◌, ltb_ℤ, leb_ℤ, eqb_ℤ, ≤ℤ_trans, eqb_ℤ_refl}
use riskrail.Numbers.{Numbers}
use riskrail.Position.{
  NormalizedPosition, RiskLevel, healthy, moderate, elevated, critical, unknown,
}
use riskrail.Risk.Score.{
  classify_health_factor, health_risk_bps, overall_risk_level, defined, insert_sorted, sort_numbers,
  smallest, first, health_factor_of, calculate_portfolio_risk,
}

-- how bad a level is
abbrev pub severity : RiskLevel → ℕ
severity healthy = 0
severity moderate = 1
severity elevated = 2
severity critical = 3
severity unknown = 0

-- A lower health factor has at least the level, and at least the risk, of a higher one.
pub classify-antitone :
    (a b : ℤ)
    → a ≤ℤ b
    → (severity (classify_health_factor (some b)) ≤ severity (classify_health_factor (some a)))
      × (health_risk_bps (some b) ≤ℤ health_risk_bps (some a))
unfolding classify_health_factor health_risk_bps
classify-antitone a b h = ground arith

-- a health factor below 1.2
abbrev pub low_health : Option ℤ → Bool
low_health none = false
low_health (some h) = ltb_ℤ h (pos 12000)

-- a value stands in a list of optional values
abbrev pub occurs : ℤ → List (Option ℤ) → Bool
occurs m [] = false
occurs m (none ∷ rest) = occurs m rest
occurs m (some z ∷ rest) = eqb_ℤ z m || occurs m rest

abbrev pub AtMost : ℤ → Option ℤ → Type 0
AtMost m none = Unit
AtMost m (some z) = m ≤ℤ z

abbrev least : ℤ → Option ℤ → ℤ
least z none = z
least z (some y) = if leb_ℤ z y then z else y

smallest-cons :
    (z : ℤ) (rest : List (Option ℤ)) → smallest (some z ∷ rest) ≡ some (least z (smallest rest))
unfolding smallest
smallest-cons z rest = first-insert (sort_numbers (defined rest))
  where
    first-insert : (l : List ℤ) → first (insert_sorted z l) ≡ some (least z (first l))
    first-insert [] = refl
    first-insert (y ∷ l) = ground arith

smallest-skip : (rest : List (Option ℤ)) → smallest (none ∷ rest) ≡ smallest rest
unfolding smallest
smallest-skip rest = refl

AtMost-weaken : (a b : ℤ) (l : List (Option ℤ)) → a ≤ℤ b → All (AtMost b) l → All (AtMost a) l
AtMost-weaken a b [] h k = tt
AtMost-weaken a b (none ∷ l) h k = (tt, AtMost-weaken a b l h k.1)
AtMost-weaken a b (some z ∷ l) h k = (≤ℤ_trans a b z h k.0, AtMost-weaken a b l h k.1)

-- `smallest` misses only if there is no value.
smallest-none_iff : (l : List (Option ℤ)) → smallest l ≡ none → All (λ v. v ≡ none) l
smallest-none_iff [] e = tt
smallest-none_iff (none ∷ l) e = (refl, smallest-none_iff l (rw smallest-skip at e))
smallest-none_iff (some z ∷ l) e = cc (smallest-cons z l)

smallest-nil : smallest [] ≡ none
unfolding smallest
smallest-nil = refl

or_true : (b : Bool) {c : Bool} → c ≡ true → (b || c) ≡ true
or_true true h = refl
or_true false h = h

All-none : (m : ℤ) (l : List (Option ℤ)) → All (λ v. v ≡ none) l → All (AtMost m) l
All-none m [] h = tt
All-none m (none ∷ l) h = (tt, All-none m l h.1)
All-none m (some z ∷ l) h = cc h.0

-- a value of the list below which none lies
abbrev pub Least : ℤ → List (Option ℤ) → Type 0
Least m l = All (AtMost m) l × (occurs m l ≡ true)

Least-here : (z : ℤ) (l : List (Option ℤ)) → All (AtMost z) l → Least z (some z ∷ l)
Least-here z l h = ((omega arith, h), rw (eqb_ℤ_refl z))

smallest-Least : (l : List (Option ℤ)) (m : ℤ) → smallest l ≡ some m → Least m l
smallest-Least [] m e = cc smallest-nil
smallest-Least (none ∷ l) m e =
    let ih = smallest-Least l m (rw smallest-skip at e) in ((tt, ih.0), ih.1)
smallest-Least (some z ∷ l) m e = elim (Option-cases (smallest l)) [
  | inl no_rest ↦
      let same : z ≡ m = ground (arith, smallest-cons z l) in
      subst (λ k. Least k (some z ∷ l)) same
        (Least-here z l (All-none z l (smallest-none_iff l no_rest)))
  | inr (y, some_rest) ↦
      let (low, found) = smallest-Least l y some_rest in
      elim (Bool-cases (leb_ℤ z y)) [
        | inl here ↦
            let same : z ≡ m = ground (arith, smallest-cons z l) in
            subst (λ k. Least k (some z ∷ l)) same
              (Least-here z l (AtMost-weaken z y l (ground arith) low))
        | inr later ↦
            let same : y ≡ m = ground (arith, smallest-cons z l) in
            subst (λ k. Least k (some z ∷ l)) same ((ground arith, low), or_true _ found)
      ]
]

occurs-none : (m : ℤ) (l : List (Option ℤ)) → All (λ v. v ≡ none) l → occurs m l ≡ true → ⊥
occurs-none m [] h e = cc
occurs-none m (none ∷ l) h e = occurs-none m l h.1 e
occurs-none m (some z ∷ l) h e = cc h.0

critical-low :
    (w score : ℤ) → overall_risk_level (some w) score ≡ critical → low_health (some w) ≡ true
unfolding overall_risk_level
critical-low w score h = ground arith

low-critical :
    (w score : ℤ) → low_health (some w) ≡ true → overall_risk_level (some w) score ≡ critical
unfolding overall_risk_level
low-critical w score h = ground arith

any_of_occurs :
    (w : ℤ) (l : List (Option ℤ))
    → occurs w l ≡ true
    → low_health (some w) ≡ true
    → any low_health l ≡ true
any_of_occurs w [] e h = cc
any_of_occurs w (none ∷ l) e h = any_of_occurs w l e h
any_of_occurs w (some z ∷ l) e h = ground (arith, any_of_occurs w l)

low_of_any :
    (w : ℤ) (l : List (Option ℤ))
    → All (AtMost w) l
    → any low_health l ≡ true
    → low_health (some w) ≡ true
low_of_any w [] h e = cc
low_of_any w (none ∷ l) h e = low_of_any w l h.1 e
low_of_any w (some z ∷ l) h e = ground (arith, low_of_any w l h.1)

module _ (num : Numbers) where
  -- The worst health factor of a summary is a position's, and no position has a lower one; it is
  -- missing only if no position has a health factor.
  pub worst_health-IsLeast :
      (ps : List NormalizedPosition)
      → ((calculate_portfolio_risk num ps).worst_health_factor_e4 ≡ none)
          × All (λ v. v ≡ none) (map health_factor_of ps)
        ⊎ ((m : ℤ) × ((calculate_portfolio_risk num ps).worst_health_factor_e4 ≡ some m)
            × All (AtMost m) (map health_factor_of ps)
            × (occurs m (map health_factor_of ps) ≡ true))
  unfolding calculate_portfolio_risk
  worst_health-IsLeast ps = elim (Option-cases (smallest (map health_factor_of ps))) [
    | inl e ↦ inl (e, smallest-none_iff _ e)
    | inr (m, e) ↦ let (low, found) = smallest-Least _ m e in inr (m, e, low, found)
  ]

  -- A portfolio with a health factor is critical exactly when some health factor is below 1.2,
  -- whatever its concentration and accessibility.
  pub critical_iff_low_health :
      (ps : List NormalizedPosition) (m : ℤ)
      → occurs m (map health_factor_of ps) ≡ true
      → ((calculate_portfolio_risk num ps).risk_level ≡ critical)
        ↔ (any low_health (map health_factor_of ps) ≡ true)
  unfolding calculate_portfolio_risk
  critical_iff_low_health ps m found = elim (Option-cases (smallest (map health_factor_of ps))) [
    | inl e ↦ absurd (occurs-none m _ (smallest-none_iff _ e) found)
    | inr (w, e) ↦
        let (low, here) = smallest-Least _ w e in
        rw e (
          (λ c. any_of_occurs w (map health_factor_of ps) here (critical-low w _ c)),
          (λ a. low-critical w _ (low_of_any w (map health_factor_of ps) low a)),
        )
  ]

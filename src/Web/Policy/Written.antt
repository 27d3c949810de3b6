-- ===== src/Web/Policy/Written.antt =====
-- From the thresholds of the dashboard to the policy that the worker and the API read.
use riskrail.Base.{
  ◌≡◌, refl, ap, sym, subst, ◌∙◌, some_injective, ℕ, zero, suc, ◌≤◌, ◌*◌, Bool, false, String, none,
  some, List, [], ◌∷◌, arith,
}
use riskrail.Base.Int.{ℤ, pos, negsuc, ◌≤ℤ◌}
use riskrail.Base.Text.{join}
use riskrail.Base.Decimal.{to_decimal, of_decimal, of_decimal-to_decimal}
use riskrail.Value.{Value}
use riskrail.Numbers.{Numbers, IsLawful}
use riskrail.Adapters.Decode.{int_text, without_u, max_safe_integer, principal_cv, CallReadOnly}
use riskrail.Contracts.{RiskPolicy}
use riskrail.Contracts.Policy.{get_policy}
use riskrail.Contracts.Policy.Decoded.{Stored, stored_value, policy_from, IsSafe, get_policy-stored}
use riskrail.Stacks.Clarity.Json.{IsNode}
use riskrail.Web.Policy.{
  PolicyInput, Comparisons, scaled_by, to_contract_args, out_of_range, validate,
}

-- What the comparisons of doubles mean on numbers, which NaN is not, and that a product with an
-- integer is correctly rounded.
pub record AreOrdered (num : Numbers) (laws : IsLawful num) (c : Comparisons num) : Type 1 where
  pub IsNumber : num.Double → Type 0
  pub less_false :
      (x y : num.Double) → IsNumber x → IsNumber y → c.less x y ≡ false → laws.LeDouble y x
  pub at_most_false :
      (x y : num.Double) → IsNumber x → IsNumber y → c.at_most x y ≡ false → laws.LeDouble y x
  pub integer_number : (n : ℕ) → IsNumber (num.of_number (pos n))
  pub mul_le :
      (x : num.Double) (m n : ℕ)
      → laws.LeDouble x (num.of_number (pos m))
      → laws.LeDouble (num.mul x (num.of_number (pos n))) (num.of_number (pos (m * n)))

-- every threshold is a number
pub record AreNumbers (num : Numbers) (laws : IsLawful num) (c : Comparisons num)
    (o : AreOrdered num laws c) (input : PolicyInput num) : Type 0 where
  pub score_number : o.IsNumber input.max_risk_score
  pub health_number : o.IsNumber input.min_health_factor
  pub concentration_number : o.IsNumber input.max_protocol_concentration
  pub liquidity_number : o.IsNumber input.min_liquidity_score

-- the texts that a wallet sends for these unsigned integers
abbrev pub literals : Stored → List String
literals p =
    join "u" (to_decimal p.score)
    ∷ join "u" (to_decimal p.health)
    ∷ join "u" (to_decimal p.concentration)
    ∷ join "u" (to_decimal p.liquidity)
    ∷ []

-- the policy that the thresholds describe
abbrev pub described :
    (num : Numbers) → PolicyInput num → (enabled : Bool) → (updated : ℕ) → RiskPolicy
described num input enabled updated = record {
  max_risk_score_bps = scaled_by num 100 input.max_risk_score;
  min_health_factor_e4 = scaled_by num 10000 input.min_health_factor;
  max_protocol_concentration_bps = scaled_by num 100 input.max_protocol_concentration;
  min_liquidity_score_bps = scaled_by num 100 input.min_liquidity_score;
  enabled = enabled;
  updated_at = pos updated;
}

-- a text by its place
abbrev item : ℕ → List String → String
item n [] = ""
item zero (s ∷ rest) = s
item (suc n) (s ∷ rest) = item n rest

to_decimal_injective : (m n : ℕ) → to_decimal m ≡ to_decimal n → m ≡ n
to_decimal_injective m n h =
    some_injective (sym (of_decimal-to_decimal m) ∙ (ap of_decimal h ∙ of_decimal-to_decimal n))

-- a number between 0 and a bound whose text is that of a natural number
read_back :
    (z : ℤ) (n bound : ℕ)
    → pos 0 ≤ℤ z
    → z ≤ℤ pos bound
    → join "u" (int_text z) ≡ join "u" (to_decimal n)
    → (z ≡ pos n) × (n ≤ bound)
unfolding to_decimal
read_back (pos m) n bound low high h =
    let same : m ≡ n = to_decimal_injective m n (ap without_u h) in
    (ap pos same, subst (λ k. k ≤ bound) same (omega (arith, high)))
read_back (negsuc m) n bound low high h = absurd (omega (arith, low))

module _ (num : Numbers) (laws : IsLawful num) (c : Comparisons num)
    (o : AreOrdered num laws c) where
  -- a number between 0 and 100, times a factor and rounded
  scaled_by-bounds :
      (factor : ℕ) (x : num.Double)
      → laws.LeDouble (num.of_number (pos 0)) x
      → laws.LeDouble x (num.of_number (pos 100))
      → (pos 0 ≤ℤ scaled_by num factor x) × (scaled_by num factor x ≤ℤ pos (100 * factor))
  unfolding scaled_by
  scaled_by-bounds factor x low high = (
    laws.round_ge _ 0 (laws.mul_nonneg x factor low),
    laws.round_le _ (100 * factor) (o.mul_le x 100 factor high),
  )

  -- a threshold that `validate` lets pass
  range-bounds :
      (factor : ℕ) (x : num.Double)
      → o.IsNumber x
      → out_of_range num c x ≡ false
      → (pos 0 ≤ℤ scaled_by num factor x) × (scaled_by num factor x ≤ℤ pos (100 * factor))
  unfolding out_of_range
  range-bounds factor x n h =
      scaled_by-bounds factor x (o.less_false _ _ n (o.integer_number 0) (ground (arith, h)))
        (o.less_false _ _ (o.integer_number 100) n (ground (arith, h)))

  health-bounds :
      (x : num.Double)
      → o.IsNumber x
      → c.at_most x (num.of_number (pos 0)) ≡ false
      → c.less (num.of_number (pos 100)) x ≡ false
      → (pos 0 ≤ℤ scaled_by num 10000 x) × (scaled_by num 10000 x ≤ℤ pos (100 * 10000))
  health-bounds x n h k =
      scaled_by-bounds 10000 x (o.at_most_false _ _ n (o.integer_number 0) h)
        (o.less_false _ _ (o.integer_number 100) n k)

  validate-passes :
      (input : PolicyInput num)
      → validate num c input ≡ none
      → (out_of_range num c input.max_risk_score ≡ false)
        × ((out_of_range num c input.max_protocol_concentration ≡ false)
            × ((out_of_range num c input.min_liquidity_score ≡ false)
                × ((c.at_most input.min_health_factor (num.of_number (pos 0)) ≡ false)
                    × (c.less (num.of_number (pos 100)) input.min_health_factor ≡ false))))
  unfolding validate
  validate-passes input h = ground (arith, h)

  -- the texts of the contract's arguments are those of the numbers that were asked for
  stored-described :
      (input : PolicyInput num) (p : Stored)
      → AreNumbers num laws c o input
      → validate num c input ≡ none
      → to_contract_args num input ≡ literals p
      → p.updated ≤ max_safe_integer
      → IsSafe p × (policy_from p ≡ described num input p.enabled p.updated)
  unfolding to_contract_args
  stored-described input p ns passes same updated =
      let ok = validate-passes input passes in
      let b1 = range-bounds 100 input.max_risk_score ns.score_number ok.0 in
      let b2 = health-bounds input.min_health_factor ns.health_number ok.1.1.1.0 ok.1.1.1.1 in
      let b3 = range-bounds 100 input.max_protocol_concentration ns.concentration_number ok.1.0 in
      let b4 = range-bounds 100 input.min_liquidity_score ns.liquidity_number ok.1.1.0 in
      let r1 = read_back _ p.score 10000 b1.0 b1.1 (ap (item 0) same) in
      let r2 = read_back _ p.health 1000000 b2.0 b2.1 (ap (item 1) same) in
      let r3 = read_back _ p.concentration 10000 b3.0 b3.1 (ap (item 2) same) in
      let r4 = read_back _ p.liquidity 10000 b4.0 b4.1 (ap (item 3) same) in
      (
        record {
          score_safe = omega (arith, r1.1);
          health_safe = omega (arith, r2.1);
          concentration_safe = omega (arith, r3.1);
          liquidity_safe = omega (arith, r4.1);
          updated_safe = updated;
        },
        rw (r1.0, r2.0, r3.0, r4.0) refl,
      )

  -- Where the dashboard accepts four thresholds that are numbers, and a contract stores the unsigned
  -- integers whose literals are the arguments of the call, the policy that the reader gives has the
  -- thresholds, multiplied by 100 and by 10000 and rounded.
  pub to_contract_args-get_policy :
      (input : PolicyInput num) (p : Stored) (call_read_only : CallReadOnly)
      (contract_id wallet : String) {json : Value}
      → AreNumbers num laws c o input
      → validate num c input ≡ none
      → to_contract_args num input ≡ literals p
      → p.updated ≤ max_safe_integer
      → IsNode (stored_value p) json
      → call_read_only contract_id "get-risk-policy" (principal_cv wallet ∷ []) (some wallet)
        ≡ some json
      → get_policy call_read_only contract_id wallet
        ≡ some (some (described num input p.enabled p.updated))
  to_contract_args-get_policy input p call_read_only contract_id wallet ns passes same updated node
        answered =
      let (safe, policy) = stored-described input p ns passes same updated in
      get_policy-stored call_read_only contract_id wallet p safe node answered
      ∙ ap (λ q. some (some q)) policy

-- ===== src/Contracts/Policy/Decoded.antt =====
-- The policy that a contract stores is the policy that the reader gives.
use riskrail.Base.{
  ◌≡◌, refl, ap, ◌∙◌, ℕ, ◌≤◌, Bool, String, Option, none, some, ◌>>=◌, List, [], ◌∷◌, leb, le→leb,
  ◌==◌, ◌&&◌, arith, if◌then◌else◌,
}
use riskrail.Base.Decimal.{to_decimal, of_decimal, of_decimal-to_decimal}
use riskrail.Base.Int.{pos}
use riskrail.Value.{Value, bool, str, end, field, get_field}
use riskrail.Stacks.Clarity.{unwrap_clarity}
use riskrail.Stacks.Clarity.Json.{
  Clarity, scalar, flag, some_cv, tuple_cv, no_members, member, plain, IsNode,
}
use riskrail.Stacks.Clarity.Nodes.{unwrap_clarity-IsNode}
use riskrail.Adapters.Decode.{without_u, max_safe_integer, principal_cv, CallReadOnly}
use riskrail.Contracts.{RiskPolicy}
use riskrail.Contracts.Policy.{
  safe_integer, safe_number, to_safe_number, policy_of, decode_policy, get_policy,
}

-- a policy with numbers that the contract can hold
pub record Stored : Type 0 where
  pub score : ℕ
  pub health : ℕ
  pub concentration : ℕ
  pub liquidity : ℕ
  pub enabled : Bool
  pub updated : ℕ

-- the value of the contract's map
abbrev pub stored_value : Stored → Clarity
stored_value p = some_cv (
    tuple_cv (
      member "max-risk-score-bps" (scalar (to_decimal p.score)) (
        member "min-health-factor-e4" (scalar (to_decimal p.health)) (
          member "max-protocol-concentration-bps" (scalar (to_decimal p.concentration)) (
            member "min-liquidity-score-bps" (scalar (to_decimal p.liquidity)) (
              member "enabled" (flag p.enabled)
                (member "updated-at" (scalar (to_decimal p.updated)) no_members)))))))

abbrev pub policy_from : Stored → RiskPolicy
policy_from p = record {
  max_risk_score_bps = pos p.score;
  min_health_factor_e4 = pos p.health;
  max_protocol_concentration_bps = pos p.concentration;
  min_liquidity_score_bps = pos p.liquidity;
  enabled = p.enabled;
  updated_at = pos p.updated;
}

pub record IsSafe (p : Stored) : Type 0 where
  pub score_safe : p.score ≤ max_safe_integer
  pub health_safe : p.health ≤ max_safe_integer
  pub concentration_safe : p.concentration ≤ max_safe_integer
  pub liquidity_safe : p.liquidity ≤ max_safe_integer
  pub updated_safe : p.updated ≤ max_safe_integer

-- a decimal text has no `u` to remove
without_u-of_decimal : (s : String) (n : ℕ) → of_decimal s ≡ some n → without_u s ≡ s
unfolding of_decimal riskrail.Base.Decimal.read_digits
without_u-of_decimal String.[] n h = refl
without_u-of_decimal (String.◌∷◌ c s) n h = ground (arith, h)

to_safe_number-to_decimal :
    (n : ℕ) → n ≤ max_safe_integer → to_safe_number (str (to_decimal n)) ≡ some (pos n)
unfolding to_safe_number safe_number safe_integer
to_safe_number-to_decimal n h =
    rw
      (
        without_u-of_decimal (to_decimal n) n (of_decimal-to_decimal n),
        of_decimal-to_decimal n,
        le→leb n max_safe_integer h,
      )
      refl

policy_of-stored :
    (p : Stored)
    → IsSafe p
    → policy_of (
        field "max-risk-score-bps" (str (to_decimal p.score)) (
          field "min-health-factor-e4" (str (to_decimal p.health)) (
            field "max-protocol-concentration-bps" (str (to_decimal p.concentration)) (
              field "min-liquidity-score-bps" (str (to_decimal p.liquidity)) (
                field "enabled"
                  (bool p.enabled)
                  (field "updated-at" (str (to_decimal p.updated)) end))))))
      ≡ some (policy_from p)
unfolding policy_of get_field
policy_of-stored p safe =
    rw
      (
        to_safe_number-to_decimal p.score safe.score_safe,
        to_safe_number-to_decimal p.health safe.health_safe,
        to_safe_number-to_decimal p.concentration safe.concentration_safe,
        to_safe_number-to_decimal p.liquidity safe.liquidity_safe,
        to_safe_number-to_decimal p.updated safe.updated_safe,
      )
      refl

-- Where the contract answers with the JSON of a stored policy, whatever the texts of its types are
-- made of, and its numbers are safe integers, the reader gives that policy.
pub get_policy-stored :
    (call_read_only : CallReadOnly) (contract_id wallet : String) (p : Stored) {json : Value}
    → IsSafe p
    → IsNode (stored_value p) json
    → call_read_only contract_id "get-risk-policy" (principal_cv wallet ∷ []) (some wallet)
      ≡ some json
    → get_policy call_read_only contract_id wallet ≡ some (some (policy_from p))
unfolding get_policy decode_policy plain
get_policy-stored call_read_only contract_id wallet p safe node answered =
    ap (λ o. o >>= λ raw. decode_policy (unwrap_clarity raw)) answered
    ∙ (ap decode_policy (unwrap_clarity-IsNode node)
        ∙ ap (λ o. o >>= λ policy. some (some policy)) (policy_of-stored p safe))

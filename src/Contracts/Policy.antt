-- ===== src/Contracts/Policy.antt =====
-- packages/rivisk-contracts/src/index.ts: `RiskPolicyReader`. The contract's answer is an argument,
-- and `none` is a thrown error. Of the texts that `Number` reads, the decimal ones are kept.
pub mod Decoded
mod Tests
use riskrail.Base.{
  ℕ, Bool, true, false, not, String, Option, none, some, ◌>>=◌, List, [], ◌∷◌, leb, ◌+◌, ◌==◌,
  if◌then◌else◌,
}
use riskrail.Base.Text.{is_empty}
use riskrail.Base.Decimal.{of_decimal}
use riskrail.Base.Int.{ℤ, pos, negsuc}
use riskrail.Value.{
  Value, undefined, null, bool, number, bigint, str, array, object, Fields, get_field, as_record,
}
use riskrail.Stacks.Clarity.{unwrap_clarity}
use riskrail.Adapters.Decode.{without_u, max_safe_integer, principal_cv, CallReadOnly}
use riskrail.Contracts.{RiskPolicy}

-- a number that passes `Number.isSafeInteger`
unfoldable pub safe_integer : ℤ → Option ℤ
safe_integer (pos n) = if leb n max_safe_integer then some (pos n) else none
safe_integer (negsuc n) = if leb (n + 1) max_safe_integer then some (negsuc n) else none

unfoldable pub safe_number : Value → Option ℤ
unfolding safe_integer of_decimal
safe_number (number n) = safe_integer n
safe_number (bigint n) = safe_integer n
safe_number (str s) = of_decimal (without_u s) >>= λ n. safe_integer (pos n)
safe_number _ = none

-- `toSafeNumber`
unfoldable pub to_safe_number : Value → Option ℤ
unfolding unwrap_clarity safe_number
to_safe_number input = safe_number (unwrap_clarity input)

abbrev is_nonzero : ℤ → Bool
is_nonzero (pos n) = not (n == 0)
is_nonzero (negsuc n) = true

-- `Boolean(value)`
unfoldable pub to_boolean : Value → Bool
to_boolean undefined = false
to_boolean null = false
to_boolean (bool b) = b
to_boolean (number n) = is_nonzero n
to_boolean (bigint n) = is_nonzero n
to_boolean (str s) = not (is_empty s)
to_boolean (array xs) = true
to_boolean (object fs) = true

unfoldable pub policy_of : Fields → Option RiskPolicy
unfolding to_safe_number to_boolean get_field unwrap_clarity
policy_of fs = to_safe_number (get_field "max-risk-score-bps" fs) >>= λ score.
    to_safe_number (get_field "min-health-factor-e4" fs) >>= λ health.
    to_safe_number (get_field "max-protocol-concentration-bps" fs) >>= λ concentration.
    to_safe_number (get_field "min-liquidity-score-bps" fs) >>= λ liquidity.
    to_safe_number (get_field "updated-at" fs) >>= λ updated. some (record {
      max_risk_score_bps = score;
      min_health_factor_e4 = health;
      max_protocol_concentration_bps = concentration;
      min_liquidity_score_bps = liquidity;
      enabled = to_boolean (unwrap_clarity (get_field "enabled" fs));
      updated_at = updated;
    })

-- what `getPolicy` makes of the unwrapped answer
unfoldable pub decode_policy : Value → Option (Option RiskPolicy)
unfolding policy_of
decode_policy value = elim (as_record value) [
  | none ↦ some none
  | some fs ↦ policy_of fs >>= λ policy. some (some policy)
]

-- `getPolicy`: `some none` is the `null` of a wallet without a policy
unfoldable pub get_policy :
    CallReadOnly → (contract_id wallet : String) → Option (Option RiskPolicy)
unfolding decode_policy unwrap_clarity
get_policy call_read_only contract_id wallet =
    call_read_only contract_id "get-risk-policy" (principal_cv wallet ∷ []) (some wallet) >>= λ raw.
    decode_policy (unwrap_clarity raw)

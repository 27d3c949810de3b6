-- ===== src/Adapters/Zest.antt =====
-- packages/adapter-zest-v2/src/index.ts: the contracts' addresses, the assets that are known,
-- and the decoding of what the reader gets. A thrown error is `none`.
pub mod Reader
pub mod Position
pub mod Debts
pub mod Assets
pub mod Contracts
use Prim.Native.Char.{code}
use Prim.Native.String.{◌++◌ as append}
use riskrail.Base.{
  ℕ, ◌+◌, ◌-◌, ◌*◌, ◌/◌, Bool, true, false, not, String, Option, none, some, ◌>>=◌, List, [], ◌∷◌,
  leb, ◌==◌, traverse, or_default, if◌then◌else◌,
}
use riskrail.Base.Decimal.{to_decimal, of_decimal}
use riskrail.Base.Hex.{read_hex}
use riskrail.Base.Int.{ℤ, pos}
use riskrail.Value.{
  Value, undefined, number, str, array, object, Fields, as_record, get_field, elements,
}
use riskrail.Position.{LendingRiskParameters}
use riskrail.Stacks.Clarity.{unwrap_clarity, unwrap_clarity_response, ClarityResponse}
use riskrail.Adapters.Decode.{
  as_uint_string, as_string, max_safe_integer, Argument, principal_cv, uint_cv, CallReadOnly,
}

abbrev pub max_u128 : ℕ
max_u128 = 340282366920938463463374607431768211455

abbrev pub index_precision : ℕ
index_precision = 1000000000000

pub record KnownAsset : Type 0 where
  pub symbol : String
  pub underlying_id : ℕ
  pub z_token : Bool

abbrev known : String → ℕ → Bool → KnownAsset
known symbol id z = record { symbol = symbol; underlying_id = id; z_token = z }

abbrev pub known_assets : List (ℕ × KnownAsset)
known_assets =
    (0, known "STX" 0 false)
    ∷ (1, known "STX" 0 true)
    ∷ (2, known "sBTC" 2 false)
    ∷ (3, known "sBTC" 2 true)
    ∷ (4, known "stSTX" 4 false)
    ∷ (5, known "stSTX" 4 true)
    ∷ (6, known "USDC" 6 false)
    ∷ (7, known "USDC" 6 true)
    ∷ (8, known "USDH" 8 false)
    ∷ (9, known "USDH" 8 true)
    ∷ (10, known "stSTXbtc" 10 false)
    ∷ (11, known "stSTXbtc" 10 true)
    ∷ (12, known "stBTC" 12 false)
    ∷ (13, known "stBTC" 12 true)
    ∷ []

-- a record of the source with numeric keys
abbrev pub at_id {ℓ} : {A : Type ℓ} → List (ℕ × A) → ℕ → Option A
at_id [] id = none
at_id ((k, a) ∷ rest) id = let later = at_id rest id in if k == id then some a else later

unfoldable pub known_asset : ℕ → Option KnownAsset
known_asset id = at_id known_assets id

pub record ZestV2Contracts : Type 0 where
  pub market : Option String
  pub market_vault : String
  pub assets : String
  pub egroup : String
  pub vaults : List (ℕ × String)

pub record ZestAssetInfo : Type 0 where
  pub id : ℕ
  pub contract_id : String
  pub decimals : ℕ
  pub symbol : String
  pub underlying_id : ℕ
  pub z_token : Bool

pub record ZestCollateralEntry : Type 0 where
  pub aid : ℕ
  pub amount_atomic : String

pub record ZestDebtEntry : Type 0 where
  pub aid : ℕ
  pub scaled_atomic : String

pub record ZestRiskGroup : Type 0 where
  pub mask : String
  pub parameters : LendingRiskParameters

pub record ZestPositionState : Type 0 where
  pub id : ℕ
  pub mask : String
  pub collateral : List ZestCollateralEntry
  pub debt : List ZestDebtEntry
  pub risk_group : ZestRiskGroup

-- the interface that the adapter reads through
pub record ZestV2Reader : Type 0 where
  pub get_position : String → Option (Option ZestPositionState)
  pub get_asset : ℕ → Option ZestAssetInfo
  pub convert_shares_to_underlying : ℕ → String → Option String
  pub get_actual_debt : ℕ → String → Option String

-- The reader of the chain: the client, the contracts, and `Number(text)` of a text that is not
-- hexadecimal digits, `none` where it is not a number.
pub record StacksReader : Type 0 where
  pub call_read_only : CallReadOnly
  pub contracts : ZestV2Contracts
  pub number_of : String → Option ℤ

-- `asRecord`
unfoldable pub as_fields : Value → Option Fields
unfolding unwrap_clarity
as_fields v = as_record (unwrap_clarity v)

-- `asList`
unfoldable pub as_list : Value → List Value
unfolding unwrap_clarity
as_list v = elim (unwrap_clarity v) [ array xs ↦ elements xs | _ ↦ [] ]

abbrev safe : ℕ → Option ℕ
safe n = if leb n max_safe_integer then some n else none

-- `asNumber`
unfoldable pub as_number : Value → Option ℕ
unfolding as_uint_string of_decimal
as_number v = as_uint_string v >>= λ raw. of_decimal raw >>= λ n. safe n

abbrev is_empty : String → Bool
is_empty String.[] = true
is_empty (String.◌∷◌ c s) = false

-- `text.startsWith('0x') ? text.slice(2) : text`
abbrev pub without_0x : String → String
without_0x (String.◌∷◌ c (String.◌∷◌ d s)) =
    if code c == 48
    then (if code d == 120 then s else String.◌∷◌ c (String.◌∷◌ d s))
    else String.◌∷◌ c (String.◌∷◌ d s)
without_0x s = s

unfoldable pub hex_number : (String → Option ℤ) → String → Option ℤ
unfolding read_hex
hex_number number_of s =
    if is_empty (without_0x s)
    then number_of s
    else elim (read_hex 0 (without_0x s)) [ none ↦ number_of s | some n ↦ some (pos n) ]

-- `bufferToNumber`
unfoldable pub buffer_to_number : (String → Option ℤ) → Value → Option ℤ
unfolding unwrap_clarity hex_number
buffer_to_number number_of v = elim (unwrap_clarity v) [
  | number n ↦ some n
  | str s ↦ hex_number number_of s
  | _ ↦ none
]

abbrev pub no_parameters : LendingRiskParameters
no_parameters = record {
  borrow_ltv_bps = none;
  partial_liquidation_ltv_bps = none;
  full_liquidation_ltv_bps = none;
  liquidation_penalty_min_bps = none;
  liquidation_penalty_max_bps = none;
}

unfoldable pub parameters_of : (String → Option ℤ) → Fields → LendingRiskParameters
unfolding buffer_to_number get_field
parameters_of number_of tuple = record {
  borrow_ltv_bps = buffer_to_number number_of (get_field "LTV-BORROW" tuple);
  partial_liquidation_ltv_bps = buffer_to_number number_of (get_field "LTV-LIQ-PARTIAL" tuple);
  full_liquidation_ltv_bps = buffer_to_number number_of (get_field "LTV-LIQ-FULL" tuple);
  liquidation_penalty_min_bps = buffer_to_number number_of (get_field "LIQ-PENALTY-MIN" tuple);
  liquidation_penalty_max_bps = buffer_to_number number_of (get_field "LIQ-PENALTY-MAX" tuple);
}

-- ===== src/Adapters/Zest/Reader.antt =====
-- packages/adapter-zest-v2/src/index.ts: `StacksZestV2Reader`.
use Prim.Native.String.{◌++◌ as append}
use riskrail.Base.{
  ℕ, ◌+◌, ◌-◌, ◌*◌, ◌/◌, Bool, false, String, Option, none, some, ◌>>=◌, [], ◌∷◌, traverse,
  if◌then◌else◌,
}
use riskrail.Base.Decimal.{to_decimal, of_decimal}
use riskrail.Value.{Value, Fields, get_field}
use riskrail.Stacks.Clarity.{unwrap_clarity_response}
use riskrail.Adapters.Decode.{as_uint_string, as_string, principal_cv, uint_cv}
use riskrail.Adapters.Zest.{
  StacksReader, ZestV2Reader, ZestAssetInfo, ZestRiskGroup, ZestPositionState, ZestCollateralEntry,
  ZestDebtEntry, known_asset, at_id, as_fields, as_list, as_number, parameters_of, no_parameters,
  max_u128, index_precision,
}

unfoldable pub get_risk_group : StacksReader → String → String → Option ZestRiskGroup
unfolding of_decimal unwrap_clarity_response as_fields parameters_of
get_risk_group reader mask sender = of_decimal mask >>= λ bits.
    reader.call_read_only reader.contracts.egroup "resolve" (uint_cv bits ∷ []) (some sender)
    >>= λ raw.
        if (unwrap_clarity_response raw).ok
        then (as_fields (unwrap_clarity_response raw).value >>= λ tuple.
            some (record { mask = mask; parameters = parameters_of reader.number_of tuple }))
        else some (record { mask = mask; parameters = no_parameters })

unfoldable pub collateral_entry : Value → Option ZestCollateralEntry
unfolding as_fields as_number as_uint_string get_field
collateral_entry v = as_fields v >>= λ item. as_number (get_field "aid" item) >>= λ aid.
    as_uint_string (get_field "amount" item) >>= λ amount.
    some (record { aid = aid; amount_atomic = amount })

unfoldable pub debt_entry : Value → Option ZestDebtEntry
unfolding as_fields as_number as_uint_string get_field
debt_entry v = as_fields v >>= λ item. as_number (get_field "aid" item) >>= λ aid.
    as_uint_string (get_field "scaled" item) >>= λ scaled.
    some (record { aid = aid; scaled_atomic = scaled })

unfoldable pub decode_position : StacksReader → String → Fields → Option ZestPositionState
unfolding get_field as_uint_string get_risk_group as_number as_list collateral_entry debt_entry
decode_position reader address tuple = as_uint_string (get_field "mask" tuple) >>= λ mask.
    get_risk_group reader mask address >>= λ risk_group. as_number (get_field "id" tuple) >>= λ id.
    traverse collateral_entry (as_list (get_field "collateral" tuple)) >>= λ collateral.
    traverse debt_entry (as_list (get_field "debt" tuple)) >>= λ debt.
    some (record {
      id = id;
      mask = mask;
      collateral = collateral;
      debt = debt;
      risk_group = risk_group;
    })

-- `getPosition`: `some none` is its `null`
unfoldable pub get_position : StacksReader → String → Option (Option ZestPositionState)
unfolding unwrap_clarity_response as_fields decode_position
get_position reader address =
    reader.call_read_only reader.contracts.market_vault "get-position"
      (principal_cv address ∷ uint_cv max_u128 ∷ []) (some address)
    >>= λ raw.
        if (unwrap_clarity_response raw).ok
        then (as_fields (unwrap_clarity_response raw).value >>= λ tuple.
            decode_position reader address tuple >>= λ state. some (some state))
        else some none

-- `known?.symbol ?? ...` and the two defaults beside it
unfoldable pub symbol_of : ℕ → String
unfolding known_asset to_decimal
symbol_of id = elim (known_asset id) [
  | none ↦ append "ZEST-" (to_decimal id)
  | some known ↦ known.symbol
]

unfoldable pub underlying_of : ℕ → ℕ
unfolding known_asset
underlying_of id = elim (known_asset id) [ none ↦ id | some known ↦ known.underlying_id ]

unfoldable pub is_z_token : ℕ → Bool
unfolding known_asset
is_z_token id = elim (known_asset id) [ none ↦ false | some known ↦ known.z_token ]

unfoldable pub asset_info : ℕ → Fields → Option ZestAssetInfo
unfolding as_string as_number get_field symbol_of underlying_of is_z_token
asset_info id tuple = as_string (get_field "addr" tuple) >>= λ contract_id.
    as_number (get_field "decimals" tuple) >>= λ decimals. some (record {
      id = id;
      contract_id = contract_id;
      decimals = decimals;
      symbol = symbol_of id;
      underlying_id = underlying_of id;
      z_token = is_z_token id;
    })

unfoldable pub get_asset : StacksReader → ℕ → Option ZestAssetInfo
unfolding unwrap_clarity_response as_fields asset_info
get_asset reader id =
    reader.call_read_only reader.contracts.assets "lookup" (uint_cv id ∷ []) none >>= λ raw.
    if (unwrap_clarity_response raw).ok
    then (as_fields (unwrap_clarity_response raw).value >>= λ tuple. asset_info id tuple)
    else none

-- `convert-to-assets` of the vault of a share
unfoldable pub convert_in_vault : StacksReader → ℕ → String → Option String
unfolding underlying_of of_decimal unwrap_clarity_response as_uint_string
convert_in_vault reader id amount = at_id reader.contracts.vaults (underlying_of id) >>= λ vault.
    of_decimal amount >>= λ shares.
    reader.call_read_only vault "convert-to-assets" (uint_cv shares ∷ []) none >>= λ raw.
    if (unwrap_clarity_response raw).ok
    then as_uint_string (unwrap_clarity_response raw).value
    else none

unfoldable pub convert_shares_to_underlying : StacksReader → ℕ → String → Option String
unfolding is_z_token convert_in_vault
convert_shares_to_underlying reader id amount =
    if is_z_token id then convert_in_vault reader id amount else some amount

-- `(scaled * nextIndex + INDEX_PRECISION - 1n) / INDEX_PRECISION`
unfoldable pub actual_debt : ℕ → ℕ → ℕ
actual_debt scaled next_index = (scaled * next_index + index_precision - 1) / index_precision

unfoldable pub get_actual_debt : StacksReader → ℕ → String → Option String
unfolding underlying_of unwrap_clarity_response as_uint_string of_decimal to_decimal actual_debt
get_actual_debt reader id scaled_atomic =
    at_id reader.contracts.vaults (underlying_of id) >>= λ vault.
    reader.call_read_only vault "get-next-index" [] none >>= λ raw.
    if (unwrap_clarity_response raw).ok
    then (as_uint_string (unwrap_clarity_response raw).value >>= λ index.
        of_decimal index >>= λ next_index.
        of_decimal scaled_atomic >>= λ scaled. some (to_decimal (actual_debt scaled next_index)))
    else none

-- the reader as the adapter takes it
unfoldable pub stacks_reader : StacksReader → ZestV2Reader
unfolding get_position get_asset convert_shares_to_underlying get_actual_debt
stacks_reader reader = record {
  get_position = get_position reader;
  get_asset = get_asset reader;
  convert_shares_to_underlying = convert_shares_to_underlying reader;
  get_actual_debt = get_actual_debt reader;
}

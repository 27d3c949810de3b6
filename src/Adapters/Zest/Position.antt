-- ===== src/Adapters/Zest/Position.antt =====
-- packages/adapter-zest-v2/src/index.ts: `ZestV2Adapter`.
use Prim.Native.String.{◌++◌ as append}
use text.Mathlib.Text.{◌==◌ as str_eq}
use riskrail.Base.{
  ℕ, Bool, true, false, String, Option, none, some, ◌>>=◌, List, [], ◌∷◌, ◌++◌, map, traverse,
  is_some, if◌then◌else◌,
}
use riskrail.Base.Text.{to_upper}
use riskrail.Base.Decimal.{to_decimal}
use riskrail.Base.Int.{ℤ, pos}
use riskrail.Value.{
  Value, undefined, number, str, bool, array, object, Items, nil, cons, Fields, end, field,
}
use riskrail.Position.{NormalizedPosition, PositionAsset, PositionType, ProtocolMetadata, Role}
use riskrail.Adapters.Decode.{AdapterContext, source_of}
use riskrail.Adapters.Zest.{
  ZestV2Contracts, ZestV2Reader, ZestAssetInfo, ZestPositionState, ZestRiskGroup,
  ZestCollateralEntry, ZestDebtEntry,
}

abbrev is_empty : String → Bool
is_empty String.[] = true
is_empty (String.◌∷◌ c s) = false

-- `.filter((value) => Boolean(value))`
abbrev present : List (Option String) → List String
present [] = []
present (none ∷ rest) = present rest
present (some s ∷ rest) = if is_empty s then present rest else s ∷ present rest

unfoldable pub metadata : ZestV2Contracts → ProtocolMetadata
metadata contracts = record {
  id = "zest-v2";
  name = "Zest Protocol V2";
  protocol_type = "lending";
  website = some "https://www.zestprotocol.com";
  contracts = present (
      contracts.market
      ∷ some contracts.market_vault
      ∷ some contracts.assets
      ∷ some contracts.egroup
      ∷ map (λ (v : ℕ × String). some v.1) contracts.vaults);
}

unfoldable pub canonical_asset_id : String → String → String
unfolding to_upper
canonical_asset_id symbol contract_id =
    if str_eq (to_upper symbol) "SBTC"
    then "sBTC"
    else if str_eq (to_upper symbol) "STX"
    then "STX"
    else if str_eq (to_upper symbol) "USDC"
    then "USDC"
    else if str_eq (to_upper symbol) "USDH"
    then "USDH"
    else contract_id

-- `info.zToken ? await reader.getAsset(info.underlyingId) : info`
unfoldable pub underlying_info : ZestV2Reader → ZestAssetInfo → Option ZestAssetInfo
underlying_info reader info =
    if info.z_token then reader.get_asset info.underlying_id else some info

-- what a step of either loop pushes to `assets`
unfoldable pub asset_of : Role → ZestAssetInfo → ZestAssetInfo → String → PositionAsset
unfolding canonical_asset_id
asset_of role info underlying amount = record {
  asset_id = canonical_asset_id underlying.symbol underlying.contract_id;
  symbol = underlying.symbol;
  amount_atomic = amount;
  decimals = underlying.decimals;
  value_usd = none;
  role = role;
  protocol_asset_id = some info.contract_id;
}

-- What a step pushes to `protocolAssets`: the fields that both loops have, then those of one.
abbrev shared_details : String → ℕ → ZestAssetInfo → ZestAssetInfo → Fields → Value
shared_details role aid info underlying rest = object (
    field "role" (str role) (
      field "assetId" (number (pos aid)) (
        field "protocolContract" (str info.contract_id) (
          field "underlyingAssetId" (number (pos info.underlying_id))
            (field "underlyingContract" (str underlying.contract_id) rest)))))

-- an entry of both lists
abbrev pub Pushed : Type 0
Pushed = PositionAsset × Value

unfoldable pub collateral_step : ZestV2Reader → ZestCollateralEntry → Option Pushed
unfolding underlying_info asset_of
collateral_step reader entry = reader.get_asset entry.aid >>= λ info.
    reader.convert_shares_to_underlying entry.aid entry.amount_atomic >>= λ amount.
    underlying_info reader info >>= λ underlying. some (
      asset_of Role.collateral info underlying amount,
      shared_details "collateral" entry.aid info underlying (
          field "zToken" (bool info.z_token) (
            field "protocolAmountAtomic" (str entry.amount_atomic)
              (field "normalizedAmountAtomic" (str amount) end))),
    )

unfoldable pub debt_step : ZestV2Reader → ZestDebtEntry → Option Pushed
unfolding underlying_info asset_of
debt_step reader entry = reader.get_asset entry.aid >>= λ info.
    reader.get_actual_debt entry.aid entry.scaled_atomic >>= λ amount.
    underlying_info reader info >>= λ underlying. some (
      asset_of Role.debt info underlying amount,
      shared_details "debt" entry.aid info underlying (
          field "scaledAmountAtomic" (str entry.scaled_atomic)
            (field "normalizedAmountAtomic" (str amount) end)),
    )

abbrev items_of : List Pushed → Items
items_of [] = nil
items_of ((asset, details) ∷ rest) = cons details (items_of rest)

abbrev bps_field : String → Option ℤ → Fields → Fields
bps_field k none rest = field k undefined rest
bps_field k (some n) rest = field k (number n) rest

abbrev group_value : ZestRiskGroup → Value
group_value group = object (
    field "mask" (str group.mask) (
      bps_field "borrowLtvBps" group.parameters.borrow_ltv_bps (
        bps_field "partialLiquidationLtvBps" group.parameters.partial_liquidation_ltv_bps (
          bps_field "fullLiquidationLtvBps" group.parameters.full_liquidation_ltv_bps (
            bps_field "liquidationPenaltyMinBps" group.parameters.liquidation_penalty_min_bps (
              bps_field "liquidationPenaltyMaxBps" group.parameters.liquidation_penalty_max_bps
                end))))))

unfoldable pub obligation :
    ZestV2Contracts → String → AdapterContext → ZestPositionState → List Pushed → NormalizedPosition
unfolding metadata
obligation contracts address context state pushed = record {
  id = append "zest-v2:" (append address (append ":" (to_decimal state.id)));
  owner = address;
  protocol = metadata contracts;
  position_type = PositionType.borrowing;
  assets = map (λ (x : Pushed). x.0) pushed;
  value_usd = none;
  collateral_of = none;
  debt_of = none;
  liquidation = none;
  lending_of = some state.risk_group.parameters;
  liquidity_of = none;
  accessibility = some (record { liquid_bps = pos 0; locked_until_block = none });
  source = source_of context;
  metadata = field "obligationId" (number (pos state.id)) (
      field "mask" (str state.mask) (
        field "riskGroup" (group_value state.risk_group) (
          field "protocolAssets" (array (items_of pushed)) (
            field "collateralCustody" (str "protocol-locked") (
              field "debtAccounting" (str "scaled-debt-normalized-with-next-borrow-index") end)))));
}

unfoldable pub positions_of :
    ZestV2Contracts
    → String
    → AdapterContext
    → ZestPositionState
    → List Pushed
    → List NormalizedPosition
unfolding obligation
positions_of contracts address context state [] = []
positions_of contracts address context state (p ∷ ps) =
    obligation contracts address context state (p ∷ ps) ∷ []

unfoldable pub positions_of_state :
    ZestV2Reader
    → ZestV2Contracts
    → String
    → AdapterContext
    → ZestPositionState
    → Option (List NormalizedPosition)
unfolding collateral_step debt_step positions_of
positions_of_state reader contracts address context state =
    traverse (collateral_step reader) state.collateral >>= λ collateral.
    traverse (debt_step reader) state.debt >>= λ debt.
    some (positions_of contracts address context state (collateral ++ debt))

-- `ZestV2Adapter.getPositions`
unfoldable pub get_positions :
    ZestV2Reader → ZestV2Contracts → String → AdapterContext → Option (List NormalizedPosition)
unfolding positions_of_state
get_positions reader contracts address context = reader.get_position address >>= λ found.
    elim found [
      | none ↦ some []
      | some state ↦ positions_of_state reader contracts address context state
    ]

-- `ZestV2Adapter.supports`
unfoldable pub supports : ZestV2Reader → String → Option Bool
supports reader address = reader.get_position address >>= λ found. some (is_some found)

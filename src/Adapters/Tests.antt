-- ===== src/Adapters/Tests.antt =====
-- Runs of the adapters.
use riskrail.Base.{
  ℕ, ◌≡◌, refl, Bool, true, false, ◌||◌, ◌&&◌, String, Option, none, some, List, [], ◌∷◌, ◌++◌,
  or_default, is_some, map, ◌==◌, arith, if◌then◌else◌, All, ◌<◌, ◌≤◌, ◌*◌, ◌+◌, ◌-◌,
}
use riskrail.Base.Decimal.{of_decimal}
use text.Mathlib.Text.{◌==◌ as str_eq}
use riskrail.Value.{Value, str, object, array, nil, cons, Fields, end, field}
use riskrail.Position.{NormalizedPosition, PositionAsset, Role}
use riskrail.Adapters.Decode.{AdapterContext, CallReadOnly}
use riskrail.Adapters.Bitpay.{
  Amounts, BitPayStream, ReaderConfig, liquid_bps, stream_position, sort, unique, get_positions,
}
use riskrail.Adapters.Bitpay.Streams.{stream_position-counted_once}
use riskrail.Adapters.Ranges.{InRange, get_positions-InRange}
use riskrail.Adapters.Zest.{
  ZestV2Reader, ZestV2Contracts, ZestAssetInfo, ZestPositionState, ZestCollateralEntry,
  ZestDebtEntry, no_parameters, index_precision,
}
use riskrail.Adapters.Zest.Position.{collateral_step, debt_step}
use riskrail.Adapters.Zest.Position
use riskrail.Adapters.Zest.Assets.{get_positions-roles, roles}
use riskrail.Adapters.Zest.Contracts.{
  Env, contracts_from_env, is_some-contracts_from_env, given, keys,
}

abbrev half_vested : Amounts
half_vested = record { total = 100; withdrawn = 20; vested = 60 }

abbrev stream : BitPayStream
stream = record {
  sender = "SP1";
  recipient = "SP2";
  total_amount_atomic = "100";
  withdrawn_amount_atomic = "20";
  vested_amount_atomic = "60";
  start_block = some 1;
  end_block = some 9;
  cancelled = false;
}

abbrev context : AdapterContext
context = record { block_height = none; now = "now" }

stream_position-counted_once_example :
    ((stream_position "SP1" "SP9.pay" context 7 stream half_vested).assets ≡ [])
    × (map {B = Role × Option ℕ}
          (λ (x : PositionAsset). (x.role, of_decimal x.amount_atomic))
          (stream_position "SP2" "SP9.pay" context 7 stream half_vested).assets
        ≡ (Role.locked, some 80) ∷ [])
stream_position-counted_once_example =
    stream_position-counted_once "SP1" "SP2" "SP9.pay" context 7 stream half_vested refl refl
      (omega arith)

sorts_ids : sort (unique (5 ∷ 3 ∷ [] ++ 9 ∷ 3 ∷ [])) ≡ 3 ∷ 5 ∷ 9 ∷ []
unfolding sort unique
sorts_ids = refl

abbrev node : String → Value → Value
node type value = object (field "type" (str type) (field "value" value end))

abbrev live_tuple : Fields
live_tuple = field "sender" (node "principal" (str "SP1")) (
    field "recipient" (node "principal" (str "SP2")) (
      field "amount" (node "uint" (str "100")) (
        field "withdrawn" (node "uint" (str "20")) (
          field "start-block" (node "uint" (str "1")) (
            field "end-block" (node "uint" (str "9"))
              (field "cancelled" (node "bool" (riskrail.Value.bool false)) end))))))

-- a contract that has one live stream
abbrev answers : CallReadOnly
answers contract function arguments sender =
    if str_eq function "get-recipient-streams"
    then some (node "(list 1 uint)" (array (cons (node "uint" (str "7")) nil)))
    else if str_eq function "get-sender-streams"
    then some (node "(list 1 uint)" (array nil))
    else if str_eq function "get-stream"
    then some (node "(optional (tuple))" (node "(tuple)" (object live_tuple)))
    else some (node "uint" (str "60"))

abbrev config : ReaderConfig
config = record { call_read_only = answers; contract_id = "SP9.pay"; sender_address = none }

abbrev found_positions : List NormalizedPosition
unfolding stream_position
found_positions = stream_position "SP2" "SP9.pay" context 7 stream half_vested ∷ []

get_positions-InRange_example : All InRange found_positions
unfolding riskrail.Adapters.Bitpay.get_positions riskrail.Adapters.Bitpay.stream_position
    riskrail.Base.Text.to_lower
get_positions-InRange_example = get_positions-InRange config "SP2" context found_positions refl

abbrev asset : ℕ → ZestAssetInfo
asset id = record {
  id = id;
  contract_id = "SP9.asset";
  decimals = 8;
  symbol = "sBTC";
  underlying_id = 2;
  z_token = id == 3;
}

abbrev account : ZestPositionState
account = record {
  id = 4;
  mask = "5";
  collateral = (record { aid = 3; amount_atomic = "50" }) ∷ [];
  debt = (record { aid = 6; scaled_atomic = "7" }) ∷ [];
  risk_group = record { mask = "5"; parameters = no_parameters };
}

-- a market that can read every asset but the one numbered 9
abbrev market : ZestV2Reader
market = record {
  get_position = λ address. some (some account);
  get_asset = λ id. if id == 9 then none else some (asset id);
  convert_shares_to_underlying = λ id amount. some amount;
  get_actual_debt = λ id scaled. some scaled;
}

abbrev contracts : ZestV2Contracts
contracts = record {
  market = none;
  market_vault = "SP9.vault";
  assets = "SP9.assets";
  egroup = "SP9.egroup";
  vaults = [];
}

abbrev market_positions : List NormalizedPosition
unfolding riskrail.Adapters.Zest.Position.get_positions
market_positions =
    or_default (riskrail.Adapters.Zest.Position.get_positions market contracts "SP1" context) []

get_positions-roles_example : roles market_positions ≡ Role.collateral ∷ Role.debt ∷ []
unfolding riskrail.Adapters.Zest.Position.get_positions
get_positions-roles_example =
    get_positions-roles market contracts "SP1" context account refl market_positions refl

abbrev no_variables : Env
no_variables key = none

abbrev main_network : Env
main_network key = if str_eq key "STACKS_NETWORK" then some "mainnet" else none

nothing_set : contracts_from_env no_variables ≡ none
unfolding riskrail.Adapters.Zest.Contracts.contracts_from_env
nothing_set = refl

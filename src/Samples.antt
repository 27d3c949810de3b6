-- ===== src/Samples.antt =====
-- Positions that the tests of several components run on, for the numbers of Numbers/Scaled: a wallet, a lending position at half of its
-- collateral, and one at all of it.
use riskrail.Base.{Bool, String, Option, none, some, List, [], ◌∷◌}
use riskrail.Base.Int.{pos}
use riskrail.Value.{end}
use riskrail.Position.{
  NormalizedPosition, PositionAsset, ProtocolMetadata, LendingRiskParameters, PositionType, Role,
  Liquidation,
}

abbrev pub holding : String → String → Role → PositionAsset
holding symbol usd role = record {
  asset_id = symbol;
  symbol = symbol;
  amount_atomic = "2";
  decimals = 0;
  value_usd = some usd;
  role = role;
  protocol_asset_id = none;
}

abbrev pub parameters : LendingRiskParameters
parameters = record {
  borrow_ltv_bps = some (pos 6000);
  partial_liquidation_ltv_bps = some (pos 8000);
  full_liquidation_ltv_bps = some (pos 9000);
  liquidation_penalty_min_bps = none;
  liquidation_penalty_max_bps = none;
}

abbrev protocol : String → ProtocolMetadata
protocol id = record {
  id = id;
  name = id;
  protocol_type = "lending";
  website = none;
  contracts = [];
}

abbrev pub position :
    String
    → PositionType
    → Option LendingRiskParameters
    → Option String
    → List PositionAsset
    → NormalizedPosition
position id position_type lending usd assets = record {
  id = id;
  owner = "SP1";
  protocol = protocol id;
  position_type = position_type;
  assets = assets;
  value_usd = usd;
  collateral_of = none;
  debt_of = none;
  liquidation = none;
  lending_of = lending;
  liquidity_of = none;
  accessibility = some (record { liquid_bps = pos 5000; locked_until_block = none });
  source = record { block_height = 1; observed_at = "now"; exact = Bool.true };
  metadata = end;
}

abbrev pub wallet_position : NormalizedPosition
wallet_position =
    position "wallet" PositionType.wallet none (some "3") (holding "STX" "3" Role.asset ∷ [])

abbrev pub half : NormalizedPosition
half =
    position "zest" PositionType.lending (some parameters) (some "2")
      (holding "sBTC" "4" Role.collateral ∷ holding "USDC" "2" Role.debt ∷ [])

abbrev pub full : NormalizedPosition
full =
    position "granite" PositionType.lending (some parameters) none
      (holding "sBTC" "4" Role.collateral ∷ holding "USDC" "4" Role.debt ∷ [])

abbrev pub half_liquidation : Liquidation
half_liquidation = record {
  threshold_e4 = some (pos 8000);
  price_usd = some "1";
  health_factor_e4 = some (pos 16000);
  distance_bps = some (pos 3750);
  partial_threshold_bps = some (pos 8000);
  full_threshold_bps = some (pos 9000);
}

abbrev pub full_liquidation : Liquidation
full_liquidation = record {
  threshold_e4 = some (pos 8000);
  price_usd = some "11";
  health_factor_e4 = some (pos 8000);
  distance_bps = some (pos 0);
  partial_threshold_bps = some (pos 8000);
  full_threshold_bps = some (pos 9000);
}

abbrev pub with_liquidation : Liquidation → NormalizedPosition → NormalizedPosition
with_liquidation l p = record p { liquidation = some l }

abbrev pub half_derived : NormalizedPosition
half_derived = with_liquidation half_liquidation half

abbrev pub full_derived : NormalizedPosition
full_derived = with_liquidation full_liquidation full

-- ===== src/Contracts/Tests.antt =====
-- Tests of the publisher, and its theorems on concrete inputs.
use riskrail.Base.{◌≡◌, refl, Bool, String, Option, none}
use riskrail.Base.Int.{ℤ, pos}
use riskrail.Contracts.{
  RiskAttestationInput, ContractArgs, PublishError, Broadcast, Published, is_report_hash,
  contract_args, answered, publish,
}
use riskrail.Contracts.Rejection.{Carries, IsBps, publish-bounds}

abbrev hash : String
hash = "00112233445566778899aabbccddeeff00112233445566778899AABBCCDDEEFF"

abbrev input : Option ℤ → RiskAttestationInput
input distance = record {
  wallet = "SP1";
  risk_score_bps = pos 4000;
  health_factor_e4 = none;
  liquidation_distance_bps = distance;
  protocol_concentration_bps = pos 6000;
  liquidity_score_bps = pos 9000;
  source_block = pos 7;
  report_hash = hash;
}

abbrev accepts : ContractArgs → Broadcast
accepts args = Broadcast.accepted "0x1"

hash_is_well_formed : is_report_hash hash ≡ Bool.true
unfolding is_report_hash riskrail.Contracts.all_hex riskrail.Contracts.is_hex
hash_is_well_formed = refl

short_hash_is_refused : is_report_hash "00112233" ≡ Bool.false
unfolding is_report_hash
short_hash_is_refused = refl

publishes : publish accepts (input none) ≡ Published.published (contract_args (input none)) "0x1"
unfolding publish contract_args riskrail.Contracts.is_bps riskrail.Contracts.all_hex
    riskrail.Contracts.is_hex is_report_hash answered
publishes = refl

publish-bounds_example :
    let args = contract_args (input none) in
    Carries (input none) args
    × ((IsBps args.risk_score_bps × IsBps args.liquidation_distance_bps)
        × (IsBps args.protocol_concentration_bps × IsBps args.liquidity_score_bps))
publish-bounds_example =
    publish-bounds accepts (input none) (contract_args (input none)) "0x1" publishes

score_is_in_range : riskrail.Contracts.is_bps (pos 4000) ≡ Bool.true
unfolding riskrail.Contracts.is_bps
score_is_in_range = refl

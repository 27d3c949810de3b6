-- ===== src/Contracts.antt =====
-- packages/rivisk-contracts/src/index.ts: the attestation publisher and the policy record. The
-- network's answer to a broadcast is an argument; a hash is 64 hexadecimal digits, as a text.
pub mod Rejection
pub mod Policy
pub mod Report
mod Tests
use Prim.Native.Char.{Char, code}
use Prim.Native.String.{count}
use text.Mathlib.Text.{◌==◌ as str_eq}
use riskrail.Base.{
  ℕ, ◌^◌, ◌-◌, Bool, true, false, not, ◌&&◌, ◌||◌, String, Option, none, some, List, [], ◌∷◌, ◌==◌,
  leb, or_default, if◌then◌else◌,
}
use riskrail.Base.Int.{ℤ, pos, ltb_ℤ, leb_ℤ}

pub record RiskPolicy : Type 0 where
  pub max_risk_score_bps : ℤ
  pub min_health_factor_e4 : ℤ
  pub max_protocol_concentration_bps : ℤ
  pub min_liquidity_score_bps : ℤ
  pub enabled : Bool
  pub updated_at : ℤ

abbrev pub health_factor_unbounded : ℤ
health_factor_unbounded = pos 340282366920938463463374607431768211455

abbrev pub liquidation_distance_max : ℤ
liquidation_distance_max = pos 10000

pub record RiskAttestationInput : Type 0 where
  pub wallet : String
  pub risk_score_bps : ℤ
  pub health_factor_e4 : Option ℤ
  pub liquidation_distance_bps : Option ℤ
  pub protocol_concentration_bps : ℤ
  pub liquidity_score_bps : ℤ
  pub source_block : ℤ
  pub report_hash : String

-- the arguments of `publish-risk-snapshot`
pub record ContractArgs : Type 0 where
  pub wallet : String
  pub risk_score_bps : ℤ
  pub health_factor_e4 : ℤ
  pub liquidation_distance_bps : ℤ
  pub protocol_concentration_bps : ℤ
  pub liquidity_score_bps : ℤ
  pub source_block : ℤ
  pub report_hash : String

pub data PublishError : Type 0 where
  bad_hash : PublishError
  bad_bps : String → PublishError
  broadcast_failed : PublishError
  no_transaction_id : PublishError

-- `broadcastTransaction`: an error, an answer without an identifier, or the identifier
pub data Broadcast : Type 0 where
  broadcast_error no_id : Broadcast
  accepted : String → Broadcast

-- what `publish` did: it threw before it built a call, or it made the call, which failed or was
-- answered with a transaction
pub data Published : Type 0 where
  rejected : PublishError → Published
  failed_call : ContractArgs → PublishError → Published
  published : ContractArgs → (tx_id : String) → Published

is_hex : Char → Bool
is_hex c =
    leb b'0' (code c) && leb (code c) b'9'
    || (leb b'a' (code c) && leb (code c) b'f' || leb b'A' (code c) && leb (code c) b'F')

all_hex : String → Bool
unfolding is_hex
all_hex String.[] = true
all_hex (String.◌∷◌ c s) = is_hex c && all_hex s

-- `/^[0-9a-f]{64}$/i`
unfoldable pub is_report_hash : String → Bool
unfolding all_hex
is_report_hash s = count s == 64 && all_hex s

-- the test of `assertBps`
unfoldable pub is_bps : ℤ → Bool
is_bps z = leb_ℤ (pos 0) z && leb_ℤ z (pos 10000)

abbrev pub published_distance : RiskAttestationInput → ℤ
published_distance input = or_default input.liquidation_distance_bps liquidation_distance_max

unfoldable pub contract_args : RiskAttestationInput → ContractArgs
contract_args input = record {
  wallet = input.wallet;
  risk_score_bps = input.risk_score_bps;
  health_factor_e4 = or_default input.health_factor_e4 health_factor_unbounded;
  liquidation_distance_bps = published_distance input;
  protocol_concentration_bps = input.protocol_concentration_bps;
  liquidity_score_bps = input.liquidity_score_bps;
  source_block = input.source_block;
  report_hash = input.report_hash;
}

-- what `publish` does with the answer
unfoldable pub answered : ContractArgs → Broadcast → Published
answered args broadcast_error = failed_call args broadcast_failed
answered args no_id = failed_call args no_transaction_id
answered args (accepted tx_id) = published args tx_id

-- `publish`, where `send` answers the contract call
unfoldable pub publish : (ContractArgs → Broadcast) → RiskAttestationInput → Published
unfolding is_report_hash is_bps contract_args answered
publish send input =
    if not (is_report_hash input.report_hash)
    then rejected bad_hash
    else if not (is_bps input.risk_score_bps)
    then rejected (bad_bps "riskScoreBps")
    else if not (is_bps (published_distance input))
    then rejected (bad_bps "liquidationDistanceBps")
    else if not (is_bps input.protocol_concentration_bps)
    then rejected (bad_bps "protocolConcentrationBps")
    else if not (is_bps input.liquidity_score_bps)
    then rejected (bad_bps "liquidityScoreBps")
    else answered (contract_args input) (send (contract_args input))

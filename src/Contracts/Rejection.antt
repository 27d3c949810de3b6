-- ===== src/Contracts/Rejection.antt =====
-- What the publisher of packages/rivisk-contracts/src/index.ts refuses, and what it lets through.
use riskrail.Base.{◌≡◌, Bool, true, false, ◌&&◌, String, some, or_default, ◌^◌, ◌-◌, arith}
use riskrail.Base.Int.{ℤ, pos, ◌≤ℤ◌, ltb_ℤ}
use riskrail.Contracts.{
  RiskAttestationInput, ContractArgs, PublishError, Broadcast, Published, is_report_hash, is_bps,
  published_distance, contract_args, answered, publish,
}

abbrev pub IsBps : ℤ → Type 0
IsBps z = (pos 0 ≤ℤ z) × (z ≤ℤ pos 10000)

-- the publisher made the call, whatever the network answered
abbrev pub made_call : Published → Bool
made_call (Published.rejected _) = false
made_call (Published.failed_call _ _) = true
made_call (Published.published _ _) = true

-- the hash is well formed and the four figures are at least 0 and not above 10000
abbrev pub publishable : RiskAttestationInput → Bool
publishable input =
    is_report_hash input.report_hash
    && (is_bps input.risk_score_bps
        && (is_bps (published_distance input)
            && (is_bps input.protocol_concentration_bps && is_bps input.liquidity_score_bps)))

-- The publisher makes a call exactly when the hash is 64 hexadecimal digits and the four figures in
-- basis points are accepted; then the result is the network's answer to the input's arguments.
pub publish-eq-publishable :
    (send : ContractArgs → Broadcast) (input : RiskAttestationInput)
    → (made_call (publish send input) ≡ publishable input)
      × (publishable input ≡ true
          → publish send input ≡ answered (contract_args input) (send (contract_args input)))
unfolding publish answered
publish-eq-publishable send input = ground arith

-- the arguments are the input's, with the largest values for what is missing
abbrev pub Carries : RiskAttestationInput → ContractArgs → Type 0
Carries input args =
    (args.wallet ≡ input.wallet)
    × (args.risk_score_bps ≡ input.risk_score_bps)
    × (args.health_factor_e4 ≡ or_default input.health_factor_e4 (pos (2 ^ 128 - 1)))
    × (args.liquidation_distance_bps ≡ or_default input.liquidation_distance_bps (pos 10000))
    × (args.protocol_concentration_bps ≡ input.protocol_concentration_bps)
    × (args.liquidity_score_bps ≡ input.liquidity_score_bps)
    × (args.report_hash ≡ input.report_hash)
    × (args.source_block ≡ input.source_block)

-- What reaches the chain is the input's and in range: a published attestation carries the input's
-- wallet, figures, hash and block, where a missing health factor is 2 ^ 128 - 1 and a missing
-- liquidation distance 10000, and its four figures in basis points are within 0 and 10000.
pub publish-bounds :
    (send : ContractArgs → Broadcast) (input : RiskAttestationInput) (args : ContractArgs)
    (tx_id : String)
    → publish send input ≡ Published.published args tx_id
    → Carries input args
      × ((IsBps args.risk_score_bps × IsBps args.liquidation_distance_bps)
          × (IsBps args.protocol_concentration_bps × IsBps args.liquidity_score_bps))
unfolding publish answered is_bps contract_args
publish-bounds send input args tx_id done = ground arith

-- An input with a negative liquidation distance is refused: with a well-formed hash and a score
-- in range, the publisher throws before it builds a call.
pub publish-rejects_negative_distance :
    (send : ContractArgs → Broadcast) (input : RiskAttestationInput) (z : ℤ)
    → input.liquidation_distance_bps ≡ some z
    → ltb_ℤ z (pos 0) ≡ true
    → is_report_hash input.report_hash ≡ true
    → is_bps input.risk_score_bps ≡ true
    → publish send input ≡ Published.rejected (PublishError.bad_bps "liquidationDistanceBps")
unfolding publish is_bps
publish-rejects_negative_distance send input z distance negative hash score = ground arith

-- ===== src/Worker/Throttle/Freshness.antt =====
-- When the throttle holds a snapshot back.
use riskrail.Base.{◌≡◌, refl, Bool, true, false, not, ◌&&◌, Option, none, some, arith}
use riskrail.Base.Int.{ℤ, ◌-ℤ◌, ltb_ℤ, eqb_ℤ→eq}
use riskrail.Worker.Throttle.{
  AttestedFigures, AttestationDecision, same_value, same_figures, decide_attestation,
}

-- the figures a reader of the chain sees: all but the block
abbrev pub AgreesWith : AttestedFigures → AttestedFigures → Type 0
AgreesWith a b =
    ((a.risk_score_bps ≡ b.risk_score_bps) × (a.health_factor_e4 ≡ b.health_factor_e4))
    × ((a.liquidation_distance_bps ≡ b.liquidation_distance_bps)
        × ((a.protocol_concentration_bps ≡ b.protocol_concentration_bps)
            × (a.liquidity_score_bps ≡ b.liquidity_score_bps)))

abbrev pub publishes : AttestationDecision → Bool
publishes (AttestationDecision.publish _) = true
publishes (AttestationDecision.unchanged _ _) = false

same_value→eq : (a b : Option ℤ) → same_value a b ≡ true → a ≡ b
same_value→eq a b same = ground arith

-- The test of the figures is equality of all of them but the block.
pub same_figures-AgreesWith : (a b : AttestedFigures) → same_figures a b ≡ true → AgreesWith a b
unfolding same_figures
same_figures-AgreesWith a b same = grind (arith, eqb_ℤ→eq, same_value→eq)

-- the figures of the last attestation are those of the candidate, and it is younger than the interval
abbrev pub is_covered : ℤ → AttestedFigures → Option AttestedFigures → Bool
is_covered min_interval candidate none = false
is_covered min_interval candidate (some last) =
    same_figures candidate last && ltb_ℤ (candidate.source_block -ℤ last.source_block) min_interval

pub decide_attestation-is_covered :
    (min_interval : ℤ) (candidate : AttestedFigures) (last : Option AttestedFigures)
    → publishes (decide_attestation candidate last min_interval)
      ≡ not (is_covered min_interval candidate last)
unfolding decide_attestation
decide_attestation-is_covered min_interval candidate none = refl
decide_attestation-is_covered min_interval candidate (some last) = ground arith

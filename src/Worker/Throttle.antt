-- ===== src/Worker/Throttle.antt =====
-- apps/worker/src/attestation-throttle.ts: which snapshots are worth an attestation. A block height
-- is an integer; the variable of the environment is a text already read, or absent.
pub mod Freshness
use riskrail.Base.{
  ℕ, ◌≡◌, Bool, true, false, not, ◌&&◌, Option, none, some, List, [], ◌∷◌, if◌then◌else◌, leb,
}
use riskrail.Base.Int.{ℤ, pos, negsuc, ◌-ℤ◌, eqb_ℤ, leb_ℤ}

pub record AttestedFigures : Type 0 where
  pub risk_score_bps : ℤ
  pub health_factor_e4 : Option ℤ
  pub liquidation_distance_bps : Option ℤ
  pub protocol_concentration_bps : ℤ
  pub liquidity_score_bps : ℤ
  pub source_block : ℤ

abbrev pub default_min_interval_blocks : ℤ
default_min_interval_blocks = pos 120

pub data Reason : Type 0 where
  first changed interval : Reason

pub data AttestationDecision : Type 0 where
  publish : Reason → AttestationDecision
  unchanged : (blocks_since_last min_interval_blocks : ℤ) → AttestationDecision

-- what the variable holds: it is absent or blank, an integer, or anything else `Number` gives
pub data Setting : Type 0 where
  blank other : Setting
  integer : ℤ → Setting

unfoldable pub min_interval_from_env : Setting → ℤ
min_interval_from_env Setting.blank = default_min_interval_blocks
min_interval_from_env (Setting.integer parsed) =
    if leb_ℤ (pos 0) parsed then parsed else default_min_interval_blocks
min_interval_from_env Setting.other = default_min_interval_blocks

-- `===` on a number or null
abbrev pub same_value : Option ℤ → Option ℤ → Bool
same_value none none = true
same_value none (some _) = false
same_value (some _) none = false
same_value (some a) (some b) = eqb_ℤ a b

unfoldable pub same_figures : AttestedFigures → AttestedFigures → Bool
same_figures a b =
    eqb_ℤ a.risk_score_bps b.risk_score_bps
    && (same_value a.health_factor_e4 b.health_factor_e4
        && (same_value a.liquidation_distance_bps b.liquidation_distance_bps
            && (eqb_ℤ a.protocol_concentration_bps b.protocol_concentration_bps
                && eqb_ℤ a.liquidity_score_bps b.liquidity_score_bps)))

unfoldable pub decide_attestation :
    AttestedFigures → Option AttestedFigures → ℤ → AttestationDecision
unfolding same_figures
decide_attestation candidate none min_interval_blocks = AttestationDecision.publish Reason.first
decide_attestation candidate (some last) min_interval_blocks =
    if not (same_figures candidate last)
    then AttestationDecision.publish Reason.changed
    else if leb_ℤ min_interval_blocks (candidate.source_block -ℤ last.source_block)
    then AttestationDecision.publish Reason.interval
    else AttestationDecision.unchanged (candidate.source_block -ℤ last.source_block)
        min_interval_blocks

-- ===== src/Worker/Attestation.antt =====
-- `attestationWorker` of apps/worker/src/main.ts and `markRiskSnapshotPublished` of
-- packages/database/src/index.ts. The state is the table of risk snapshots; a run reads one, decides,
-- publishes and marks it. `send` is the network's answer to the contract call.
pub mod Replay
pub mod Freshness
use text.Mathlib.Text.{◌==◌ as str_eq}
use riskrail.Base.{
  ℕ, Bool, true, false, not, ◌&&◌, ◌||◌, String, Option, none, some, List, [], ◌∷◌, if◌then◌else◌,
  is_some, keep, find, map, leb, ltb,
}
use riskrail.Base.Int.{ℤ, ltb_ℤ, eqb_ℤ}
use riskrail.Contracts.{
  RiskAttestationInput, ContractArgs, PublishError, Broadcast, Published, publish,
}
use riskrail.Worker.Throttle.{AttestedFigures, AttestationDecision, Reason, decide_attestation}

pub record RiskSnapshot : Type 0 where
  pub id : String
  pub wallet_id : String
  pub address : String
  pub figures : AttestedFigures
  pub observed_at : ℕ
  pub report_hash : String
  pub onchain_tx_id : Option String

-- what the worker reads of its environment
pub record Settings : Type 0 where
  pub publisher_enabled : Bool
  pub configured : Bool
  pub min_interval_blocks : ℤ

pub data AttestationResult : Type 0 where
  ignored disabled : AttestationResult
  misconfigured not_found : AttestationResult
  already_published : (tx_id : String) → AttestationResult
  skipped : AttestationResult
  threw : PublishError → AttestationResult
  broadcast : (tx_id : String) → AttestationResult

abbrev pub has_id : String → RiskSnapshot → Bool
has_id id s = str_eq s.id id

-- `prisma.riskSnapshot.findUnique`
unfoldable pub find_unique : String → List RiskSnapshot → Option RiskSnapshot
find_unique id table = find (has_id id) table

-- the order `sourceBlock` descending, then `observedAt` descending
abbrev pub comes_before : RiskSnapshot → RiskSnapshot → Bool
comes_before a b =
    ltb_ℤ b.figures.source_block a.figures.source_block
    || (eqb_ℤ a.figures.source_block b.figures.source_block && leb b.observed_at a.observed_at)

unfoldable pub first_in_order : List RiskSnapshot → Option RiskSnapshot
first_in_order [] = none
first_in_order (s ∷ rest) = elim (first_in_order rest) [
  | none ↦ some s
  | some best ↦ if comes_before s best then some s else some best
]

-- the last other snapshot of the wallet that has a transaction
unfoldable pub last_published : RiskSnapshot → List RiskSnapshot → Option RiskSnapshot
unfolding first_in_order
last_published snapshot table = first_in_order (
    keep
      (λ s.
        str_eq s.wallet_id snapshot.wallet_id
        && (not (str_eq s.id snapshot.id) && is_some s.onchain_tx_id))
      table)

abbrev pub with_tx : String → RiskSnapshot → RiskSnapshot
with_tx tx_id s = record {
  id = s.id;
  wallet_id = s.wallet_id;
  address = s.address;
  figures = s.figures;
  observed_at = s.observed_at;
  report_hash = s.report_hash;
  onchain_tx_id = some tx_id;
}

unfoldable pub mark_risk_snapshot_published :
    String → String → List RiskSnapshot → List RiskSnapshot
mark_risk_snapshot_published id tx_id [] = []
mark_risk_snapshot_published id tx_id (s ∷ table) =
    (if has_id id s then with_tx tx_id s else s) ∷ mark_risk_snapshot_published id tx_id table

abbrev pub attestation_input : RiskSnapshot → RiskAttestationInput
attestation_input s = record {
  wallet = s.address;
  risk_score_bps = s.figures.risk_score_bps;
  health_factor_e4 = s.figures.health_factor_e4;
  liquidation_distance_bps = s.figures.liquidation_distance_bps;
  protocol_concentration_bps = s.figures.protocol_concentration_bps;
  liquidity_score_bps = s.figures.liquidity_score_bps;
  source_block = s.figures.source_block;
  report_hash = s.report_hash;
}

abbrev pub figures_of : Option RiskSnapshot → Option AttestedFigures
figures_of none = none
figures_of (some s) = some s.figures

-- the worker after the publisher has answered
unfoldable pub after_publish :
    RiskSnapshot → List RiskSnapshot → Published → AttestationResult × List RiskSnapshot
after_publish snapshot table (Published.rejected e) = (threw e, table)
after_publish snapshot table (Published.failed_call args e) = (threw e, table)
after_publish snapshot table (Published.published args tx_id) =
    (broadcast tx_id, mark_risk_snapshot_published snapshot.id tx_id table)

-- the worker once the snapshot is read
unfoldable pub attest_snapshot :
    (ContractArgs → Broadcast)
    → ℤ
    → List RiskSnapshot
    → RiskSnapshot
    → AttestationResult × List RiskSnapshot
unfolding after_publish last_published
attest_snapshot send min_interval_blocks table snapshot = elim snapshot.onchain_tx_id [
  | some tx_id ↦ (already_published tx_id, table)
  | none ↦
      elim (decide_attestation snapshot.figures (figures_of (last_published snapshot table))
        min_interval_blocks) [
          | AttestationDecision.unchanged _ _ ↦ (skipped, table)
          | AttestationDecision.publish _ ↦
              after_publish snapshot table (publish send (attestation_input snapshot))
        ]
]

unfoldable pub attestation_worker :
    Settings
    → (ContractArgs → Broadcast)
    → (job_name id : String) → List RiskSnapshot
    → AttestationResult × List RiskSnapshot
unfolding attest_snapshot find_unique
attestation_worker settings send job_name id table =
    if not (str_eq job_name "risk.attest")
    then (ignored, table)
    else if not settings.publisher_enabled
    then (disabled, table)
    else if not settings.configured
    then (misconfigured, table)
    else elim (find_unique id table) [
      | none ↦ (not_found, table)
      | some snapshot ↦ attest_snapshot send settings.min_interval_blocks table snapshot
    ]

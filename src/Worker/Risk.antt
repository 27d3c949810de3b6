-- ===== src/Worker/Risk.antt =====
-- `riskWorker` of apps/worker/src/main.ts, with `emit` there and `persistRiskSnapshot` of
-- packages/database/src/index.ts. What the database, the channel and the queues answer is an argument;
-- what a run writes and sends is the list of its effects, in order.
pub mod Evidence
mod Tests
use text.Mathlib.Text.{◌==◌ as str_eq}
use riskrail.Base.{
  ℕ, Bool, true, false, not, ◌&&◌, String, Option, none, some, List, [], ◌∷◌, ◌++◌, map, or_default,
  if◌then◌else◌,
}
use riskrail.Base.Int.{ℤ, pos}
use riskrail.Base.Sort.{Order}
use riskrail.Numbers.{Numbers}
use riskrail.Value.{Value}
use riskrail.Position.{NormalizedPosition}
use riskrail.Risk.Score.{PortfolioRiskSummary, calculate_portfolio_risk}
use riskrail.Risk.Stress.{run_default_stress_scenarios}
use riskrail.Worker.Canonical.{sha256_canonical}
use riskrail.Worker.Report.{methodology_version, level_text, report_of, json_copy}

-- the rows that `getCurrentPortfolio` gives: the raw positions, and the coverage of the last snapshot
pub record StoredPortfolio : Type 0 where
  pub positions : List NormalizedPosition
  pub coverage_bps : Option ℤ

pub record RiskRow : Type 0 where
  pub id : String
  pub wallet_id : String
  pub risk_level : String
  pub risk_score_bps : ℤ
  pub health_factor_e4 : Option ℤ
  pub liquidation_distance_bps : Option ℤ
  pub protocol_concentration_bps : ℤ
  pub asset_concentration_bps : ℤ
  pub liquidity_score_bps : ℤ
  pub capital_accessibility_bps : ℤ
  pub report_hash : String
  pub report : Value
  pub source_block : ℤ
  pub methodology_version : String

pub data Effect : Type 0 where
  create_snapshot : RiskRow → Effect
  publish_update :
      (address snapshot_id level : String) (score : ℤ) (health : Option ℤ) (hash : String) → Effect
  deliver_webhook : (endpoint_id : String) → Effect
  evaluate_alerts : (address snapshot_id : String) → Effect
  attest : (address snapshot_id : String) → Effect

pub data Result : Type 0 where
  ignored threw : Result
  stored : (snapshot_id report_hash : String) → Result

pub record Job : Type 0 where
  pub name : String
  pub address : String
  pub source_block : ℤ

pub record RunInputs : Type 0 where
  pub portfolio : Option StoredPortfolio
  -- the wallet of `persistRiskSnapshot` and the identifier of its new row: `none` where it throws
  pub created : Option (String × String)
  pub now : String
  pub publishes : Bool
  -- the endpoints that the fan-out reaches; what ends it early is only logged
  pub targets : List String
  pub alerts_queued : Bool
  pub attestations_queued : Bool
  -- `RISK_PUBLISHER_ENABLED` is `true`, and `RISK_REGISTRY_CONTRACT` is a text
  pub publisher_enabled : Bool
  pub registry_set : Bool

-- `emit('risk.updated', …)`, once the channel has taken the message
unfoldable pub emit_update : String → RiskRow → List String → List Effect
emit_update address row targets =
    publish_update address row.id row.risk_level row.risk_score_bps row.health_factor_e4
      row.report_hash
    ∷ map deliver_webhook targets

-- what is queued after the event: the alerts, and the attestation where it is configured
unfoldable pub queue_jobs : RunInputs → String → RiskRow → List Effect × Result
queue_jobs around address row =
    if not around.alerts_queued
    then ([], threw)
    else if not (around.publisher_enabled && around.registry_set)
    then (evaluate_alerts address row.id ∷ [], stored row.id row.report_hash)
    else if not around.attestations_queued
    then (evaluate_alerts address row.id ∷ [], threw)
    else (
      evaluate_alerts address row.id ∷ attest address row.id ∷ [],
      stored row.id row.report_hash,
    )

-- the run once the row is there
unfoldable pub after_create : RunInputs → String → RiskRow → List Effect × Result
unfolding emit_update queue_jobs
after_create around address row =
    if not around.publishes then (create_snapshot row ∷ [], threw) else (
      create_snapshot row ∷ emit_update address row around.targets
          ++ (queue_jobs around address row).0,
      (queue_jobs around address row).1,
    )

-- the report as it is stored
unfoldable pub stored_report : Numbers → Job → String → StoredPortfolio → Value
unfolding json_copy report_of
stored_report num job now portfolio = json_copy (
    report_of job.address job.source_block now (or_default portfolio.coverage_bps (pos 0))
      (calculate_portfolio_risk num portfolio.positions)
      (run_default_stress_scenarios num portfolio.positions) portfolio.positions)

module _ (le : Order) (stringify : Value → String) (hash : String → String) where
  -- the data of `persistRiskSnapshot`
  unfoldable pub risk_row : (wallet_id id : String) → Job → PortfolioRiskSummary → Value → RiskRow
  unfolding sha256_canonical level_text
  risk_row wallet_id id job risk report = record {
    id = id;
    wallet_id = wallet_id;
    risk_level = level_text risk.risk_level;
    risk_score_bps = risk.risk_score_bps;
    health_factor_e4 = risk.worst_health_factor_e4;
    liquidation_distance_bps = risk.liquidation_distance_bps;
    protocol_concentration_bps = risk.protocol_concentration_bps;
    asset_concentration_bps = risk.asset_concentration_bps;
    liquidity_score_bps = risk.liquidity_score_bps;
    capital_accessibility_bps = risk.capital_accessibility;
    report_hash = sha256_canonical le stringify hash report;
    report = report;
    source_block = job.source_block;
    methodology_version = methodology_version;
  }

  unfoldable pub risk_worker : Numbers → RunInputs → Job → List Effect × Result
  unfolding after_create risk_row stored_report
  risk_worker num around job =
      if not (str_eq job.name "risk.recalculate") then ([], ignored) else elim around.portfolio [
        | none ↦ ([], threw)
        | some portfolio ↦ elim around.created [
          | none ↦ ([], threw)
          | some (wallet_id, id) ↦ after_create around job.address (
              risk_row wallet_id id job (calculate_portfolio_risk num portfolio.positions)
                (stored_report num job around.now portfolio))
        ]
      ]

-- ===== src/Api/Portfolios.antt =====
-- apps/api/src/modules/portfolios/portfolios.service.ts and modules/policies/policies.service.ts. The
-- rows of a wallet, the test of a principal and the random identifier are arguments.
pub mod Listed
mod Tests
use riskrail.Base.{
  ℕ, Bool, true, false, not, String, Option, none, some, ◌>>=◌, List, [], ◌∷◌, map, or_default,
  is_some, Dict, if◌then◌else◌,
}
use riskrail.Base.Text.{join, is_empty}
use riskrail.Base.Decimal.{to_decimal}
use riskrail.Base.Int.{ℤ, pos}
use riskrail.Position.{PositionAsset, NormalizedPosition, Role, type_text}
use riskrail.Adapters.Decode.{CallReadOnly}
use riskrail.Contracts.{RiskPolicy}
use riskrail.Contracts.Policy.{get_policy}
use riskrail.Storage.{RunStatus, PortfolioSnapshot, PositionRow, ProtocolRow}
use riskrail.Storage.Queries.{IncludedPosition, CurrentPortfolio}
use riskrail.Worker.Risk.{RiskRow}

pub record AssetView : Type 0 where
  pub asset_id : String
  pub symbol : String
  pub role : Role
  pub amount_atomic : String
  pub decimals : ℕ
  pub value_usd : Option String

pub record ProtocolView : Type 0 where
  pub id : String
  pub name : String
  pub type : String

pub record PositionView : Type 0 where
  pub id : String
  pub type : String
  pub protocol : Option ProtocolView
  pub value_usd : Option String
  pub block_height : String
  pub exact : Bool
  pub observed_at : String
  pub assets : List AssetView
  pub details : NormalizedPosition

pub record PortfolioView : Type 0 where
  pub address : String
  pub status : String
  pub last_indexed_at : Option String
  pub source_block : Option String
  pub total_value_usd : String
  pub valuation_coverage_bps : ℤ
  pub by_protocol : Dict String
  pub by_asset : Dict String
  pub positions : List PositionView

-- what `getPortfolio` gives: it throws for no principal
pub data PortfolioAnswer : Type 0 where
  bad_address : PortfolioAnswer
  not_indexed : (address refresh : String) → PortfolioAnswer
  found : PortfolioView → PortfolioAnswer

abbrev asset_view : PositionAsset → AssetView
asset_view a = record {
  asset_id = a.asset_id;
  symbol = a.symbol;
  role = a.role;
  amount_atomic = a.amount_atomic;
  decimals = a.decimals;
  value_usd = a.value_usd;
}

abbrev protocol_view : ProtocolRow → ProtocolView
protocol_view p = record { id = p.id; name = p.name; type = p.protocol_type }

unfoldable pub position_view : IncludedPosition → PositionView
unfolding to_decimal
position_view p = record {
  id = p.row.id;
  type = type_text p.row.position_type;
  protocol = p.protocol >>= λ protocol. some (protocol_view protocol);
  value_usd = p.row.value_usd;
  block_height = to_decimal p.row.block_height;
  exact = p.row.exact;
  observed_at = p.row.observed_at;
  assets = map asset_view p.assets;
  details = p.row.raw;
}

abbrev pub run_text : RunStatus → String
run_text RunStatus.processing = "processing"
run_text RunStatus.completed = "completed"
run_text RunStatus.failed = "failed"

-- a field of the latest snapshot, where there is one
abbrev of_snapshot {ℓ} : {A : Type ℓ} → (PortfolioSnapshot → A) → A → Option PortfolioSnapshot → A
of_snapshot f missing none = missing
of_snapshot f missing (some s) = f s

unfoldable pub portfolio_view : String → Option RunStatus → CurrentPortfolio → PortfolioView
unfolding position_view to_decimal
portfolio_view address run current = record {
  address = address;
  status = elim run [ none ↦ "indexed" | some status ↦ run_text status ];
  last_indexed_at = current.wallet.last_indexed_at;
  source_block = of_snapshot (λ s. some (to_decimal s.block_height)) none current.snapshot;
  total_value_usd = of_snapshot (λ s. s.portfolio.total_value_usd) "0.00" current.snapshot;
  valuation_coverage_bps =
      of_snapshot (λ s. s.portfolio.valuation_coverage_bps) (pos 0) current.snapshot;
  by_protocol = of_snapshot (λ s. s.portfolio.by_protocol) [] current.snapshot;
  by_asset = of_snapshot (λ s. s.portfolio.by_asset) [] current.snapshot;
  positions = map position_view current.positions;
}

-- a risk snapshot with what the chain and the clock add to its row
pub record RiskRecord : Type 0 where
  pub row : RiskRow
  pub observed_at : String
  pub onchain_tx_id : Option String
  pub onchain_snapshot_id : Option ℕ

pub record OnchainView : Type 0 where
  pub tx_id : String
  pub snapshot_id : Option String

pub data RiskAnswer : Type 0 where
  bad_principal unknown_wallet : RiskAnswer
  risk_pending : (address : String) (last_indexed_at : Option String) → RiskAnswer
  ready : (address : String) → RiskRecord → Option OnchainView → RiskAnswer

unfoldable pub onchain_view : RiskRecord → Option OnchainView
unfolding to_decimal
onchain_view r = r.onchain_tx_id >>= λ tx_id.
    if is_empty tx_id
    then none
    else some
        (record { tx_id = tx_id; snapshot_id = r.onchain_snapshot_id >>= λ n. some (to_decimal n) })

-- the job that a refresh queues
pub record QueuedRefresh : Type 0 where
  pub address : String
  pub correlation_id : String

pub data PolicyAnswer : Type 0 where
  bad_wallet : PolicyAnswer
  not_configured : (address : String) → PolicyAnswer
  failed_read : PolicyAnswer
  configured : (address contract_id : String) → Option RiskPolicy → PolicyAnswer

module _ (is_principal : String → Bool) where
  unfoldable pub get_portfolio :
      String → Option CurrentPortfolio → Option RunStatus → PortfolioAnswer
  unfolding portfolio_view
  get_portfolio address wallet run =
      if not (is_principal address) then bad_address else elim wallet [
        | none ↦ not_indexed address (join "/api/v1/portfolios/" (join address "/refresh"))
        | some current ↦ found (portfolio_view address run current)
      ]

  unfoldable pub get_risk : String → Option CurrentPortfolio → Option RiskRecord → RiskAnswer
  unfolding onchain_view
  get_risk address wallet latest =
      if not (is_principal address) then bad_principal else elim wallet [
        | none ↦ unknown_wallet
        | some current ↦ elim latest [
          | none ↦ risk_pending address current.wallet.last_indexed_at
          | some risk ↦ ready address risk (onchain_view risk)
        ]
      ]

  -- `requestRefresh`: the job that it queues, or `none` where it throws
  unfoldable pub request_refresh : String → (correlation_id : String) → Option QueuedRefresh
  request_refresh address correlation_id =
      if is_principal address
      then some (record { address = address; correlation_id = correlation_id })
      else none

  -- `PoliciesService.get`, where an empty setting counts as none
  unfoldable pub get_wallet_policy :
      CallReadOnly → (contract_id : Option String) → (address : String) → PolicyAnswer
  unfolding get_policy
  get_wallet_policy call_read_only contract_id address =
      if not (is_principal address) then bad_wallet else elim contract_id [
        | none ↦ not_configured address
        | some id ↦
            if is_empty id
            then not_configured address
            else elim (get_policy call_read_only id address) [
              | none ↦ failed_read
              | some policy ↦ configured address id policy
            ]
      ]

-- ===== src/Storage/Rows.antt =====
-- The tables of packages/database/prisma/schema.prisma that a run of the indexer writes.
use riskrail.Base.{ℕ, Bool, String, Option, List}
use riskrail.Position.{NormalizedPosition, PositionAsset, PositionType}
use riskrail.Portfolio.{Portfolio}

pub record WalletRow : Type 0 where
  pub address : String
  pub last_indexed_at : Option String

pub data RunStatus : Type 0 where
  processing completed failed : RunStatus

pub record IndexingRun : Type 0 where
  pub correlation_id : String
  pub wallet : String
  pub source_block : Option ℕ
  pub status : RunStatus
  pub error : Option String
  pub completed_at : Option String

pub record PositionRow : Type 0 where
  pub id : String
  pub wallet : String
  pub protocol_id : String
  pub position_type : PositionType
  pub value_usd : Option String
  pub block_height : ℕ
  pub exact : Bool
  pub active : Bool
  pub closed_at : Option String
  pub raw : NormalizedPosition
  pub observed_at : String

pub record AssetRow : Type 0 where
  pub position_id : String
  pub asset : PositionAsset

pub record PositionSnapshot : Type 0 where
  pub position_id : String
  pub value_usd : Option String
  pub state : NormalizedPosition
  pub block_height : ℕ
  pub observed_at : String

pub record ProtocolRow : Type 0 where
  pub id : String
  pub name : String
  pub protocol_type : String
  pub contract_ids : List String

pub record PortfolioSnapshot : Type 0 where
  pub wallet : String
  pub portfolio : Portfolio
  pub block_height : ℕ
  pub observed_at : String

pub record Database : Type 0 where
  pub wallets : List WalletRow
  pub runs : List IndexingRun
  pub positions : List PositionRow
  pub assets : List AssetRow
  pub snapshots : List PositionSnapshot
  pub protocols : List ProtocolRow
  pub portfolios : List PortfolioSnapshot

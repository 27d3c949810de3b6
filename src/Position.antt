-- ===== src/Position.antt =====
-- packages/adapter-core: the normalised position that adapters produce and the engines read, and
-- the risk levels of packages/shared-types. Numbers are integral; `observedAt` and the texts of the
-- protocol are opaque.
use riskrail.Base.{ℕ, Bool, true, false, String, Option, List}
use riskrail.Base.Int.{ℤ}
use riskrail.Value.{Fields}

pub data PositionType : Type 0 where
  wallet stream lending borrowing liquidity staking vault : PositionType

pub data Role : Type 0 where
  asset collateral debt reward locked : Role

pub record ProtocolMetadata : Type 0 where
  pub id : String
  pub name : String
  pub protocol_type : String
  pub website : Option String
  pub contracts : List String

pub record PositionAsset : Type 0 where
  pub asset_id : String
  pub symbol : String
  pub amount_atomic : String
  pub decimals : ℕ
  pub value_usd : Option String
  pub role : Role
  pub protocol_asset_id : Option String

pub record LendingRiskParameters : Type 0 where
  pub borrow_ltv_bps : Option ℤ
  pub partial_liquidation_ltv_bps : Option ℤ
  pub full_liquidation_ltv_bps : Option ℤ
  pub liquidation_penalty_min_bps : Option ℤ
  pub liquidation_penalty_max_bps : Option ℤ

pub record Collateral : Type 0 where
  pub value_usd : String
  pub ratio_e4 : Option ℤ
  pub current_ltv_bps : Option ℤ
  pub borrow_headroom_bps : Option ℤ

pub record Debt : Type 0 where
  pub value_usd : String

pub record Liquidation : Type 0 where
  pub threshold_e4 : Option ℤ
  pub price_usd : Option String
  pub health_factor_e4 : Option ℤ
  pub distance_bps : Option ℤ
  pub partial_threshold_bps : Option ℤ
  pub full_threshold_bps : Option ℤ

pub record Liquidity : Type 0 where
  pub available_usd : Option String
  pub exit_price_impact_bps : Option ℤ

pub record Accessibility : Type 0 where
  pub liquid_bps : ℤ
  pub locked_until_block : Option ℕ

pub record Source : Type 0 where
  pub block_height : ℕ
  pub observed_at : String
  pub exact : Bool

pub record NormalizedPosition : Type 0 where
  pub id : String
  pub owner : String
  pub protocol : ProtocolMetadata
  pub position_type : PositionType
  pub assets : List PositionAsset
  pub value_usd : Option String
  pub collateral_of : Option Collateral
  pub debt_of : Option Debt
  pub liquidation : Option Liquidation
  pub lending_of : Option LendingRiskParameters
  pub liquidity_of : Option Liquidity
  pub accessibility : Option Accessibility
  pub source : Source
  pub metadata : Fields

-- `asset.role === 'debt'` and `asset.role === 'collateral'`
abbrev pub is_debt : Role → Bool
is_debt debt = true
is_debt _ = false

abbrev pub is_collateral : Role → Bool
is_collateral collateral = true
is_collateral _ = false

abbrev pub is_wallet : PositionType → Bool
is_wallet wallet = true
is_wallet _ = false

-- `RiskLevel`
pub data RiskLevel : Type 0 where
  healthy moderate elevated critical unknown : RiskLevel

-- the names of `PositionType`
abbrev pub type_text : PositionType → String
type_text PositionType.wallet = "wallet"
type_text PositionType.stream = "stream"
type_text PositionType.lending = "lending"
type_text PositionType.borrowing = "borrowing"
type_text PositionType.liquidity = "liquidity"
type_text PositionType.staking = "staking"
type_text PositionType.vault = "vault"

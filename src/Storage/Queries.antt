-- ===== src/Storage/Queries.antt =====
-- `getCurrentPortfolio` of packages/database/src/index.ts. The times are texts in the order of
-- `le`, as ISO texts are in that of their characters.
use text.Mathlib.Text.{◌==◌}
use riskrail.Base.{String, Option, none, some, ◌>>=◌, List, [], ◌∷◌, map, keep, find}
use riskrail.Base.Sort.{Order, sort_entries}
use riskrail.Position.{PositionAsset}
use riskrail.Storage.{
  WalletRow, PositionRow, AssetRow, ProtocolRow, PortfolioSnapshot, Database, is_active_of,
}

-- a position with its protocol and its assets
pub record IncludedPosition : Type 0 where
  pub row : PositionRow
  pub protocol : Option ProtocolRow
  pub assets : List PositionAsset

pub record CurrentPortfolio : Type 0 where
  pub wallet : WalletRow
  pub positions : List IncludedPosition
  pub snapshot : Option PortfolioSnapshot

abbrev pub first {ℓ} : {A : Type ℓ} → List A → Option A
first [] = none
first (a ∷ rest) = some a

unfoldable pub include : Database → PositionRow → IncludedPosition
include db row = record {
  row = row;
  protocol = find (λ (p : ProtocolRow). p.id == row.protocol_id) db.protocols;
  assets =
      map (λ (a : AssetRow). a.asset) (keep (λ (a : AssetRow). a.position_id == row.id) db.assets);
}

module _ (le : Order) where
  -- `orderBy: { observedAt: 'desc' }`
  unfoldable pub latest_first {ℓ} : {A : Type ℓ} → (A → String) → List A → List A
  unfolding sort_entries
  latest_first time rows =
      map (λ e. e.1) (sort_entries (λ s t. le t s) (map (λ a. (time a, a)) rows))

  unfoldable pub get_current_portfolio : String → Database → Option CurrentPortfolio
  unfolding latest_first include
  get_current_portfolio address db =
      find (λ (w : WalletRow). w.address == address) db.wallets >>= λ wallet. some (record {
        wallet = wallet;
        positions = map (include db) (
            latest_first (λ (r : PositionRow). r.observed_at)
              (keep (is_active_of wallet.address) db.positions));
        snapshot = first (
            latest_first (λ (s : PortfolioSnapshot). s.observed_at)
              (keep (λ (s : PortfolioSnapshot). s.wallet == wallet.address) db.portfolios));
      })

-- ===== src/Storage.antt =====
-- packages/database/src/index.ts: the transaction that stores a portfolio, failed runs and the
-- queries. The tables that they touch are lists of rows; a wallet's identifier is its address, which
-- is unique, and a transaction is one step. `now` is the text of the present time.
pub mod Rows
pub mod Current
pub mod Runs
pub mod Queries
pub mod Deliveries
mod Tests
pub use Rows.*
use text.Mathlib.Text.{◌==◌}
use riskrail.Base.{
  ℕ, Bool, true, false, not, ◌&&◌, String, Option, none, some, List, [], ◌∷◌, ◌++◌, map, any, keep,
  find, Dict, ◌==◌ as eqb, is_some, if◌then◌else◌,
}
use riskrail.Base.Int.{ℤ}
use riskrail.Position.{NormalizedPosition, PositionAsset, PositionType, Role}
use riskrail.Portfolio.{Portfolio}

-- A row that is found by its key is replaced by what `update` makes of it, else one is created.
module _ {ℓ} {A : Type ℓ} (is_it : A → Bool) (update : A → A) (create : A) where
  unfoldable pub upsert : List A → List A
  upsert [] = create ∷ []
  upsert (a ∷ rest) = let later = upsert rest in if is_it a then update a ∷ rest else a ∷ later

unfoldable pub upsert_wallet : String → Option String → List WalletRow → List WalletRow
unfolding upsert
upsert_wallet address indexed =
    upsert (λ w. w.address == address)
      (λ w. if is_some indexed then record w { last_indexed_at = indexed } else w)
      (record { address = address; last_indexed_at = indexed })

unfoldable pub start_run : String → String → ℕ → List IndexingRun → List IndexingRun
unfolding upsert
start_run correlation_id wallet block =
    upsert (λ r. r.correlation_id == correlation_id)
      (λ r. record r { status = processing; source_block = some block })
      (record {
        correlation_id = correlation_id;
        wallet = wallet;
        source_block = some block;
        status = processing;
        error = none;
        completed_at = none;
      })

-- `indexingRun.update`
unfoldable pub complete_run : String → String → List IndexingRun → List IndexingRun
complete_run correlation_id now [] = []
complete_run correlation_id now (r ∷ rs) =
    let rest = complete_run correlation_id now rs in
    if r.correlation_id == correlation_id
    then (record r { status = completed; completed_at = some now }) ∷ rs
    else r ∷ rest

abbrev pub is_active_of : String → PositionRow → Bool
is_active_of wallet row = row.wallet == wallet && row.active

abbrev pub position_ids : List NormalizedPosition → List String
position_ids = map (λ (p : NormalizedPosition). p.id)

-- the active rows of the wallet whose positions are gone
unfoldable pub closed_ids : String → List String → List PositionRow → List String
closed_ids wallet current rows =
    keep (λ id. not (any (λ k. k == id) current))
      (map (λ (r : PositionRow). r.id) (keep (is_active_of wallet) rows))

-- `updateMany` of the rows with these identifiers
unfoldable pub close_rows : List String → String → List PositionRow → List PositionRow
close_rows closed now [] = []
close_rows closed now (r ∷ rs) =
    (if any (λ k. k == r.id) closed then (record r { active = false; closed_at = some now }) else r)
    ∷ close_rows closed now rs

-- `position.source.blockHeight || blockHeight`
abbrev height_of : NormalizedPosition → ℕ → ℕ
height_of p block = if eqb p.source.block_height 0 then block else p.source.block_height

-- the row that either branch of the `upsert` of a position leaves
unfoldable pub row_of : String → ℕ → NormalizedPosition → PositionRow
row_of wallet block p = record {
  id = p.id;
  wallet = wallet;
  protocol_id = p.protocol.id;
  position_type = p.position_type;
  value_usd = p.value_usd;
  block_height = height_of p block;
  exact = p.source.exact;
  active = true;
  closed_at = none;
  raw = p;
  observed_at = p.source.observed_at;
}

unfoldable pub upsert_position :
    String → ℕ → NormalizedPosition → List PositionRow → List PositionRow
unfolding upsert row_of
upsert_position wallet block p =
    upsert (λ r. r.id == p.id) (λ r. row_of wallet block p) (row_of wallet block p)

unfoldable pub upsert_protocol : NormalizedPosition → List ProtocolRow → List ProtocolRow
unfolding upsert
upsert_protocol p =
    let row : ProtocolRow = record {
      id = p.protocol.id;
      name = p.protocol.name;
      protocol_type = p.protocol.protocol_type;
      contract_ids = p.protocol.contracts;
    } in
    upsert (λ r. r.id == p.protocol.id) (λ r. row) row

-- `deleteMany` and `createMany` of the assets of a position
unfoldable pub replace_assets : NormalizedPosition → List AssetRow → List AssetRow
replace_assets p rows =
    keep (λ (r : AssetRow). not (r.position_id == p.id)) rows
    ++ map (λ (a : PositionAsset). record { position_id = p.id; asset = a }) p.assets

unfoldable pub snapshot_of : ℕ → String → NormalizedPosition → PositionSnapshot
snapshot_of block now p = record {
  position_id = p.id;
  value_usd = p.value_usd;
  state = p;
  block_height = height_of p block;
  observed_at = now;
}

-- the body of the loop
unfoldable pub store_position : String → ℕ → String → NormalizedPosition → Database → Database
unfolding upsert_protocol upsert_position replace_assets snapshot_of
store_position wallet block now p db = record db {
  protocols = upsert_protocol p db.protocols;
  positions = upsert_position wallet block p db.positions;
  assets = replace_assets p db.assets;
  snapshots = db.snapshots ++ snapshot_of block now p ∷ [];
}

unfoldable pub store_positions : String → ℕ → String → List NormalizedPosition → Database → Database
unfolding store_position
store_positions wallet block now [] db = db
store_positions wallet block now (p ∷ ps) db =
    store_positions wallet block now ps (store_position wallet block now p db)

-- what the transaction does before the loop
unfoldable pub open_transaction : Portfolio → ℕ → String → String → Database → Database
unfolding upsert_wallet start_run closed_ids close_rows
open_transaction portfolio block correlation_id now db = record db {
  wallets = upsert_wallet portfolio.owner (some now) db.wallets;
  runs = start_run correlation_id portfolio.owner block db.runs;
  positions =
      close_rows (closed_ids portfolio.owner (position_ids portfolio.positions) db.positions) now
        db.positions;
}

-- what it does after the loop
unfoldable pub close_transaction : Portfolio → ℕ → String → String → Database → Database
unfolding complete_run
close_transaction portfolio block correlation_id now db = record db {
  portfolios =
      db.portfolios
      ++ (record {
        wallet = portfolio.owner;
        portfolio = portfolio;
        block_height = block;
        observed_at = now;
      })
        ∷ [];
  runs = complete_run correlation_id now db.runs;
}

unfoldable pub persist_portfolio : Portfolio → ℕ → String → String → Database → Database
unfolding open_transaction store_positions close_transaction
persist_portfolio portfolio block correlation_id now db =
    close_transaction portfolio block correlation_id now (
      store_positions portfolio.owner block now portfolio.positions
        (open_transaction portfolio block correlation_id now db))

unfoldable pub fail_indexing_run : String → String → String → String → Database → Database
unfolding upsert_wallet upsert
fail_indexing_run correlation_id address message now db = record db {
  wallets = upsert_wallet address none db.wallets;
  runs =
      upsert (λ r. r.correlation_id == correlation_id)
        (λ r. record r { status = failed; error = some message; completed_at = some now })
        (record {
          correlation_id = correlation_id;
          wallet = address;
          source_block = none;
          status = failed;
          error = some message;
          completed_at = some now;
        })
        db.runs;
}

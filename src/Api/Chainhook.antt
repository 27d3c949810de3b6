-- ===== src/Api/Chainhook.antt =====
-- apps/api/src/modules/chainhook/chainhook.service.ts: indexing jobs for the wallets that a block
-- names, and the snapshot identifiers of confirmed attestations. The parser's result, the tracked
-- wallets and the snapshots are arguments; clocks and random identifiers are left out.
pub mod Settled
use Prim.Native.String.{◌++◌ as append}
use text.Mathlib.Text.{◌==◌ as str_eq}
use riskrail.Base.{
  ℕ, ◌+◌, Bool, true, false, ◌&&◌, ◌||◌, String, Option, none, some, List, [], ◌∷◌, map, keep, any,
  length, if◌then◌else◌,
}

pub record AffectedWallets : Type 0 where
  pub addresses : List String
  pub block_height : Option ℕ
  pub reorg : Bool

-- a job of the portfolio queue, for a wallet at a block
pub record RefreshJob : Type 0 where
  pub source : String
  pub address : String
  pub block_height : Option ℕ
  pub delay : ℕ

pub record IngestResult : Type 0 where
  pub source : String
  pub block_height : Option ℕ
  pub reorg : Bool
  pub seen : ℕ
  pub queued : List String

-- the tracked wallets among the candidates: `prisma.wallet.findMany`
unfoldable pub find_wallets : List String → List String → List String
find_wallets tracked candidates = keep (λ address. any (λ c. str_eq c address) candidates) tracked

unfoldable pub jobs_for : String → Option ℕ → List String → List RefreshJob
jobs_for source height [] = []
jobs_for source height (address ∷ rest) =
    record { source = source; address = address; block_height = height; delay = 1500 }
    ∷ jobs_for source height rest

unfoldable pub ingest :
    (is_principal : String → Bool)
    → (tracked : List String) → (source : String) → AffectedWallets
    → List RefreshJob × IngestResult
unfolding jobs_for find_wallets
ingest is_principal tracked source affected =
    let candidates = keep is_principal affected.addresses in
    let known = find_wallets tracked candidates in
    (
      jobs_for source affected.block_height known,
      record {
        source = source;
        block_height = affected.block_height;
        reorg = affected.reorg;
        seen = length candidates;
        queued = known;
      },
    )

pub record PublishedSnapshot : Type 0 where
  pub tx_id : String
  pub snapshot_id : ℕ

pub record RegistryConfirmations : Type 0 where
  pub confirmed : List PublishedSnapshot
  pub rolled_back : List String

-- the columns of a risk snapshot that a confirmation reads and writes
pub record SnapshotRow : Type 0 where
  pub id : String
  pub onchain_tx_id : Option String
  pub onchain_snapshot_id : Option ℕ

-- `onchainTxId: { in: spellings(txId) }`
unfoldable pub has_tx : String → SnapshotRow → Bool
has_tx tx_id row = elim row.onchain_tx_id [
  | none ↦ false
  | some stored ↦ str_eq stored tx_id || str_eq stored (append "0x" tx_id)
]

abbrev pub with_snapshot_id : Option ℕ → SnapshotRow → SnapshotRow
with_snapshot_id snapshot_id row = record row { onchain_snapshot_id = snapshot_id }

-- `prisma.riskSnapshot.updateMany`: the table, and the number of rows it changed
unfoldable pub update_many : String → Option ℕ → List SnapshotRow → List SnapshotRow × ℕ
update_many tx_id snapshot_id [] = ([], 0)
update_many tx_id snapshot_id (row ∷ rest) =
    let (rows, count) = update_many tx_id snapshot_id rest in
    if has_tx tx_id row
    then (with_snapshot_id snapshot_id row ∷ rows, count + 1)
    else (row ∷ rows, count)

unfoldable pub clear_all : List String → List SnapshotRow → ℕ → List SnapshotRow × ℕ
unfolding update_many
clear_all [] table cleared = (table, cleared)
clear_all (tx_id ∷ rest) table cleared =
    clear_all rest (update_many tx_id none table).0 (cleared + (update_many tx_id none table).1)

unfoldable pub confirm_all : List PublishedSnapshot → List SnapshotRow → ℕ → List SnapshotRow × ℕ
unfolding update_many
confirm_all [] table matched = (table, matched)
confirm_all (item ∷ rest) table matched =
    confirm_all rest (update_many item.tx_id (some item.snapshot_id) table).0
      (matched + (update_many item.tx_id (some item.snapshot_id) table).1)

pub record ConfirmResult : Type 0 where
  pub confirmed : ℕ
  pub matched : ℕ
  pub rolled_back : ℕ
  pub cleared : ℕ

unfoldable pub confirm_attestations :
    RegistryConfirmations → List SnapshotRow → List SnapshotRow × ConfirmResult
unfolding clear_all confirm_all
confirm_attestations registry table =
    let (cleared_table, cleared) = clear_all registry.rolled_back table 0 in
    let (settled, matched) = confirm_all registry.confirmed cleared_table 0 in
    (
      settled,
      record {
        confirmed = length registry.confirmed;
        matched = matched;
        rolled_back = length registry.rolled_back;
        cleared = cleared;
      },
    )

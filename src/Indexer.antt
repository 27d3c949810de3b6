-- ===== src/Indexer.antt =====
-- apps/indexer/src/main.ts: `indexWallet` and its job processor. The adapters, the price source, the
-- database and the queues answer as arguments; what a run writes and sends is the list of its
-- effects, in order.
pub mod Runs
mod Tests
use text.Mathlib.Text.{◌==◌ as str_eq}
use riskrail.Base.{
  ℕ, ◌+◌, Bool, true, false, not, String, Option, none, some, List, [], ◌∷◌, ◌++◌, map, length,
  Dict, insert, if◌then◌else◌, or_default,
}
use riskrail.Base.Int.{ℤ}
use riskrail.Numbers.{Numbers}
use riskrail.Position.{NormalizedPosition, PositionAsset}
use riskrail.Portfolio.{Portfolio, PriceLike, value_positions, build_portfolio}

-- an asset whose price is asked for
pub record AssetRef : Type 0 where
  pub asset_id : String
  pub symbol : String

-- `adapter.getPositions`, where `none` is a failure
abbrev pub Adapter : Type 0
Adapter = String → ℕ → Option (List NormalizedPosition)

pub record Surroundings : Type 0 where
  pub is_principal : String → Bool
  pub block_height : Option ℕ
  pub adapters : List Adapter
  -- `priceOracle.getUsdPrices`, where `none` is a failure
  pub usd_prices : List AssetRef → Option (Dict PriceLike)
  pub persists : Bool
  pub publishes : Bool
  -- the endpoints that the webhook fan-out reaches; what ends it early is only logged
  pub targets : List String
  pub enqueues : Bool
  -- the database takes the mark of a failure
  pub marks : Bool

pub data Effect : Type 0 where
  persist_portfolio : Portfolio → (block_height : ℕ) → Effect
  publish_update : (block_height position_count : ℕ) (valuation_coverage_bps : ℤ) → Effect
  deliver_webhook : (endpoint_id : String) (attempt : ℕ) → Effect
  recalculate_risk : (address : String) (source_block : ℕ) → Effect
  fail_run : (address : String) → Effect

pub data Result : Type 0 where
  ignored invalid_principal failed : Result
  indexed : (address : String) (block_height position_count : ℕ) → Result

-- the loop over the adapters, which ends with the first failure
unfoldable pub collect_positions : List Adapter → String → ℕ → Option (List NormalizedPosition)
collect_positions [] address block = some []
collect_positions (adapter ∷ rest) address block =
    let later = collect_positions rest address block in
    elim (adapter address block) [
      | none ↦ none
      | some positions ↦ elim later [ none ↦ none | some more ↦ some (positions ++ more) ]
    ]

add_assets : List PositionAsset → Dict AssetRef → Dict AssetRef
add_assets [] seen = seen
add_assets (asset ∷ rest) seen =
    add_assets rest
      (insert asset.asset_id (record { asset_id = asset.asset_id; symbol = asset.symbol }) seen)

unfoldable pub unique_assets : List NormalizedPosition → Dict AssetRef → Dict AssetRef
unfolding add_assets
unique_assets [] seen = seen
unique_assets (position ∷ rest) seen = unique_assets rest (add_assets position.assets seen)

-- the prices, or none of them if the source fails
unfoldable pub prices_for : Surroundings → List NormalizedPosition → Dict PriceLike
unfolding unique_assets
prices_for around positions =
    or_default (around.usd_prices (map (λ e. e.1) (unique_assets positions []))) []

-- `failIndexingRun` in the catch, which throws where the database does not take the mark
unfoldable pub mark_failure : Surroundings → String → List Effect
mark_failure around address = if around.marks then fail_run address ∷ [] else []

unfoldable pub webhook_jobs : List String → List Effect
webhook_jobs [] = []
webhook_jobs (endpoint ∷ rest) = deliver_webhook endpoint 1 ∷ webhook_jobs rest

module _ (num : Numbers) where
  -- the portfolio of a run
  unfoldable pub portfolio_of : Surroundings → String → List NormalizedPosition → Portfolio
  unfolding prices_for
  portfolio_of around address positions =
      build_portfolio num address (value_positions num positions (prices_for around positions))

  -- a run once the positions are collected
  unfoldable pub index_positions :
      Surroundings → String → ℕ → List NormalizedPosition → List Effect × Result
  unfolding webhook_jobs mark_failure
  index_positions around address block positions =
      let portfolio = portfolio_of around address positions in
      let count = length portfolio.positions in
      let persisted = persist_portfolio portfolio block in
      let published = publish_update block count portfolio.valuation_coverage_bps in
      let webhooks = webhook_jobs around.targets in
      if not around.persists
      then (mark_failure around address, failed)
      else if not around.publishes
      then (persisted ∷ mark_failure around address, failed)
      else if not around.enqueues
      then (persisted ∷ published ∷ webhooks ++ mark_failure around address, failed)
      else (
        persisted ∷ published ∷ webhooks ++ recalculate_risk address block ∷ [],
        indexed address block count,
      )

  unfoldable pub index_wallet : Surroundings → String → List Effect × Result
  unfolding index_positions collect_positions mark_failure
  index_wallet around address =
      if not (around.is_principal address)
      then ([], invalid_principal)
      else elim around.block_height [
        | none ↦ (mark_failure around address, failed)
        | some block ↦ elim (collect_positions around.adapters address block) [
          | none ↦ (mark_failure around address, failed)
          | some positions ↦ index_positions around address block positions
        ]
      ]

  -- the processor of the portfolio queue
  unfoldable pub portfolio_worker :
      Surroundings → (job_name address : String) → List Effect × Result
  unfolding index_wallet
  portfolio_worker around job_name address =
      if str_eq job_name "portfolio.refresh" then index_wallet around address else ([], ignored)

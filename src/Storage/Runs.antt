-- ===== src/Storage/Runs.antt =====
-- Where an indexing run stands after it is stored or has failed.
use text.Mathlib.Text.{◌==◌}
use riskrail.Base.{
  ◌≡◌, refl, String, Option, none, some, List, [], ◌∷◌, ℕ, Bool-cases, inl, inr, eq_refl, arith,
  if◌then◌else◌,
}
use riskrail.Position.{NormalizedPosition}
use riskrail.Portfolio.{Portfolio}
use riskrail.Storage.{
  Database, IndexingRun, RunStatus, completed, upsert, start_run, complete_run, store_position,
  store_positions, open_transaction, close_transaction, persist_portfolio,
}

-- the status of a run, if it is in the table
unfoldable pub status_of : String → List IndexingRun → Option RunStatus
status_of id [] = none
status_of id (r ∷ rs) =
    let rest = status_of id rs in if r.correlation_id == id then some r.status else rest

status_of-complete_run :
    (id wallet now : String) (block : ℕ) (runs : List IndexingRun)
    → status_of id (complete_run id now (start_run id wallet block runs)) ≡ some completed
unfolding status_of complete_run start_run upsert
status_of-complete_run id wallet now block [] = ground (arith, eq_refl id)
status_of-complete_run id wallet now block (r ∷ rs) = elim (Bool-cases (r.correlation_id == id)) [
  | inl e ↦ ground (arith, e)
  | inr e ↦ ground (arith, e, status_of-complete_run id wallet now block rs)
]

runs-store_positions :
    (wallet now : String) (block : ℕ) (ps : List NormalizedPosition) (db : Database)
    → (store_positions wallet block now ps db).runs ≡ db.runs
unfolding store_positions store_position
runs-store_positions wallet now block [] db = refl
runs-store_positions wallet now block (p ∷ ps) db =
    runs-store_positions wallet now block ps (store_position wallet block now p db)

-- A run that is stored ends as completed, whether it was new, running or had failed before.
pub persist_portfolio-completed :
    (portfolio : Portfolio) (block : ℕ) (id now : String) (db : Database)
    → status_of id (persist_portfolio portfolio block id now db).runs ≡ some completed
unfolding persist_portfolio open_transaction close_transaction
persist_portfolio-completed portfolio block id now db =
    rw
      (runs-store_positions portfolio.owner now block portfolio.positions
        (open_transaction portfolio block id now db))
      (status_of-complete_run id portfolio.owner now block db.runs)

-- ===== src/Indexer/Runs.antt =====
-- What a run of the indexer has written and sent when it ends.
use mathlib.Core.Option
use riskrail.Base.{
  ℕ, ◌≡◌, ◌⊎◌, ◌&&◌, Bool, true, false, none, String, some, List, [], ◌∷◌, length, keep,
  if◌then◌else◌,
}
use riskrail.Numbers.{Numbers}
use riskrail.Portfolio.{Portfolio}
use riskrail.Storage.{position_ids}
use riskrail.Indexer.{
  Surroundings, Effect, Result, persist_portfolio, recalculate_risk, fail_run, indexed, ignored,
  invalid_principal, failed, collect_positions,
}

abbrev pub is_persist : Effect → Bool
is_persist (persist_portfolio portfolio block) = true
is_persist _ = false

abbrev pub is_risk_job : Effect → Bool
is_risk_job (recalculate_risk address block) = true
is_risk_job _ = false

abbrev pub is_failure : Effect → Bool
is_failure (fail_run address) = true
is_failure _ = false

-- the height is not known, or an adapter fails at it
abbrev pub IsUnread : Surroundings → String → Type 0
IsUnread around address =
    (around.block_height ≡ none)
    ⊎ ((block : ℕ) × (around.block_height ≡ some block)
        × (collect_positions around.adapters address block ≡ none))

-- What a run for an address may end with: a portfolio of the address that was stored once, at the
-- height that was read, with the positions of the adapters in their order, and one job for the risk
-- of that address at that height; or a failure that is marked where the database takes the mark.
unfoldable pub EndsWell : Surroundings → String → List Effect × Result → Type 0
EndsWell around address (effects, ignored) = ⊥
EndsWell around address (effects, invalid_principal) = ⊥
EndsWell around address (effects, failed) =
    (IsUnread around address ⊎ ((around.persists && (around.publishes && around.enqueues)) ≡ false))
    × (keep is_risk_job effects ≡ [])
    × (keep is_failure effects ≡ (if around.marks then fail_run address ∷ [] else []))
EndsWell around address (effects, indexed a block count) =
    (a ≡ address)
    × (around.block_height ≡ some block)
    × ((portfolio : Portfolio) × (keep is_persist effects ≡ persist_portfolio portfolio block ∷ [])
        × (portfolio.owner ≡ address)
        × (count ≡ length portfolio.positions)
        × (Option.map position_ids (collect_positions around.adapters address block)
            ≡ some (position_ids portfolio.positions)))
    × (keep is_risk_job effects ≡ recalculate_risk address block ∷ [])
    × (keep is_failure effects ≡ [])

-- ===== src/Adapters/Zest/Debts.antt =====
-- The rounding of debts, and the assets that stand under others.
use riskrail.Base.{ℕ, ◌+◌, ◌*◌, ◌≤◌, ◌<◌, ◌≡◌, false, arith, if◌then◌else◌}
use riskrail.Adapters.Zest.{index_precision, known_asset}
use riskrail.Adapters.Zest.Reader.{actual_debt, underlying_of, is_z_token}

-- A scaled debt times the index is rounded up to a whole unit: the amount owed is never short, and
-- by less than one unit too much.
pub actual_debt-rounded_up :
    (scaled next_index : ℕ)
    → (scaled * next_index ≤ actual_debt scaled next_index * index_precision)
      × (actual_debt scaled next_index * index_precision < scaled * next_index + index_precision)
unfolding actual_debt
actual_debt-rounded_up scaled next_index = omega arith

-- A known share stands for a known asset that is no share, and an asset that is no share for itself.
pub underlying_of-idempotent :
    (id : ℕ)
    → (is_z_token (underlying_of id) ≡ false)
      × ((if is_z_token id then id else underlying_of id) ≡ id)
      × (underlying_of (underlying_of id) ≡ underlying_of id)
unfolding underlying_of is_z_token known_asset
underlying_of-idempotent id = ground arith

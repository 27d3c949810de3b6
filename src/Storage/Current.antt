-- ===== src/Storage/Current.antt =====
-- The current positions of a wallet, as the set of the identifiers of its active rows, and what the
-- transaction does to that set.
use text.Mathlib.Text.{◌==◌}
use riskrail.Base.{
  ◌≡◌, refl, ap, ◌∙◌, Bool, false, not, ◌&&◌, ◌||◌, String, List, [], ◌∷◌, map, any, keep, ℕ,
  Bool-cases, inl, inr, eq_iff, eq_refl, arith,
}
use riskrail.Position.{NormalizedPosition}
use riskrail.Portfolio.{Portfolio}
use riskrail.Storage.{
  Database, PositionRow, is_active_of, position_ids, closed_ids, close_rows, upsert,
  upsert_position, row_of, store_position, store_positions, open_transaction, close_transaction,
  persist_portfolio,
}

abbrev pub member : String → List String → Bool
member k ids = any (λ id. id == k) ids

-- the set of the current positions
abbrev pub is_current : String → String → List PositionRow → Bool
is_current wallet k rows = any (λ r. r.id == k && is_active_of wallet r) rows

member-keep :
    (p : String → Bool) (k : String) (ids : List String)
    → member k (keep p ids) ≡ (member k ids && p k)
member-keep p k [] = refl
member-keep p k (id ∷ ids) = elim (Bool-cases (id == k)) [
  | inl e ↦ ground (arith, e, ap p ((eq_iff id k).0 e), member-keep p k ids)
  | inr e ↦ ground (arith, e, member-keep p k ids)
]

member-ids :
    (wallet k : String) (rows : List PositionRow)
    → member k (map (λ (r : PositionRow). r.id) (keep (is_active_of wallet) rows))
      ≡ is_current wallet k rows
member-ids wallet k [] = refl
member-ids wallet k (r ∷ rows) = ground (arith, member-ids wallet k rows)

member-closed_ids :
    (wallet k : String) (current : List String) (rows : List PositionRow)
    → member k (closed_ids wallet current rows)
      ≡ (is_current wallet k rows && not (any (λ j. j == k) current))
unfolding closed_ids
member-closed_ids wallet k current rows =
    member-keep (λ id. not (any (λ j. j == id) current)) k _
    ∙ ap (λ b. b && not (any (λ j. j == k) current)) (member-ids wallet k rows)

is_current-close_rows :
    (wallet k now : String) (closed : List String) (rows : List PositionRow)
    → is_current wallet k (close_rows closed now rows)
      ≡ (is_current wallet k rows && not (member k closed))
unfolding close_rows
is_current-close_rows wallet k now closed [] = refl
is_current-close_rows wallet k now closed (r ∷ rows) = elim (Bool-cases (r.id == k)) [
  | inl e ↦ ground (
    arith,
    e,
    ap (λ id. member id closed) ((eq_iff r.id k).0 e),
    is_current-close_rows wallet k now closed rows,
  )
  | inr e ↦ ground (arith, e, is_current-close_rows wallet k now closed rows)
]

is_current-upsert_position :
    (wallet k : String) (block : ℕ) (p : NormalizedPosition) (rows : List PositionRow)
    → is_current wallet k (upsert_position wallet block p rows)
      ≡ (p.id == k || is_current wallet k rows)
unfolding upsert_position upsert row_of
is_current-upsert_position wallet k block p [] = ground (arith, eq_refl wallet)
is_current-upsert_position wallet k block p (r ∷ rows) = elim (Bool-cases (r.id == p.id)) [
  | inl e ↦ ground (arith, e, eq_refl wallet, ap (λ id. id == k) ((eq_iff r.id p.id).0 e))
  | inr e ↦ ground (arith, e, is_current-upsert_position wallet k block p rows)
]

is_current-store_positions :
    (wallet k now : String) (block : ℕ) (ps : List NormalizedPosition) (db : Database)
    → is_current wallet k (store_positions wallet block now ps db).positions
      ≡ (member k (position_ids ps) || is_current wallet k db.positions)
unfolding store_positions store_position
is_current-store_positions wallet k now block [] db = refl
is_current-store_positions wallet k now block (p ∷ ps) db =
    is_current-store_positions wallet k now block ps (store_position wallet block now p db)
    ∙ ground (arith, is_current-upsert_position wallet k block p db.positions)

-- After a portfolio is stored, the current positions of its owner are exactly the portfolio's: what
-- is gone is closed, and what had been closed and is there again is open.
pub persist_portfolio-current :
    (portfolio : Portfolio) (block : ℕ) (correlation_id now k : String) (db : Database)
    → is_current portfolio.owner k
        (persist_portfolio portfolio block correlation_id now db).positions
      ≡ member k (position_ids portfolio.positions)
unfolding persist_portfolio open_transaction close_transaction
persist_portfolio-current portfolio block correlation_id now k db =
    let ids = position_ids portfolio.positions in
    let owner = portfolio.owner in
    is_current-store_positions owner k now block portfolio.positions
      (open_transaction portfolio block correlation_id now db)
    ∙ ground (
      arith,
      is_current-close_rows owner k now (closed_ids owner ids db.positions) db.positions,
      member-closed_ids owner k ids db.positions,
    )

is_current-upsert_other :
    (wallet other k : String) (block : ℕ) (p : NormalizedPosition) (rows : List PositionRow)
    → (p.id == k) ≡ false
    → is_current other k (upsert_position wallet block p rows) ≡ is_current other k rows
unfolding upsert_position upsert row_of
is_current-upsert_other wallet other k block p [] h = ground (arith, h)
is_current-upsert_other wallet other k block p (r ∷ rows) h = elim (Bool-cases (r.id == p.id)) [
  | inl e ↦ ground (arith, e, h, ap (λ id. id == k) ((eq_iff r.id p.id).0 e))
  | inr e ↦ ground (arith, e, is_current-upsert_other wallet other k block p rows h)
]

is_current-store_other :
    (wallet other k now : String) (block : ℕ) (ps : List NormalizedPosition) (db : Database)
    → member k (position_ids ps) ≡ false
    → is_current other k (store_positions wallet block now ps db).positions
      ≡ is_current other k db.positions
unfolding store_positions store_position
is_current-store_other wallet other k now block [] db h = refl
is_current-store_other wallet other k now block (p ∷ ps) db h =
    is_current-store_other wallet other k now block ps (store_position wallet block now p db)
      (ground (arith, h))
    ∙ is_current-upsert_other wallet other k block p db.positions (ground (arith, h))

-- A position that is neither a current one of the portfolio's owner nor in the portfolio stays as it
-- is for every wallet.
pub persist_portfolio-apart :
    (portfolio : Portfolio) (block : ℕ) (correlation_id now k other : String) (db : Database)
    → is_current portfolio.owner k db.positions ≡ false
    → member k (position_ids portfolio.positions) ≡ false
    → is_current other k (persist_portfolio portfolio block correlation_id now db).positions
      ≡ is_current other k db.positions
unfolding persist_portfolio open_transaction close_transaction
persist_portfolio-apart portfolio block correlation_id now k other db mine named =
    let ids = position_ids portfolio.positions in
    let owner = portfolio.owner in
    is_current-store_other owner other k now block portfolio.positions
      (open_transaction portfolio block correlation_id now db) named
    ∙ ground (
      arith,
      mine,
      is_current-close_rows other k now (closed_ids owner ids db.positions) db.positions,
      member-closed_ids owner k ids db.positions,
    )

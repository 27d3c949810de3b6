-- ===== src/Api/Portfolios/Listed.antt =====
-- The portfolio that the API answers with after a run of the indexer.
use text.Mathlib.Text.{◌==◌}
use riskrail.Base.{
  ◌≡◌, refl, ap, ◌∙◌, Bool, true, false, ℕ, String, Option, some, List, [], ◌∷◌, map, any, keep,
  find, is_some, any-map, any-keep, find-holds, Option-cases, inl, inr, eq_iff, arith,
}
use riskrail.Base.Sort.{Order, any-sort_entries}
use riskrail.Portfolio.{Portfolio}
use riskrail.Position.{NormalizedPosition}
use riskrail.Storage.{
  WalletRow, PositionRow, RunStatus, Database, upsert, upsert_wallet, store_position,
  store_positions, open_transaction, close_transaction, persist_portfolio, is_active_of,
  position_ids,
}
use riskrail.Storage.Current.{member, is_current, persist_portfolio-current}
use riskrail.Storage.Queries.{IncludedPosition, latest_first, include, get_current_portfolio}
use riskrail.Api.Portfolios.{
  PositionView, PortfolioAnswer, bad_address, not_indexed, found, position_view, portfolio_view,
  get_portfolio,
}

-- the answer is a portfolio
unfoldable pub is_found : PortfolioAnswer → Bool
is_found bad_address = false
is_found (not_indexed address refresh) = false
is_found (found view) = true

-- the answer has a position with this identifier
unfoldable pub lists : String → PortfolioAnswer → Bool
lists k bad_address = false
lists k (not_indexed address refresh) = false
lists k (found view) = any (λ (p : PositionView). p.id == k) view.positions

find-upsert {ℓ} :
    {A : Type ℓ} (is_it : A → Bool) (update : A → A) (create : A) (rows : List A)
    → is_it create ≡ true
    → ((a : A) → is_it a ≡ true → is_it (update a) ≡ true)
    → is_some (find is_it (upsert is_it update create rows)) ≡ true
unfolding upsert
find-upsert is_it update create [] h k = ground (arith, h)
find-upsert is_it update create (a ∷ rows) h k =
    ground (arith, k a, find-upsert is_it update create rows h k)

wallets-store_positions :
    (wallet now : String) (block : ℕ) (ps : List NormalizedPosition) (db : Database)
    → (store_positions wallet block now ps db).wallets ≡ db.wallets
unfolding store_positions store_position
wallets-store_positions wallet now block [] db = refl
wallets-store_positions wallet now block (p ∷ ps) db =
    wallets-store_positions wallet now block ps (store_position wallet block now p db)

-- a wallet whose portfolio was stored is there
is_some-persist_portfolio :
    (portfolio : Portfolio) (block : ℕ) (correlation_id now : String) (db : Database)
    → is_some (
        find
          (λ (w : WalletRow). w.address == portfolio.owner)
          (persist_portfolio portfolio block correlation_id now db).wallets)
      ≡ true
unfolding persist_portfolio open_transaction close_transaction upsert_wallet
is_some-persist_portfolio portfolio block correlation_id now db =
    let is_it = λ (w : WalletRow). w.address == portfolio.owner in
    ap (λ ws. is_some (find is_it ws))
      (wallets-store_positions portfolio.owner now block portfolio.positions
        (open_transaction portfolio block correlation_id now db))
    ∙ find-upsert is_it _ _ db.wallets ((eq_iff portfolio.owner portfolio.owner).1 refl) (λ w h. h)

any-latest_first {ℓ} :
    {A : Type ℓ} (le : Order) (time : A → String) (p : A → Bool) (rows : List A)
    → any p (latest_first le time rows) ≡ any p rows
unfolding latest_first
any-latest_first le time p rows =
    any-sort_entries (λ s t. le t s) p (map (λ a. (time a, a)) rows)
    ∙ (any-map p (λ e. e.1) (map (λ a. (time a, a)) rows)
        ∙ any-map (λ e. p e.1) (λ a. (time a, a)) rows)

-- the identifiers of the positions of a wallet that is found
lists-get_current_portfolio :
    (le : Order) (is_principal : String → Bool) (address k : String) (run : Option RunStatus)
    (w : WalletRow) (db : Database)
    → is_principal address ≡ true
    → find (λ (v : WalletRow). v.address == address) db.wallets ≡ some w
    → (is_found (get_portfolio is_principal address (get_current_portfolio le address db) run)
        ≡ true)
      × (lists k (get_portfolio is_principal address (get_current_portfolio le address db) run)
          ≡ is_current w.address k db.positions)
unfolding is_found lists get_portfolio get_current_portfolio portfolio_view position_view include
lists-get_current_portfolio le is_principal address k run w db principal e =
    let active = keep (is_active_of w.address) db.positions in
    let rows = latest_first le (λ (r : PositionRow). r.observed_at) active in
    rw (principal, e)
      (
        refl,
        any-map (λ (p : PositionView). p.id == k) position_view (map (include db) rows)
            ∙ (any-map (λ (p : IncludedPosition). p.row.id == k) (include db) rows
                ∙ (any-latest_first le (λ r. r.observed_at) (λ (r : PositionRow). r.id == k) active
                    ∙ any-keep (λ (r : PositionRow). r.id == k) (is_active_of w.address)
                        db.positions)),
      )

-- Right after a run has stored the portfolio of a principal, an empty one included, the API answers
-- with a portfolio, and its positions have exactly the identifiers of the stored one, whatever was
-- stored before.
pub get_portfolio-persist_portfolio :
    (le : Order) (is_principal : String → Bool) (portfolio : Portfolio) (block : ℕ)
    (correlation_id now k : String) (run : Option RunStatus) (db : Database)
    → is_principal portfolio.owner ≡ true
    → let answer =
        get_portfolio is_principal portfolio.owner
          (get_current_portfolio le portfolio.owner
            (persist_portfolio portfolio block correlation_id now db))
          run in
      (is_found answer ≡ true) × (lists k answer ≡ member k (position_ids portfolio.positions))
get_portfolio-persist_portfolio le is_principal portfolio block correlation_id now k run db h =
    let after = persist_portfolio portfolio block correlation_id now db in
    let is_it = λ (w : WalletRow). w.address == portfolio.owner in
    let there = is_some-persist_portfolio portfolio block correlation_id now db in
    elim (Option-cases (find is_it after.wallets)) [
      | inl e ↦ absurd (ground (arith, there, e))
      | inr (w, e) ↦
          let own : w.address ≡ portfolio.owner =
            (eq_iff w.address portfolio.owner).0 (find-holds is_it after.wallets w e) in
          let given =
            lists-get_current_portfolio le is_principal portfolio.owner k run w after h e in
          (
            given.0,
            given.1
                ∙ (ap (λ a. is_current a k after.positions) own
                    ∙ persist_portfolio-current portfolio block correlation_id now k db),
          )
    ]

-- ===== src/Api/Chainhook/Settled.antt =====
-- What a confirmation leaves in each row, whatever the order of its updates.
use text.Mathlib.Text.{◌==◌ as str_eq}
use riskrail.Base.{
  ℕ, ◌≤◌, ◌≡◌, refl, sym, ◌∙◌, inl, inr, Bool, String, Option, none, some, List, [], ◌∷◌, map, keep,
  any, length, arith, if◌then◌else◌, Bool-cases, map_same, map-map_eq, length-keep,
}
use riskrail.Api.Chainhook.{
  AffectedWallets, find_wallets, jobs_for, ingest, PublishedSnapshot, RegistryConfirmations,
  SnapshotRow, has_tx, with_snapshot_id, update_many, clear_all, confirm_all, confirm_attestations,
}

-- the identifier that a row ends with, from the last confirmation of its transaction
unfoldable pub confirmed_id : List PublishedSnapshot → SnapshotRow → Option ℕ → Option ℕ
confirmed_id [] row before = before
confirmed_id (item ∷ rest) row before =
    confirmed_id rest row (if has_tx item.tx_id row then some item.snapshot_id else before)

-- a row after the payload: rolled back if a reorganisation names its transaction, then confirmed
abbrev pub settle : RegistryConfirmations → SnapshotRow → SnapshotRow
settle registry row =
    with_snapshot_id
      (confirmed_id registry.confirmed row (
        if any (λ tx_id. has_tx tx_id row) registry.rolled_back
        then none
        else row.onchain_snapshot_id))
      row

abbrev update_row : String → Option ℕ → SnapshotRow → SnapshotRow
update_row tx_id snapshot_id row =
    if has_tx tx_id row then with_snapshot_id snapshot_id row else row

abbrev clear_row : List String → SnapshotRow → SnapshotRow
clear_row rolled_back row =
    if any (λ tx_id. has_tx tx_id row) rolled_back then with_snapshot_id none row else row

abbrev confirm_row : List PublishedSnapshot → SnapshotRow → SnapshotRow
confirm_row confirmed row =
    with_snapshot_id (confirmed_id confirmed row row.onchain_snapshot_id) row

update_many-eq-map :
    (tx_id : String) (snapshot_id : Option ℕ) (table : List SnapshotRow)
    → (update_many tx_id snapshot_id table).0 ≡ map (update_row tx_id snapshot_id) table
unfolding update_many
update_many-eq-map tx_id snapshot_id [] = refl
update_many-eq-map tx_id snapshot_id (row ∷ rest) =
    ground (arith, update_many-eq-map tx_id snapshot_id rest)

clear_once :
    (tx_id : String) (rolled_back : List String) (row : SnapshotRow)
    → clear_row rolled_back (update_row tx_id none row) ≡ clear_row (tx_id ∷ rolled_back) row
unfolding has_tx
clear_once tx_id rolled_back row = elim (Bool-cases (has_tx tx_id row)) [
  | inl e ↦ ground (arith, e)
  | inr e ↦ rw e
]

clear_all-eq-map :
    (rolled_back : List String) (table : List SnapshotRow) (n : ℕ)
    → (clear_all rolled_back table n).0 ≡ map (clear_row rolled_back) table
unfolding clear_all
clear_all-eq-map [] table n = sym (map_same (clear_row []) table (λ row. refl))
clear_all-eq-map (tx_id ∷ rolled_back) table n =
    clear_all-eq-map rolled_back _ _
    ∙ rw update_many-eq-map (
        map-map_eq (clear_row rolled_back) (update_row tx_id none) (clear_row (tx_id ∷ rolled_back))
          table (clear_once tx_id rolled_back))

confirmed_id-same :
    (confirmed : List PublishedSnapshot) (row : SnapshotRow) (other before : Option ℕ)
    → confirmed_id confirmed (with_snapshot_id other row) before ≡ confirmed_id confirmed row before
unfolding confirmed_id has_tx
confirmed_id-same [] row other before = refl
confirmed_id-same (item ∷ confirmed) row other before = confirmed_id-same confirmed row other _

confirm_once :
    (item : PublishedSnapshot) (confirmed : List PublishedSnapshot) (row : SnapshotRow)
    → confirm_row confirmed (update_row item.tx_id (some item.snapshot_id) row)
      ≡ confirm_row (item ∷ confirmed) row
unfolding confirmed_id
confirm_once item confirmed row = elim (Bool-cases (has_tx item.tx_id row)) [
  | inl e ↦ rw (e, confirmed_id-same)
  | inr e ↦ rw e
]

confirm_all-eq-map :
    (confirmed : List PublishedSnapshot) (table : List SnapshotRow) (n : ℕ)
    → (confirm_all confirmed table n).0 ≡ map (confirm_row confirmed) table
unfolding confirm_all confirmed_id
confirm_all-eq-map [] table n = sym (map_same (confirm_row []) table (λ row. refl))
confirm_all-eq-map (item ∷ confirmed) table n =
    confirm_all-eq-map confirmed _ _
    ∙ rw update_many-eq-map (
        map-map_eq (confirm_row confirmed) (update_row item.tx_id (some item.snapshot_id))
          (confirm_row (item ∷ confirmed)) table (confirm_once item confirmed))

settle_once :
    (registry : RegistryConfirmations) (row : SnapshotRow)
    → confirm_row registry.confirmed (clear_row registry.rolled_back row) ≡ settle registry row
settle_once registry row =
    elim (Bool-cases (any (λ tx_id. has_tx tx_id row) registry.rolled_back)) [
      | inl e ↦ rw (e, confirmed_id-same)
      | inr e ↦ rw e
    ]

-- Each row ends with the identifier of the last confirmation of its transaction; without one, it has
-- none if a reorganisation rolled its transaction back, and keeps its own otherwise. So a transaction
-- that is rolled back and mined again in one payload ends up confirmed.
pub confirm_attestations-eq-map :
    (registry : RegistryConfirmations) (table : List SnapshotRow)
    → (confirm_attestations registry table).0 ≡ map (settle registry) table
unfolding confirm_attestations
confirm_attestations-eq-map registry table =
    confirm_all-eq-map registry.confirmed _ _
    ∙ rw clear_all-eq-map (
        map-map_eq (confirm_row registry.confirmed) (clear_row registry.rolled_back)
          (settle registry) table (settle_once registry))

map-jobs_for :
    (source : String) (height : Option ℕ) (known : List String)
    → map (λ j. j.address) (jobs_for source height known) ≡ known
unfolding jobs_for
map-jobs_for source height [] = refl
map-jobs_for source height (address ∷ rest) = cc (map-jobs_for source height rest)

length-jobs_for :
    (source : String) (height : Option ℕ) (known : List String)
    → length (jobs_for source height known) ≡ length known
unfolding jobs_for
length-jobs_for source height [] = refl
length-jobs_for source height (address ∷ rest) = ground (arith, length-jobs_for source height rest)

-- A payload queues one job for each tracked wallet that it names as a principal, in the order of the
-- tracked wallets, and answers with their addresses; there are no more jobs than tracked wallets.
pub ingest-tracked :
    (is_principal : String → Bool) (tracked : List String) (source : String)
    (affected : AffectedWallets)
    → (map (λ j. j.address) (ingest is_principal tracked source affected).0
        ≡ keep (λ a. any (λ c. str_eq c a) (keep is_principal affected.addresses)) tracked)
      × ((ingest is_principal tracked source affected).1.queued
          ≡ map (λ j. j.address) (ingest is_principal tracked source affected).0)
      × (length (ingest is_principal tracked source affected).0 ≤ length tracked)
unfolding ingest find_wallets
ingest-tracked is_principal tracked source affected =
    let known = find_wallets tracked (keep is_principal affected.addresses) in
    let jobs = map-jobs_for source affected.block_height known in
    (
      jobs,
      sym jobs,
      rw length-jobs_for (
          length-keep (λ (a : String). any (λ c. str_eq c a) (keep is_principal affected.addresses))
            tracked),
    )

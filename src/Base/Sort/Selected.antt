-- ===== src/Base/Sort/Selected.antt =====
-- Sorting entries and then selecting and changing their values, or the other way round.
use Prim.Native.String.{String}
use mathlib.Core.Path.{◌≡◌, refl}
use mathlib.Core.Bool.{Bool, true, ◌&&◌}
use mathlib.Core.List.{[], ◌∷◌}
use native.Mathlib.Omega.{arith}
use riskrail.Base.Tests.{if◌then◌else◌}
use riskrail.Base.Maps.{Dict}
use riskrail.Base.Sort.{Order, IsTotal, insert_entry, sort_entries}

-- no key stands before this one
abbrev below {ℓ} : {V : Type ℓ} → Order → String → Dict V → Bool
below le k [] = true
below le k ((j, v) ∷ rest) = le k j && below le k rest

abbrev is_sorted {ℓ} : {V : Type ℓ} → Order → Dict V → Bool
is_sorted le [] = true
is_sorted le ((k, v) ∷ rest) = below le k rest && is_sorted le rest

-- the entries whose values pass, with their values changed
unfoldable pub select {ℓ ℓ'} : {V : Type ℓ} {W : Type ℓ'} → (V → Bool) → (V → W) → Dict V → Dict W
select p f [] = []
select p f ((k, v) ∷ rest) = let later = select p f rest in if p v then (k, f v) ∷ later else later

module _ (le : Order) (o : IsTotal le) where
  below-insert_entry {ℓ} :
      {V : Type ℓ} (k j : String) (v : V) (entries : Dict V)
      → below le k (insert_entry le j v entries) ≡ (le k j && below le k entries)
  unfolding insert_entry
  below-insert_entry k j v [] = refl
  below-insert_entry k j v ((i, w) ∷ rest) = ground (arith, below-insert_entry k j v rest)

  below-transitive {ℓ} :
      {V : Type ℓ} (k j : String) (entries : Dict V)
      → le k j ≡ true
      → below le j entries ≡ true
      → below le k entries ≡ true
  below-transitive k j [] h b = refl
  below-transitive k j ((i, w) ∷ rest) h b =
      ground (arith, h, b, o.transitive k j i, below-transitive k j rest)

  sorted-insert_entry {ℓ} :
      {V : Type ℓ} (k : String) (v : V) (entries : Dict V)
      → is_sorted le entries ≡ true
      → is_sorted le (insert_entry le k v entries) ≡ true
  unfolding insert_entry
  sorted-insert_entry k v [] h = refl
  sorted-insert_entry k v ((j, w) ∷ rest) h = ground (
    arith,
    h,
    o.total k j,
    below-transitive k j rest,
    below-insert_entry j k v rest,
    sorted-insert_entry k v rest,
  )

  sorted-sort_entries {ℓ} :
      {V : Type ℓ} (entries : Dict V) → is_sorted le (sort_entries le entries) ≡ true
  unfolding sort_entries
  sorted-sort_entries [] = refl
  sorted-sort_entries ((k, v) ∷ rest) =
      sorted-insert_entry k v (sort_entries le rest) (sorted-sort_entries rest)

  insert_entry-front {ℓ} :
      {V : Type ℓ} (k : String) (v : V) (entries : Dict V)
      → below le k entries ≡ true
      → insert_entry le k v entries ≡ (k, v) ∷ entries
  unfolding insert_entry
  insert_entry-front k v [] h = refl
  insert_entry-front k v ((j, w) ∷ rest) h = ground (arith, h)

  module _ {ℓ ℓ'} {V : Type ℓ} {W : Type ℓ'} (p : V → Bool) (f : V → W) where
    below-select :
        (k : String) (entries : Dict V)
        → below le k entries ≡ true
        → below le k (select p f entries) ≡ true
    unfolding select
    below-select k [] h = refl
    below-select k ((j, v) ∷ rest) h = ground (arith, h, below-select k rest)

    select-insert_entry :
        (k : String) (v : V) (entries : Dict V)
        → is_sorted le entries ≡ true
        → select p f (insert_entry le k v entries)
          ≡ (if p v then insert_entry le k (f v) (select p f entries) else select p f entries)
    unfolding select insert_entry
    select-insert_entry k v [] h = ground arith
    select-insert_entry k v ((j, w) ∷ rest) h = ground (
      arith,
      h,
      select-insert_entry k v rest,
      below-transitive k j rest,
      below-select k rest,
      insert_entry-front k (f v) (select p f rest),
    )

    pub select-sort_entries :
        (entries : Dict V)
        → select p f (sort_entries le entries) ≡ sort_entries le (select p f entries)
    unfolding select sort_entries
    select-sort_entries [] = refl
    select-sort_entries ((k, v) ∷ rest) = ground (
      arith,
      select-insert_entry k v (sort_entries le rest) (sorted-sort_entries rest),
      select-sort_entries rest,
    )

-- ===== src/Base/Maps.antt =====
-- A JavaScript `Map` with text keys: an association list in insertion order.
use Prim.Native.String.{String}
use mathlib.Core.Path.{◌≡◌}
use mathlib.Core.Option.{Option, none, some}
use mathlib.Core.List.{List, [], ◌∷◌}
use native.Mathlib.Omega.{arith}
use text.Mathlib.Text.{◌==◌}
use text.Mathlib.TextEquality.{eq_iff}
use mathlib.Core.Bool.{Bool}
use riskrail.Base.Tests.{is_some, if◌then◌else◌}

abbrev pub Dict {ℓ} : Type ℓ → Type ℓ
Dict V = List (String × V)

module _ {ℓ} {V : Type ℓ} where
  -- `map.get(wanted)`
  unfoldable pub lookup : (wanted : String) → Dict V → Option V
  lookup wanted [] = none
  lookup wanted ((key, value) ∷ entries) =
      let later = lookup wanted entries in if key == wanted then some value else later

  -- `map.set(wanted, value)`: a key keeps the place of its first insertion
  unfoldable pub insert : (wanted : String) → V → Dict V → Dict V
  insert wanted value [] = (wanted, value) ∷ []
  insert wanted value ((key, old) ∷ entries) =
      let later = insert wanted value entries in
      if key == wanted then (key, value) ∷ entries else (key, old) ∷ later

  pub lookup-insert :
      (wanted other : String) (value : V) (entries : Dict V)
      → lookup other (insert wanted value entries)
        ≡ (if wanted == other then some value else lookup other entries)
  unfolding lookup insert
  lookup-insert wanted other value [] = ground arith
  lookup-insert wanted other value ((key, old) ∷ entries) = ground (
    lookup-insert wanted other value entries,
    eq_iff key other,
    eq_iff key wanted,
    eq_iff wanted other,
    arith,
  )

  -- `map.delete(wanted)`
  unfoldable pub delete_key : (wanted : String) → Dict V → Dict V
  delete_key wanted [] = []
  delete_key wanted ((key, value) ∷ entries) =
      let later = delete_key wanted entries in if key == wanted then later else (key, value) ∷ later

  -- `map.has(wanted)`
  unfoldable pub has_key : (wanted : String) → Dict V → Bool
  unfolding lookup
  has_key wanted entries = is_some (lookup wanted entries)

  -- `map.keys()`
  unfoldable pub keys : Dict V → List String
  keys [] = []
  keys ((key, value) ∷ entries) = key ∷ keys entries

  pub lookup-delete_key :
      (wanted other : String) (entries : Dict V)
      → lookup other (delete_key wanted entries)
        ≡ (if wanted == other then none else lookup other entries)
  unfolding lookup delete_key
  lookup-delete_key wanted other [] = ground arith
  lookup-delete_key wanted other ((key, old) ∷ entries) = ground (
    lookup-delete_key wanted other entries,
    eq_iff key other,
    eq_iff key wanted,
    eq_iff wanted other,
    arith,
  )

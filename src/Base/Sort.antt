-- ===== src/Base/Sort.antt =====
-- Sorting entries by their keys, as `Array.prototype.sort` does, which keeps the places of entries
-- with equal keys. The order is an argument.
pub mod Selected
use Prim.Native.Char.{code}
use Prim.Native.String.{String}
use text.Mathlib.TextEquality.{Char-path}
use mathlib.Core.Path.{◌≡◌, refl}
use mathlib.Core.Logic.{◌≢◌}
use mathlib.Core.Bool.{Bool, true, false, ◌&&◌, ◌||◌}
use mathlib.Core.List.{[], ◌∷◌, map}
use native.Mathlib.Omega.{arith}
use riskrail.Base.Tests.{ltb, ◌==◌, if◌then◌else◌}
use riskrail.Base.Maps.{Dict}
use riskrail.Base.Lists.{any}

-- one key stands before another or at its place
abbrev pub Order : Type 0
Order = String → String → Bool

pub record IsTotal (le : Order) : Type 0 where
  pub total : (j k : String) → (le j k || le k j) ≡ true
  pub antisymmetric : (j k : String) → le j k ≡ true → le k j ≡ true → j ≡ k
  pub transitive : (i j k : String) → le i j ≡ true → le j k ≡ true → le i k ≡ true

-- the order of the code points, which is that of `sort` on texts of the basic plane
unfoldable pub code_order : Order
code_order String.[] t = true
code_order (String.◌∷◌ c s) String.[] = false
code_order (String.◌∷◌ c s) (String.◌∷◌ d t) =
    let rest = code_order s t in ltb (code c) (code d) || (code c == code d && rest)

code_order_total : (s t : String) → (code_order s t || code_order t s) ≡ true
unfolding code_order
code_order_total String.[] t = refl
code_order_total (String.◌∷◌ c s) String.[] = refl
code_order_total (String.◌∷◌ c s) (String.◌∷◌ d t) = ground (arith, code_order_total s t)

code_order_antisymmetric : (s t : String) → code_order s t ≡ true → code_order t s ≡ true → s ≡ t
unfolding code_order
code_order_antisymmetric String.[] String.[] h k = refl
code_order_antisymmetric String.[] (String.◌∷◌ d t) h k = absurd (ground (arith, k))
code_order_antisymmetric (String.◌∷◌ c s) String.[] h k = absurd (ground (arith, h))
code_order_antisymmetric (String.◌∷◌ c s) (String.◌∷◌ d t) h k =
    let same : code c ≡ code d = ground (arith, h, k) in
    let first : c ≡ d = Char-path c d same in
    let later : s ≡ t =
      code_order_antisymmetric s t (ground (arith, h, same)) (ground (arith, k, same)) in
    cc (first, later)

code_order_transitive :
    (r s t : String) → code_order r s ≡ true → code_order s t ≡ true → code_order r t ≡ true
unfolding code_order
code_order_transitive String.[] s t h k = refl
code_order_transitive (String.◌∷◌ c r) String.[] t h k = absurd (ground (arith, h))
code_order_transitive (String.◌∷◌ c r) (String.◌∷◌ d s) String.[] h k = absurd (ground (arith, k))
code_order_transitive (String.◌∷◌ c r) (String.◌∷◌ d s) (String.◌∷◌ e t) h k =
    ground (arith, h, k, code_order_transitive r s t)

pub code_order-IsTotal : IsTotal code_order
code_order-IsTotal = record {
  total = code_order_total;
  antisymmetric = code_order_antisymmetric;
  transitive = code_order_transitive;
}

module _ {ℓ} {V : Type ℓ} (le : Order) where
  unfoldable pub insert_entry : String → V → Dict V → Dict V
  insert_entry k v [] = (k, v) ∷ []
  insert_entry k v ((j, w) ∷ rest) =
      let later = insert_entry k v rest in if le k j then (k, v) ∷ (j, w) ∷ rest else (j, w) ∷ later

  unfoldable pub sort_entries : Dict V → Dict V
  unfolding insert_entry
  sort_entries [] = []
  sort_entries ((k, v) ∷ rest) = insert_entry k v (sort_entries rest)

  any-insert_entry :
      (p : V → Bool) (k : String) (v : V) (entries : Dict V)
      → any p (map (λ e. e.1) (insert_entry k v entries)) ≡ (p v || any p (map (λ e. e.1) entries))
  unfolding insert_entry
  any-insert_entry p k v [] = refl
  any-insert_entry p k v ((j, w) ∷ rest) = ground (arith, any-insert_entry p k v rest)

  -- sorting keeps what an entry of the list has
  pub any-sort_entries :
      (p : V → Bool) (entries : Dict V)
      → any p (map (λ e. e.1) (sort_entries entries)) ≡ any p (map (λ e. e.1) entries)
  unfolding sort_entries
  any-sort_entries p [] = refl
  any-sort_entries p ((k, v) ∷ rest) =
      ground (arith, any-insert_entry p k v (sort_entries rest), any-sort_entries p rest)

  module _ (o : IsTotal le) where
    -- entries with different keys may be inserted in either order
    pub insert_entry_comm :
        (j k : String) (v w : V) (entries : Dict V)
        → j ≢ k
        → insert_entry j v (insert_entry k w entries) ≡ insert_entry k w (insert_entry j v entries)
    unfolding insert_entry
    insert_entry_comm j k v w [] apart = ground (arith, o.total j k, o.antisymmetric j k, apart)
    insert_entry_comm j k v w ((i, u) ∷ rest) apart = ground (
      arith,
      insert_entry_comm j k v w rest apart,
      o.total j k,
      o.antisymmetric j k,
      o.transitive j k i,
      o.transitive k j i,
      o.total i j,
      o.total i k,
      o.transitive j i k,
      o.transitive k i j,
      apart,
    )

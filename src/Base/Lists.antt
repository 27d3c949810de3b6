-- ===== src/Base/Lists.antt =====
-- Lists measured by native numbers, the array methods of the source, and predicates on lists.
use Prim.Native.Nat.{ℕ, zero, suc, ◌+◌, ◌≤◌}
use mathlib.Core.Path.{◌≡◌, refl, ap, sym, ◌∙◌}
use mathlib.Core.Logic.{inl, inr}
use mathlib.Core.Bool.{Bool, true, false, ◌&&◌, ◌||◌}
use mathlib.Core.Option.{Option, none, some}
use mathlib.Core.List.{List, [], ◌∷◌, ◌++◌, map}
use native.Mathlib.Omega.{arith}
use riskrail.Base.Tests.{is_some, or_default, Option-cases, Bool-cases, ◌>>=◌, if◌then◌else◌}

module _ {ℓ} {A : Type ℓ} where
  abbrev pub length : List A → ℕ
  length [] = 0
  length (x ∷ xs) = suc (length xs)

  abbrev pub get_elem? : List A → ℕ → Option A
  get_elem? [] i = none
  get_elem? (x ∷ xs) zero = some x
  get_elem? (x ∷ xs) (suc i) = get_elem? xs i

  -- `Array.prototype.filter`, `some`, `every` and `find`
  abbrev pub keep : (A → Bool) → List A → List A
  keep p [] = []
  keep p (x ∷ xs) = if p x then x ∷ keep p xs else keep p xs

  abbrev pub any : (A → Bool) → List A → Bool
  any p [] = false
  any p (x ∷ xs) = p x || any p xs

  abbrev pub all : (A → Bool) → List A → Bool
  all p [] = true
  all p (x ∷ xs) = p x && all p xs

  abbrev pub find : (A → Bool) → List A → Option A
  find p [] = none
  find p (x ∷ xs) = if p x then some x else find p xs

  pub any-append : (p : A → Bool) (xs ys : List A) → any p (xs ++ ys) ≡ (any p xs || any p ys)
  any-append p [] ys = refl
  any-append p (x ∷ xs) ys = ground (arith, any-append p xs ys)

  pub any-keep : (p q : A → Bool) (xs : List A) → any p (keep q xs) ≡ any (λ x. p x && q x) xs
  any-keep p q [] = refl
  any-keep p q (x ∷ xs) = ground (arith, any-keep p q xs)

  pub find-holds : (p : A → Bool) (xs : List A) (x : A) → find p xs ≡ some x → p x ≡ true
  find-holds p [] x h = absurd (ground (arith, h))
  find-holds p (y ∷ xs) x h = elim (Bool-cases (p y)) [
    | inl e ↦ ground (arith, e, h)
    | inr e ↦ find-holds p xs x (ground (arith, e, h))
  ]

  pub length-append : (xs ys : List A) → length (xs ++ ys) ≡ length xs + length ys
  length-append [] ys = omega arith
  length-append (x ∷ xs) ys = omega (arith, length-append xs ys)

  pub length-keep-append :
      (p : A → Bool) (xs ys : List A)
      → length (keep p (xs ++ ys)) ≡ length (keep p xs) + length (keep p ys)
  length-keep-append p [] ys = omega arith
  length-keep-append p (x ∷ xs) ys = ground (arith, length-keep-append p xs ys)

  pub length-keep : (p : A → Bool) (xs : List A) → length (keep p xs) ≤ length xs
  length-keep p [] = omega arith
  length-keep p (x ∷ xs) = ground (arith, length-keep p xs)

-- a `map` whose function may throw
abbrev pub traverse {ℓ κ} : {A : Type ℓ} {B : Type κ} → (A → Option B) → List A → Option (List B)
traverse f [] = some []
traverse f (x ∷ xs) = f x >>= λ y. traverse f xs >>= λ ys. some (y ∷ ys)

pub length-map {ℓ κ} :
    {A : Type ℓ} {B : Type κ} (f : A → B) (xs : List A) → length (map f xs) ≡ length xs
length-map f [] = refl
length-map f (x ∷ xs) = ap suc (length-map f xs)

module _ {ℓ κ} {A : Type ℓ} (P : A → Type κ) where
  abbrev pub All : List A → Type κ
  All [] = Unit
  All (x ∷ xs) = P x × All xs

  pub All-append : (xs ys : List A) → All xs → All ys → All (xs ++ ys)
  All-append [] ys h k = k
  All-append (x ∷ xs) ys (p, h) k = (p, All-append xs ys h k)

pub any-map {ℓ κ} :
    {A : Type ℓ} {B : Type κ} (p : B → Bool) (f : A → B) (xs : List A)
    → any p (map f xs) ≡ any (λ x. p (f x)) xs
any-map p f [] = refl
any-map p f (x ∷ xs) = ap (λ b. p (f x) || b) (any-map p f xs)

-- a map after a map, where each element ends as `h` says
pub map-map_eq {ℓ κ ν} :
    {A : Type ℓ} {B : Type κ} {C : Type ν} (f : B → C) (g : A → B) (h : A → C) (xs : List A)
    → ((x : A) → f (g x) ≡ h x)
    → map f (map g xs) ≡ map h xs
map-map_eq f g h [] each = refl
map-map_eq f g h (x ∷ xs) each = cc (each x, map-map_eq f g h xs each)

pub map_same {ℓ} : {A : Type ℓ} (f : A → A) (xs : List A) → ((x : A) → f x ≡ x) → map f xs ≡ xs
map_same f [] each = refl
map_same f (x ∷ xs) each = cc (each x, map_same f xs each)

module _ {ℓ κ} {A : Type ℓ} {B : Type κ} (f : A → Option B) where
  pub is_some-traverse : (xs : List A) → is_some (traverse f xs) ≡ all (λ x. is_some (f x)) xs
  is_some-traverse [] = refl
  is_some-traverse (x ∷ xs) = ground (arith, is_some-traverse xs)

-- what each element of a result has, from the element it comes from
pub map-traverse {ℓ κ ν} :
    {A : Type ℓ} {B : Type κ} {C : Type ν} (f : A → Option B) (g : B → C) (h : A → C) (xs : List A)
    (ys : List B)
    → ((x : A) (y : B) → f x ≡ some y → g y ≡ h x)
    → traverse f xs ≡ some ys
    → map g ys ≡ map h xs
map-traverse f g h [] ys each eq =
    ap (λ o. or_default o []) (ap (λ o. o >>= λ zs. some (map g zs)) (sym eq))
map-traverse f g h (x ∷ xs) ys each eq = elim (Option-cases (f x)) [
  | inl e ↦ absurd (ground (arith, eq, e))
  | inr (y, e) ↦ elim (Option-cases (traverse f xs)) [
    | inl k ↦ absurd (ground (arith, eq, e, k))
    | inr (zs, k) ↦
        let same : y ∷ zs ≡ ys = ground (arith, eq, e, k) in
        ap (map g) (sym same) ∙ cc (each x y e, map-traverse f g h xs zs each k)
  ]
]

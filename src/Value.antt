-- ===== src/Value.antt =====
-- Values of the static type `unknown`: what JSON, metadata and decoded contract data hold.
-- Numbers are the integral ones.
pub mod Same
use text.Mathlib.Text.{◌==◌}
use riskrail.Base.{
  ◌≡◌, refl, Bool, String, Option, none, some, List, [], ◌∷◌, arith, eq_iff, if◌then◌else◌,
}
use riskrail.Base.Int.{ℤ}

mutual
  pub data Value : Type 0 where
    undefined null : Value
    bool : Bool → Value
    number : ℤ → Value
    bigint : ℤ → Value
    str : String → Value
    array : Items → Value
    object : Fields → Value

  pub data Items : Type 0 where
    nil : Items
    cons : Value → Items → Items

  pub data Fields : Type 0 where
    end : Fields
    field : String → Value → Fields → Fields

-- an array's elements
abbrev pub elements : Items → List Value
elements nil = []
elements (cons v vs) = v ∷ elements vs

-- `object[key]`
unfoldable pub get_field : String → Fields → Value
get_field k end = undefined
get_field k (field j v fs) = if j == k then v else get_field k fs

-- `{ ...object, key: v }`
unfoldable pub set_field : String → Value → Fields → Fields
set_field k v end = field k v end
set_field k v (field j w fs) = if j == k then field j v fs else field j w (set_field k v fs)

-- `isRecord` of the packages that decode unknown values
abbrev pub as_record : Value → Option Fields
as_record (object fs) = some fs
as_record _ = none

pub get_field-set_field :
    (k j : String) (v : Value) (fs : Fields)
    → get_field j (set_field k v fs) ≡ (if k == j then v else get_field j fs)
unfolding get_field set_field
get_field-set_field k j v end = refl
get_field-set_field k j v (field i w fs) =
    ground (arith, get_field-set_field k j v fs, eq_iff k j, eq_iff i k, eq_iff i j)

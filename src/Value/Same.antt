-- ===== src/Value/Same.antt =====
-- Values that differ in the order of their objects' fields only, at any depth.
use riskrail.Base.{◌≡◌, refl, ◌≢◌, Bool, true, false, String}
use riskrail.Value.{Value, undefined, array, object, Items, nil, cons, Fields, end, field}

mutual
  pub data IsSame : Value → Value → Type 0 where
    same : (v : Value) → IsSame v v
    same_array : (xs ys : Items) → AreSame xs ys → IsSame (array xs) (array ys)
    same_object : (fs gs : Fields) → HasSame fs gs → IsSame (object fs) (object gs)

  pub data AreSame : Items → Items → Type 0 where
    no_items : AreSame nil nil
    items :
        (v w : Value) (xs ys : Items) → IsSame v w → AreSame xs ys → AreSame (cons v xs) (cons w ys)

  pub data HasSame : Fields → Fields → Type 0 where
    no_fields : HasSame end end
    fields :
        (k : String) (v w : Value) (fs gs : Fields)
        → IsSame v w
        → HasSame fs gs
        → HasSame (field k v fs) (field k w gs)
    swapped :
        (j k : String) (v w : Value) (fs : Fields)
        → j ≢ k
        → HasSame (field j v (field k w fs)) (field k w (field j v fs))
    then_same : (fs gs hs : Fields) → HasSame fs gs → HasSame gs hs → HasSame fs hs

abbrev pub is_undefined : Value → Bool
is_undefined undefined = true
is_undefined _ = false

pub is_undefined-IsSame : {v w : Value} → IsSame v w → is_undefined v ≡ is_undefined w
is_undefined-IsSame (same v) = refl
is_undefined-IsSame (same_array xs ys h) = refl
is_undefined-IsSame (same_object fs gs h) = refl

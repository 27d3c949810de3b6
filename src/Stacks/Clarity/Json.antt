-- ===== src/Stacks/Clarity/Json.antt =====
-- The JSON of a Clarity value as relations, from the comment of packages/stacks/src/clarity.ts: a
-- node holds the text of its type, with its payload in `value`.
use text.Mathlib.Text.{◌==◌}
use riskrail.Base.{◌≡◌, Bool, true, false, not, ◌&&◌, String}
use riskrail.Value.{
  Value, null, bool, str, array, object, Items, nil, cons, Fields, end, field, get_field,
}
use riskrail.Stacks.Clarity.{clarity_kind, has_field}

-- A Clarity value: `scalar` is a number, a principal, a buffer or a string, as it is written.
mutual
  pub data Clarity : Type 0 where
    scalar : String → Clarity
    flag : Bool → Clarity
    none_cv : Clarity
    some_cv ok_cv err_cv : Clarity → Clarity
    list_cv : Elements → Clarity
    tuple_cv : Members → Clarity

  pub data Elements : Type 0 where
    none_left : Elements
    element : Clarity → Elements → Elements

  pub data Members : Type 0 where
    no_members : Members
    member : String → Clarity → Members → Members

-- the value without the types
unfoldable mutual
  pub plain : Clarity → Value
  plain (scalar s) = str s
  plain (flag b) = bool b
  plain none_cv = null
  plain (some_cv c) = plain c
  plain (ok_cv c) = plain c
  plain (err_cv c) = plain c
  plain (list_cv cs) = array (plain_items cs)
  plain (tuple_cv ms) = object (plain_fields ms)

  pub plain_items : Elements → Items
  plain_items none_left = nil
  plain_items (element c cs) = cons (plain c) (plain_items cs)

  pub plain_fields : Members → Fields
  plain_fields no_members = end
  plain_fields (member k c ms) = field k (plain c) (plain_fields ms)

pub record IsTyped (type : String) (kind : String) (fs : Fields) : Type 0 where
  pub typed : get_field "type" fs ≡ str type
  pub kind_eq : clarity_kind type ≡ kind

pub record Holds (v : Value) (fs : Fields) : Type 0 where
  pub value_eq : get_field "value" fs ≡ v
  pub has_value : has_field "value" fs ≡ true

-- the constructors whose payload is kept as it is
abbrev pub is_carrier : String → Bool
is_carrier kind = not (kind == "none") && not (kind == "optional")

abbrev pub is_scalar : String → Bool
is_scalar kind = is_carrier kind && not (kind == "response")

mutual
  pub data IsNode : Clarity → Value → Type 0 where
    scalar_node :
        (s type kind : String) (fs : Fields)
        → IsTyped type kind fs
        → is_scalar kind ≡ true
        → Holds (str s) fs
        → IsNode (scalar s) (object fs)
    flag_node :
        (b : Bool) (type : String) (fs : Fields)
        → IsTyped type "bool" fs
        → Holds (bool b) fs
        → IsNode (flag b) (object fs)
    none_node :
        (type : String) (fs : Fields)
        → IsTyped type "optional" fs
        → Holds null fs
        → IsNode none_cv (object fs)
    some_node :
        (c : Clarity) (v : Value) (type : String) (fs : Fields)
        → IsTyped type "optional" fs
        → Holds v fs
        → IsNode c v
        → IsNode (some_cv c) (object fs)
    ok_node :
        (c : Clarity) (v : Value) (type : String) (fs : Fields)
        → IsTyped type "response" fs
        → get_field "success" fs ≡ bool true
        → Holds v fs
        → IsNode c v
        → IsNode (ok_cv c) (object fs)
    err_node :
        (c : Clarity) (v : Value) (type : String) (fs : Fields)
        → IsTyped type "response" fs
        → get_field "success" fs ≡ bool false
        → Holds v fs
        → IsNode c v
        → IsNode (err_cv c) (object fs)
    list_node :
        (cs : Elements) (xs : Items) (type : String) (fs : Fields)
        → IsTyped type "list" fs
        → Holds (array xs) fs
        → AreItems cs xs
        → IsNode (list_cv cs) (object fs)
    tuple_node :
        (ms : Members) (gs : Fields) (type : String) (fs : Fields)
        → IsTyped type "tuple" fs
        → Holds (object gs) fs
        → AreFields ms gs
        → IsNode (tuple_cv ms) (object fs)

  pub data AreItems : Elements → Items → Type 0 where
    no_items : AreItems none_left nil
    item :
        (c : Clarity) (v : Value) (cs : Elements) (xs : Items)
        → IsNode c v
        → AreItems cs xs
        → AreItems (element c cs) (cons v xs)

  pub data AreFields : Members → Fields → Type 0 where
    no_fields : AreFields no_members end
    entry :
        (k : String) (c : Clarity) (v : Value) (ms : Members) (fs : Fields)
        → IsNode c v
        → AreFields ms fs
        → AreFields (member k c ms) (field k v fs)

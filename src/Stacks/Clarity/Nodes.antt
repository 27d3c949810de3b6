-- ===== src/Stacks/Clarity/Nodes.antt =====
-- What `unwrapClarity` of packages/stacks/src/clarity.ts gives for the JSON of a Clarity value.
use riskrail.Base.{◌≡◌, refl, ap, ◌∙◌, Bool, true, false, String, arith, if◌then◌else◌}
use riskrail.Value.{Value, null, bool, str, array, object, Items, Fields, end, field, get_field}
use riskrail.Stacks.Clarity.{
  has_field, unwrap_node, unwrap_clarity, unwrap_items, unwrap_fields, is_text, is_nullish,
}
use riskrail.Stacks.Clarity.Json.{
  Clarity, Elements, Members, plain, plain_items, plain_fields, IsTyped, Holds, is_carrier, IsNode,
  scalar_node, flag_node, none_node, some_node, ok_node, err_node, list_node, tuple_node, AreItems,
  no_items, item, AreFields, no_fields, entry,
}

get_field-unwrap_fields :
    (k : String) (fs : Fields) → get_field k (unwrap_fields fs) ≡ unwrap_clarity (get_field k fs)
unfolding get_field unwrap_clarity
get_field-unwrap_fields k end = refl
get_field-unwrap_fields k (field j v fs) = ground (arith, get_field-unwrap_fields k fs)

-- a node whose payload is kept
unwrap-carrier :
    (type kind : String) (v : Value) (fs : Fields)
    → IsTyped type kind fs
    → is_carrier kind ≡ true
    → Holds v fs
    → unwrap_clarity (object fs) ≡ unwrap_clarity v
unfolding unwrap_clarity unwrap_node
unwrap-carrier type kind v fs typed carrier held =
    rw
      (
        typed.typed,
        held.value_eq,
        held.has_value,
        get_field-unwrap_fields "value" fs,
        held.value_eq,
        typed.kind_eq,
      )
      (ground (arith, carrier))

is_nullish-node : {c : Clarity} {v : Value} → IsNode c v → is_nullish v ≡ false
is_nullish-node (scalar_node _ _ _ _ _ _ _) = refl
is_nullish-node (flag_node _ _ _ _ _) = refl
is_nullish-node (none_node _ _ _ _) = refl
is_nullish-node (some_node _ _ _ _ _ _ _) = refl
is_nullish-node (ok_node _ _ _ _ _ _ _ _) = refl
is_nullish-node (err_node _ _ _ _ _ _ _ _) = refl
is_nullish-node (list_node _ _ _ _ _ _ _) = refl
is_nullish-node (tuple_node _ _ _ _ _ _ _) = refl

is_text-node : {c : Clarity} {v : Value} → IsNode c v → is_text v ≡ false
is_text-node (scalar_node _ _ _ _ _ _ _) = refl
is_text-node (flag_node _ _ _ _ _) = refl
is_text-node (none_node _ _ _ _) = refl
is_text-node (some_node _ _ _ _ _ _ _) = refl
is_text-node (ok_node _ _ _ _ _ _ _ _) = refl
is_text-node (err_node _ _ _ _ _ _ _ _) = refl
is_text-node (list_node _ _ _ _ _ _ _) = refl
is_text-node (tuple_node _ _ _ _ _ _ _) = refl

-- a field called `type` of a tuple is a node, not a text
is_text-fields :
    {ms : Members} {fs : Fields} → AreFields ms fs → is_text (get_field "type" fs) ≡ false
unfolding get_field
is_text-fields no_fields = refl
is_text-fields (entry k c v ms fs n ns) = ground (arith, is_text-node n, is_text-fields ns)

unwrap_node-untyped :
    (type value fields unwrapped : Value) (has : Bool)
    → is_text type ≡ false
    → unwrap_node type value has fields unwrapped ≡ fields
unfolding unwrap_node
unwrap_node-untyped type value fields unwrapped has h = ground arith

unwrap-tuple :
    {ms : Members} {fs : Fields}
    → AreFields ms fs
    → unwrap_clarity (object fs) ≡ object (unwrap_fields fs)
unfolding unwrap_clarity
unwrap-tuple {fs} ns =
    unwrap_node-untyped (get_field "type" fs) (get_field "value" fs) (object (unwrap_fields fs))
      (get_field "value" (unwrap_fields fs)) (has_field "value" fs) (is_text-fields ns)

unwrap-optional :
    (type : String) (v : Value) (fs : Fields)
    → IsTyped type "optional" fs
    → Holds v fs
    → unwrap_clarity (object fs) ≡ (if is_nullish v then null else unwrap_clarity v)
unfolding unwrap_clarity unwrap_node
unwrap-optional type v fs typed held = rw (
  typed.typed,
  held.value_eq,
  held.has_value,
  get_field-unwrap_fields "value" fs,
  held.value_eq,
  typed.kind_eq,
)

mutual
  unfolding unwrap_clarity plain

  pub unwrap-plain : {c : Clarity} {v : Value} → IsNode c v → unwrap_clarity v ≡ plain c
  unwrap-plain (scalar_node s type kind fs t k h) =
      unwrap-carrier type kind (str s) fs t (ground (arith, k)) h
  unwrap-plain (flag_node b type fs t h) = unwrap-carrier type "bool" (bool b) fs t refl h
  unwrap-plain (none_node type fs t h) = unwrap-optional type null fs t h
  unwrap-plain (some_node c v type fs t h n) =
      unwrap-optional type v fs t h ∙ rw (is_nullish-node n) (unwrap-plain n)
  unwrap-plain (ok_node c v type fs t s h n) =
      unwrap-carrier type "response" v fs t refl h ∙ unwrap-plain n
  unwrap-plain (err_node c v type fs t s h n) =
      unwrap-carrier type "response" v fs t refl h ∙ unwrap-plain n
  unwrap-plain (list_node cs xs type fs t h ns) =
      unwrap-carrier type "list" (array xs) fs t refl h ∙ ap array (unwrap_items-plain ns)
  unwrap-plain (tuple_node ms gs type fs t h ns) =
      unwrap-carrier type "tuple" (object gs) fs t refl h
      ∙ (unwrap-tuple ns ∙ ap object (unwrap_fields-plain ns))

  unwrap_items-plain :
      {cs : Elements} {xs : Items} → AreItems cs xs → unwrap_items xs ≡ plain_items cs
  unwrap_items-plain no_items = refl
  unwrap_items-plain (item c v cs xs n ns) = cc (unwrap-plain n, unwrap_items-plain ns)

  unwrap_fields-plain :
      {ms : Members} {fs : Fields} → AreFields ms fs → unwrap_fields fs ≡ plain_fields ms
  unwrap_fields-plain no_fields = refl
  unwrap_fields-plain (entry k c v ms fs n ns) = cc (unwrap-plain n, unwrap_fields-plain ns)

-- The fields of a tuple are kept under their names, an empty optional becomes `null` and any other
-- value becomes what it carries, at any depth and whatever the texts of the types are made of.
pub unwrap_clarity-IsNode : {c : Clarity} {v : Value} → IsNode c v → unwrap_clarity v ≡ plain c
unwrap_clarity-IsNode n = unwrap-plain n

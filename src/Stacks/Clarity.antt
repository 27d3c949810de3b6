-- ===== src/Stacks/Clarity.antt =====
-- packages/stacks/src/clarity.ts: plain values from the JSON of contract data. White space is that
-- of ASCII.
pub mod Json
pub mod Kinds
pub mod Nodes
pub mod Responses
use Prim.Native.Char.{Char, code}
use Prim.Native.String.{String}
use text.Mathlib.Text.{◌==◌}
use riskrail.Base.{Bool, true, false, not, ◌&&◌, ◌||◌, ◌==◌ as eqb, leb, if◌then◌else◌}
use riskrail.Base.Text.{to_lower, trim, is_space}
use riskrail.Value.{
  Value, undefined, null, bool, number, bigint, str, array, object, Items, nil, cons, Fields, end,
  field, get_field,
}

-- `text.split(/[\s()]/, 1)[0]`
abbrev pub before_separator : String → String
before_separator String.[] = String.[]
before_separator (String.◌∷◌ c s) =
    let rest = before_separator s in
    if is_space c || (eqb (code c) 40 || eqb (code c) 41) then String.[] else String.◌∷◌ c rest

abbrev pub kind_of_trimmed : String → String
kind_of_trimmed String.[] = to_lower String.[]
kind_of_trimmed (String.◌∷◌ c s) =
    if eqb (code c) 40 then to_lower (before_separator s) else to_lower (String.◌∷◌ c s)

unfoldable pub clarity_kind : String → String
clarity_kind type = kind_of_trimmed (trim type)

-- `input['type']`, where it is a text
abbrev pub is_text : Value → Bool
is_text (str s) = true
is_text _ = false

abbrev pub is_nullish : Value → Bool
is_nullish undefined = true
is_nullish null = true
is_nullish _ = false

-- `'value' in input`
unfoldable pub has_field : String → Fields → Bool
has_field k end = false
has_field k (field j v fs) = j == k || has_field k fs

-- What becomes of an object, from its `type`, its `value`, and its fields and value unwrapped.
unfoldable pub unwrap_node : (type value : Value) → Bool → (fields unwrapped : Value) → Value
unfolding clarity_kind
unwrap_node (str type) value has_value fields unwrapped =
    if clarity_kind type == "none"
    then null
    else if clarity_kind type == "optional"
    then (if is_nullish value then null else unwrapped)
    else if has_value
    then unwrapped
    else fields
unwrap_node _ value has_value fields unwrapped = fields

unfoldable mutual
  unfolding get_field has_field unwrap_node

  pub unwrap_clarity : Value → Value
  unwrap_clarity (array xs) = array (unwrap_items xs)
  unwrap_clarity (object fs) =
      let fields = unwrap_fields fs in
      unwrap_node (get_field "type" fs) (get_field "value" fs) (has_field "value" fs)
        (object fields) (get_field "value" fields)
  unwrap_clarity v = v

  pub unwrap_items : Items → Items
  unwrap_items nil = nil
  unwrap_items (cons x xs) = cons (unwrap_clarity x) (unwrap_items xs)

  pub unwrap_fields : Fields → Fields
  unwrap_fields end = end
  unwrap_fields (field k v fs) = field k (unwrap_clarity v) (unwrap_fields fs)

pub record ClarityResponse : Type 0 where
  pub ok : Bool
  pub value : Value

-- `input['success'] !== false`
abbrev pub succeeded : Value → Bool
succeeded (bool b) = b
succeeded _ = true

abbrev bare : Value → ClarityResponse
unfolding unwrap_clarity
bare v = record { ok = true; value = unwrap_clarity v }

abbrev response_of : Value → Fields → ClarityResponse
unfolding clarity_kind unwrap_clarity get_field
response_of (str type) fs =
    if clarity_kind type == "response"
    then (record {
      ok = succeeded (get_field "success" fs);
      value = unwrap_clarity (get_field "value" fs);
    })
    else bare (object fs)
response_of _ fs = bare (object fs)

unfoldable pub unwrap_clarity_response : Value → ClarityResponse
unfolding get_field unwrap_clarity clarity_kind
unwrap_clarity_response (object fs) = response_of (get_field "type" fs) fs
unwrap_clarity_response v = bare v

-- ===== src/Stacks/Tests.antt =====
-- Runs of the decoding, on the shapes of the tests beside clarity.ts.
use riskrail.Base.{◌≡◌, refl, true, String, none, some, [], ◌∷◌, arith}
use riskrail.Value.{Value, null, str, bool, array, object, nil, cons, Fields, end, field}
use riskrail.Stacks.Clarity.{clarity_kind, unwrap_clarity, unwrap_clarity_response, ClarityResponse}
use riskrail.Stacks.Client.{answered_with, parse_asset_identifier}
use riskrail.Stacks.Client.Balances.{
  FungibleTokenBalance, Page, Pages, rows, all_balances, last, further, all_balances-IsChain,
}
use riskrail.Stacks.Clarity.Json.{
  Clarity, scalar, flag, none_cv, some_cv, ok_cv, err_cv, list_cv, tuple_cv, Elements, none_left,
  element, Members, no_members, member, plain, plain_items, plain_fields, IsTyped, Holds,
  is_carrier, is_scalar, IsNode, scalar_node, flag_node, none_node, some_node, ok_node, err_node,
  list_node, tuple_node, AreItems, no_items, item, AreFields, no_fields, entry,
}
use riskrail.Stacks.Clarity.Nodes.{unwrap_clarity-IsNode}

abbrev node : Value → Value → Fields
node type value = field "type" type (field "value" value end)

-- a tuple that has an empty optional and a field called `type`
abbrev asset_value : Clarity
asset_value = tuple_cv (member "callcode" none_cv (member "type" (scalar "8") no_members))

abbrev asset_type : Value
asset_type = str "(tuple (callcode (optional none)) (type uint))"

abbrev asset_fields : Fields
asset_fields =
    field "callcode" (object (node (str "(optional none)") null))
      (field "type" (object (node (str "uint") (str "8"))) end)

abbrev asset_json : Value
asset_json = object (node asset_type (object asset_fields))

asset_json-IsNode : IsNode asset_value asset_json
unfolding riskrail.Stacks.Clarity.clarity_kind riskrail.Base.Text.to_lower riskrail.Value.get_field
    riskrail.Stacks.Clarity.has_field
asset_json-IsNode =
    let none_type : IsTyped "(optional none)" "optional" (node (str "(optional none)") null) =
      record { typed = refl; kind_eq = refl } in
    tuple_node _ asset_fields "(tuple (callcode (optional none)) (type uint))" _
      (record { typed = refl; kind_eq = refl }) (record { value_eq = refl; has_value = refl })
      (entry "callcode" none_cv _ _ _
        (none_node "(optional none)" _ none_type (record { value_eq = refl; has_value = refl }))
        (entry "type" (scalar "8") _ _ _
          (scalar_node "8" "uint" "uint" _ (record { typed = refl; kind_eq = refl }) refl
            (record { value_eq = refl; has_value = refl }))
          no_fields))

unwrap_clarity-IsNode_example :
    unwrap_clarity asset_json ≡ object (field "callcode" null (field "type" (str "8") end))
unfolding riskrail.Stacks.Clarity.Json.plain
unwrap_clarity-IsNode_example = unwrap_clarity-IsNode asset_json-IsNode

abbrev response_json : Value
response_json =
    object (field "success" (bool true) (node (str "(response (tuple) uint)") asset_json))

response_json-IsNode : IsNode (ok_cv asset_value) response_json
unfolding riskrail.Stacks.Clarity.clarity_kind riskrail.Base.Text.to_lower riskrail.Value.get_field
    riskrail.Stacks.Clarity.has_field
response_json-IsNode =
    ok_node asset_value asset_json "(response (tuple) uint)" _
      (record { typed = refl; kind_eq = refl }) refl (record { value_eq = refl; has_value = refl })
      asset_json-IsNode

splits_at_last : parse_asset_identifier "SP1.a::b::c" ≡ some ("SP1.a::b", "c")
unfolding parse_asset_identifier
splits_at_last = refl

abbrev balance : String → FungibleTokenBalance
balance id = record { asset_identifier = id; balance = "1" }

abbrev first_page : Page
first_page = record { results = balance "a" ∷ balance "b" ∷ []; next = some "2" }

abbrev second_page : Page
second_page = record { results = balance "c" ∷ []; next = some "" }

abbrev two_pages : Pages
two_pages none = answered_with first_page
two_pages (some cursor) = answered_with second_page

all_balances-IsChain_example :
    all_balances 2 two_pages none ≡ rows (balance "a" ∷ balance "b" ∷ balance "c" ∷ [])
all_balances-IsChain_example =
    all_balances-IsChain two_pages 2
      (further none first_page "2" (second_page ∷ []) refl refl
        (last (some "2") second_page refl refl))
      (omega arith)

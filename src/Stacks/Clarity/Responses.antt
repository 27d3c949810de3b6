-- ===== src/Stacks/Clarity/Responses.antt =====
-- What `unwrapClarityResponse` of packages/stacks/src/clarity.ts gives for the JSON of a Clarity value.
use text.Mathlib.Text.{◌==◌}
use riskrail.Base.{◌≡◌, refl, Bool, true, false, String, arith}
use riskrail.Value.{Value, null, bool, str, object, Fields, get_field}
use riskrail.Stacks.Clarity.{unwrap_clarity, unwrap_clarity_response}
use riskrail.Stacks.Clarity.Json.{
  Clarity, err_cv, list_cv, tuple_cv, plain, IsTyped, Holds, IsNode, scalar_node, flag_node,
  none_node, some_node, ok_node, err_node, list_node, tuple_node,
}
use riskrail.Stacks.Clarity.Nodes.{unwrap-plain}

-- the branch a value is on: a value that is no response counts as one that succeeded
unfoldable pub branch : Clarity → Bool
branch (err_cv c) = false
branch _ = true

bare_response :
    (type kind : String) (v : Value) (fs : Fields)
    → IsTyped type kind fs
    → (kind == "response") ≡ false
    → unwrap_clarity (object fs) ≡ v
    → unwrap_clarity_response (object fs) ≡ record { ok = true; value = v }
unfolding unwrap_clarity_response
bare_response type kind v fs typed other h = rw (typed.typed, typed.kind_eq, other, h)

full_response :
    (type : String) (v w : Value) (b : Bool) (fs : Fields)
    → IsTyped type "response" fs
    → get_field "success" fs ≡ bool b
    → Holds v fs
    → unwrap_clarity v ≡ w
    → unwrap_clarity_response (object fs) ≡ record { ok = b; value = w }
unfolding unwrap_clarity_response
full_response type v w b fs typed success held h =
    rw (typed.typed, typed.kind_eq, success, held.value_eq, h)

-- A response is split into its branch and its plain payload, and a value that is no response comes
-- out as a success with the plain value.
pub unwrap_clarity_response-branch :
    {c : Clarity} {v : Value}
    → IsNode c v
    → unwrap_clarity_response v ≡ record { ok = branch c; value = plain c }
unfolding branch plain
unwrap_clarity_response-branch (ok_node c v type fs t s h n) =
    full_response type v (plain c) true fs t s h (unwrap-plain n)
unwrap_clarity_response-branch (err_node c v type fs t s h n) =
    full_response type v (plain c) false fs t s h (unwrap-plain n)
unwrap_clarity_response-branch (scalar_node s type kind fs t k h) =
    bare_response type kind (str s) fs t (ground (arith, k))
      (unwrap-plain (scalar_node s type kind fs t k h))
unwrap_clarity_response-branch (flag_node b type fs t h) =
    bare_response type "bool" (bool b) fs t refl (unwrap-plain (flag_node b type fs t h))
unwrap_clarity_response-branch (none_node type fs t h) =
    bare_response type "optional" null fs t refl (unwrap-plain (none_node type fs t h))
unwrap_clarity_response-branch (some_node c v type fs t h n) =
    bare_response type "optional" (plain c) fs t refl (unwrap-plain (some_node c v type fs t h n))
unwrap_clarity_response-branch (list_node cs xs type fs t h ns) =
    bare_response type "list" (plain (list_cv cs)) fs t refl
      (unwrap-plain (list_node cs xs type fs t h ns))
unwrap_clarity_response-branch (tuple_node ms gs type fs t h ns) =
    bare_response type "tuple" (plain (tuple_cv ms)) fs t refl
      (unwrap-plain (tuple_node ms gs type fs t h ns))

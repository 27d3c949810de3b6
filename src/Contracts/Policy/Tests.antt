-- ===== src/Contracts/Policy/Tests.antt =====
-- A policy as the JSON of a contract call, and what the reader gives for it.
use riskrail.Numbers.Scaled.{scaled, scaled-IsLawful, scaled-LeDouble, LeDouble-scaled}
use riskrail.Web.Policy.{PolicyInput, Comparisons, to_contract_args, validate}
use riskrail.Web.Policy.Written.{AreOrdered, described, to_contract_args-get_policy}
use riskrail.Base.{◌≡◌, ltb, leb, ◌≤◌, ◌*◌, ◌/◌, refl, ℕ, true, String, Option, some, List, arith}
use riskrail.Base.Decimal.{to_decimal}
use riskrail.Value.{Value, bool, str, object, Fields, end, field}
use riskrail.Stacks.Clarity.Json.{
  scalar, flag, IsNode, scalar_node, flag_node, some_node, tuple_node, entry, no_fields,
}
use riskrail.Adapters.Decode.{CallReadOnly}
use riskrail.Contracts.Policy.{get_policy}
use riskrail.Contracts.Policy.Decoded.{Stored, stored_value}

abbrev limits : Stored
limits = record {
  score = 4000;
  health = 13000;
  concentration = 5000;
  liquidity = 2500;
  enabled = true;
  updated = 77;
}

abbrev node : String → Value → Fields
node type value = field "type" (str type) (field "value" value end)

abbrev uint : String → Value
uint text = object (node "uint" (str text))

abbrev inner : Fields
inner = field "max-risk-score-bps" (uint "4000") (
    field "min-health-factor-e4" (uint "13000") (
      field "max-protocol-concentration-bps" (uint "5000") (
        field "min-liquidity-score-bps" (uint "2500") (
          field "enabled" (object (node "bool" (bool true)))
            (field "updated-at" (uint "77") end)))))

abbrev answer : Value
answer = object (node "(optional (tuple))" (object (node "(tuple)" (object inner))))

abbrev contract : CallReadOnly
contract id name arguments sender = some answer

uint-IsNode : (n : ℕ) → IsNode (scalar (to_decimal n)) (uint (to_decimal n))
unfolding riskrail.Stacks.Clarity.clarity_kind riskrail.Base.Text.to_lower riskrail.Value.get_field
    riskrail.Stacks.Clarity.has_field
uint-IsNode n =
    scalar_node (to_decimal n) "uint" "uint" _ (record { typed = refl; kind_eq = refl }) refl
      (record { value_eq = refl; has_value = refl })

flag-IsNode : IsNode (flag true) (object (node "bool" (bool true)))
unfolding riskrail.Stacks.Clarity.clarity_kind riskrail.Base.Text.to_lower riskrail.Value.get_field
    riskrail.Stacks.Clarity.has_field
flag-IsNode =
    flag_node true "bool" _ (record { typed = refl; kind_eq = refl })
      (record { value_eq = refl; has_value = refl })

answer-IsNode : IsNode (stored_value limits) answer
unfolding riskrail.Stacks.Clarity.clarity_kind riskrail.Base.Text.to_lower riskrail.Value.get_field
    riskrail.Stacks.Clarity.has_field to_decimal
answer-IsNode =
    some_node _ _ "(optional (tuple))" _ (record { typed = refl; kind_eq = refl })
      (record { value_eq = refl; has_value = refl })
      (tuple_node _ inner "(tuple)" _ (record { typed = refl; kind_eq = refl })
        (record { value_eq = refl; has_value = refl })
        (entry _ _ _ _ _ (uint-IsNode 4000) (
          entry _ _ _ _ _ (uint-IsNode 13000) (
            entry _ _ _ _ _ (uint-IsNode 5000) (
              entry _ _ _ _ _ (uint-IsNode 2500)
                (entry _ _ _ _ _ flag-IsNode (entry _ _ _ _ _ (uint-IsNode 77) no_fields)))))))

abbrev comparisons : Comparisons scaled
comparisons = record { less = ltb; at_most = leb }

mul_grows : (x y n : ℕ) → x ≤ y → x * n ≤ y * n
mul_grows x y n h = grind arith

scaled_mul_le :
    (x m n : ℕ) → x ≤ m * 100000000 → x * (n * 100000000) / 100000000 ≤ m * n * 100000000
scaled_mul_le x m n h = let below = mul_grows x (m * 100000000) n h in omega (arith, below)

scaled-AreOrdered : AreOrdered scaled scaled-IsLawful comparisons
scaled-AreOrdered = record {
  IsNumber = λ x. x ≡ x;
  less_false = λ x y h k e. scaled-LeDouble y x (ground (arith, e));
  at_most_false = λ x y h k e. scaled-LeDouble y x (ground (arith, e));
  integer_number = λ n. refl;
  mul_le = λ x m n h. scaled-LeDouble _ _ (scaled_mul_le x m n (LeDouble-scaled _ _ h));
}

-- 40 of 100, a health factor of 1.3, 50 % and 25 %
abbrev thresholds : PolicyInput scaled
thresholds = record {
  max_risk_score = 4000000000;
  min_health_factor = 130000000;
  max_protocol_concentration = 5000000000;
  min_liquidity_score = 2500000000;
}

to_contract_args-get_policy_example :
    get_policy contract "SP1.policy" "SP2" ≡ some (some (described scaled thresholds true 77))
unfolding scaled-AreOrdered to_contract_args validate to_decimal
to_contract_args-get_policy_example =
    to_contract_args-get_policy scaled scaled-IsLawful comparisons scaled-AreOrdered thresholds
      limits contract "SP1.policy" "SP2"
      (record {
        score_number = refl;
        health_number = refl;
        concentration_number = refl;
        liquidity_number = refl;
      })
      refl refl (omega arith) answer-IsNode refl

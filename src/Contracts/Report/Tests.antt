-- ===== src/Contracts/Report/Tests.antt =====
-- The hash of a report with its fields in another order than that of their keys.
use riskrail.Base.{◌≡◌, refl, String}
use riskrail.Base.Sort.{code_order}
use riskrail.Value.{Value, undefined, str, array, object, nil, cons, end, field}
use riskrail.Contracts.Report.{canonicalize_risk_report}

abbrev plain : Value → String
plain (str s) = s
plain _ = "0"

abbrev report : Value
report = object (
    field "wallet" (str "SP1") (
      field "gone" undefined (
        field "stress" (array (cons (object (field "b" (str "2") (field "a" (str "1") end))) nil))
          end)))

sorted_text : canonicalize_risk_report code_order plain report ≡ "{stress:[{a:1,b:2}],wallet:SP1}"
unfolding canonicalize_risk_report code_order
sorted_text = refl

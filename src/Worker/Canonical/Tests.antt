-- ===== src/Worker/Canonical/Tests.antt =====
-- The canonical text of a small report, and the hash of the same report in another order.
use Prim.Native.String.{String}
use riskrail.Base.{◌≡◌, refl, ◌≢◌, ap, true, arith}
use riskrail.Base.Text.{is_empty}
use riskrail.Base.Sort.{code_order, code_order-IsTotal}
use riskrail.Value.{Value, undefined, str, object, Fields, end, field}
use riskrail.Value.Same.{same_object, swapped}
use riskrail.Worker.Canonical.{canonical_json, sha256_canonical}
use riskrail.Worker.Canonical.Reordered.{sha256_canonical-IsSame}

abbrev plain : Value → String
plain (str s) = s
plain _ = "null"

abbrev report : Fields
report = field "wallet" (str "SP1") (field "level" (str "high") (field "gone" undefined end))

abbrev reordered : Fields
reordered = field "level" (str "high") (field "wallet" (str "SP1") (field "gone" undefined end))

report_text : canonical_json code_order plain (object report) ≡ "{level:high,wallet:SP1}"
unfolding canonical_json code_order
report_text = refl

apart : ◌≢◌ {A = String} "wallet" "level"
apart h = ground (arith, ap (λ s. riskrail.Base.Text.starts_with "w" s) h)

sha256_canonical-IsSame_example :
    sha256_canonical code_order plain (λ s. s) (object report)
    ≡ sha256_canonical code_order plain (λ s. s) (object reordered)
sha256_canonical-IsSame_example =
    sha256_canonical-IsSame code_order plain code_order-IsTotal (λ s. s)
      (same_object report reordered
        (swapped "wallet" "level" (str "SP1") (str "high") (field "gone" undefined end) apart))

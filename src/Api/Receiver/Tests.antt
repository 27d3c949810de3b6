-- ===== src/Api/Receiver/Tests.antt =====
-- Deliveries while a secret is rotated.
use text.Mathlib.Text.{◌==◌}
use riskrail.Base.{◌≡◌, refl, true, false, ◌||◌, some, none}
use riskrail.Api.Receiver.{authorized}
use riskrail.Api.Receiver.Rotation.{authorized-two}

accepts_both : authorized (some "new, old") (some "Bearer old") ≡ true
unfolding authorized
accepts_both = refl

authorized-two_example :
    (authorized (some "new,old") (some "Basic old")
      ≡ ("Basic old" == "Bearer new" || "Basic old" == "Bearer old"))
    × (authorized (some "new,old") none ≡ false)
authorized-two_example =
    authorized-two "new" "old" "Basic old" (record { given = refl; chars = refl })
      (record { given = refl; chars = refl })

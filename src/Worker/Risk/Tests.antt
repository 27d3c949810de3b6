-- ===== src/Worker/Risk/Tests.antt =====
-- A run of the risk worker on a wallet with one position.
use riskrail.Base.{◌≡◌, refl, true, String, some, [], ◌∷◌}
use riskrail.Base.Int.{pos}
use riskrail.Base.Sort.{code_order, code_order-IsTotal}
use riskrail.Numbers.Scaled.{scaled}
use riskrail.Samples.{half}
use riskrail.Value.{Value, str}
use riskrail.Value.Same.{same}
use riskrail.Risk.Score.{calculate_portfolio_risk}
use riskrail.Worker.Canonical.{sha256_canonical}
use riskrail.Worker.Risk.{
  StoredPortfolio, RiskRow, Job, RunInputs, stored_report, risk_row, risk_worker,
}
use riskrail.Worker.Risk.Evidence.{created_row, risk_worker-evidence}

abbrev plain : Value → String
plain (str s) = s
plain _ = "0"

abbrev fingerprint : String → String
fingerprint s = s

abbrev indexed : StoredPortfolio
indexed = record { positions = half ∷ []; coverage_bps = some (pos 10000) }

abbrev around : RunInputs
around = record {
  portfolio = some indexed;
  created = some ("w1", "r1");
  now = "noon";
  publishes = true;
  targets = "e1" ∷ [];
  alerts_queued = true;
  attestations_queued = true;
  publisher_enabled = true;
  registry_set = true;
}

abbrev job : Job
job = record { name = "risk.recalculate"; address = "SP1"; source_block = pos 9 }

abbrev row : RiskRow
row =
    risk_row code_order plain fingerprint "w1" "r1" job
      (calculate_portfolio_risk scaled (half ∷ [])) (stored_report scaled job "noon" indexed)

risk_worker-evidence_example :
    sha256_canonical code_order plain fingerprint row.report ≡ row.report_hash
unfolding risk_worker created_row
risk_worker-evidence_example =
    risk_worker-evidence scaled code_order plain fingerprint code_order-IsTotal around job row refl
      (same row.report)

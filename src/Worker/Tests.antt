-- ===== src/Worker/Tests.antt =====
-- Tests of the workers, and their theorems on concrete snapshots, rules and deliveries.
use riskrail.Base.{
  ◌+◌, ◌≤◌, ◌≡◌, refl, arith, Bool, true, false, not, String, Option, none, some, List, [], ◌∷◌,
  keep, length, if◌then◌else◌,
}
use riskrail.Base.Int.{ℤ, pos}
use riskrail.Contracts.{ContractArgs, Broadcast, publish}
use riskrail.Worker.Alerts.{MetricSnapshot, AlertRule, whole, in_breach}
use riskrail.Worker.Alerts.Edges.{firings, firings-bounded}
use riskrail.Worker.Throttle.{AttestedFigures, decide_attestation}
use riskrail.Worker.Attestation.Freshness.{Settled, attestation_worker-Settled}
use riskrail.Worker.Attestation.{
  RiskSnapshot, Settings, AttestationResult, attestation_input, attestation_worker,
}
use riskrail.Worker.Attestation.Replay.{attestation_worker-once}
use riskrail.Worker.Delivery.{DeliveryJob, DeliveryRun, Queued, run_queue}
use riskrail.Worker.Delivery.Retries.{is_request, total_delay, runs_left, Within, run_queue-bounded}

abbrev metrics : ℤ → MetricSnapshot
metrics health = record {
  risk_score_bps = pos 4000;
  health_factor_e4 = some health;
  liquidation_distance_bps = none;
  protocol_concentration_bps = pos 6000;
  asset_concentration_bps = pos 6000;
  liquidity_score_bps = pos 9000;
  capital_accessibility_bps = pos 9000;
}

abbrev rule : AlertRule
rule = record { id = "r1"; metric = "healthFactorE4"; operator = "lt"; threshold = "15000.5" }

abbrev history : List (Option ℤ)
history = some (pos 14000) ∷ some (pos 13000) ∷ some (pos 16000) ∷ none ∷ some (pos 14000) ∷ []

firings-bounded_example :
    firings "lt" (whole (pos 15000)) none history
      + (if in_breach none "lt" (whole (pos 15000)) then 1 else 0)
    ≤ length (keep (λ v. not (in_breach v "lt" (whole (pos 15000)))) history) + 1
firings-bounded_example = firings-bounded "lt" (whole (pos 15000)) none history

abbrev figures : ℤ → ℤ → AttestedFigures
figures score block = record {
  risk_score_bps = score;
  health_factor_e4 = none;
  liquidation_distance_bps = none;
  protocol_concentration_bps = pos 6000;
  liquidity_score_bps = pos 9000;
  source_block = block;
}

abbrev snapshot : String → Option String → RiskSnapshot
snapshot id tx = record {
  id = id;
  wallet_id = "w1";
  address = "SP1";
  figures = figures (pos 4000) (pos 300);
  observed_at = 1;
  report_hash = "00112233445566778899aabbccddeeff00112233445566778899aabbccddeeff";
  onchain_tx_id = tx;
}

abbrev table : List RiskSnapshot
table = snapshot "s1" none ∷ []

abbrev settings : Settings
settings = record { publisher_enabled = true; configured = true; min_interval_blocks = pos 120 }

abbrev answers : String → ContractArgs → Broadcast
answers tx args = Broadcast.accepted tx

first_run :
    (attestation_worker settings (answers "0x1") "risk.attest" "s1" table).0
    ≡ AttestationResult.broadcast "0x1"
unfolding attestation_worker decide_attestation riskrail.Contracts.publish
first_run = refl

attestation_worker-once_example :
    attestation_worker settings
      (answers "0x2")
      "risk.attest"
      "s1"
      (attestation_worker settings (answers "0x1") "risk.attest" "s1" table).1
    ≡ (
      AttestationResult.already_published "0x1",
      (attestation_worker settings (answers "0x1") "risk.attest" "s1" table).1,
    )
attestation_worker-once_example =
    attestation_worker-once settings (answers "0x1") (answers "0x2") "risk.attest" "s1" table "0x1"
      first_run

-- the same figures, published before
abbrev earlier : RiskSnapshot
earlier = record {
  id = "s0";
  wallet_id = "w1";
  address = "SP1";
  figures = figures (pos 4000) (pos 200);
  observed_at = 0;
  report_hash = "00112233445566778899aabbccddeeff00112233445566778899aabbccddeeff";
  onchain_tx_id = some "0x0";
}

holds_back :
    (attestation_worker settings (answers "0x1") "risk.attest" "s1" (earlier ∷ table)).0
    ≡ AttestationResult.skipped
unfolding attestation_worker decide_attestation
holds_back = refl

attestation_worker-Settled_example :
    Settled
      (pos 120)
      (publish (answers "0x1") (attestation_input (snapshot "s1" none)))
      (snapshot "s1" none)
      (earlier ∷ table)
      (attestation_worker settings (answers "0x1") "risk.attest" "s1" (earlier ∷ table))
unfolding riskrail.Worker.Attestation.find_unique
attestation_worker-Settled_example =
    attestation_worker-Settled settings (answers "0x1") "risk.attest" "s1" (earlier ∷ table)
      (snapshot "s1" none) refl refl refl refl

abbrev job : DeliveryJob
job = record { endpoint_id = "e1"; event_id = "v1"; attempt = 4 }

-- an endpoint that is overloaded, on a database that takes its rows or not
abbrev meets : Bool → DeliveryRun
meets creates = record {
  found = some (some (record { id = "e1"; url = "https://example.test"; enabled = true }));
  opens = true;
  creates = creates;
  answer = some 503;
  updates = true;
  updates_failure = true;
  enqueues = true;
}

abbrev runs : List DeliveryRun
runs =
    meets false
    ∷ meets true
    ∷ meets false
    ∷ meets false
    ∷ meets true
    ∷ meets true
    ∷ meets true
    ∷ meets true
    ∷ meets true
    ∷ meets true
    ∷ []

abbrev queued : Queued
queued = record { job = job; tries = 0 }

-- two requests are made, an hour apart
two_requests :
    (length (keep is_request (run_queue runs (some queued)).0) ≡ 2)
    × (total_delay (run_queue runs (some queued)).0 ≡ 3600000)
unfolding run_queue
two_requests = (refl, refl)

run_queue-bounded_example : Within 10 3600000 (run_queue runs (some queued))
unfolding runs_left
run_queue-bounded_example = run_queue-bounded runs queued (omega arith) (omega arith)

-- ===== src/Worker/Attestation/Replay.antt =====
-- A snapshot is attested once, and a run touches no other snapshot.
use text.Mathlib.Text.{◌==◌ as str_eq}
use text.Mathlib.TextEquality.{eq_iff}
use riskrail.Base.{
  true, ◌≡◌, refl, ap, ◌∙◌, inl, inr, String, some, List, [], ◌∷◌, arith, Option-cases,
}
use riskrail.Base.Int.{ℤ}
use riskrail.Contracts.{ContractArgs, Broadcast}
use riskrail.Worker.Attestation.{
  RiskSnapshot, Settings, AttestationResult, find_unique, with_tx, mark_risk_snapshot_published,
  after_publish, attest_snapshot, attestation_worker,
}

pub find_unique-mark :
    (id tx_id : String) (table : List RiskSnapshot) (snapshot : RiskSnapshot)
    → find_unique id table ≡ some snapshot
    → find_unique id (mark_risk_snapshot_published id tx_id table) ≡ some (with_tx tx_id snapshot)
unfolding find_unique mark_risk_snapshot_published
find_unique-mark id tx_id [] snapshot found = ground (arith, found)
find_unique-mark id tx_id (s ∷ table) snapshot found =
    ground (arith, found, find_unique-mark id tx_id table snapshot)

pub find_unique-id :
    (id : String) (table : List RiskSnapshot) (snapshot : RiskSnapshot)
    → find_unique id table ≡ some snapshot
    → snapshot.id ≡ id
unfolding find_unique
find_unique-id id [] snapshot found = ground (arith, found)
find_unique-id id (s ∷ table) snapshot found =
    let read = eq_iff s.id id in
    let later = find_unique-id id table snapshot in grind (arith, read, later, found)

attest-marks :
    (send : ContractArgs → Broadcast) (interval : ℤ) (table : List RiskSnapshot)
    (snapshot : RiskSnapshot) (tx_id : String)
    → (attest_snapshot send interval table snapshot).0 ≡ AttestationResult.broadcast tx_id
    → (attest_snapshot send interval table snapshot).1
      ≡ mark_risk_snapshot_published snapshot.id tx_id table
unfolding attest_snapshot after_publish
attest-marks send interval table snapshot tx_id sent = ground arith

-- what a run that broadcasts has read and written
broadcast_reads :
    (settings : Settings) (send : ContractArgs → Broadcast) (job_name id : String)
    (table : List RiskSnapshot) (tx_id : String)
    → (attestation_worker settings send job_name id table).0 ≡ AttestationResult.broadcast tx_id
    → (snapshot : RiskSnapshot) × (find_unique id table ≡ some snapshot)
      × ((attestation_worker settings send job_name id table).1
          ≡ mark_risk_snapshot_published id tx_id table)
      × (str_eq job_name "risk.attest" ≡ true)
      × (settings.publisher_enabled ≡ true)
      × (settings.configured ≡ true)
unfolding attestation_worker
broadcast_reads settings send job_name id table tx_id sent =
    elim (Option-cases (find_unique id table)) [
      | inl missing ↦ ground (arith, missing, sent)
      | inr (snapshot, found) ↦
          let marks = attest-marks send settings.min_interval_blocks table snapshot tx_id in
          (
            snapshot,
            found,
            ground (arith, found, marks, sent)
                ∙ ap (λ i. mark_risk_snapshot_published i tx_id table)
                    (find_unique-id id table snapshot found),
            ground (arith, found, sent),
            ground (arith, found, sent),
            ground (arith, found, sent),
          )
    ]

-- a run on a snapshot that has its transaction
reads_marked :
    (settings : Settings) (send : ContractArgs → Broadcast) (job_name id tx_id : String)
    (table : List RiskSnapshot) (snapshot : RiskSnapshot)
    → str_eq job_name "risk.attest" ≡ true
    → settings.publisher_enabled ≡ true
    → settings.configured ≡ true
    → find_unique id table ≡ some (with_tx tx_id snapshot)
    → attestation_worker settings send job_name id table
      ≡ (AttestationResult.already_published tx_id, table)
unfolding attestation_worker attest_snapshot
reads_marked settings send job_name id tx_id table snapshot job enabled configured found =
    rw (job, enabled, configured, found) refl

-- After a run that broadcast a transaction, another run with the same job and settings, whatever
-- the network would answer, reports that transaction and changes nothing.
pub attestation_worker-once :
    (settings : Settings) (send resend : ContractArgs → Broadcast) (job_name id : String)
    (table : List RiskSnapshot) (tx_id : String)
    → (attestation_worker settings send job_name id table).0 ≡ AttestationResult.broadcast tx_id
    → attestation_worker settings resend job_name id
        (attestation_worker settings send job_name id table).1
      ≡ (
        AttestationResult.already_published tx_id,
        (attestation_worker settings send job_name id table).1,
      )
attestation_worker-once settings send resend job_name id table tx_id sent =
    let (snapshot, found, marked, job, enabled, configured) =
      broadcast_reads settings send job_name id table tx_id sent in
    rw marked (
      reads_marked settings resend job_name id tx_id (mark_risk_snapshot_published id tx_id table)
        snapshot job enabled configured (find_unique-mark id tx_id table snapshot found))

-- ===== src/Worker/Risk/Evidence.antt =====
-- What a run of `riskWorker` leaves behind.
use text.Mathlib.Text.{◌==◌}
use riskrail.Base.{
  ◌≡◌, ◌⊎◌, All, if◌then◌else◌, refl, sym, ap, subst, some_injective, ◌∙◌, Bool, true, false, not,
  ◌||◌, ◌&&◌, String, Option, none, some, List, [], ◌∷◌, keep, Option-cases, Bool-cases, inl, inr,
  arith,
}
use riskrail.Base.Sort.{Order, IsTotal}
use riskrail.Numbers.{Numbers}
use riskrail.Value.{Value}
use riskrail.Value.Same.{IsSame}
use riskrail.Risk.Score.{PortfolioRiskSummary, calculate_portfolio_risk}
use riskrail.Worker.Canonical.{sha256_canonical}
use riskrail.Worker.Canonical.Reordered.{sha256_canonical-IsSame}
use riskrail.Worker.Risk.{
  RiskRow, Effect, create_snapshot, publish_update, deliver_webhook, evaluate_alerts, attest,
  Result, ignored, threw, stored, Job, RunInputs, stored_report, risk_row, after_create,
  risk_worker,
}

-- the first row that is created
unfoldable pub created_row : List Effect → Option RiskRow
created_row [] = none
created_row (create_snapshot row ∷ effects) = some row
created_row (publish_update a i l s h x ∷ effects) = created_row effects
created_row (deliver_webhook e ∷ effects) = created_row effects
created_row (evaluate_alerts a i ∷ effects) = created_row effects
created_row (attest a i ∷ effects) = created_row effects

-- a row by its identifier and its hash
abbrev pub named : Option RiskRow → Option (String × String)
named none = none
named (some row) = some (row.id, row.report_hash)

-- the jobs of other workers
abbrev pub is_job : Effect → Bool
is_job (evaluate_alerts a i) = true
is_job (attest a i) = true
is_job _ = false

abbrev pub is_stored : Result → Bool
is_stored (stored id report_hash) = true
is_stored _ = false

created_row-after_create :
    (around : RunInputs) (address : String) (row : RiskRow)
    → created_row (after_create around address row).0 ≡ some row
unfolding created_row after_create
created_row-after_create around address row = ground arith

-- an effect that is about an address and a row
unfoldable pub IsAbout : String → RiskRow → Effect → Type 0
IsAbout address row (create_snapshot r) = r ≡ row
IsAbout address row (publish_update a i level score health report_hash) =
    (a ≡ address)
    × (i ≡ row.id)
    × (level ≡ row.risk_level)
    × (score ≡ row.risk_score_bps)
    × (health ≡ row.health_factor_e4)
    × (report_hash ≡ row.report_hash)
IsAbout address row (deliver_webhook endpoint_id) = Unit
IsAbout address row (evaluate_alerts a i) = (a ≡ address) × (i ≡ row.id)
IsAbout address row (attest a i) = (a ≡ address) × (i ≡ row.id)

-- the alerts, and the attestation where it is configured
abbrev pub jobs_of : RunInputs → String → RiskRow → List Effect
jobs_of around address row =
    evaluate_alerts address row.id
    ∷ (if around.publisher_enabled && around.registry_set then attest address row.id ∷ [] else [])

-- the queues take the jobs: the alerts, and the attestation where it is configured
abbrev pub takes_jobs : RunInputs → Bool
takes_jobs around =
    around.alerts_queued
    && (not (around.publisher_enabled && around.registry_set) || around.attestations_queued)

-- how a run ends, by whether the channel and the queues take what it gives them
abbrev pub Ends : Bool → RunInputs → String → RiskRow → List Effect × Result → Type 0
Ends took around address row (effects, result) =
    ((took ≡ false) × (result ≡ threw))
    ⊎ ((took ≡ true)
        × (result ≡ stored row.id row.report_hash)
        × (keep is_job effects ≡ jobs_of around address row))

abbrev RunOutcome : RunInputs → String → RiskRow → List Effect × Result → Type 0
RunOutcome around address row (effects, result) =
    All (IsAbout address row) effects
    × Ends (around.publishes && takes_jobs around) around address row (effects, result)

module _ (num : Numbers) (le : Order) (stringify : Value → String) (hash : String → String) where
  -- a run either creates nothing, and then it is not a stored one, or it creates one row
  data Ending (around : RunInputs) (job : Job) : Type 0 where
    nothing :
        (r : Result)
        → risk_worker le stringify hash num around job ≡ ([], r)
        → is_stored r ≡ false
        → Ending around job
    created :
        (risk : PortfolioRiskSummary) (wallet_id id : String) (report : Value)
        → risk_worker le stringify hash num around job
          ≡ after_create around job.address
              (risk_row le stringify hash wallet_id id job risk report)
        → Ending around job

  ending : (around : RunInputs) (job : Job) → Ending around job
  unfolding risk_worker
  ending around job = elim (Bool-cases (job.name == "risk.recalculate")) [
    | inr e ↦ nothing ignored (rw e refl) refl
    | inl e ↦ elim (Option-cases around.portfolio) [
      | inl p ↦ nothing threw (rw (e, p) refl) refl
      | inr (portfolio, p) ↦ elim (Option-cases around.created) [
        | inl c ↦ nothing threw (rw (e, p, c) refl) refl
        | inr ((wallet_id, id), c) ↦
            created (calculate_portfolio_risk num portfolio.positions) wallet_id id
              (stored_report num job around.now portfolio) (rw (e, p, c) refl)
      ]
    ]
  ]

  row_hash :
      (around : RunInputs) (job : Job) (row : RiskRow)
      → created_row (risk_worker le stringify hash num around job).0 ≡ some row
      → row.report_hash ≡ sha256_canonical le stringify hash row.report
  unfolding risk_row created_row
  row_hash around job row h = elim (ending around job) [
    | nothing r e unstored ↦ absurd (ground (arith, h, e))
    | created risk wallet_id id report e ↦
        let made = risk_row le stringify hash wallet_id id job risk report in
        let same : made ≡ row = some_injective (
          sym (created_row-after_create around job.address made)
          ∙ (ap (λ r. created_row r.0) (sym e) ∙ h)) in
        subst (λ r. r.report_hash ≡ sha256_canonical le stringify hash r.report) same refl
  ]

  -- The hash that is stored with a report is the hash of any copy of the stored report, in whatever
  -- order the database gives the fields back.
  pub risk_worker-evidence :
      (o : IsTotal le) (around : RunInputs) (job : Job) (row : RiskRow) {report : Value}
      → created_row (risk_worker le stringify hash num around job).0 ≡ some row
      → IsSame row.report report
      → sha256_canonical le stringify hash report ≡ row.report_hash
  risk_worker-evidence o around job row h s =
      sym (row_hash around job row h ∙ sha256_canonical-IsSame le stringify o hash s)

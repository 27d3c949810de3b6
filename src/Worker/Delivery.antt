-- ===== src/Worker/Delivery.antt =====
-- apps/worker/src/webhook-delivery.ts, `webhookWorker` of main.ts, and the retry schedule of
-- packages/webhooks/src/index.ts, on a queue of packages/queue/src/index.ts. What a run meets is a
-- record; what it writes and sends is the list of its effects.
pub mod Retries
use riskrail.Base.{
  ℕ, zero, suc, ◌+◌, ◌-◌, ◌*◌, Bool, true, false, ◌&&◌, ◌||◌, String, Option, none, some, List, [],
  ◌∷◌, ◌++◌, ltb, leb, ◌==◌, if◌then◌else◌, get_elem?,
}

abbrev pub retry_backoff_seconds : List ℕ
retry_backoff_seconds = 30 ∷ 120 ∷ 600 ∷ 3600 ∷ []

pub data Verdict : Type 0 where
  ok retry drop : Verdict

unfoldable pub classify : ℕ → Verdict
classify status =
    if leb 200 status && ltb status 300
    then Verdict.ok
    else if status == 408 || status == 429
    then Verdict.retry
    else if leb 400 status && ltb status 500
    then Verdict.drop
    else Verdict.retry

pub record Endpoint : Type 0 where
  pub id : String
  pub url : String
  pub enabled : Bool

pub record DeliveryJob : Type 0 where
  pub endpoint_id : String
  pub event_id : String
  pub attempt : ℕ

pub record DeliveryOutcome : Type 0 where
  pub delivered : Bool
  pub status_code : Option ℕ
  pub retry_in_seconds : Option ℕ

-- What a run of the worker writes and sends, in order: the row of the attempt, the request, the
-- row's result, and the next job with its delay in milliseconds.
pub data Effect : Type 0 where
  create_delivery : (endpoint_id event_id : String) (attempt : ℕ) → Effect
  request : (url event_id : String) (attempt : ℕ) → Effect
  update_delivery : (status_code : Option ℕ) (delivered : Bool) → Effect
  enqueue : (job : DeliveryJob) (delay : ℕ) → Effect

-- `RETRY_BACKOFF_SECONDS[attempt - 1]`, undefined outside the schedule
unfoldable pub backoff : ℕ → Option ℕ
backoff zero = none
backoff (suc n) = get_elem? retry_backoff_seconds n

abbrev pub is_ok : Verdict → Bool
is_ok Verdict.ok = true
is_ok Verdict.retry = false
is_ok Verdict.drop = false

abbrev outcome_of : Verdict → ℕ → ℕ → DeliveryOutcome
outcome_of Verdict.ok status attempt = record {
  delivered = true;
  status_code = some status;
  retry_in_seconds = none;
}
outcome_of Verdict.drop status attempt = record {
  delivered = false;
  status_code = some status;
  retry_in_seconds = none;
}
outcome_of Verdict.retry status attempt = record {
  delivered = false;
  status_code = some status;
  retry_in_seconds = backoff attempt;
}

-- What one run of the worker meets. A command that throws has changed nothing.
pub record DeliveryRun : Type 0 where
  -- `webhookEndpoint.findUnique`: `none` where it throws
  pub found : Option (Option Endpoint)
  -- `decryptSecret` reads the secret, and `webhookDelivery.create` takes the row
  pub opens : Bool
  pub creates : Bool
  -- the status of the answer, or `none` where `fetch` throws
  pub answer : Option ℕ
  -- the database takes the result of the answer, and that of a failure
  pub updates : Bool
  pub updates_failure : Bool
  pub enqueues : Bool

-- the catch, which the update of an answer reaches as well; `none` is a throw
unfoldable pub after_failure : DeliveryRun → ℕ → List Effect × Option DeliveryOutcome
unfolding backoff
after_failure run attempt =
    if run.updates_failure
    then (
      update_delivery none false ∷ [],
      some (record { delivered = false; status_code = none; retry_in_seconds = backoff attempt }),
    )
    else ([], none)

unfoldable pub after_request : DeliveryRun → Option ℕ → ℕ → List Effect × Option DeliveryOutcome
unfolding classify backoff after_failure
after_request run none attempt = after_failure run attempt
after_request run (some status) attempt =
    if run.updates
    then (
      update_delivery (some status) (is_ok (classify status)) ∷ [],
      some (outcome_of (classify status) status attempt),
    )
    else after_failure run attempt

unfoldable pub send_request :
    Endpoint → DeliveryRun → DeliveryJob → List Effect × Option DeliveryOutcome
unfolding after_request
send_request endpoint run job =
    let (updates, outcome) = after_request run run.answer job.attempt in
    if run.opens && run.creates
    then (
      create_delivery endpoint.id job.event_id job.attempt
          ∷ request endpoint.url job.event_id job.attempt
          ∷ updates,
      outcome,
    )
    else ([], none)

abbrev not_sent : List Effect × Option DeliveryOutcome
not_sent = ([], some (record { delivered = false; status_code = none; retry_in_seconds = none }))

unfoldable pub deliver : DeliveryRun → DeliveryJob → List Effect × Option DeliveryOutcome
unfolding send_request
deliver run job = elim run.found [
  | none ↦ ([], none)
  | some none ↦ not_sent
  | some (some endpoint) ↦ if endpoint.enabled then send_request endpoint run job else not_sent
]

abbrev next_job : DeliveryJob → DeliveryJob
next_job job = record {
  endpoint_id = job.endpoint_id;
  event_id = job.event_id;
  attempt = job.attempt + 1;
}

-- how a run ends: it throws, or it ends well, with the job that it has enqueued
pub data Ending : Type 0 where
  threw : Ending
  finished : Option DeliveryJob → Ending

-- after `deliver`
unfoldable pub after_deliver :
    (enqueues : Bool) → DeliveryJob → Option DeliveryOutcome → List Effect × Ending
after_deliver enqueues job none = ([], threw)
after_deliver enqueues job (some outcome) =
    if outcome.delivered then ([], finished none) else elim outcome.retry_in_seconds [
      | none ↦ ([], finished none)
      | some seconds ↦
          if enqueues
          then (enqueue (next_job job) (seconds * 1000) ∷ [], finished (some (next_job job)))
          else ([], threw)
    ]

-- the handler of the `webhooks` queue
unfoldable pub webhook_worker : DeliveryRun → DeliveryJob → List Effect × Ending
unfolding deliver after_deliver
webhook_worker run job =
    let (effects, outcome) = deliver run job in
    let (queued, ending) = after_deliver run.enqueues job outcome in (effects ++ queued, ending)

-- `attempts` of `createQueue`: how often the queue runs a job whose runs throw
abbrev pub job_attempts : ℕ
job_attempts = 5

-- a job in the queue, and how many of its runs have thrown
pub record Queued : Type 0 where
  pub job : DeliveryJob
  pub tries : ℕ

-- what the queue has next: the same job again while it has tries left, or the job that was enqueued
unfoldable pub after_run : Queued → Ending → Option Queued
after_run q threw =
    if ltb (q.tries + 1) job_attempts then some (record q { tries = q.tries + 1 }) else none
after_run q (finished none) = none
after_run q (finished (some job)) = some (record { job = job; tries = 0 })

-- the queue, with what its runs meet: the effects, and what is left in it
unfoldable pub run_queue : List DeliveryRun → Option Queued → List Effect × Option Queued
unfolding webhook_worker after_run
run_queue runs none = ([], none)
run_queue [] (some q) = ([], some q)
run_queue (run ∷ runs) (some q) =
    let (effects, ending) = webhook_worker run q.job in
    let (later, left) = run_queue runs (after_run q ending) in (effects ++ later, left)

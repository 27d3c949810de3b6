-- ===== src/Worker/Delivery/Retries.antt =====
-- How often, and for how long, a webhook delivery is retried.
use riskrail.Base.{
  ℕ, ◌+◌, ◌-◌, ◌*◌, ◌≤◌, ◌≡◌, refl, ap, ◌∙◌, sym, subst, ◌⊎◌, ◌<◌, Bool-cases, inl, inr, Bool, true,
  false, Option, none, some, List, [], ◌∷◌, ◌++◌, ltb, ◌==◌, if◌then◌else◌, keep, length, arith,
  Option-cases, length-keep-append,
}
use riskrail.Worker.Delivery.{
  DeliveryJob, DeliveryOutcome, DeliveryRun, Effect, Ending, threw, finished, Queued, job_attempts,
  backoff, after_failure, after_request, send_request, deliver, after_deliver, webhook_worker,
  after_run, run_queue,
}

abbrev pub is_request : Effect → Bool
is_request (Effect.request url event_id attempt) = true
is_request _ = false

abbrev pub delay_of : Effect → ℕ
delay_of (Effect.enqueue job delay) = delay
delay_of _ = 0

abbrev pub total_delay : List Effect → ℕ
total_delay [] = 0
total_delay (e ∷ es) = delay_of e + total_delay es

-- the seconds of the schedule from an attempt on
abbrev pub remaining : ℕ → ℕ
remaining attempt =
    if ltb attempt 2
    then 4350
    else if attempt == 2
    then 4320
    else if attempt == 3
    then 4200
    else if attempt == 4
    then 3600
    else 0

-- what the schedule gives for an attempt
backoff-remaining :
    (attempt seconds : ℕ)
    → backoff attempt ≡ some seconds
    → (1 ≤ attempt) × (attempt ≤ 4) × (seconds + remaining (attempt + 1) ≡ remaining attempt)
unfolding backoff
backoff-remaining attempt seconds found = ground arith

deliver-requests :
    (run : DeliveryRun) (job : DeliveryJob)
    → (length (keep is_request (deliver run job).0) ≤ 1) × (total_delay (deliver run job).0 ≡ 0)
unfolding deliver send_request after_request after_failure
deliver-requests run job = ground arith

-- an outcome that asks for a retry has its delay from the schedule
deliver-backoff :
    (run : DeliveryRun) (job : DeliveryJob) (outcome : DeliveryOutcome) (seconds : ℕ)
    → (deliver run job).1 ≡ some outcome
    → outcome.retry_in_seconds ≡ some seconds
    → backoff job.attempt ≡ some seconds
unfolding deliver send_request after_request after_failure
deliver-backoff run job outcome seconds done retry = ground (arith, done, retry)

total_delay-append :
    (xs ys : List Effect) → total_delay (xs ++ ys) ≡ total_delay xs + total_delay ys
total_delay-append [] ys = omega arith
total_delay-append (x ∷ xs) ys = omega (arith, total_delay-append xs ys)

-- the delay of what a run enqueues
abbrev Waits : DeliveryJob → ℕ → Ending → Type 0
Waits job delay threw = delay ≡ 0
Waits job delay (finished none) = delay ≡ 0
Waits job delay (finished (some next)) =
    (seconds : ℕ) × (backoff job.attempt ≡ some seconds)
    × (delay ≡ seconds * 1000)
    × (next.attempt ≡ job.attempt + 1)

after_deliver-Waits :
    (enqueues : Bool) (job : DeliveryJob) (outcome : Option DeliveryOutcome)
    → ((o : DeliveryOutcome) (seconds : ℕ)
        → outcome ≡ some o
        → o.retry_in_seconds ≡ some seconds
        → backoff job.attempt ≡ some seconds)
    → (length (keep is_request (after_deliver enqueues job outcome).0) ≡ 0)
      × Waits job
          (total_delay (after_deliver enqueues job outcome).0)
          (after_deliver enqueues job outcome).1
unfolding after_deliver
after_deliver-Waits enqueues job none schedule = (refl, refl)
after_deliver-Waits enqueues job (some o) schedule = elim (Bool-cases o.delivered) [
  | inl d ↦ rw d (refl, refl)
  | inr d ↦ elim (Option-cases o.retry_in_seconds) [
    | inl r ↦ rw (d, r) (refl, refl)
    | inr (seconds, r) ↦ elim (Bool-cases enqueues) [
      | inl e ↦ rw (d, r, e) (refl, (seconds, schedule o seconds refl r, omega arith, refl))
      | inr e ↦ rw (d, r, e) (refl, refl)
    ]
  ]
]

-- one run: at most one request, and a delay of the schedule with a job that it enqueues
one_run :
    (run : DeliveryRun) (job : DeliveryJob)
    → let (effects, ending) = webhook_worker run job in
      (length (keep is_request effects) ≤ 1) × Waits job (total_delay effects) ending
unfolding webhook_worker
one_run run job =
    let effects = (deliver run job).0 in
    let outcome = (deliver run job).1 in
    let queued = (after_deliver run.enqueues job outcome).0 in
    let ending = (after_deliver run.enqueues job outcome).1 in
    let (requests, idle) = deliver-requests run job in
    let (none_more, waits) =
      after_deliver-Waits run.enqueues job outcome
        (λ o seconds. deliver-backoff run job o seconds) in
    let same : total_delay (effects ++ queued) ≡ total_delay queued =
      omega (arith, total_delay-append effects queued, idle) in
    (
      omega (arith, length-keep-append is_request effects queued, requests, none_more),
      subst (λ d. Waits job d ending) (sym same) waits,
    )

ending_cases :
    (e : Ending)
    → (e ≡ threw) ⊎ ((e ≡ finished none) ⊎ ((next : DeliveryJob) × (e ≡ finished (some next))))
ending_cases threw = inl refl
ending_cases (finished none) = inr (inl refl)
ending_cases (finished (some next)) = inr (inr (next, refl))

-- the runs that are left to a job: its own tries, and all those of each later attempt
unfoldable pub runs_left : Queued → ℕ
runs_left q = (job_attempts - q.tries) + job_attempts * (5 - q.job.attempt)

run_queue-none : (runs : List DeliveryRun) → run_queue runs none ≡ ([], none)
unfolding run_queue
run_queue-none [] = refl
run_queue-none (run ∷ runs) = refl

run_queue-cons :
    (run : DeliveryRun) (runs : List DeliveryRun) (q : Queued)
    → run_queue (run ∷ runs) (some q) ≡ (
      (webhook_worker run q.job).0 ++ (run_queue runs (after_run q (webhook_worker run q.job).1)).0,
      (run_queue runs (after_run q (webhook_worker run q.job).1)).1,
    )
unfolding run_queue
run_queue-cons run runs q = refl

-- what is bounded: nothing is left, and there are so many requests and milliseconds at most
abbrev pub Within : ℕ → ℕ → List Effect × Option Queued → Type 0
Within requests delay (effects, left) =
    (left ≡ none) × (length (keep is_request effects) ≤ requests) × (total_delay effects ≤ delay)

Within-cons :
    (requests delay first second : ℕ) (effects : List Effect) (r : List Effect × Option Queued)
    → Within requests delay r
    → length (keep is_request effects) ≤ first
    → total_delay effects ≤ second
    → Within (first + requests) (second + delay) (effects ++ r.0, r.1)
Within-cons requests delay first second effects r within few short = (
  within.0,
  omega (arith, length-keep-append is_request effects r.0, within.1, few),
  omega (arith, total_delay-append effects r.0, within.2, short),
)

queue_step :
    (run : DeliveryRun) (runs : List DeliveryRun) (q : Queued) (next : Option Queued)
    (requests delay second most longest : ℕ)
    → after_run q (webhook_worker run q.job).1 ≡ next
    → Within requests delay (run_queue runs next)
    → length (keep is_request (webhook_worker run q.job).0) ≤ 1
    → total_delay (webhook_worker run q.job).0 ≤ second
    → 1 + requests ≤ most
    → second + delay ≤ longest
    → Within most longest (run_queue (run ∷ runs) (some q))
queue_step run runs q next requests delay second most longest is later few short fit wait =
    let effects = (webhook_worker run q.job).0 in
    let rest = subst (λ n. Within requests delay (run_queue runs n)) (sym is) later in
    let whole =
      Within-cons requests delay 1 second effects
        (run_queue runs (after_run q (webhook_worker run q.job).1)) rest few short in
    subst (Within most longest) (sym (run_queue-cons run runs q))
      (whole.0, omega (arith, whole.1, fit), omega (arith, whole.2, wait))

idle_queue : (runs : List DeliveryRun) → Within 0 0 (run_queue runs none)
idle_queue runs = subst (Within 0 0) (sym (run_queue-none runs)) (refl, omega arith, omega arith)

-- A job in the queue with a try left: the queue runs empty within the runs that are left to it, five
-- for each of its attempts up to the fifth less those that have thrown, whatever they meet; it makes
-- as many requests at most, and the delays of the jobs it enqueues add up to the rest of the schedule
-- at most.
pub run_queue-bounded :
    (runs : List DeliveryRun) (q : Queued)
    → q.tries < job_attempts
    → runs_left q ≤ length runs
    → Within (runs_left q) (remaining q.job.attempt * 1000) (run_queue runs (some q))
unfolding runs_left after_run
run_queue-bounded [] q some_try enough = absurd (omega (arith, some_try, enough))
run_queue-bounded (run ∷ runs) q some_try enough =
    let (few, waits) = one_run run q.job in
    let longest = remaining q.job.attempt * 1000 in
    let waits_as : Ending → Type 0 =
      λ e. Waits q.job (total_delay (webhook_worker run q.job).0) e in
    elim (ending_cases (webhook_worker run q.job).1) [
      | inr (inl e) ↦
          let idle : total_delay (webhook_worker run q.job).0 ≡ 0 = subst waits_as e waits in
          queue_step run runs q none 0 0 0 (runs_left q) longest (ap (after_run q) e)
            (idle_queue runs) few (omega (arith, idle)) (omega (arith, some_try)) (omega arith)
      | inl e ↦
          let idle : total_delay (webhook_worker run q.job).0 ≡ 0 = subst waits_as e waits in
          elim (Bool-cases (ltb (q.tries + 1) job_attempts)) [
            | inr last ↦
                queue_step run runs q none 0 0 0 (runs_left q) longest
                  (ap (after_run q) e ∙ rw (after_run, last) refl) (idle_queue runs) few
                  (omega (arith, idle)) (omega (arith, some_try)) (omega arith)
            | inl again ↦
                let next : Queued = record q { tries = q.tries + 1 } in
                queue_step run runs q (some next) (runs_left next) longest 0 (runs_left q) longest
                  (ap (after_run q) e ∙ rw (after_run, again) refl)
                  (run_queue-bounded runs next (ground (arith, again))
                    (omega (arith, enough, some_try)))
                  few (omega (arith, idle)) (omega (arith, some_try)) (omega arith)
          ]
      | inr (inr (job, e)) ↦
          let (seconds, found, delay, attempt) = subst waits_as e waits in
          let (first, fourth, step) = backoff-remaining q.job.attempt seconds found in
          let next : Queued = record { job = job; tries = 0 } in
          let rest = remaining job.attempt * 1000 in
          queue_step run runs q (some next) (runs_left next) rest (seconds * 1000) (runs_left q)
            longest (ap (after_run q) e)
            (run_queue-bounded runs next (omega arith)
              (omega (arith, enough, some_try, attempt, first, fourth)))
            few (omega (arith, delay)) (omega (arith, some_try, attempt, first, fourth))
            (omega (arith, ap remaining attempt, step))
    ]

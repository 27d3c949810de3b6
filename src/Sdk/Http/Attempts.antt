-- ===== src/Sdk/Http/Attempts.antt =====
-- How often a call is sent, and what it waits.
use riskrail.Base.{
  ℕ, zero, suc, ◌+◌, ◌-◌, ◌≤◌, ◌≡◌, Bool, true, false, some, arith, length, keep, leb, ◌==◌, all,
}
use riskrail.Sdk.Http.{
  RetryPolicy, Attempt, Call, Effect, Outcome, status_of, attempt_result, may_refresh, gives_up,
  delay_ms, request_loop, max_retries_of,
}

abbrev pub is_send : Effect → Bool
is_send (Effect.send attempt) = true
is_send _ = false

abbrev pub is_unfinished : Outcome → Bool
is_unfinished Outcome.unfinished = true
is_unfinished _ = false

abbrev unused : Bool → ℕ
unused true = 0
unused false = 1

-- The loop ends, and sends no more requests than one, the retries that the policy has left, and
-- one more if no refresh was tried; as many attempts of fuel are enough.
pub request_loop-bounded :
    (fuel : ℕ) (call : Call) (attempt : ℕ) (refreshed : Bool)
    → 1 + (max_retries_of call - attempt) + unused refreshed ≤ fuel
    → (is_unfinished (request_loop fuel call attempt refreshed).1 ≡ false)
      × (length (keep is_send (request_loop fuel call attempt refreshed).0)
          ≤ 1 + (max_retries_of call - attempt) + unused refreshed)
unfolding request_loop may_refresh gives_up
request_loop-bounded zero call attempt refreshed enough = ground (arith, enough)
request_loop-bounded (suc fuel) call attempt refreshed enough =
    let again = request_loop-bounded fuel call (suc attempt) in
    ground (arith, enough, again true, again refreshed)

-- the attempt ended in a 429
abbrev pub limited : Attempt → Bool
limited (Attempt.resolved body) = false
limited (Attempt.failed e) = status_of e == 429

-- A call that is not idempotent is sent once, and once more only after a refresh, if no attempt ends
-- in a 429.
pub request_loop-non_idempotent :
    (fuel : ℕ) (call : Call) (attempt : ℕ) (refreshed : Bool)
    → call.idempotent ≡ false
    → ((n : ℕ) → limited (attempt_result call.joined (call.fetched n)) ≡ false)
    → length (keep is_send (request_loop fuel call attempt refreshed).0) ≤ 1 + unused refreshed
unfolding request_loop may_refresh gives_up
request_loop-non_idempotent zero call attempt refreshed once processed = ground arith
request_loop-non_idempotent (suc fuel) call attempt refreshed once processed =
    let again =
      λ (b : Bool). request_loop-non_idempotent fuel call (suc attempt) b once processed in
    ground (arith, once, processed attempt, again true, again refreshed)

-- a wait of at most `most` milliseconds, or another effect
abbrev pub is_short : ℕ → Effect → Bool
is_short most (Effect.wait delay) = leb delay most
is_short most _ = true

-- Every wait of a call with a retry policy is at most the policy's longest delay, whatever the
-- server advises.
pub request_loop-waits :
    (fuel : ℕ) (call : Call) (policy : RetryPolicy) (attempt : ℕ) (refreshed : Bool)
    → call.retry ≡ some policy
    → all (is_short policy.max_delay_ms) (request_loop fuel call attempt refreshed).0 ≡ true
unfolding request_loop delay_ms
request_loop-waits zero call policy attempt refreshed configured = ground arith
request_loop-waits (suc fuel) call policy attempt refreshed configured =
    let again = λ (b : Bool). request_loop-waits fuel call policy (suc attempt) b configured in
    ground (arith, configured, again true, again refreshed)

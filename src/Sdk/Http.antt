-- ===== src/Sdk/Http.antt =====
-- packages/sdk/src/http.ts and errors.ts: the transport's retries. What the network, the caller's
-- hooks and signal, and the random numbers answer are functions of the attempt; times are in
-- milliseconds, and a `Retry-After` that is a date has been turned into seconds.
pub mod Attempts
pub mod Url
use text.Mathlib.Text.{◌==◌ as str_eq}
use riskrail.Base.{
  ℕ, zero, suc, ◌+◌, ◌*◌, ◌^◌, Bool, true, false, not, ◌&&◌, ◌||◌, String, Option, none, some, List,
  [], ◌∷◌, ◌++◌, ltb, leb, ◌==◌, min, if◌then◌else◌, or_default,
}
use riskrail.Value.{Value, str, array, object, Items, nil, cons, Fields, get_field}

pub record RetryPolicy : Type 0 where
  pub max_retries : ℕ
  pub base_delay_ms : ℕ
  pub max_delay_ms : ℕ

abbrev pub default_retry : RetryPolicy
default_retry = record { max_retries = 3; base_delay_ms = 300; max_delay_ms = 8000 }

-- the classes of errors.ts, with what the transport reads of them
pub data RiviskError : Type 0 where
  api_error : (status : ℕ) (message : String) → RiviskError
  auth_error : (status : ℕ) (message : String) → RiviskError
  rate_limit_error : (message : String) (retry_after_seconds : Option ℕ) → RiviskError
  network_error : RiviskError
  timeout_error : RiviskError

abbrev pub status_of : RiviskError → ℕ
status_of (RiviskError.api_error status message) = status
status_of (RiviskError.auth_error status message) = status
status_of (RiviskError.rate_limit_error message seconds) = 429
status_of RiviskError.network_error = 0
status_of RiviskError.timeout_error = 0

-- `retryable`: that of the base class, and that of the timeout
unfoldable pub retryable : RiviskError → Bool
retryable RiviskError.timeout_error = true
retryable e =
    status_of e == 0 || (status_of e == 408 || (status_of e == 429 || leb 500 (status_of e)))

unfoldable pub join_texts : Items → List String
join_texts nil = []
join_texts (cons (str s) rest) = s ∷ join_texts rest
join_texts (cons _ rest) = join_texts rest

-- `messageFrom`, where `joined` is `join(', ')` of the runtime
unfoldable pub message_from : (List String → String) → Value → String → String
unfolding get_field join_texts
message_from joined (object fs) fallback = elim (get_field "message" fs) [
  | str s ↦ s
  | array items ↦ joined (join_texts items)
  | _ ↦ elim (get_field "error" fs) [ str s ↦ s | _ ↦ fallback ]
]
message_from joined _ fallback = fallback

-- What `fetch` gave: it threw while the caller's signal, the timer's or neither was aborted, or it
-- answered, with the parsed body.
pub data Fetched : Type 0 where
  thrown : (caller_aborted timer_aborted : Bool) → Fetched
  answered : (status : ℕ) (body : Value) (status_line : String) (retry_after : Option ℕ) → Fetched

pub data Attempt : Type 0 where
  resolved : Value → Attempt
  failed : RiviskError → Attempt

-- `response.ok`
abbrev is_ok_status : ℕ → Bool
is_ok_status status = leb 200 status && ltb status 300

-- `attempt`, from what `fetch` gave
unfoldable pub attempt_result : (List String → String) → Fetched → Attempt
unfolding message_from
attempt_result joined (thrown caller_aborted timer_aborted) =
    if caller_aborted
    then failed RiviskError.timeout_error
    else if timer_aborted
    then failed RiviskError.timeout_error
    else failed RiviskError.network_error
attempt_result joined (answered status body status_line retry_after) =
    let message = message_from joined body status_line in
    if is_ok_status status
    then resolved body
    else if status == 429
    then failed (RiviskError.rate_limit_error message retry_after)
    else if status == 401 || status == 403
    then failed (RiviskError.auth_error status message)
    else failed (RiviskError.api_error status message)

-- `backoffDelay`, where `roll` is the rounded product of a random number and the ceiling
unfoldable pub backoff_delay : (ℕ → ℕ → ℕ) → ℕ → RetryPolicy → ℕ
backoff_delay roll attempt policy =
    roll attempt (min policy.max_delay_ms (policy.base_delay_ms * 2 ^ attempt))

-- what one call of `request` is given and what its surroundings answer
pub record Call : Type 0 where
  pub idempotent : Bool
  pub skip_auth_refresh : Bool
  pub retry : Option RetryPolicy
  -- the answer of `onUnauthorized`, if there is such a hook
  pub on_unauthorized : Option Bool
  pub fetched : ℕ → Fetched
  pub joined : List String → String
  pub roll : ℕ → ℕ → ℕ
  -- the caller's signal aborts the sleep after an attempt
  pub sleep_aborted : ℕ → Bool

-- `options.idempotent ?? (method === 'GET' || method === 'HEAD')`
unfoldable pub is_idempotent : Option Bool → String → Bool
is_idempotent none method = str_eq method "GET" || str_eq method "HEAD"
is_idempotent (some b) method = b

pub data Effect : Type 0 where
  send : (attempt : ℕ) → Effect
  refresh : Effect
  wait : (delay_ms : ℕ) → Effect

pub data Outcome : Type 0 where
  returned : Value → Outcome
  threw : RiviskError → Outcome
  unfinished : Outcome

-- the hook is there, unused, and the error is a 401 of a call that allows it
unfoldable pub may_refresh : Call → Bool → RiviskError → Bool
may_refresh call refreshed e =
    status_of e == 401
    && (not refreshed
        && (not call.skip_auth_refresh
            && elim call.on_unauthorized [ none ↦ false | some _ ↦ true ]))

-- the hook answers that there is a new credential
abbrev pub refreshes : Call → Bool
refreshes call = or_default call.on_unauthorized false

abbrev max_retries_of : Call → ℕ
max_retries_of call = elim call.retry [ none ↦ 0 | some policy ↦ policy.max_retries ]

unfoldable pub gives_up : Call → ℕ → RiviskError → Bool
unfolding retryable
gives_up call attempt e =
    not (status_of e == 429 || call.idempotent)
    || (not (retryable e) || leb (max_retries_of call) attempt)

abbrev pub advised_ms : RiviskError → Option ℕ
advised_ms (RiviskError.rate_limit_error message (some seconds)) = some (seconds * 1000)
advised_ms _ = none

unfoldable pub delay_ms : Call → RetryPolicy → ℕ → RiviskError → ℕ
unfolding backoff_delay
delay_ms call policy attempt e =
    min policy.max_delay_ms (or_default (advised_ms e) (backoff_delay call.roll attempt policy))

-- the sleep, and what comes after it unless the signal ends it
abbrev after_wait : ℕ → List Effect → ℕ → Bool → List Effect × Outcome → List Effect × Outcome
after_wait attempt asked delay true rest =
    (send attempt ∷ asked ++ wait delay ∷ [], threw RiviskError.timeout_error)
after_wait attempt asked delay false (later, outcome) =
    (send attempt ∷ asked ++ wait delay ∷ later, outcome)

-- the loop of `request`, for at most `fuel` attempts
unfoldable pub request_loop : ℕ → Call → ℕ → Bool → List Effect × Outcome
unfolding attempt_result may_refresh gives_up delay_ms
request_loop zero call attempt refreshed = ([], unfinished)
request_loop (suc fuel) call attempt refreshed =
    elim (attempt_result call.joined (call.fetched attempt)) [
      | resolved body ↦ (send attempt ∷ [], returned body)
      | failed e ↦
          let hook = may_refresh call refreshed e in
          let used = hook || refreshed in
          let (later, outcome) = request_loop fuel call (suc attempt) used in
          let asked = if hook then refresh ∷ [] else [] in
          if hook && refreshes call
          then (send attempt ∷ refresh ∷ later, outcome)
          else if gives_up call attempt e
          then (send attempt ∷ asked, threw e)
          else elim call.retry [
            | none ↦ (send attempt ∷ asked, threw e)
            | some policy ↦
                after_wait attempt asked (delay_ms call policy attempt e)
                  (call.sleep_aborted attempt) (later, outcome)
          ]
    ]

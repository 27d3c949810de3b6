-- ===== src/Sdk/Tests.antt =====
-- Tests of the transport, and its theorems on concrete calls.
use riskrail.Base.{ℕ, ◌≤◌, ◌≡◌, refl, arith, Bool, true, false, none, some, length, keep}
use riskrail.Value.{Value}
use riskrail.Sdk.Http.{Call, Fetched, default_retry, attempt_result, request_loop}
use riskrail.Sdk.Http.Attempts.{limited, is_send, is_unfinished, request_loop-bounded}

abbrev answers : ℕ → ℕ → Fetched
answers status attempt = Fetched.answered status Value.undefined "error" none

abbrev call : Bool → ℕ → Call
call idempotent status = record {
  idempotent = idempotent;
  skip_auth_refresh = false;
  retry = some default_retry;
  on_unauthorized = some true;
  fetched = answers status;
  joined = λ texts. "";
  roll = λ attempt ceiling. ceiling;
  sleep_aborted = λ attempt. false;
}

request_loop-bounded_example :
    (is_unfinished (request_loop 5 (call true 503) 0 false).1 ≡ false)
    × (length (keep is_send (request_loop 5 (call true 503) 0 false).0) ≤ 5)
request_loop-bounded_example = request_loop-bounded 5 (call true 503) 0 false (omega arith)

not_limited : (n : ℕ) → limited (attempt_result (call false 503).joined (answers 503 n)) ≡ false
unfolding attempt_result
not_limited n = refl

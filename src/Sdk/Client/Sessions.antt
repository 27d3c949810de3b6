-- ===== src/Sdk/Client/Sessions.antt =====
-- Which calls may be repeated, and how often a session is refreshed.
use riskrail.Base.{
  ℕ, ◌+◌, ◌≤◌, ◌≡◌, refl, Bool, true, false, none, List, [], ◌∷◌, String, arith, if◌then◌else◌,
}
use riskrail.Sdk.Http.{is_idempotent}
use riskrail.Sdk.Client.{
  Operation, health, ready, me, get_portfolio, get_risk, presets, simulate, list_alerts, get_policy,
  list_webhooks, list_api_keys, challenge, verify, refresh_tokens, update_profile,
  refresh_portfolio, create_alert, set_alert_status, create_webhook, set_webhook_enabled,
  remove_webhook, create_api_key, revoke_api_key, api_call, ClientState, Event, unauthorized,
  refreshed, refresh_failed, session_set, step, run, refresh_session,
}

-- the operations that only read
abbrev pub reads : Operation → Bool
reads health = true
reads ready = true
reads me = true
reads (get_portfolio a) = true
reads (get_risk a) = true
reads presets = true
reads (simulate a i) = true
reads (list_alerts a) = true
reads (get_policy a) = true
reads list_webhooks = true
reads list_api_keys = true
reads _ = false

-- Without an answer of the caller's own, the transport repeats a call after a failure exactly if the
-- operation changes nothing on the server.
pub is_idempotent-reads :
    (encode : String → String) (operation : Operation) (skip : Bool)
    → is_idempotent
        (api_call encode operation
          (record { idempotent = none; skip_auth_refresh = skip })).options.idempotent
        (api_call encode operation (record { idempotent = none; skip_auth_refresh = skip })).method
      ≡ reads operation
unfolding is_idempotent api_call
is_idempotent-reads encode health skip = refl
is_idempotent-reads encode ready skip = refl
is_idempotent-reads encode (challenge a) skip = refl
is_idempotent-reads encode (verify i) skip = refl
is_idempotent-reads encode (refresh_tokens t) skip = refl
is_idempotent-reads encode me skip = refl
is_idempotent-reads encode (update_profile i) skip = refl
is_idempotent-reads encode (get_portfolio a) skip = refl
is_idempotent-reads encode (get_risk a) skip = refl
is_idempotent-reads encode (refresh_portfolio a) skip = refl
is_idempotent-reads encode presets skip = refl
is_idempotent-reads encode (simulate a i) skip = refl
is_idempotent-reads encode (list_alerts a) skip = refl
is_idempotent-reads encode (create_alert a i) skip = refl
is_idempotent-reads encode (set_alert_status i t) skip = refl
is_idempotent-reads encode (get_policy a) skip = refl
is_idempotent-reads encode list_webhooks skip = refl
is_idempotent-reads encode (create_webhook u v) skip = refl
is_idempotent-reads encode (set_webhook_enabled i v) skip = refl
is_idempotent-reads encode (remove_webhook i) skip = refl
is_idempotent-reads encode list_api_keys skip = refl
is_idempotent-reads encode (create_api_key n l) skip = refl
is_idempotent-reads encode (revoke_api_key i) skip = refl

-- the refreshes that have ended
abbrev pub endings : List Event → ℕ
endings [] = 0
endings (refreshed tokens ∷ es) = endings es + 1
endings (refresh_failed ∷ es) = endings es + 1
endings (_ ∷ es) = endings es

abbrev pub pending : ClientState → ℕ
pending s = if s.refreshing then 0 else 1

-- the refreshes that were sent, with the one that may be
abbrev potential : ClientState → ℕ
potential s = s.sent + pending s

potential-step :
    (e : Event) (s : ClientState) → potential (step e s) ≤ potential s + endings (e ∷ [])
unfolding step refresh_session
potential-step unauthorized s = ground arith
potential-step (refreshed tokens) s = ground arith
potential-step refresh_failed s = ground arith
potential-step (session_set session) s = ground arith

endings-cons : (e : Event) (es : List Event) → endings (e ∷ es) ≡ endings (e ∷ []) + endings es
endings-cons e es = ground arith

potential-run :
    (es : List Event) (s : ClientState) → potential (run es s) ≤ potential s + endings es
unfolding run
potential-run [] s = omega arith
potential-run (e ∷ es) s =
    omega (arith, potential-run es (step e s), potential-step e s, endings-cons e es)

-- However many calls meet a 401, and however the session is replaced meanwhile, no more than one
-- refresh is sent beyond those that have ended.
pub run-sent :
    (es : List Event) (s : ClientState)
    → s.refreshing ≡ false
    → (run es s).sent ≤ s.sent + (endings es + 1)
run-sent es s idle = ground (arith, potential-run es s, idle)

-- ===== src/Web/Tests.antt =====
-- Runs of the dashboard's session, requests and paths.
use text.Mathlib.Text.{◌==◌}
use riskrail.Base.{if◌then◌else◌, ◌≡◌, refl, ℕ, false, true, String, Option, none, some, [], ◌∷◌}
use riskrail.Sdk.Client.{AuthTokens, api_call, RequestOptions}
use riskrail.Web.Session.{
  Browser, access_key, refresh_key, address_key, access_token, session_address, is_usable,
}
use riskrail.Web.Session.Usable.{access_token-stable}
use riskrail.Web.Requests.{DashboardRequest, request_of}
use riskrail.Web.Requests.Agreement.{Agrees, operation_of, request_of-eq-api_call}

-- a token that expired, beside one to renew it with
abbrev expired : Browser
expired = record {
  readable = true;
  writable = λ key value. true;
  store = (access_key, "head.old.sign") ∷ (refresh_key, "renew") ∷ (address_key, "SP1") ∷ [];
}

-- the payload `old` ends at the second 100, and `new` at 900
abbrev parse : String → Option (Option ℕ)
parse payload = if payload == "old" then some (some 100) else some (some 900)

abbrev renewing : String → Option AuthTokens
renewing token = some (record { access_token = "head.new.sign"; refresh_token = "again" })

abbrev refusing : String → Option AuthTokens
refusing token = none

access_token-stable_example :
    (access_token parse 300000 refusing (access_token parse 200000 renewing expired).0
      ≡ ((access_token parse 200000 renewing expired).0, some "head.new.sign"))
    × (session_address (access_token parse 200000 renewing expired).0 ≡ session_address expired)
unfolding access_token is_usable
access_token-stable_example =
    access_token-stable parse 200000 300000 renewing refusing expired "head.new.sign" refl refl refl

abbrev options : RequestOptions
options = record { idempotent = none; skip_auth_refresh = false }

request_of-eq-api_call_example :
    Agrees (request_of (λ s. s) (DashboardRequest.create_alert "SP1" "riskScoreBps" "gt" "7000")) (
      api_call
        (λ s. s)
        (operation_of (DashboardRequest.create_alert "SP1" "riskScoreBps" "gt" "7000"))
        options)
request_of-eq-api_call_example =
    request_of-eq-api_call (λ s. s) (DashboardRequest.create_alert "SP1" "riskScoreBps" "gt" "7000")
      options

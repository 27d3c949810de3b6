-- ===== src/Web/Requests.antt =====
-- apps/web/lib/api.ts: the requests of the dashboard. The coding of a path's part is that of the
-- runtime and an argument; a body is the value whose JSON is sent.
pub mod Agreement
use Prim.Native.String.{◌++◌ as append}
use riskrail.Base.{
  ℕ, Bool, true, false, not, String, Option, none, some, List, [], ◌∷◌, ◌>>=◌, if◌then◌else◌,
}
use riskrail.Base.Text.{is_empty, join, join_with}
use riskrail.Value.{
  Value, undefined, null, bool, number, bigint, str, array, object, Items, nil, cons, Fields, end,
  field, get_field,
}
use riskrail.Sdk.Client.{AlertStatus, active, paused, archived}

-- the functions of `riviskApi`; shocks and the input of a profile are JSON values
pub data DashboardRequest : Type 0 where
  portfolio risk refresh : (address : String) → DashboardRequest
  presets : DashboardRequest
  simulate : (address name : String) (shocks : Items) → DashboardRequest
  alerts : (address : String) → DashboardRequest
  create_alert : (address metric operator threshold : String) → DashboardRequest
  set_alert_status : (id : String) (status : AlertStatus) → DashboardRequest
  policy : (address : String) → DashboardRequest
  me : DashboardRequest
  update_profile : (input : Fields) → DashboardRequest
  api_keys : DashboardRequest
  create_api_key : (name : String) (live : Bool) → DashboardRequest
  revoke_api_key : (id : String) → DashboardRequest
  webhooks : DashboardRequest
  create_webhook : (url : String) (events : Items) → DashboardRequest
  set_webhook_enabled : (id : String) (enabled : Bool) → DashboardRequest
  delete_webhook : (id : String) → DashboardRequest

-- a request without its base URL; `needs_session` is `authed` in place of `request`
pub record Sent : Type 0 where
  pub method : String
  pub path : String
  pub body : Value
  pub needs_session : Bool

abbrev public_get : String → Sent
public_get path = record { method = "GET"; path = path; body = undefined; needs_session = false }

abbrev authed : String → String → Value → Sent
authed method path body = record { method = method; path = path; body = body; needs_session = true }

abbrev public_post : String → Value → Sent
public_post path body = record { method = "POST"; path = path; body = body; needs_session = false }

abbrev pub status_word : AlertStatus → String
status_word active = "ACTIVE"
status_word paused = "PAUSED"
status_word archived = "ARCHIVED"

module _ (encode : String → String) where
  abbrev below : String → String → String
  below prefix part = append prefix (encode part)

  unfoldable pub request_of : DashboardRequest → Sent
  request_of (portfolio address) = public_get (below "/portfolios/" address)
  request_of (risk address) = public_get (append (below "/portfolios/" address) "/risk")
  request_of (refresh address) =
      public_post (append (below "/portfolios/" address) "/refresh") undefined
  request_of presets = public_get "/simulations/presets"
  request_of (simulate address name shocks) = public_post "/simulations" (
      object (
        field "address" (str address)
          (field "name" (str name) (field "shocks" (array shocks) end))))
  request_of (alerts address) = public_get (below "/alerts/" address)
  request_of (create_alert address metric operator threshold) =
      authed "POST" (below "/alerts/" address) (
        object (
          field "metric" (str metric) (
            field "operator" (str operator)
              (field "threshold" (str threshold) (field "channel" (str "in_app") end)))))
  request_of (set_alert_status id status) =
      authed "PATCH" (below "/alerts/" id) (object (field "status" (str (status_word status)) end))
  request_of (policy address) = public_get (below "/policies/" address)
  request_of me = authed "GET" "/auth/me" undefined
  request_of (update_profile input) = authed "PATCH" "/auth/me" (object input)
  request_of api_keys = authed "GET" "/api-keys" undefined
  request_of (create_api_key name live) =
      authed "POST" "/api-keys" (object (field "name" (str name) (field "live" (bool live) end)))
  request_of (revoke_api_key id) = authed "DELETE" (below "/api-keys/" id) undefined
  request_of webhooks = authed "GET" "/webhooks" undefined
  request_of (create_webhook url events) =
      authed "POST" "/webhooks" (object (field "url" (str url) (field "events" (array events) end)))
  request_of (set_webhook_enabled id enabled) =
      authed "PATCH" (below "/webhooks/" id) (object (field "enabled" (bool enabled) end))
  request_of (delete_webhook id) = authed "DELETE" (below "/webhooks/" id) undefined

-- `if (value)` for a message
abbrev pub given_text : Value → Option String
given_text (str s) = if is_empty s then none else some s
given_text _ = none

-- what `join` makes of an item
abbrev item_text : Value → String
item_text (str s) = s
item_text _ = ""

abbrev pub item_texts : Items → List String
item_texts nil = []
item_texts (cons x xs) = item_text x ∷ item_texts xs

-- the message of a failed request: `none` is a body that is not JSON, and messages are texts or lists
-- of texts
unfoldable pub error_message : (status_line : String) → Option Value → String
unfolding get_field join_with
error_message status_line none = status_line
error_message status_line (some (object fs)) = elim (get_field "message" fs) [
  | array xs ↦ join_with ", " (item_texts xs)
  | message ↦ elim (given_text message) [
    | some s ↦ s
    | none ↦ elim (given_text (get_field "error" fs)) [ some s ↦ s | none ↦ status_line ]
  ]
]
error_message status_line (some _) = status_line

-- the header of a request: `authed` throws without a token
unfoldable pub authorization : Sent → (token : Option String) → Option (Option String)
authorization sent token =
    if not sent.needs_session
    then some none
    else token >>= λ t. if is_empty t then none else some (some (append "Bearer " t))

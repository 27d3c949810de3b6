-- ===== src/Sdk/Client.antt =====
-- packages/sdk/src/client.ts: the calls of the client's namespaces, and its session. The coding of a
-- path's part is that of the runtime and an argument; the inputs of the routes are JSON objects.
pub mod Sessions
mod Tests
use Prim.Native.String.{◌++◌ as append}
use riskrail.Base.{
  ℕ, ◌+◌, Bool, true, false, not, ◌&&◌, ◌||◌, String, Option, none, some, List, [], ◌∷◌, ◌++◌,
  is_some, if◌then◌else◌,
}
use riskrail.Value.{
  Value, undefined, bool, str, array, object, Items, nil, cons, Fields, end, field, set_field,
}
use riskrail.Base.Text.{is_empty}
use riskrail.Sdk.Http.{is_idempotent}

pub record RequestOptions : Type 0 where
  pub idempotent : Option Bool
  pub skip_auth_refresh : Bool

pub record ApiCall : Type 0 where
  pub method : String
  pub path : String
  pub body : Value
  pub options : RequestOptions

abbrev pub default_base_url : String
default_base_url = "http://localhost:4000/api/v1"

pub data AlertStatus : Type 0 where
  active paused archived : AlertStatus

abbrev status_text : AlertStatus → String
status_text active = "ACTIVE"
status_text paused = "PAUSED"
status_text archived = "ARCHIVED"

-- the operations that send one request
pub data Operation : Type 0 where
  health ready : Operation
  challenge : (address : String) → Operation
  verify : (input : Fields) → Operation
  refresh_tokens : (refresh_token : String) → Operation
  me : Operation
  update_profile : (input : Fields) → Operation
  get_portfolio get_risk refresh_portfolio : (address : String) → Operation
  presets : Operation
  simulate : (address : String) (input : Fields) → Operation
  list_alerts : (address : String) → Operation
  create_alert : (address : String) (input : Fields) → Operation
  set_alert_status : (id : String) (status : AlertStatus) → Operation
  get_policy : (address : String) → Operation
  list_webhooks : Operation
  create_webhook : (url : String) (events : Items) → Operation
  set_webhook_enabled : (id : String) (enabled : Bool) → Operation
  remove_webhook : (id : String) → Operation
  list_api_keys : Operation
  create_api_key : (name : String) (live : Bool) → Operation
  revoke_api_key : (id : String) → Operation

-- `alerts.pause`, `alerts.resume` and `alerts.archive`
abbrev pub pause : String → Operation
pause id = set_alert_status id paused

abbrev pub resume : String → Operation
resume id = set_alert_status id active

abbrev pub archive : String → Operation
archive id = set_alert_status id archived

-- `{ ...base, ...input }`
unfoldable pub spread : Fields → Fields → Fields
unfolding set_field
spread base end = base
spread base (field k v fs) = spread (set_field k v base) fs

abbrev get : String → RequestOptions → ApiCall
get path options = record { method = "GET"; path = path; body = undefined; options = options }

abbrev send : String → String → Value → RequestOptions → ApiCall
send method path body options = record {
  method = method;
  path = path;
  body = body;
  options = options;
}

module _ (encode : String → String) where
  abbrev under : String → String → String
  under prefix part = append prefix (encode part)

  unfoldable pub api_call : Operation → RequestOptions → ApiCall
  unfolding spread
  api_call health options = get "/health" options
  api_call ready options = get "/health/ready" options
  api_call (challenge address) options =
      send "POST" "/auth/challenge" (object (field "address" (str address) end)) options
  api_call (verify input) options = send "POST" "/auth/verify" (object input) options
  api_call (refresh_tokens token) options =
      send "POST" "/auth/refresh" (object (field "refreshToken" (str token) end))
        (record options { skip_auth_refresh = true })
  api_call me options = get "/auth/me" options
  api_call (update_profile input) options = send "PATCH" "/auth/me" (object input) options
  api_call (get_portfolio address) options = get (under "/portfolios/" address) options
  api_call (get_risk address) options = get (append (under "/portfolios/" address) "/risk") options
  api_call (refresh_portfolio address) options =
      send "POST" (append (under "/portfolios/" address) "/refresh") undefined options
  api_call presets options = get "/simulations/presets" options
  api_call (simulate address input) options =
      send "POST" "/simulations" (object (spread (field "address" (str address) end) input))
        (record options { idempotent = some true })
  api_call (list_alerts address) options = get (under "/alerts/" address) options
  api_call (create_alert address input) options =
      send "POST" (under "/alerts/" address)
        (object (spread (field "channel" (str "in_app") end) input)) options
  api_call (set_alert_status id status) options =
      send "PATCH" (under "/alerts/" id) (object (field "status" (str (status_text status)) end))
        options
  api_call (get_policy address) options = get (under "/policies/" address) options
  api_call list_webhooks options = get "/webhooks" options
  api_call (create_webhook url events) options =
      send "POST" "/webhooks" (object (field "url" (str url) (field "events" (array events) end)))
        options
  api_call (set_webhook_enabled id enabled) options =
      send "PATCH" (under "/webhooks/" id) (object (field "enabled" (bool enabled) end)) options
  api_call (remove_webhook id) options = send "DELETE" (under "/webhooks/" id) undefined options
  api_call list_api_keys options = get "/api-keys" options
  api_call (create_api_key name live) options =
      send "POST" "/api-keys" (object (field "name" (str name) (field "live" (bool live) end)))
        options
  api_call (revoke_api_key id) options = send "DELETE" (under "/api-keys/" id) undefined options

pub record AuthTokens : Type 0 where
  pub access_token : String
  pub refresh_token : String

-- a session: the wallet's address beside the tokens
pub record AuthSession : Type 0 where
  pub address : String
  pub tokens : AuthTokens

-- The session, whether a refresh is under way, the refreshes that were sent, and the callers that
-- wait for the one under way.
pub record ClientState : Type 0 where
  pub session : Option AuthSession
  pub refreshing : Bool
  pub sent : ℕ
  pub waiting : ℕ

-- `getAuthToken`: a session wins over a key
unfoldable pub auth_token : Option String → ClientState → Option String
auth_token api_key s = elim s.session [
  | none ↦ api_key
  | some session ↦ some session.tokens.access_token
]

abbrev pub has_refresh_token : Option AuthSession → Bool
has_refresh_token none = false
has_refresh_token (some session) = not (is_empty session.tokens.refresh_token)

-- What happens to a client: a call meets a 401, the refresh under way ends with tokens or fails, and
-- the session is replaced by the program (`setSession`, `verify` and `signOut`).
pub data Event : Type 0 where
  unauthorized : Event
  refreshed : AuthTokens → Event
  refresh_failed : Event
  session_set : Option AuthSession → Event

-- `this.refreshing ??= ...` of `refreshSession`
unfoldable pub refresh_session : ClientState → ClientState
refresh_session s =
    if has_refresh_token s.session
    then (if s.refreshing
        then (record s { waiting = s.waiting + 1 })
        else (record s { refreshing = true; sent = s.sent + 1; waiting = s.waiting + 1 }))
    else s

unfoldable pub step : Event → ClientState → ClientState
unfolding refresh_session
step unauthorized s = refresh_session s
step (refreshed tokens) s =
    if s.refreshing
    then (record s {
      session = elim s.session [
        | none ↦ none
        | some session ↦ some (record session { tokens = tokens })
      ];
      refreshing = false;
      waiting = 0;
    })
    else s
step refresh_failed s =
    if s.refreshing then (record s { session = none; refreshing = false; waiting = 0 }) else s
step (session_set session) s = record s { session = session }

unfoldable pub run : List Event → ClientState → ClientState
unfolding step
run [] s = s
run (e ∷ es) s = run es (step e s)

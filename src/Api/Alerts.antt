-- ===== src/Api/Alerts.antt =====
-- apps/api/src/modules/alerts/alerts.service.ts and webhooks/webhooks.service.ts: the writes of an
-- account. A wallet is its address; the tests of an address, of a threshold and of a URL are
-- arguments. The reading queries are left out.
pub mod Ownership
pub mod Deliveries
mod Tests
use text.Mathlib.Text.{◌==◌}
use riskrail.Base.{
  ℕ, Bool, true, false, not, ◌&&◌, ◌||◌, String, Option, none, some, ◌>>=◌, List, [], ◌∷◌, ◌++◌,
  keep, find, any, all, if◌then◌else◌,
}

pub data AlertStatus : Type 0 where
  active paused archived : AlertStatus

pub record WalletOwner : Type 0 where
  pub address : String
  pub user_id : Option String

pub record AlertRule : Type 0 where
  pub id : String
  pub wallet : String
  pub metric : String
  pub operator : String
  pub threshold : String
  pub channel : String
  pub status : AlertStatus

pub record CreateAlert : Type 0 where
  pub metric : String
  pub operator : String
  pub threshold : String
  pub channel : String

pub data AlertError : Type 0 where
  bad_address bad_threshold not_found not_owner : AlertError

pub data Result {ℓ} (A : Type ℓ) : Type ℓ where
  refused : AlertError → Result A
  written : A → Result A

abbrev same_user : String → Option String → Bool
same_user user none = false
same_user user (some u) = u == user

-- `assertOwnedWallet`
unfoldable pub owns : (user address : String) → List WalletOwner → Bool
owns user address wallets = elim (find (λ (w : WalletOwner). w.address == address) wallets) [
  | none ↦ false
  | some w ↦ same_user user w.user_id
]

-- `create`, where `is_threshold` is the test for a finite number that is not negative
unfoldable pub create_alert :
    (is_principal is_threshold : String → Bool)
    → List WalletOwner
    → (user address id : String) → CreateAlert
    → List AlertRule
    → Result (List AlertRule)
unfolding owns
create_alert is_principal is_threshold wallets user address id input rules =
    if not (is_principal address)
    then refused bad_address
    else if not (is_threshold input.threshold)
    then refused bad_threshold
    else if not (owns user address wallets)
    then refused not_owner
    else written (
        rules
        ++ (record {
          id = id;
          wallet = address;
          metric = input.metric;
          operator = input.operator;
          threshold = input.threshold;
          channel = input.channel;
          status = active;
        })
          ∷ [])

unfoldable pub set_status : String → AlertStatus → List AlertRule → List AlertRule
set_status id status [] = []
set_status id status (r ∷ rules) =
    let rest = set_status id status rules in
    if r.id == id then (record r { status = status }) ∷ rules else r ∷ rest

-- `updateStatus`
unfoldable pub update_status :
    List WalletOwner → (user id : String) → AlertStatus → List AlertRule → Result (List AlertRule)
unfolding owns set_status
update_status wallets user id status rules = elim (find (λ (r : AlertRule). r.id == id) rules) [
  | none ↦ refused not_found
  | some r ↦
      if owns user r.wallet wallets then written (set_status id status rules) else refused not_owner
]

abbrev pub webhook_events : List String
webhook_events = "portfolio.updated" ∷ "risk.updated" ∷ "alert.triggered" ∷ "policy.breached" ∷ []

pub record ParsedUrl : Type 0 where
  pub protocol : String
  pub hostname : String

pub record WebhookEndpoint : Type 0 where
  pub id : String
  pub user_id : String
  pub url : String
  pub events : List String
  pub secret_cipher : String
  pub enabled : Bool

-- the address of an endpoint that is accepted: https, or a local one
unfoldable pub is_allowed : ParsedUrl → Bool
is_allowed url = url.protocol == "https:" || url.hostname == "localhost"

-- `create` of an endpoint, with the secret enciphered: `none` where it throws
unfoldable pub create_endpoint :
    (String → Option ParsedUrl)
    → (user id url : String) → List String
    → (secret_cipher : String) → List WebhookEndpoint
    → Option (List WebhookEndpoint)
unfolding is_allowed
create_endpoint parse user id url events secret_cipher endpoints = parse url >>= λ parsed.
    if not (is_allowed parsed)
    then none
    else if not (all (λ e. any (λ k. k == e) webhook_events) events)
    then none
    else some (
        endpoints
        ++ (record {
          id = id;
          user_id = user;
          url = url;
          events = events;
          secret_cipher = secret_cipher;
          enabled = true;
        })
          ∷ [])

abbrev pub is_own : (user id : String) → WebhookEndpoint → Bool
is_own user id e = e.id == id && e.user_id == user

unfoldable pub update_enabled : String → Bool → List WebhookEndpoint → List WebhookEndpoint
update_enabled id enabled [] = []
update_enabled id enabled (e ∷ endpoints) =
    let rest = update_enabled id enabled endpoints in
    if e.id == id then (record e { enabled = enabled }) ∷ endpoints else e ∷ rest

-- `setEnabled`: `none` where the endpoint is not found
unfoldable pub set_enabled :
    (user id : String) → Bool → List WebhookEndpoint → Option (List WebhookEndpoint)
unfolding update_enabled
set_enabled user id enabled endpoints =
    if any (is_own user id) endpoints then some (update_enabled id enabled endpoints) else none

-- `remove`
unfoldable pub remove : (user id : String) → List WebhookEndpoint → Option (List WebhookEndpoint)
remove user id endpoints =
    if any (is_own user id) endpoints
    then some (keep (λ (e : WebhookEndpoint). not (e.id == id)) endpoints)
    else none

-- ===== src/Api/Alerts/Tests.antt =====
-- Runs of the writes of an account.
use text.Mathlib.Text.{◌==◌}
use riskrail.Api.Alerts.{WebhookEndpoint, update_enabled, set_enabled}
use riskrail.Api.Alerts.Deliveries.{reaches_endpoint, subscribes, set_enabled-plan_deliveries}
use riskrail.Base.{if◌then◌else◌, true, false, ◌&&◌, ◌≡◌, refl, String, none, some, List, [], ◌∷◌}
use riskrail.Api.Alerts.{
  AlertRule, AlertStatus, active, paused, WalletOwner, refused, not_owner, update_status,
  create_endpoint,
}

abbrev rule : String → String → AlertStatus → AlertRule
rule id wallet status = record {
  id = id;
  wallet = wallet;
  metric = "health_factor";
  operator = "lt";
  threshold = "1.2";
  channel = "in_app";
  status = status;
}

abbrev wallets : List WalletOwner
wallets =
    record { address = "SP1"; user_id = some "ann" }
    ∷ record { address = "SP2"; user_id = some "bob" }
    ∷ []

abbrev rules : List AlertRule
rules = rule "a" "SP1" active ∷ rule "b" "SP2" active ∷ []

abbrev changed : List AlertRule
changed = rule "a" "SP1" paused ∷ rule "b" "SP2" active ∷ []

refuses_other : update_status wallets "ann" "b" paused rules ≡ refused not_owner
unfolding update_status
refuses_other = refl

refuses_plain_http :
    create_endpoint
      (λ s. some (record { protocol = "http:"; hostname = s }))
      "ann"
      "e"
      "app.example"
      []
      "cipher"
      []
    ≡ none
unfolding create_endpoint
refuses_plain_http = refl

abbrev endpoint : String → WebhookEndpoint
endpoint id = record {
  id = id;
  user_id = "ann";
  url = "https://app.example";
  events = "risk.updated" ∷ [];
  secret_cipher = "c";
  enabled = true;
}

abbrev endpoints : List WebhookEndpoint
endpoints = endpoint "e1" ∷ endpoint "e2" ∷ []

set_enabled-plan_deliveries_example :
    reaches_endpoint "e1" "risk.updated" (update_enabled "e1" false endpoints) ≡ (
      if "e1" == "e1"
      then false && subscribes "e1" "risk.updated" endpoints
      else reaches_endpoint "e1" "risk.updated" endpoints)
unfolding set_enabled
set_enabled-plan_deliveries_example =
    set_enabled-plan_deliveries "ann" "e1" "risk.updated" "e1" false endpoints
      (update_enabled "e1" false endpoints) refl refl

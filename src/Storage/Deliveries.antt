-- ===== src/Storage/Deliveries.antt =====
-- `planDeliveries` of packages/database/src/index.ts, over the endpoints of the API.
use text.Mathlib.Text.{◌==◌}
use riskrail.Base.{Bool, ◌&&◌, String, List, map, keep, any}
use riskrail.Api.Alerts.{WebhookEndpoint}

-- `{ enabled: true, events: { has: type } }`
abbrev pub takes : (type : String) → WebhookEndpoint → Bool
takes type e = e.enabled && any (λ k. k == type) e.events

-- the endpoints that an event goes to
unfoldable pub plan_deliveries : (type : String) → List WebhookEndpoint → List String
plan_deliveries type endpoints = map (λ (e : WebhookEndpoint). e.id) (keep (takes type) endpoints)

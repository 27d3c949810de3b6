-- ===== src/Web/Requests/Agreement.antt =====
-- The dashboard and the client library send the same requests.
use riskrail.Base.{◌≡◌, ◌≢◌, refl, ap, true, false, String, arith}
use riskrail.Base.Text.{starts_with}
use riskrail.Value.{Value, str, array, end, field, set_field}
use riskrail.Value.Same.{IsSame, same, same_object, HasSame, fields, swapped, then_same}
use riskrail.Sdk.Client.{
  active, paused, archived, Operation, ApiCall, RequestOptions, spread, api_call,
}
use riskrail.Web.Requests.{DashboardRequest, Sent, request_of}

-- the operation of the client library for a request of the dashboard
unfoldable pub operation_of : DashboardRequest → Operation
operation_of (DashboardRequest.portfolio address) = Operation.get_portfolio address
operation_of (DashboardRequest.risk address) = Operation.get_risk address
operation_of (DashboardRequest.refresh address) = Operation.refresh_portfolio address
operation_of DashboardRequest.presets = Operation.presets
operation_of (DashboardRequest.simulate address name shocks) =
    Operation.simulate address (field "name" (str name) (field "shocks" (array shocks) end))
operation_of (DashboardRequest.alerts address) = Operation.list_alerts address
operation_of (DashboardRequest.create_alert address metric operator threshold) =
    Operation.create_alert address (
      field "metric" (str metric)
        (field "operator" (str operator) (field "threshold" (str threshold) end)))
operation_of (DashboardRequest.set_alert_status id status) = Operation.set_alert_status id status
operation_of (DashboardRequest.policy address) = Operation.get_policy address
operation_of DashboardRequest.me = Operation.me
operation_of (DashboardRequest.update_profile input) = Operation.update_profile input
operation_of DashboardRequest.api_keys = Operation.list_api_keys
operation_of (DashboardRequest.create_api_key name live) = Operation.create_api_key name live
operation_of (DashboardRequest.revoke_api_key id) = Operation.revoke_api_key id
operation_of DashboardRequest.webhooks = Operation.list_webhooks
operation_of (DashboardRequest.create_webhook url events) = Operation.create_webhook url events
operation_of (DashboardRequest.set_webhook_enabled id enabled) =
    Operation.set_webhook_enabled id enabled
operation_of (DashboardRequest.delete_webhook id) = Operation.remove_webhook id

-- the method, the path and the body, up to the order of its fields
abbrev pub Agrees : Sent → ApiCall → Type 0
Agrees sent call =
    (sent.method ≡ call.method) × ((sent.path ≡ call.path) × IsSame sent.body call.body)

-- a key with another beginning than `channel`
apart :
    (key start : String)
    → starts_with start key ≡ true
    → starts_with start "channel" ≡ false
    → key ≢ "channel"
apart key start h k e = ground (arith, h, k, ap (starts_with start) e)

-- a field that is put first
put_first :
    (k : String) (v : Value) (j1 j2 j3 : String) (v1 v2 v3 : Value)
    → j1 ≢ k
    → j2 ≢ k
    → j3 ≢ k
    → HasSame
        (field j1 v1 (field j2 v2 (field j3 v3 (field k v end))))
        (field k v (field j1 v1 (field j2 v2 (field j3 v3 end))))
put_first k v j1 j2 j3 v1 v2 v3 a1 a2 a3 =
    then_same _ _ _
      (fields j1 v1 v1 _ _ (same v1) (
        then_same _ _ _ (fields j2 v2 v2 _ _ (same v2) (swapped j3 k v3 v end a3))
          (swapped j2 k v2 v (field j3 v3 end) a2)))
      (swapped j1 k v1 v (field j2 v2 (field j3 v3 end)) a1)

-- Every request of the dashboard has the method, the path and the body of an operation of the client
-- library, up to the order of the body's fields.
pub request_of-eq-api_call :
    (encode : String → String) (r : DashboardRequest) (options : RequestOptions)
    → Agrees (request_of encode r) (api_call encode (operation_of r) options)
unfolding request_of api_call operation_of spread set_field
request_of-eq-api_call encode (DashboardRequest.create_alert address metric operator threshold)
      options =
    (
      refl,
      (
        refl,
        same_object _ _ (
            put_first "channel" _ "metric" "operator" "threshold" _ _ _
              (apart "metric" "m" refl refl) (apart "operator" "o" refl refl)
              (apart "threshold" "t" refl refl)),
      ),
    )
request_of-eq-api_call encode (DashboardRequest.set_alert_status id active) options =
    (refl, (refl, same _))
request_of-eq-api_call encode (DashboardRequest.set_alert_status id paused) options =
    (refl, (refl, same _))
request_of-eq-api_call encode (DashboardRequest.set_alert_status id archived) options =
    (refl, (refl, same _))
request_of-eq-api_call encode (DashboardRequest.portfolio address) options = (refl, (refl, same _))
request_of-eq-api_call encode (DashboardRequest.risk address) options = (refl, (refl, same _))
request_of-eq-api_call encode (DashboardRequest.refresh address) options = (refl, (refl, same _))
request_of-eq-api_call encode DashboardRequest.presets options = (refl, (refl, same _))
request_of-eq-api_call encode (DashboardRequest.simulate address name shocks) options =
    (refl, (refl, same _))
request_of-eq-api_call encode (DashboardRequest.alerts address) options = (refl, (refl, same _))
request_of-eq-api_call encode (DashboardRequest.policy address) options = (refl, (refl, same _))
request_of-eq-api_call encode DashboardRequest.me options = (refl, (refl, same _))
request_of-eq-api_call encode (DashboardRequest.update_profile input) options =
    (refl, (refl, same _))
request_of-eq-api_call encode DashboardRequest.api_keys options = (refl, (refl, same _))
request_of-eq-api_call encode (DashboardRequest.create_api_key name live) options =
    (refl, (refl, same _))
request_of-eq-api_call encode (DashboardRequest.revoke_api_key id) options = (refl, (refl, same _))
request_of-eq-api_call encode DashboardRequest.webhooks options = (refl, (refl, same _))
request_of-eq-api_call encode (DashboardRequest.create_webhook url events) options =
    (refl, (refl, same _))
request_of-eq-api_call encode (DashboardRequest.set_webhook_enabled id enabled) options =
    (refl, (refl, same _))
request_of-eq-api_call encode (DashboardRequest.delete_webhook id) options = (refl, (refl, same _))

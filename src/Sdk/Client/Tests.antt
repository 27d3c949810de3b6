-- ===== src/Sdk/Client/Tests.antt =====
-- Runs of the client's session.
use riskrail.Base.{◌≡◌, refl, false, none, some, List, [], ◌∷◌}
use riskrail.Value.{end}
use riskrail.Sdk.Client.{
  simulate, ApiCall, api_call, ClientState, Event, unauthorized, refreshed, run,
}

abbrev simulation : ApiCall
unfolding api_call
simulation =
    api_call (λ s. s) (simulate "SP1" end) (record { idempotent = none; skip_auth_refresh = false })

abbrev signed_in : ClientState
signed_in = record {
  session =
      some
        (record { address = "SP1"; tokens = record { access_token = "old"; refresh_token = "r" } });
  refreshing = false;
  sent = 0;
  waiting = 0;
}

abbrev burst : List Event
burst =
    unauthorized
    ∷ unauthorized
    ∷ refreshed (record { access_token = "new"; refresh_token = "s" })
    ∷ unauthorized
    ∷ []

sends_two : (run burst signed_in).sent ≡ 2
unfolding run
sends_two = refl

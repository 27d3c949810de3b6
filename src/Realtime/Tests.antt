-- ===== src/Realtime/Tests.antt =====
-- A subscription, a connection and an event.
use riskrail.Base.{
  ◌≡◌, refl, true, String, Option, some, [], ◌∷◌, lookup, or_default, if◌then◌else◌,
}
use riskrail.Sdk.Realtime.{join_room, leave_room}
use riskrail.Realtime.{RealtimeEvent, fits_room, forward, on_message}
use riskrail.Realtime.System.{
  System, Reach, begin, further, subscribed, connected_after, read, called,
}
use riskrail.Realtime.Rooms.{called-subscribed}

abbrev update : RealtimeEvent
update = record { event = "risk.updated"; address = "SP1" }

abbrev parse : String → Option RealtimeEvent
parse payload = some update

leaves : on_message (leave_room "a") ("a" ∷ "b" ∷ []) ≡ "b" ∷ []
unfolding on_message
leaves = refl

abbrev live : System
live = record {
  handlers = ("SP1", 7 ∷ []) ∷ [];
  connected = true;
  rooms = "SP1" ∷ [];
  flight = join_room "SP1" ∷ [];
}

abbrev settled : System
settled = record {
  handlers = ("SP1", 7 ∷ []) ∷ [];
  connected = true;
  rooms = "SP1" ∷ [];
  flight = [];
}

settled-Reach : Reach settled
unfolding riskrail.Sdk.Realtime.subscribe riskrail.Sdk.Realtime.resubscribe on_message fits_room
settled-Reach =
    further
      (further (further (further begin (subscribed _ "SP1" 7)) (connected_after _ refl))
        (read _ (join_room "SP1") (join_room "SP1" ∷ []) refl refl))
      (read _ (join_room "SP1") [] refl refl)

called-subscribed_example :
    called settled (forward parse "rivisk.realtime" "{}")
    ≡ (if fits_room "SP1" then or_default (lookup "SP1" settled.handlers) [] else [])
unfolding forward
called-subscribed_example =
    called-subscribed parse "rivisk.realtime" "{}" update settled-Reach refl refl refl

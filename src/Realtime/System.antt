-- ===== src/Realtime/System.antt =====
-- The client of packages/sdk/src/realtime.ts and the gateway of apps/realtime/src/main.ts together: one
-- socket, across lost connections.
--
-- A socket keeps what is emitted while it is not connected and sends it once it is. Whether it does
-- that before or after it calls the listener of `connect` is left open.
use riskrail.Base.{◌≡◌, Bool, true, false, String, Option, none, some, List, [], ◌∷◌, ◌++◌, ℕ}
use riskrail.Sdk.Realtime.{Message, Handlers, subscribe, unsubscribe, resubscribe, dispatch}
use riskrail.Realtime.{on_message, RealtimeEvent, reaches}

pub record System : Type 0 where
  pub handlers : Handlers
  pub connected : Bool
  pub rooms : List String
  -- messages that are sent, or kept, and not yet read by the server
  pub flight : List Message

abbrev pub with_client : System → Handlers × List Message → System
with_client s (handlers, messages) = record s { handlers = handlers; flight = s.flight ++ messages }

pub data Step : System → System → Type 0 where
  subscribed :
      (s : System) (address : String) (handler : ℕ)
      → Step s (with_client s (subscribe address handler s.handlers))
  unsubscribed :
      (s : System) (address : String) (handler : ℕ)
      → Step s (with_client s (unsubscribe address handler s.handlers))
  read :
      (s : System) (m : Message) (rest : List Message)
      → s.connected ≡ true
      → s.flight ≡ m ∷ rest
      → Step s (record s { rooms = on_message m s.rooms; flight = rest })
  lost : (s : System) → Step s (record s { connected = false; rooms = []; flight = [] })
  connected_after :
      (s : System)
      → s.connected ≡ false
      → Step s
          (record s { connected = true; rooms = []; flight = s.flight ++ resubscribe s.handlers })
  connected_before :
      (s : System)
      → s.connected ≡ false
      → Step s
          (record s { connected = true; rooms = []; flight = resubscribe s.handlers ++ s.flight })
  closed :
      (s : System) → Step s (record { handlers = []; connected = false; rooms = []; flight = [] })

abbrev pub start : System
start = record { handlers = []; connected = false; rooms = []; flight = [] }

pub data Reach : System → Type 0 where
  begin : Reach start
  further : {s t : System} → Reach s → Step s t → Reach t

-- the handlers that a message of the channel runs
unfoldable pub called : System → Option RealtimeEvent → List ℕ
called s emitted = elim (reaches s.rooms emitted) [
  | none ↦ []
  | some e ↦ dispatch (some e.address) s.handlers
]

-- ===== src/Realtime.antt =====
-- apps/realtime/src/main.ts: the rooms of one socket, and what the gateway passes on. A message of
-- the channel is parsed by an argument, which is `none` where `JSON.parse` throws.
pub mod Messages
pub mod Rooms
pub mod System
mod Tests
use Prim.Native.String.{count}
use text.Mathlib.Text.{◌==◌}
use riskrail.Base.{
  ℕ, Bool, true, false, not, ◌||◌, String, Option, none, some, ◌>>=◌, List, [], ◌∷◌, ◌++◌, any,
  keep, ltb, if◌then◌else◌,
}
use riskrail.Base.Text.{is_empty}
use riskrail.Sdk.Realtime.{Message, join_room, leave_room}

abbrev pub in_room : String → List String → Bool
in_room address rooms = any (λ room. room == address) rooms

-- `address.length < 80`
unfoldable pub fits_room : String → Bool
fits_room address = ltb (count address) 80

-- the listeners of a connection; `socket.join` and `socket.leave` work on a set
unfoldable pub on_message : Message → List String → List String
unfolding fits_room
on_message (join_room address) rooms =
    if fits_room address
    then (if in_room address rooms then rooms else rooms ++ address ∷ [])
    else rooms
on_message (leave_room address) rooms =
    if fits_room address then keep (λ room. not (room == address)) rooms else rooms

pub record RealtimeEvent : Type 0 where
  pub event : String
  pub address : String

-- the listener of `message`: the event that it emits to the room of its address
unfoldable pub forward :
    (String → Option RealtimeEvent) → (channel payload : String) → Option RealtimeEvent
forward parse channel payload =
    if channel == "rivisk.realtime"
    then (parse payload >>= λ message.
        if is_empty message.address || is_empty message.event then none else some message)
    else none

-- an event that is emitted reaches the sockets in the room
unfoldable pub reaches : List String → Option RealtimeEvent → Option RealtimeEvent
reaches rooms emitted = emitted >>= λ e. if in_room e.address rooms then some e else none

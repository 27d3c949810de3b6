-- ===== src/Realtime/Rooms.antt =====
-- The rooms of a socket follow the subscriptions of its client.
use riskrail.Base.{
  ◌≡◌, refl, ap, sym, ◌∙◌, Bool, true, false, ◌||◌, String, Option, some, List, [], ◌∷◌, ◌++◌,
  lookup, has_key, or_default, Option-cases, inl, inr, arith, if◌then◌else◌,
}
use riskrail.Base.Text.{is_empty}
use riskrail.Sdk.Realtime.{Message, Handlers, subscribe, unsubscribe, resubscribe, dispatch}
use riskrail.Realtime.{in_room, fits_room, RealtimeEvent, forward, reaches}
use riskrail.Realtime.Messages.{
  holds, wanted, in_room-on_message, holds-append, holds-resubscribe, Settles, subscribe-Settles,
  unsubscribe-Settles,
}
use riskrail.Realtime.System.{
  System, with_client, Step, subscribed, unsubscribed, read, lost, connected_after,
  connected_before, closed, Reach, begin, further, called,
}

-- What is sent leads to the rooms that the handlers want. While there is no connection, what is kept
-- changes nothing about a room that is as they want it.
pub record IsSound (s : System) : Type 0 where
  pub settles_connected :
      s.connected ≡ true → (a : String) → holds a s.flight (in_room a s.rooms) ≡ wanted a s.handlers
  pub settles_kept :
      s.connected ≡ false
      → (a : String) → holds a s.flight (wanted a s.handlers) ≡ wanted a s.handlers

with_client-settles :
    (a : String) (flight : List Message) (before : Handlers) (r : Handlers × List Message)
    (b : Bool)
    → Settles a before r
    → holds a flight b ≡ wanted a before
    → holds a (flight ++ r.1) b ≡ wanted a r.0
with_client-settles a flight before (handlers, messages) b (inl own) h =
    holds-append a flight messages b ∙ own (holds a flight b)
with_client-settles a flight before (handlers, messages) b (inr (none_said, same)) h =
    holds-append a flight messages b ∙ (none_said (holds a flight b) ∙ (h ∙ sym same))

with_client-kept :
    (a : String) (flight : List Message) (before : Handlers) (r : Handlers × List Message)
    → Settles a before r
    → holds a flight (wanted a before) ≡ wanted a before
    → holds a (flight ++ r.1) (wanted a r.0) ≡ wanted a r.0
with_client-kept a flight before (handlers, messages) (inl own) h =
    holds-append a flight messages _ ∙ own _
with_client-kept a flight before (handlers, messages) (inr (none_said, same)) h =
    holds-append a flight messages _ ∙ (none_said _ ∙ (ap (holds a flight) same ∙ (h ∙ sym same)))

with_client-IsSound :
    (s : System) (r : Handlers × List Message)
    → ((a : String) → Settles a s.handlers r)
    → IsSound s
    → IsSound (with_client s r)
with_client-IsSound s (handlers, messages) settles sound = record {
  settles_connected = λ live a.
      with_client-settles a s.flight s.handlers (handlers, messages) _ (settles a)
        (sound.settles_connected live a);
  settles_kept = λ dead a.
      with_client-kept a s.flight s.handlers (handlers, messages) (settles a)
        (sound.settles_kept dead a);
}

-- a room that nothing is wrong about before the kept messages, and that they do not spoil
holds_absent :
    (a : String) (ms : List Message) (w : Bool) → holds a ms w ≡ w → (w || holds a ms false) ≡ w
holds_absent a ms true h = refl
holds_absent a ms false h = h

or_false : (b : Bool) → (b || false) ≡ b
or_false true = refl
or_false false = refl

Step-IsSound : {s t : System} → Step s t → IsSound s → IsSound t
unfolding holds wanted
Step-IsSound (subscribed s c h) sound =
    with_client-IsSound s (subscribe c h s.handlers) (λ a. subscribe-Settles a c h s.handlers) sound
Step-IsSound (unsubscribed s c h) sound =
    with_client-IsSound s (unsubscribe c h s.handlers) (λ a. unsubscribe-Settles a c h s.handlers)
      sound
Step-IsSound (read s m rest live eq) sound = record {
  settles_connected = λ on a.
      ap (holds a rest) (in_room-on_message a m s.rooms)
      ∙ (sym (holds-append a (m ∷ []) rest (in_room a s.rooms))
          ∙ (ap (λ ms. holds a ms (in_room a s.rooms)) (sym eq) ∙ sound.settles_connected live a));
  settles_kept = λ off a. absurd (ground (arith, live, off));
}
Step-IsSound (lost s) sound = record {
  settles_connected = λ live a. absurd (ground (arith, live));
  settles_kept = λ dead a. refl;
}
Step-IsSound (connected_after s dead) sound = record {
  settles_connected = λ live a.
      holds-append a s.flight (resubscribe s.handlers) false
      ∙ (holds-resubscribe a s.handlers (holds a s.flight false)
          ∙ holds_absent a s.flight (wanted a s.handlers) (sound.settles_kept dead a));
  settles_kept = λ off a. absurd (ground (arith, off));
}
Step-IsSound (connected_before s dead) sound = record {
  settles_connected = λ live a.
      holds-append a (resubscribe s.handlers) s.flight false
      ∙ (ap (holds a s.flight) (holds-resubscribe a s.handlers false ∙ or_false _)
          ∙ sound.settles_kept dead a);
  settles_kept = λ off a. absurd (ground (arith, off));
}
Step-IsSound (closed s) sound = record {
  settles_connected = λ live a. absurd (ground (arith, live));
  settles_kept = λ dead a. refl;
}

Reach-IsSound : {s : System} → Reach s → IsSound s
unfolding holds wanted lookup has_key
Reach-IsSound begin = record {
  settles_connected = λ live a. absurd (ground (arith, live));
  settles_kept = λ dead a. refl;
}
Reach-IsSound (further r st) = Step-IsSound st (Reach-IsSound r)

forward-address :
    (parse : String → Option RealtimeEvent) (channel payload : String) (e : RealtimeEvent)
    → forward parse channel payload ≡ some e
    → is_empty e.address ≡ false
unfolding forward
forward-address parse channel payload e h = elim (Option-cases (parse payload)) [
  | inl k ↦ absurd (ground (arith, h, k))
  | inr (f, k) ↦ ground (arith, h, k)
]

called-wanted :
    (s : System) (e : RealtimeEvent)
    → is_empty e.address ≡ false
    → in_room e.address s.rooms ≡ wanted e.address s.handlers
    → called s (some e)
      ≡ (if fits_room e.address then or_default (lookup e.address s.handlers) [] else [])
unfolding called reaches dispatch wanted has_key
called-wanted s e full room = elim (Option-cases (lookup e.address s.handlers)) [
  | inl k ↦ ground (arith, full, room, k)
  | inr (hs, k) ↦ ground (arith, full, room, k)
]

-- Once the gateway has read what the client sent over a connection, an event runs exactly the
-- handlers that are subscribed to its address, after any subscriptions, cancellations, losses of the
-- connection and reconnections. An address of 80 characters or more is never served.
pub called-subscribed :
    {s : System} (parse : String → Option RealtimeEvent) (channel payload : String)
    (e : RealtimeEvent)
    → Reach s
    → s.connected ≡ true
    → s.flight ≡ []
    → forward parse channel payload ≡ some e
    → called s (forward parse channel payload)
      ≡ (if fits_room e.address then or_default (lookup e.address s.handlers) [] else [])
unfolding holds
called-subscribed {s} parse channel payload e r live calm passed =
    ap (called s) passed
    ∙ called-wanted s e (forward-address parse channel payload e passed) (
        ap (λ ms. holds e.address ms (in_room e.address s.rooms)) (sym calm)
        ∙ (Reach-IsSound r).settles_connected live e.address)

-- ===== src/Realtime/Messages.antt =====
-- What the messages of packages/sdk/src/realtime.ts do to one room of the gateway.
use text.Mathlib.Text.{◌==◌}
use riskrail.Base.{
  ◌≡◌, refl, ap, sym, subst, ◌∙◌, Bool, true, false, not, ◌&&◌, ◌||◌, String, List, [], ◌∷◌, ◌++◌,
  any-append, keep, Dict, lookup, insert, delete_key, has_key, lookup-insert, lookup-delete_key,
  is_some, Bool-cases, Option-cases, ◌⊎◌, inl, inr, eq_iff, arith, ℕ, if◌then◌else◌,
}
use riskrail.Sdk.Realtime.{
  Message, join_room, leave_room, Handlers, subscribe, unsubscribe, after_delete, resubscribe,
  add_handler, delete_handler,
}
use riskrail.Realtime.{in_room, fits_room, on_message}

-- whether an address has its room after some messages, from whether it had it before
unfoldable pub holds : String → List Message → Bool → Bool
unfolding fits_room
holds a [] b = b
holds a (join_room c ∷ ms) b = holds a ms (if c == a && fits_room a then true else b)
holds a (leave_room c ∷ ms) b = holds a ms (if c == a && fits_room a then false else b)

-- the address has handlers and the gateway accepts it
unfoldable pub wanted : String → Handlers → Bool
unfolding has_key fits_room
wanted a handlers = has_key a handlers && fits_room a

in_room-keep :
    (a c : String) (rooms : List String)
    → in_room a (keep (λ room. not (room == c)) rooms) ≡ (if c == a then false else in_room a rooms)
in_room-keep a c [] = ground arith
in_room-keep a c (r ∷ rooms) =
    ground (arith, in_room-keep a c rooms, eq_iff r c, eq_iff c a, eq_iff r a)

pub in_room-on_message :
    (a : String) (m : Message) (rooms : List String)
    → in_room a (on_message m rooms) ≡ holds a (m ∷ []) (in_room a rooms)
unfolding on_message holds
in_room-on_message a (join_room c) rooms =
    ground (arith, eq_iff c a, any-append (λ room. room == a) rooms (c ∷ []))
in_room-on_message a (leave_room c) rooms = ground (arith, eq_iff c a, in_room-keep a c rooms)

pub holds-append :
    (a : String) (ms ns : List Message) (b : Bool)
    → holds a (ms ++ ns) b ≡ holds a ns (holds a ms b)
unfolding holds
holds-append a [] ns b = refl
holds-append a (join_room c ∷ ms) ns b = holds-append a ms ns _
holds-append a (leave_room c ∷ ms) ns b = holds-append a ms ns _

pub holds-resubscribe :
    (a : String) (handlers : Handlers) (b : Bool)
    → holds a (resubscribe handlers) b ≡ (wanted a handlers || b)
unfolding holds resubscribe wanted lookup
holds-resubscribe a [] b = refl
holds-resubscribe a ((c, hs) ∷ handlers) b =
    holds-resubscribe a handlers _ ∙ ground (arith, eq_iff c a)

-- What an operation of the client emits about an address: it settles the room as the handlers now
-- want it, or it says nothing and they want the same as before.
abbrev pub Settles : String → Handlers → Handlers × List Message → Type 0
Settles a before (handlers, messages) =
    ((b : Bool) → holds a messages b ≡ wanted a handlers)
    ⊎ (((b : Bool) → holds a messages b ≡ b) × (wanted a handlers ≡ wanted a before))

has_key-insert {ℓ} :
    {V : Type ℓ} (c a : String) (v : V) (entries : Dict V)
    → has_key a (insert c v entries) ≡ (c == a || has_key a entries)
unfolding has_key
has_key-insert c a v entries = ap is_some (lookup-insert c a v entries) ∙ ground arith

has_key-delete_key {ℓ} :
    {V : Type ℓ} (c a : String) (entries : Dict V)
    → has_key a (delete_key c entries) ≡ (not (c == a) && has_key a entries)
unfolding has_key
has_key-delete_key c a entries = ap is_some (lookup-delete_key c a entries) ∙ ground arith

insert_present {ℓ} :
    {V : Type ℓ} (c a : String) (v : V) (entries : Dict V)
    → is_some (lookup c entries) ≡ true
    → has_key a (insert c v entries) ≡ has_key a entries
unfolding has_key
insert_present c a v entries h = elim (Bool-cases (c == a)) [
  | inl e ↦
      has_key-insert c a v entries
      ∙ ground (arith, e, h, ap (λ d. is_some (lookup d entries)) ((eq_iff c a).0 e))
  | inr e ↦ has_key-insert c a v entries ∙ ground (arith, e)
]

joined :
    (a c : String) (hs : List ℕ) (handlers : Handlers)
    → Settles a handlers (insert c hs handlers, join_room c ∷ [])
unfolding holds wanted
joined a c hs handlers =
    let present = has_key-insert c a hs handlers in
    elim (Bool-cases (c == a && fits_room a)) [
      | inl e ↦ inl (λ b. ground (arith, e, present))
      | inr e ↦ inr (λ b. ground (arith, e), ground (arith, e, present))
    ]

kept :
    (a c : String) (hs : List ℕ) (handlers : Handlers)
    → is_some (lookup c handlers) ≡ true
    → Settles a handlers (insert c hs handlers, [])
unfolding holds wanted
kept a c hs handlers h =
    inr (λ b. refl, ap (λ b. b && fits_room a) (insert_present c a hs handlers h))

left :
    (a c : String) (handlers : Handlers)
    → Settles a handlers (delete_key c handlers, leave_room c ∷ [])
unfolding holds wanted
left a c handlers =
    let present = has_key-delete_key c a handlers in
    elim (Bool-cases (c == a && fits_room a)) [
      | inl e ↦ inl (λ b. ground (arith, e, present))
      | inr e ↦ inr (λ b. ground (arith, e), ground (arith, e, present))
    ]

pub subscribe-Settles :
    (a c : String) (h : ℕ) (handlers : Handlers) → Settles a handlers (subscribe c h handlers)
unfolding subscribe
subscribe-Settles a c h handlers = elim (Option-cases (lookup c handlers)) [
  | inl e ↦ subst (Settles a handlers) (sym (rw (subscribe, e) refl)) (joined a c (h ∷ []) handlers)
  | inr (hs, e) ↦
      subst (Settles a handlers) (sym (rw (subscribe, e) refl))
        (kept a c (add_handler h hs) handlers (ap is_some e))
]

after_delete-Settles :
    (a c : String) (hs : List ℕ) (handlers : Handlers)
    → is_some (lookup c handlers) ≡ true
    → Settles a handlers (after_delete c hs handlers)
unfolding after_delete
after_delete-Settles a c [] handlers h = left a c handlers
after_delete-Settles a c (k ∷ hs) handlers h = kept a c (k ∷ hs) handlers h

pub unsubscribe-Settles :
    (a c : String) (h : ℕ) (handlers : Handlers) → Settles a handlers (unsubscribe c h handlers)
unfolding unsubscribe holds
unsubscribe-Settles a c h handlers = elim (Option-cases (lookup c handlers)) [
  | inl e ↦
      let same : unsubscribe c h handlers ≡ (handlers, []) = rw (unsubscribe, e) refl in
      subst (Settles a handlers) (sym same) (inr (λ b. refl, refl))
  | inr (hs, e) ↦
      let same : unsubscribe c h handlers ≡ after_delete c (delete_handler h hs) handlers =
        rw (unsubscribe, e) refl in
      subst (Settles a handlers) (sym same)
        (after_delete-Settles a c (delete_handler h hs) handlers (ap is_some e))
]

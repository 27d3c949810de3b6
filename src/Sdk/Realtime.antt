-- ===== src/Sdk/Realtime.antt =====
-- packages/sdk/src/realtime.ts: the subscriptions of `RealtimeClient`. A handler is a number, its
-- identity; what is emitted on the socket is a list of messages, in order.
use Prim.Native.String.{String}
use riskrail.Base.{
  ℕ, not, Option, none, some, List, [], ◌∷◌, ◌++◌, any, keep, Dict, lookup, insert, delete_key,
  ◌==◌, or_default, if◌then◌else◌,
}
use riskrail.Base.Text.{is_empty}

-- `portfolio:subscribe` and `portfolio:unsubscribe`
pub data Message : Type 0 where
  join_room leave_room : (address : String) → Message

-- `Map<string, Set<RealtimeHandler>>`
abbrev pub Handlers : Type 0
Handlers = Dict (List ℕ)

-- `set.add(handler)`
unfoldable pub add_handler : ℕ → List ℕ → List ℕ
add_handler h hs = if any (λ k. k == h) hs then hs else hs ++ h ∷ []

-- `set.delete(handler)`
unfoldable pub delete_handler : ℕ → List ℕ → List ℕ
delete_handler h hs = keep (λ k. not (k == h)) hs

-- `subscribe`, after the socket is there
unfoldable pub subscribe : (address : String) (handler : ℕ) → Handlers → Handlers × List Message
unfolding lookup insert add_handler
subscribe address handler handlers = elim (lookup address handlers) [
  | some existing ↦ (insert address (add_handler handler existing) handlers, [])
  | none ↦ (insert address (handler ∷ []) handlers, join_room address ∷ [])
]

-- what is left of a set: the map keeps it unless it is empty
unfoldable pub after_delete : (address : String) → List ℕ → Handlers → Handlers × List Message
unfolding insert delete_key
after_delete address [] handlers = (delete_key address handlers, leave_room address ∷ [])
after_delete address (h ∷ hs) handlers = (insert address (h ∷ hs) handlers, [])

-- the function that `subscribe` returns
unfoldable pub unsubscribe : (address : String) (handler : ℕ) → Handlers → Handlers × List Message
unfolding lookup delete_handler after_delete
unsubscribe address handler handlers = elim (lookup address handlers) [
  | none ↦ (handlers, [])
  | some existing ↦ after_delete address (delete_handler handler existing) handlers
]

-- the listener of `connect`
unfoldable pub resubscribe : Handlers → List Message
resubscribe [] = []
resubscribe ((address, hs) ∷ handlers) = join_room address ∷ resubscribe handlers

-- the listener of `rivisk:event`: the handlers that it calls, in order
unfoldable pub dispatch : Option String → Handlers → List ℕ
unfolding lookup
dispatch none handlers = []
dispatch (some address) handlers =
    if is_empty address then [] else or_default (lookup address handlers) []

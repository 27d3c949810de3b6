-- ===== src/Api/RateLimit.antt =====
-- apps/api/src/common/guards/rate-limit.guard.ts: a fixed window for each route and caller. The state
-- is the counters in Redis; a counter that Redis has expired is one of a past window, which no later
-- request reads. Times are whole seconds; an unreachable Redis is a Boolean.
pub mod Windows
use text.Mathlib.Text.{◌==◌ as str_eq}
use riskrail.Base.{
  ℕ, suc, ◌+◌, ◌-◌, ◌*◌, ◌/◌, Bool, true, false, ◌&&◌, String, Option, none, some, List, [], ◌∷◌,
  ltb, ◌==◌, or_default, if◌then◌else◌,
}

pub record RateLimitOptions : Type 0 where
  pub limit : ℕ
  pub window_seconds : ℕ

-- the four parts of the key
pub record Key : Type 0 where
  pub route : String
  pub ip : String
  pub bucket : ℕ

abbrev pub same_key : Key → Key → Bool
same_key a b = str_eq a.route b.route && (str_eq a.ip b.ip && a.bucket == b.bucket)

-- what the guard reads of a request and its handler
pub record Request : Type 0 where
  pub route : Option String
  pub handler : String
  pub ip : Option String
  pub now : ℕ

-- the counters, and the keys whose expiry was set, with it
pub record Store : Type 0 where
  pub counters : List (Key × ℕ)
  pub expiries : List (Key × ℕ)

unfoldable pub key_of : RateLimitOptions → Request → Key
key_of options request = record {
  route = or_default request.route request.handler;
  ip = or_default request.ip "unknown";
  bucket = request.now / options.window_seconds;
}

unfoldable pub count_of : Key → List (Key × ℕ) → ℕ
count_of key [] = 0
count_of key ((k, n) ∷ rest) = if same_key k key then n else count_of key rest

-- `INCR`: the counters, and the new value
unfoldable pub incr : Key → List (Key × ℕ) → List (Key × ℕ) × ℕ
incr key [] = ((key, 1) ∷ [], 1)
incr key ((k, n) ∷ rest) =
    let (later, used) = incr key rest in
    if same_key k key then ((k, n + 1) ∷ rest, n + 1) else ((k, n) ∷ later, used)

pub data Decision : Type 0 where
  allowed : Decision
  refused : (retry_after_header retry_after : ℕ) → Decision

-- seconds to the end of the window; the header has the same number, which is never negative
unfoldable pub retry_after : RateLimitOptions → Request → ℕ
retry_after options request =
    (request.now / options.window_seconds + 1) * options.window_seconds - request.now

unfoldable pub can_activate :
    Option RateLimitOptions → (reachable : Bool) → Request → Store → Store × Decision
unfolding incr key_of retry_after
can_activate none reachable request store = (store, allowed)
can_activate (some options) false request store = (store, allowed)
can_activate (some options) true request store =
    let key = key_of options request in
    let (counters, used) = incr key store.counters in
    let store' : Store = record {
      counters = counters;
      expiries =
          if used == 1 then (key, options.window_seconds) ∷ store.expiries else store.expiries;
    } in
    if ltb options.limit used
    then (store', refused (retry_after options request) (retry_after options request))
    else (store', allowed)

-- a request, and whether Redis is reachable when it comes
pub record Arrival : Type 0 where
  pub request : Request
  pub reachable : Bool

-- requests one after the other: how many of them were allowed, and the store
unfoldable pub serve : RateLimitOptions → List Arrival → Store → Store × ℕ
unfolding can_activate
serve options [] store = (store, 0)
serve options (arrival ∷ later) store =
    let (next, decision) = can_activate (some options) arrival.reachable arrival.request store in
    let (final, allowed_later) = serve options later next in
    (final, elim decision [ allowed ↦ suc allowed_later | refused _ _ ↦ allowed_later ])

-- ===== src/Web/Session.antt =====
-- apps/web/lib/auth.ts: the session that the browser stores. The reading of a token's payload, which
-- is `JSON.parse(atob(…))`, and the answer of the API are arguments; `none` is a thrown error, and
-- times are in milliseconds.
pub mod Usable
use riskrail.Base.{
  ℕ, Bool, true, false, not, ◌&&◌, ◌||◌, String, Option, none, some, List, [], ◌∷◌, ◌>>=◌, ◌+◌, ◌*◌,
  ◌==◌, ltb, Dict, lookup, insert, delete_key, is_some, if◌then◌else◌,
}
use riskrail.Base.Text.{is_empty, split_on}
use riskrail.Notify.{replace_char}
use riskrail.Sdk.Client.{AuthTokens}

abbrev pub access_key : String
access_key = "rivisk_access_token"

abbrev pub refresh_key : String
refresh_key = "rivisk_refresh_token"

abbrev pub address_key : String
address_key = "rivisk_session_address"

-- The storage of the browser: whether it can be read, which may be blocked, the writes that it takes,
-- and what it has. A write that it does not take, for its quota or because it is blocked, throws, and
-- the catch of `write` leaves it at that; the value of a removal is `none`.
pub record Browser : Type 0 where
  pub readable : Bool
  pub writable : (key : String) → Option String → Bool
  pub store : Dict String

unfoldable pub read : String → Browser → Option String
unfolding lookup
read key b = if b.readable then lookup key b.store else none

unfoldable pub write : String → Option String → Browser → Browser
unfolding insert delete_key
write key none b = if b.writable key none then (record b { store = delete_key key b.store }) else b
write key (some value) b =
    if b.writable key (some value) then (record b { store = insert key value b.store }) else b

unfoldable pub sign_out : Browser → Browser
unfolding write
sign_out b = write address_key none (write refresh_key none (write access_key none b))

unfoldable pub session_address : Browser → Option String
unfolding read
session_address b = read address_key b

-- `Boolean(text)` and `!text`
abbrev pub is_given : Option String → Bool
is_given none = false
is_given (some s) = not (is_empty s)

unfoldable pub has_session : Browser → Bool
unfolding read
has_session b = is_given (read access_key b)

-- `const [, payload] = …`
abbrev pub second : List String → Option String
second [] = none
second (a ∷ []) = none
second (a ∷ b ∷ rest) = some b

-- `atob` reads the alphabet of plain base64
unfoldable pub plain_base64 : String → String
unfolding replace_char
plain_base64 payload = replace_char 95 "/" (replace_char 45 "+" payload)

-- `Date.now() / 1000 > exp - 30`, unless there is no `exp`
unfoldable pub is_past : (now : ℕ) → Option ℕ → Bool
is_past now none = true
is_past now (some exp) = exp == 0 || ltb (exp * 1000) (now + 30000)

-- `isExpired`, where `parse` gives the `exp` of a payload, if it has one
unfoldable pub is_expired :
    (parse : String → Option (Option ℕ)) → (now : ℕ) → (token : String) → Bool
unfolding split_on plain_base64 is_past
is_expired parse now token = elim (second (split_on 46 token)) [
  | none ↦ true
  | some payload ↦
      if is_empty payload
      then true
      else elim (parse (plain_base64 payload)) [ none ↦ true | some exp ↦ is_past now exp ]
]

-- what the answer to a refresh does
unfoldable pub settle : Option AuthTokens → Browser → Browser × Option String
unfolding write sign_out
settle none b = (sign_out b, none)
settle (some renewed) b = (
  write refresh_key (some renewed.refresh_token) (write access_key (some renewed.access_token) b),
  some renewed.access_token,
)

-- the token to send, once `access` is read and found missing or expired
unfoldable pub renew :
    (post_refresh : String → Option AuthTokens) → Option String → Browser → Browser × Option String
unfolding settle
renew post_refresh none b = (b, none)
renew post_refresh (some token) b =
    if is_empty token then (b, none) else settle (post_refresh token) b

-- `current && !isExpired(current)`
unfoldable pub is_usable : (parse : String → Option (Option ℕ)) → (now : ℕ) → Option String → Bool
unfolding is_expired
is_usable parse now none = false
is_usable parse now (some token) = not (is_empty token) && not (is_expired parse now token)

-- `accessToken`
unfoldable pub access_token :
    (parse : String → Option (Option ℕ))
    → (now : ℕ) → (post_refresh : String → Option AuthTokens) → Browser
    → Browser × Option String
unfolding read is_usable renew
access_token parse now post_refresh b =
    if is_usable parse now (read access_key b)
    then (b, read access_key b)
    else renew post_refresh (read refresh_key b) b

-- what the API answers to a verified signature
pub record Verified : Type 0 where
  pub user_id : String
  pub address : String
  pub tokens : AuthTokens

-- the end of `signIn`: what it stores of the answer
unfoldable pub store_session : Verified → Browser → Browser
unfolding write
store_session v b = write address_key (some v.address) (
    write refresh_key (some v.tokens.refresh_token)
      (write access_key (some v.tokens.access_token) b))

-- What a sign-in meets: the wallet that is restored or connected, the challenge for an address, the
-- public key and the signature of a message, and the answer to them.
pub record SignIn : Type 0 where
  pub restored : Option String
  pub connected : Option String
  pub challenge : String → Option String
  pub sign : String → Option (Option String × Option String)
  pub verify : (address public_key signature : String) → Option Verified

-- `!signed?.signature || !signed?.publicKey`
unfoldable pub signed_parts : Option String × Option String → Option (String × String)
signed_parts (none, signature) = none
signed_parts (some public_key, none) = none
signed_parts (some public_key, some signature) =
    if is_empty signature || is_empty public_key then none else some (public_key, signature)

unfoldable pub verify_signed : SignIn → (address : String) → String × String → Option Verified
verify_signed around address (public_key, signature) = around.verify address public_key signature

-- the answer to a sign-in
unfoldable pub verified_by : SignIn → Option Verified
unfolding signed_parts verify_signed
verified_by around =
    (elim around.restored [ none ↦ around.connected | some address ↦ some address ]) >>= λ address.
    around.challenge address >>= λ message. around.sign message >>= λ parts.
    signed_parts parts >>= λ signed. verify_signed around address signed

-- `signIn`
unfoldable pub sign_in : SignIn → Browser → Browser × Option (String × String)
unfolding verified_by store_session
sign_in around b = elim (verified_by around) [
  | none ↦ (b, none)
  | some v ↦ (store_session v b, some (v.address, v.user_id))
]

-- ===== src/Api/Keys.antt =====
-- apps/api/src/modules/api-keys/api-keys.service.ts and common/guards/account-auth.guard.ts. The
-- hash with its pepper is a function to hexadecimal text; random bytes, identifiers and the present
-- time are arguments, and the table is the list of the rows in its order.
pub mod Revoked
mod Tests
use text.Mathlib.Text.{◌==◌}
use riskrail.Base.{
  ℕ, zero, suc, Bool, true, false, not, ◌&&◌, ◌||◌, String, Option, none, some, ◌>>=◌, List, [],
  ◌∷◌, ◌++◌, keep, find, any, is_some, if◌then◌else◌,
}
use riskrail.Base.Text.{join, starts_with}
use riskrail.Base.Hex.{of_hex_prefix}
use riskrail.Webhooks.{timing_safe_equal}

pub record ApiKey : Type 0 where
  pub id : String
  pub user_id : String
  pub name : String
  pub prefix : String
  pub hash : String
  pub last_used_at : Option String
  pub revoked_at : Option String

abbrev pub live_prefix : String
live_prefix = "rv_live_"

abbrev pub test_prefix : String
test_prefix = "rv_test_"

abbrev take_chars : ℕ → String → String
take_chars zero s = String.[]
take_chars (suc n) String.[] = String.[]
take_chars (suc n) (String.◌∷◌ c s) = String.◌∷◌ c (take_chars n s)

-- `token.slice(0, 16)`
unfoldable pub prefix_of : String → String
prefix_of token = take_chars 16 token

abbrev pub is_live_key : ApiKey → Bool
is_live_key row = not (is_some row.revoked_at)

-- `list`, without the order of the query
unfoldable pub list_keys : String → List ApiKey → List ApiKey
list_keys user_id rows = keep (λ (r : ApiKey). r.user_id == user_id && is_live_key r) rows

-- the row of a new key
unfoldable pub new_key : (String → String) → (user_id name token id : String) → ApiKey
unfolding prefix_of
new_key hash user_id name token id = record {
  id = id;
  user_id = user_id;
  name = name;
  prefix = prefix_of token;
  hash = hash token;
  last_used_at = none;
  revoked_at = none;
}

-- `create`: the token and the table
unfoldable pub create_key :
    (String → String)
    → (user_id name : String) → Bool
    → (random id : String) → List ApiKey
    → String × List ApiKey
unfolding new_key
create_key hash user_id name live random id rows =
    let token = join (if live then live_prefix else test_prefix) random in
    (token, rows ++ new_key hash user_id name token id ∷ [])

abbrev pub is_own : (user_id id : String) → ApiKey → Bool
is_own user_id id row = row.id == id && (row.user_id == user_id && is_live_key row)

-- `update` of the row with an identifier
unfoldable pub revoke_row : (id now : String) → List ApiKey → List ApiKey
revoke_row id now [] = []
revoke_row id now (r ∷ rows) =
    (if r.id == id then (record r { revoked_at = some now }) else r) ∷ revoke_row id now rows

-- `revoke`: `none` where the key is not found
unfoldable pub revoke : (user_id id now : String) → List ApiKey → Option (List ApiKey)
unfolding revoke_row
revoke user_id id now rows =
    if any (is_own user_id id) rows then some (revoke_row id now rows) else none

unfoldable pub is_match : (candidate token : String) → ApiKey → Bool
unfolding prefix_of timing_safe_equal of_hex_prefix
is_match candidate token row =
    (row.prefix == prefix_of token && is_live_key row)
    && timing_safe_equal (of_hex_prefix row.hash) (of_hex_prefix candidate)

-- `resolve`, without the note of the time of use
unfoldable pub resolve : (String → String) → String → List ApiKey → Option String
unfolding is_match
resolve hash token rows =
    if starts_with live_prefix token || starts_with test_prefix token
    then (find (is_match (hash token) token) rows >>= λ row. some row.user_id)
    else none

pub data AuthMethod : Type 0 where
  session api_key : AuthMethod

-- the claims of a token that `decode` accepts
pub record TokenClaims : Type 0 where
  pub is_refresh : Bool
  pub subject : Option String

abbrev after_bearer : String → Option String
after_bearer
      (String.◌∷◌ b (
        String.◌∷◌ e
          (String.◌∷◌ a (String.◌∷◌ r (String.◌∷◌ f (String.◌∷◌ g (String.◌∷◌ h s))))))) =
    if starts_with "Bearer " (
      String.◌∷◌ b (
        String.◌∷◌ e (String.◌∷◌ a (String.◌∷◌ r (String.◌∷◌ f (String.◌∷◌ g (String.◌∷◌ h "")))))))
    then some s
    else none
after_bearer s = none

-- `AccountAuthGuard.canActivate`: the user and the method, or `none` where it throws
unfoldable pub account_guard :
    (String → Option String)
    → (String → Option TokenClaims)
    → Option String
    → Option (String × AuthMethod)
account_guard resolve_key decode header = header >>= λ h. after_bearer h >>= λ token.
    if starts_with live_prefix token || starts_with test_prefix token
    then (resolve_key token >>= λ user. some (user, api_key))
    else (decode token >>= λ claims.
        if claims.is_refresh then none else (claims.subject >>= λ user. some (user, session)))

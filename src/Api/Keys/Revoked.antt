-- ===== src/Api/Keys/Revoked.antt =====
-- A key opens its owner's account until it is revoked.
use text.Mathlib.Text.{◌==◌}
use riskrail.Base.{
  ◌≡◌, refl, subst, Bool, true, false, not, ◌&&◌, ◌||◌, String, none, some, List, [], ◌∷◌, ◌++◌,
  find, any, eq_refl, arith, if◌then◌else◌, All,
}
use riskrail.Base.Text.{join, starts_with}
use riskrail.Base.Hex.{of_hex_prefix}
use riskrail.Webhooks.Agreement.{timing_safe_equal_refl}
use riskrail.Api.Keys.{
  ApiKey, live_prefix, test_prefix, prefix_of, create_key, new_key, revoke, revoke_row, is_match,
  resolve,
}

find-none : (p : ApiKey → Bool) (rows : List ApiKey) → any p rows ≡ false → find p rows ≡ none
find-none p [] h = refl
find-none p (r ∷ rows) h = ground (arith, h, find-none p rows)

any-revoke_row :
    (candidate token id now : String) (rows : List ApiKey)
    → All (λ r. (is_match candidate token r && not (r.id == id)) ≡ false) rows
    → any (is_match candidate token) (revoke_row id now rows) ≡ false
unfolding revoke_row is_match
any-revoke_row candidate token id now [] h = refl
any-revoke_row candidate token id now (r ∷ rows) (h, hs) =
    ground (arith, h, any-revoke_row candidate token id now rows hs)

-- Once a key is revoked, a token that no other live key matches opens no account any more.
pub revoke-resolve :
    (hash : String → String) (token user_id id now : String) (rows revoked : List ApiKey)
    → All (λ r. (is_match (hash token) token r && not (r.id == id)) ≡ false) rows
    → revoke user_id id now rows ≡ some revoked
    → resolve hash token revoked ≡ none
unfolding revoke resolve
revoke-resolve hash token user_id id now rows revoked h done =
    let same : revoke_row id now rows ≡ revoked = ground (arith, done) in
    subst (λ rs. resolve hash token rs ≡ none) same
      (ground (
        arith,
        find-none (is_match (hash token) token) (revoke_row id now rows)
            (any-revoke_row (hash token) token id now rows h),
      ))

find-append_last :
    (p : ApiKey → Bool) (rows : List ApiKey) (r : ApiKey)
    → any p rows ≡ false
    → p r ≡ true
    → find p (rows ++ r ∷ []) ≡ some r
find-append_last p [] r h k = ground (arith, k)
find-append_last p (q ∷ rows) r h k = ground (arith, h, find-append_last p rows r)

is_match-new_key :
    (hash : String → String) (user_id name token id : String)
    → is_match (hash token) token (new_key hash user_id name token id) ≡ true
unfolding is_match new_key
is_match-new_key hash user_id name token id =
    ground (arith, eq_refl (prefix_of token), timing_safe_equal_refl (of_hex_prefix (hash token)))

has_prefix :
    (live : Bool) (random : String)
    → (starts_with live_prefix (join (if live then live_prefix else test_prefix) random)
        || starts_with test_prefix (join (if live then live_prefix else test_prefix) random))
      ≡ true
has_prefix true random = refl
has_prefix false random = refl

-- The token of a new key opens the account that it was made for, unless the table already held a
-- live key that it matches.
pub create_key-resolve :
    (hash : String → String) (user_id name : String) (live : Bool) (random id : String)
    (rows : List ApiKey)
    → any
        (is_match
          (hash (create_key hash user_id name live random id rows).0)
          (create_key hash user_id name live random id rows).0)
        rows
      ≡ false
    → resolve hash
        (create_key hash user_id name live random id rows).0
        (create_key hash user_id name live random id rows).1
      ≡ some user_id
unfolding create_key resolve
create_key-resolve hash user_id name live random id rows fresh =
    let token = join (if live then live_prefix else test_prefix) random in
    rw (
      has_prefix live random,
      find-append_last (is_match (hash token) token) rows (new_key hash user_id name token id) fresh
          (is_match-new_key hash user_id name token id),
    )

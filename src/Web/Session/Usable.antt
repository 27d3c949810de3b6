-- ===== src/Web/Session/Usable.antt =====
-- What `accessToken` answers, and what it leaves in the browser.
use text.Mathlib.Text.{◌==◌}
use riskrail.Base.{
  ◌≡◌, refl, ap, ◌∙◌, ℕ, true, false, ◌&&◌, ◌||◌, String, Option, none, some, ◌>>=◌, lookup-insert,
  lookup-delete_key, is_some, Option-cases, Bool-cases, inl, inr, arith, if◌then◌else◌,
}
use riskrail.Base.Text.{is_empty}
use riskrail.Sdk.Client.{AuthTokens}
use riskrail.Web.Session.{
  Browser, access_key, refresh_key, address_key, read, write, sign_out, session_address, is_given,
  has_session, settle, renew, is_usable, access_token,
}

read-write :
    (k key : String) (v : Option String) (b : Browser)
    → read k (write key v b)
      ≡ (if b.readable && (b.writable key v && key == k) then v else read k b)
unfolding read write
read-write k key none b = ground (arith, lookup-delete_key key k b.store)
read-write k key (some value) b = ground (arith, lookup-insert key k value b.store)

same-write :
    (key : String) (v : Option String) (b : Browser)
    → ((write key v b).readable ≡ b.readable) × ((write key v b).writable ≡ b.writable)
unfolding write
same-write key none b = elim (Bool-cases (b.writable key none)) [
  | inl t ↦ rw t (refl, refl)
  | inr t ↦ rw t (refl, refl)
]
same-write key (some value) b = elim (Bool-cases (b.writable key (some value))) [
  | inl t ↦ rw t (refl, refl)
  | inr t ↦ rw t (refl, refl)
]

-- what is given back is from a storage that can be read
read-readable : (key : String) (b : Browser) → is_some (read key b) ≡ true → b.readable ≡ true
unfolding read
read-readable key b h = ground (arith, h)

-- after a sign-out, or a refresh that failed, nothing is stored, if the storage takes removals
pub read-sign_out :
    (b : Browser)
    → ((key : String) → b.writable key none ≡ true)
    → (read access_key (sign_out b) ≡ none)
      × ((read refresh_key (sign_out b) ≡ none) × (read address_key (sign_out b) ≡ none))
unfolding sign_out
read-sign_out b removes =
    let one = write access_key none b in
    let two = write refresh_key none one in
    let same_one = same-write access_key none b in
    let same_two = same-write refresh_key none one in
    let writable_one : one.writable refresh_key none ≡ true =
      ap (λ f. f refresh_key none) same_one.1 ∙ removes refresh_key in
    let writable_two : two.writable address_key none ≡ true =
      ap (λ f. f address_key none) (same_two.1 ∙ same_one.1) ∙ removes address_key in
    ground (
      arith,
      same_one.0,
      same_two.0,
      writable_one,
      writable_two,
      removes access_key,
      read-write access_key address_key none two,
      read-write access_key refresh_key none one,
      read-write access_key access_key none b,
      read-write refresh_key address_key none two,
      read-write refresh_key refresh_key none one,
      read-write address_key address_key none two,
      read-readable access_key b,
      read-readable refresh_key one,
      read-readable address_key two,
    )

-- after a renewal
read-settle :
    (renewed : AuthTokens) (b : Browser)
    → b.readable ≡ true
    → b.writable access_key (some renewed.access_token) ≡ true
    → (read access_key (settle (some renewed) b).0 ≡ some renewed.access_token)
      × (read address_key (settle (some renewed) b).0 ≡ read address_key b)
unfolding settle
read-settle renewed b h t =
    let one = write access_key (some renewed.access_token) b in
    ground (
      arith,
      h,
      t,
      read-write access_key refresh_key (some renewed.refresh_token) one,
      read-write access_key access_key (some renewed.access_token) b,
      read-write address_key refresh_key (some renewed.refresh_token) one,
      read-write address_key access_key (some renewed.access_token) b,
    )

-- the answer to the stored refresh token, if there is one
abbrev pub renewal : (String → Option AuthTokens) → Browser → Option AuthTokens
renewal post_refresh b =
    read refresh_key b >>= λ token. if is_empty token then none else post_refresh token

-- the token that is given is stored, if the storage takes it, beside the same address
access_token-stored :
    (parse : String → Option (Option ℕ)) (now : ℕ) (post_refresh : String → Option AuthTokens)
    (b : Browser) (token : String)
    → (access_token parse now post_refresh b).1 ≡ some token
    → b.writable access_key (some token) ≡ true
    → (read access_key (access_token parse now post_refresh b).0 ≡ some token)
      × (read address_key (access_token parse now post_refresh b).0 ≡ read address_key b)
unfolding access_token renew
access_token-stored parse now post_refresh b token h t =
    elim (Bool-cases (is_usable parse now (read access_key b))) [
      | inl u ↦ ground (arith, u, h)
      | inr u ↦ elim (Option-cases (read refresh_key b)) [
        | inl e ↦ ground (arith, u, h, e)
        | inr (old, e) ↦ elim (Option-cases (post_refresh old)) [
          | inl p ↦ ground (arith, u, h, e, p)
          | inr (renewed, p) ↦
              let given : renewed.access_token ≡ token = ground (arith, u, h, e, p) in
              ground (
                arith,
                u,
                h,
                e,
                p,
                given,
                read-settle renewed b (read-readable refresh_key b (ap is_some e))
                    (ap (λ g. b.writable access_key (some g)) given ∙ t),
              )
        ]
      ]
    ]

-- A token that is given, that the storage takes as the access token, and that is not expired at a
-- later time is given again then, whatever the API would answer to another refresh, and the browser's
-- storage stays as it is; the address of the session is that from before the first call.
pub access_token-stable :
    (parse : String → Option (Option ℕ)) (now later : ℕ)
    (post_refresh other : String → Option AuthTokens) (b : Browser) (token : String)
    → (access_token parse now post_refresh b).1 ≡ some token
    → b.writable access_key (some token) ≡ true
    → is_usable parse later (some token) ≡ true
    → (access_token parse later other (access_token parse now post_refresh b).0
        ≡ ((access_token parse now post_refresh b).0, some token))
      × (session_address (access_token parse now post_refresh b).0 ≡ session_address b)
unfolding session_address access_token
access_token-stable parse now later post_refresh other b token h taken usable =
    let after = (access_token parse now post_refresh b).0 in
    let stored = access_token-stored parse now post_refresh b token h taken in
    (rw (access_token, stored.0, usable) refl, stored.1)

-- A token is given exactly if the stored one is usable or the API renews the session.
access_token-answers :
    (parse : String → Option (Option ℕ)) (now : ℕ) (post_refresh : String → Option AuthTokens)
    (b : Browser)
    → is_some (access_token parse now post_refresh b).1
      ≡ (is_usable parse now (read access_key b) || is_some (renewal post_refresh b))
unfolding access_token renew settle is_usable
access_token-answers parse now post_refresh b = elim (Option-cases (read refresh_key b)) [
  | inl e ↦ ground (arith, e)
  | inr (old, e) ↦ elim (Option-cases (post_refresh old)) [
    | inl p ↦ ground (arith, e, p)
    | inr (renewed, p) ↦ ground (arith, e, p)
  ]
]

-- Where no token is given and there was one to renew it with, nothing of the session is left, if the
-- storage takes removals.
pub access_token-cleared :
    (parse : String → Option (Option ℕ)) (now : ℕ) (post_refresh : String → Option AuthTokens)
    (b : Browser)
    → (access_token parse now post_refresh b).1 ≡ none
    → is_given (read refresh_key b) ≡ true
    → ((key : String) → b.writable key none ≡ true)
    → (has_session (access_token parse now post_refresh b).0 ≡ false)
      × (session_address (access_token parse now post_refresh b).0 ≡ none)
unfolding access_token renew settle has_session session_address is_usable
access_token-cleared parse now post_refresh b h given removes =
    elim (Bool-cases (is_usable parse now (read access_key b))) [
      | inl u ↦ elim (Option-cases (read access_key b)) [
        | inl e ↦ absurd (ground (arith, u, e))
        | inr (current, e) ↦ absurd (ground (arith, u, h, e))
      ]
      | inr u ↦ elim (Option-cases (read refresh_key b)) [
        | inl e ↦ absurd (ground (arith, given, e))
        | inr (old, e) ↦ elim (Option-cases (post_refresh old)) [
          | inl p ↦ ground (arith, u, given, h, e, p, read-sign_out b removes)
          | inr (renewed, p) ↦ absurd (ground (arith, u, given, h, e, p))
        ]
      ]
    ]

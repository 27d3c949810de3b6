-- ===== src/Api/Auth/Logins.antt =====
-- One challenge and its logins, one after the other and interleaved.
use text.Mathlib.Text.{◌==◌ as str_eq}
use riskrail.Base.{
  List, [], ◌∷◌, map, keep, sym, false, ℕ, ◌≡◌, refl, ap, ◌∙◌, inl, inr, Bool, true, String, none,
  some, arith, if◌then◌else◌, Option-cases, eq_refl, eq_iff,
}
use riskrail.Api.Auth.{
  Crypto, AuthState, unauthorized, logged_in, expired, VerifyInput, failed, Commands, Login,
  deleting, looking, creating, linking, ended, check, finish, verify, link_wallet_to_user, issue,
  refresh, session_guard,
}

-- a verification that logs in has passed every check
passed :
    (crypto : Crypto) (commands : Commands) (input : VerifyInput) (s : AuthState) (user : ℕ)
    → (verify crypto commands input s).1 ≡ logged_in user
    → check crypto input s ≡ none
unfolding verify
passed crypto commands input s user done = ground arith

verify-finish :
    (crypto : Crypto) (commands : Commands) (input : VerifyInput) (s : AuthState)
    → check crypto input s ≡ none
    → verify crypto commands input s ≡ finish commands input s
unfolding verify
verify-finish crypto commands input s ok = rw (verify, ok) refl

principal :
    (crypto : Crypto) (input : VerifyInput) (s : AuthState)
    → check crypto input s ≡ none
    → crypto.is_principal input.address ≡ true
unfolding check
principal crypto input s ok = ground arith

consumed :
    (commands : Commands) (input : VerifyInput) (s : AuthState) (user : ℕ)
    → (finish commands input s).1 ≡ logged_in user
    → (finish commands input s).0.challenges input.address ≡ none
unfolding finish link_wallet_to_user
consumed commands input s user done = ground (arith, done, eq_refl input.address)

refused :
    (crypto : Crypto) (commands : Commands) (input : VerifyInput) (s : AuthState)
    → crypto.is_principal input.address ≡ true
    → s.challenges input.address ≡ none
    → (verify crypto commands input s).1 ≡ unauthorized expired
unfolding verify check
refused crypto commands input s ok gone = ground (arith, ok, gone)

-- A login consumes its challenge: after a verification that logged a user in, another one for the
-- same address is refused as expired, whatever it presents.
pub verify-once :
    (crypto : Crypto) (commands other : Commands) (input again : VerifyInput) (s : AuthState)
    (user : ℕ)
    → (verify crypto commands input s).1 ≡ logged_in user
    → again.address ≡ input.address
    → (verify crypto other again (verify crypto commands input s).0).1 ≡ unauthorized expired
verify-once crypto commands other input again s user done same =
    let ok = passed crypto commands input s user done in
    let whole = verify-finish crypto commands input s ok in
    ap (λ r. (verify crypto other again r.0).1) whole
    ∙ refused crypto other again (finish commands input s).0 (rw same (principal crypto input s ok))
        (rw same (consumed commands input s user (ap (λ r. r.1) (sym whole) ∙ done)))

own_key :
    (crypto : Crypto) (input : VerifyInput) (s : AuthState) (message : String)
    → s.challenges input.address ≡ some message
    → check crypto input s ≡ none
    → crypto.address_of_key input.public_key ≡ some input.address
unfolding check
own_key crypto input s message stored ok =
    elim (Option-cases (crypto.address_of_key input.public_key)) [
      | inl malformed ↦ ground (arith, ok, stored, malformed)
      | inr (derived, found) ↦
          let same : str_eq derived input.address ≡ true = ground (arith, ok, stored, found) in
          found ∙ ap some ((eq_iff derived input.address).0 same)
    ]

-- A verification logs in only with a key of the claimed address and its signature on the challenge
-- that is stored under that address.
pub verify-bound :
    (crypto : Crypto) (commands : Commands) (input : VerifyInput) (s : AuthState) (user : ℕ)
    → (verify crypto commands input s).1 ≡ logged_in user
    → (crypto.is_principal input.address ≡ true)
      × (crypto.address_of_key input.public_key ≡ some input.address)
      × ((message : String) × (s.challenges input.address ≡ some message)
          × (crypto.signature_ok message input.signature input.public_key ≡ true))
unfolding check
verify-bound crypto commands input s user done =
    let ok = passed crypto commands input s user done in
    elim (Option-cases (s.challenges input.address)) [
      | inl gone ↦ ground (arith, ok, gone)
      | inr (message, stored) ↦ (
        principal crypto input s ok,
        own_key crypto input s message stored ok,
        (message, stored, ground (arith, ok, stored)),
      )
    ]

-- a login of an address with an owner, after the commands that were its own
unfoldable pub ends : ℕ → Login → List Bool → Login
ends user login [] = login
ends user deleting (succeeds ∷ later) =
    let rest = ends user looking later in if succeeds then rest else ended failed
ends user looking (succeeds ∷ later) = ended (if succeeds then logged_in user else failed)
ends user creating (succeeds ∷ later) = creating
ends user (linking u) (succeeds ∷ later) = linking u
ends user (ended result) (succeeds ∷ later) = ended result

abbrev same_bool : Bool → Bool → Bool
same_bool true b = b
same_bool false true = false
same_bool false false = true

-- the entries of a schedule that are the first login's, or the second's
abbrev pub turns : Bool → List (Bool × Bool) → List Bool
turns first schedule = map (λ e. e.1) (keep (λ e. same_bool first e.0) schedule)

abbrev is_early : Login → Bool
is_early deleting = true
is_early looking = true
is_early creating = false
is_early (linking u) = false
is_early (ended result) = true

-- A session accepts the access token of a login and not its refresh token; a refresh accepts the
-- refresh token, of a user that is still there, and not the access token.
pub issue-tokens :
    (user : ℕ) (exists_user : ℕ → Bool)
    → (session_guard (some (issue user).0) ≡ some user)
      × (session_guard (some (issue user).1) ≡ none)
      × (refresh exists_user (some (issue user).0) ≡ none)
      × (refresh exists_user (some (issue user).1) ≡ (if exists_user user then some user else none))
unfolding session_guard refresh issue
issue-tokens user exists_user = (refl, refl, refl, refl)

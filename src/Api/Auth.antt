-- ===== src/Api/Auth.antt =====
-- apps/api/src/modules/auth/auth.service.ts, with the two guards that read its tokens. The state is
-- the challenges in Redis and the owners of the wallets in the database. The cryptography is a set of
-- functions; a challenge that has expired is one that is no longer in the state.
pub mod Logins
use Prim.Native.String.{◌++◌ as append}
use text.Mathlib.Text.{◌==◌ as str_eq}
use riskrail.Base.{
  ℕ, suc, ◌+◌, ◌*◌, Bool, true, false, not, ◌&&◌, ◌||◌, String, Option, none, some, List, [], ◌∷◌,
  if◌then◌else◌, is_some, Dict, lookup, insert,
}

abbrev pub nonce_ttl_seconds : ℕ
nonce_ttl_seconds = 300

-- what the service takes from the libraries, and its check of an address
pub record Crypto : Type 0 where
  pub is_principal : String → Bool
  -- `publicKeyToAddress`, which throws on a malformed key
  pub address_of_key : String → Option String
  pub signature_ok : (message signature public_key : String) → Bool

pub record AuthState : Type 0 where
  -- the challenge under each address
  pub challenges : String → Option String
  -- the owner of each wallet, and the users created so far
  pub owners : String → Option ℕ
  pub users : ℕ

pub data AuthError : Type 0 where
  bad_address expired malformed_key wrong_key bad_signature not_refresh no_user : AuthError

pub data AuthResult : Type 0 where
  unauthorized : AuthError → AuthResult
  logged_in : (user : ℕ) → AuthResult
  -- a command of Redis or of the database failed
  failed : AuthResult

abbrev pub put : String → Option String → (String → Option String) → String → Option String
put address v challenges k = if str_eq address k then v else challenges k

-- the text that the wallet signs
unfoldable pub challenge_message : (domain address nonce issued_at : String) → String
challenge_message domain address nonce issued_at = append "Rivisk sign-in\n\nDomain: " (
    append domain (
      append "\nAddress: " (
        append address (
          append "\nNonce: " (
            append nonce (
              append "\nIssued At: " (
                append issued_at
                  "\n\nSigning this proves you control the address. It authorises read-only\nanalytics and alert settings. It does not move funds or approve a\ntransaction.")))))))

-- `createChallenge`: `none` is the refusal of the address
unfoldable pub create_challenge :
    Crypto → (domain address nonce issued_at : String) → AuthState → Option (AuthState × String)
create_challenge crypto domain address nonce issued_at s =
    let message = challenge_message domain address nonce issued_at in
    if crypto.is_principal address
    then some (record s { challenges = put address (some message) s.challenges }, message)
    else none

pub record VerifyInput : Type 0 where
  pub address : String
  pub public_key : String
  pub signature : String

-- `verify` up to the deletion: what it reads, and what it then decides
unfoldable pub check : Crypto → VerifyInput → AuthState → Option AuthError
check crypto input s =
    if not (crypto.is_principal input.address)
    then some bad_address
    else elim (s.challenges input.address) [
      | none ↦ some expired
      | some message ↦ elim (crypto.address_of_key input.public_key) [
        | none ↦ some malformed_key
        | some derived ↦
            if not (str_eq derived input.address)
            then some wrong_key
            else if crypto.signature_ok message input.signature input.public_key
            then none
            else some bad_signature
      ]
    ]

abbrev put_owner : String → ℕ → (String → Option ℕ) → String → Option ℕ
put_owner address user owners k = if str_eq address k then some user else owners k

-- `redis.del` of the challenge
abbrev delete_challenge : String → AuthState → AuthState
delete_challenge address s = record s { challenges = put address none s.challenges }

-- `prisma.user.create`
abbrev create_user : AuthState → AuthState × ℕ
create_user s = (record s { users = suc s.users }, s.users)

-- `prisma.wallet.upsert`
abbrev upsert_owner : String → ℕ → AuthState → AuthState
upsert_owner address user s = record s { owners = put_owner address user s.owners }

-- which of the commands from the deletion on succeed; one that fails ends the request
pub record Commands : Type 0 where
  pub deletes : Bool
  pub finds : Bool
  pub creates : Bool
  pub upserts : Bool

-- `linkWalletToUser`, where no other request comes between its commands
unfoldable pub link_wallet_to_user : Commands → String → AuthState → AuthState × AuthResult
link_wallet_to_user commands address s =
    if not commands.finds then (s, failed) else elim (s.owners address) [
      | some user ↦ (s, logged_in user)
      | none ↦
          let (s', user) = create_user s in
          if not commands.creates
          then (s, failed)
          else if not commands.upserts
          then (s', failed)
          else (upsert_owner address user s', logged_in user)
    ]

-- `verify` from the deletion on, where no other request comes between
unfoldable pub finish : Commands → VerifyInput → AuthState → AuthState × AuthResult
unfolding link_wallet_to_user
finish commands input s =
    if commands.deletes
    then link_wallet_to_user commands input.address (delete_challenge input.address s)
    else (s, failed)

unfoldable pub verify : Crypto → Commands → VerifyInput → AuthState → AuthState × AuthResult
unfolding check finish
verify crypto commands input s = elim (check crypto input s) [
  | some e ↦ (s, unauthorized e)
  | none ↦ finish commands input s
]

-- where a login that has passed the checks stands between its commands
pub data Login : Type 0 where
  deleting looking creating : Login
  linking : (user : ℕ) → Login
  ended : AuthResult → Login

-- the next command of a login, which succeeds or fails
unfoldable pub login_step : String → (succeeds : Bool) → Login → AuthState → AuthState × Login
login_step address succeeds (ended result) s = (s, ended result)
login_step address false deleting s = (s, ended failed)
login_step address false looking s = (s, ended failed)
login_step address false creating s = (s, ended failed)
login_step address false (linking user) s = (s, ended failed)
login_step address true deleting s = (delete_challenge address s, looking)
login_step address true looking s = elim (s.owners address) [
  | some user ↦ (s, ended (logged_in user))
  | none ↦ (s, creating)
]
login_step address true creating s = let (s', user) = create_user s in (s', linking user)
login_step address true (linking user) s = (upsert_owner address user s, ended (logged_in user))

-- Two logins of one address whose commands interleave: each entry says whether the first of them
-- has its turn, and whether its command succeeds.
unfoldable pub run_logins :
    String → List (Bool × Bool) → Login → Login → AuthState → AuthState × Login × Login
unfolding login_step
run_logins address [] a b s = (s, a, b)
run_logins address ((is_first, succeeds) ∷ schedule) a b s =
    let (s_a, a') = login_step address succeeds a s in
    let (s_b, b') = login_step address succeeds b s in
    let first = run_logins address schedule a' b s_a in
    let second = run_logins address schedule a b' s_b in if is_first then first else second

-- a token's claims
pub data TokenType : Type 0 where
  access refresh_token : TokenType

pub record Claims : Type 0 where
  pub typ : TokenType
  pub sub : Option ℕ

-- `issue`: the claims of the two tokens of a user
unfoldable pub issue : ℕ → Claims × Claims
issue user =
    (record { typ = access; sub = some user }, record { typ = refresh_token; sub = some user })

-- `refresh`, for a token whose signature, issuer, audience and age were accepted, or not: the user
-- that new tokens are issued to
unfoldable pub refresh : (exists_user : ℕ → Bool) → Option Claims → Option ℕ
refresh exists_user none = none
refresh exists_user (some claims) = elim claims.typ [
  | access ↦ none
  | refresh_token ↦ elim claims.sub [
    | none ↦ none
    | some user ↦ if exists_user user then some user else none
  ]
]

-- `JwtAuthGuard`, and `AccountAuthGuard` for a token without a key's prefix
unfoldable pub session_guard : Option Claims → Option ℕ
session_guard none = none
session_guard (some claims) = elim claims.typ [ refresh_token ↦ none | access ↦ claims.sub ]

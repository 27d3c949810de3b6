-- ===== src/Api/Tests.antt =====
-- Tests of the services, and their theorems on concrete requests.
use text.Mathlib.Text.{◌==◌ as str_eq}
use riskrail.Base.{ℕ, ◌≡◌, refl, Bool, true, false, String, Option, none, some, List, [], ◌∷◌, map}
use riskrail.Api.Chainhook.{
  AffectedWallets, RegistryConfirmations, SnapshotRow, ingest, confirm_attestations,
}
use riskrail.Api.Chainhook.Settled.{settle, confirm_attestations-eq-map}
use riskrail.Api.RateLimit.{RateLimitOptions, Request, Arrival}
use riskrail.Api.Auth.{
  Crypto, AuthState, unauthorized, logged_in, expired, VerifyInput, Commands, verify, run_logins,
  deleting, ended,
}
use riskrail.Api.Auth.Logins.{verify-once, ends, turns}

abbrev row : String → Option ℕ → SnapshotRow
row tx snapshot_id = record { id = tx; onchain_tx_id = some tx; onchain_snapshot_id = snapshot_id }

abbrev rows : List SnapshotRow
rows = row "0xaa" (some 1) ∷ row "bb" none ∷ row "cc" (some 3) ∷ []

abbrev registry : RegistryConfirmations
registry = record {
  confirmed =
      record { tx_id = "aa"; snapshot_id = 7 } ∷ record { tx_id = "bb"; snapshot_id = 8 } ∷ [];
  rolled_back = "aa" ∷ "cc" ∷ [];
}

reorganised :
    (confirm_attestations registry rows).0
    ≡ row "0xaa" (some 7) ∷ row "bb" (some 8) ∷ row "cc" none ∷ []
unfolding confirm_attestations riskrail.Api.Chainhook.has_tx
reorganised = refl

confirm_attestations-eq-map_example :
    (confirm_attestations registry rows).0 ≡ map (settle registry) rows
confirm_attestations-eq-map_example = confirm_attestations-eq-map registry rows

abbrev affected : AffectedWallets
affected = record { addresses = "SP1" ∷ "SP2" ∷ []; block_height = some 9; reorg = false }

abbrev anyone : String → Bool
anyone s = true

abbrev crypto : Crypto
crypto = record {
  is_principal = anyone;
  address_of_key = λ key. some key;
  signature_ok = λ message signature key. str_eq message signature;
}

abbrev state : AuthState
state = record { challenges = λ address. some "challenge"; owners = λ address. none; users = 4 }

abbrev request : VerifyInput
request = record { address = "SP1"; public_key = "SP1"; signature = "challenge" }

abbrev all_succeed : Commands
all_succeed = record { deletes = true; finds = true; creates = true; upserts = true }

first_login : (verify crypto all_succeed request state).1 ≡ logged_in 4
unfolding verify
first_login = refl

verify-once_example :
    (verify crypto all_succeed request (verify crypto all_succeed request state).0).1
    ≡ unauthorized expired
verify-once_example =
    verify-once crypto all_succeed all_succeed request request state 4 first_login refl

-- each login has its turns between those of the other
abbrev interleaved : List (Bool × Bool)
interleaved =
    (true, true)
    ∷ (false, true)
    ∷ (true, true)
    ∷ (false, true)
    ∷ (true, true)
    ∷ (false, true)
    ∷ (true, true)
    ∷ (false, true)
    ∷ []

abbrev owned : AuthState
owned = record { challenges = λ address. some "challenge"; owners = λ address. some 3; users = 4 }

both_log_in : ends 3 deleting (turns false interleaved) ≡ ended (logged_in 3)
unfolding ends
both_log_in = refl

-- a wallet without an owner: each of the two logins creates a user
two_users :
    let (s', a, b) = run_logins "SP1" interleaved deleting deleting state in
    (a ≡ ended (logged_in 4)) × (b ≡ ended (logged_in 5))
unfolding run_logins
two_users = (refl, refl)

abbrev options : RateLimitOptions
options = record { limit = 2; window_seconds = 60 }

abbrev at : ℕ → Request
at now = record { route = some "/v1/portfolios"; handler = "get"; ip = none; now = now }

abbrev burst : List Arrival
burst =
    record { request = at 120; reachable = true }
    ∷ record { request = at 130; reachable = false }
    ∷ record { request = at 179; reachable = true }
    ∷ []

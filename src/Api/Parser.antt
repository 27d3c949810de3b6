-- ===== src/Api/Parser.antt =====
-- apps/api/src/modules/chainhook/chainhook.parser.ts: the wallets and the confirmations that a
-- delivery names. The expression for principals is an argument, which gives the accounts of a text
-- in their order; a block's height and a transaction are what JSON holds.
pub mod Mentions
mod Tests
use Prim.Native.Char.{code}
use Prim.Native.String.{count}
use text.Mathlib.Text.{◌==◌}
use riskrail.Base.{
  ℕ, zero, suc, ◌-◌, max, Bool, true, false, not, ◌&&◌, ◌||◌, String, Option, none, some, ◌>>=◌,
  List, [], ◌∷◌, ◌++◌, map, keep, ◌==◌ as eqb, leb, is_some, or_default, if◌then◌else◌,
}
use riskrail.Base.Text.{to_lower, trim, is_empty, distinct}
use riskrail.Base.Decimal.{of_decimal}
use riskrail.Base.Hex.{hex_digit}
use riskrail.Value.{
  Value, bool, str, array, object, Items, nil, cons, Fields, end, field, get_field,
}
use riskrail.Api.Chainhook.{AffectedWallets, PublishedSnapshot, RegistryConfirmations}

pub record ChainhookBlock : Type 0 where
  pub index : Option ℕ
  pub transactions : List Value

pub record Blocks : Type 0 where
  pub apply : Option (List ChainhookBlock)
  pub rollback : Option (List ChainhookBlock)

pub record ChainhookPayload : Type 0 where
  pub top : Blocks
  pub event : Option Blocks

-- `a ?? b`
abbrev first_given {ℓ} : {A : Type ℓ} → Option A → Option A → Option A
first_given none b = b
first_given (some a) b = some a

-- `blocks`
unfoldable pub apply_of : ChainhookPayload → List ChainhookBlock
apply_of payload = or_default (first_given (payload.event >>= λ e. e.apply) payload.top.apply) []

unfoldable pub rollback_of : ChainhookPayload → List ChainhookBlock
rollback_of payload =
    or_default (first_given (payload.event >>= λ e. e.rollback) payload.top.rollback) []

module _ (principals : String → List String) where
  -- what `collectPrincipals` adds, in its order
  unfoldable mutual
    pub collect_principals : Value → List String
    collect_principals (str s) = principals s
    collect_principals (array xs) = collect_items xs
    collect_principals (object fs) = collect_fields fs
    collect_principals _ = []

    pub collect_items : Items → List String
    collect_items nil = []
    collect_items (cons x xs) = collect_principals x ++ collect_items xs

    pub collect_fields : Fields → List String
    collect_fields end = []
    collect_fields (field k v fs) = collect_principals v ++ collect_fields fs

  unfoldable pub collect_all : List Value → List String
  unfolding collect_principals
  collect_all [] = []
  collect_all (tx ∷ txs) = collect_principals tx ++ collect_all txs

  unfoldable pub collect_blocks : List ChainhookBlock → List String
  unfolding collect_all
  collect_blocks [] = []
  collect_blocks (b ∷ bs) = collect_all b.transactions ++ collect_blocks bs

  -- the greatest height of the blocks, where one has a height
  unfoldable pub greatest_index : Option ℕ → List ChainhookBlock → Option ℕ
  greatest_index height [] = height
  greatest_index height (b ∷ bs) =
      greatest_index
        (elim b.index [
          | none ↦ height
          | some n ↦ elim height [ none ↦ some n | some m ↦ some (max m n) ]
        ])
        bs

  abbrev not_nil : List ChainhookBlock → Bool
  not_nil [] = false
  not_nil (b ∷ bs) = true

  unfoldable pub extract_affected : ChainhookPayload → AffectedWallets
  unfolding distinct collect_blocks greatest_index apply_of rollback_of
  extract_affected payload = record {
    addresses =
        distinct (collect_blocks (apply_of payload) ++ collect_blocks (rollback_of payload));
    block_height = greatest_index none (apply_of payload);
    reorg = not_nil (rollback_of payload);
  }

-- `text.replace(/^0x/, '')`
abbrev pub without_0x : String → String
without_0x (String.◌∷◌ c (String.◌∷◌ d s)) =
    if eqb (code c) 48 && eqb (code d) 120 then s else String.◌∷◌ c (String.◌∷◌ d s)
without_0x s = s

unfoldable pub normalize_tx_id : String → String
unfolding to_lower
normalize_tx_id s = without_0x (to_lower s)

abbrev pub all_hex : String → Bool
unfolding hex_digit
all_hex String.[] = true
all_hex (String.◌∷◌ c s) = is_some (hex_digit c) && all_hex s

-- `/^(0x)?[0-9a-fA-F]{64}$/`
unfoldable pub is_tx_hash : String → Bool
unfolding all_hex
is_tx_hash s = eqb (count (without_0x s)) 64 && all_hex (without_0x s)

unfoldable pub hash_of : Value → Option String
unfolding is_tx_hash normalize_tx_id
hash_of (str s) = if is_tx_hash s then some (normalize_tx_id s) else none
hash_of _ = none

abbrev member_of : String → Value → Value
unfolding get_field
member_of k (object fs) = get_field k fs
member_of k _ = riskrail.Value.undefined

-- `txHash`
unfoldable pub tx_hash : Value → Option String
unfolding member_of hash_of
tx_hash tx = hash_of (member_of "hash" (member_of "transaction_identifier" tx))

abbrev is_true : Value → Bool
is_true (bool b) = b
is_true _ = false

abbrev is_success_text : Value → Bool
is_success_text (str s) = s == "success"
is_success_text _ = false

-- `meta.success === true || meta.status === 'success'`
unfoldable pub succeeded : Value → Bool
unfolding member_of
succeeded meta = is_true (member_of "success" meta) || is_success_text (member_of "status" meta)

unfoldable pub repr_of : Value → Option String
unfolding get_field
repr_of (str s) = some s
repr_of (object fs) = elim (get_field "repr" fs) [ str s ↦ some s | _ ↦ none ]
repr_of _ = none

-- the digits of a text that goes on with a bracket and ends there
abbrev before_bracket : String → Option String
before_bracket String.[] = none
before_bracket (String.◌∷◌ c String.[]) = if eqb (code c) 41 then some String.[] else none
before_bracket (String.◌∷◌ c (String.◌∷◌ d s)) =
    before_bracket (String.◌∷◌ d s) >>= λ digits. some (String.◌∷◌ c digits)

-- `text` after a prefix that it begins with
abbrev after : String → String → Option String
after String.[] s = some s
after (String.◌∷◌ c p) String.[] = none
after (String.◌∷◌ c p) (String.◌∷◌ d s) = if eqb (code c) (code d) then after p s else none

-- `/^\(ok u(\d+)\)$/` and the number of its digits
unfoldable pub ok_number : String → Option ℕ
unfolding of_decimal
ok_number s = after "(ok u" s >>= λ rest.
    before_bracket rest >>= λ digits. (if is_empty digits then none else of_decimal digits)

-- `snapshotIdFromResult`
unfoldable pub snapshot_id_of : Value → Option ℕ
unfolding member_of succeeded repr_of ok_number
snapshot_id_of tx =
    let meta = member_of "metadata" tx in
    if succeeded meta
    then (repr_of (member_of "result" meta) >>= λ repr. ok_number (trim repr))
    else none

-- The height of a confirmation, which the service does not read, is left out.
unfoldable pub confirmation : Value → List PublishedSnapshot
unfolding tx_hash snapshot_id_of
confirmation tx = elim (tx_hash tx) [
  | none ↦ []
  | some id ↦ elim (snapshot_id_of tx) [
    | none ↦ []
    | some n ↦ if is_empty id then [] else (record { tx_id = id; snapshot_id = n }) ∷ []
  ]
]

unfoldable pub confirmations : List Value → List PublishedSnapshot
unfolding confirmation
confirmations [] = []
confirmations (tx ∷ txs) = confirmation tx ++ confirmations txs

unfoldable pub all_confirmations : List ChainhookBlock → List PublishedSnapshot
unfolding confirmations
all_confirmations [] = []
all_confirmations (b ∷ bs) = confirmations b.transactions ++ all_confirmations bs

abbrev hashes : List Value → List String
unfolding tx_hash
hashes [] = []
hashes (tx ∷ txs) = elim (tx_hash tx) [ none ↦ hashes txs | some id ↦ id ∷ hashes txs ]

unfoldable pub rolled_back_in : List ChainhookBlock → List String
unfolding hashes
rolled_back_in [] = []
rolled_back_in (b ∷ bs) = hashes b.transactions ++ rolled_back_in bs

unfoldable pub extract_registry_confirmations : ChainhookPayload → RegistryConfirmations
unfolding all_confirmations rolled_back_in distinct apply_of rollback_of
extract_registry_confirmations payload = record {
  confirmed = all_confirmations (apply_of payload);
  rolled_back = distinct (rolled_back_in (rollback_of payload));
}

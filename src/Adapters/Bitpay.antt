-- ===== src/Adapters/Bitpay.antt =====
-- packages/adapter-bitpay/src/index.ts. The contract's answers are an argument. Stream identifiers
-- and block heights are natural numbers; `none` is what a text that is no number gives.
pub mod Streams
use Prim.Native.String.{◌++◌ as append}
use text.Mathlib.Text.{◌==◌ as str_eq}
use riskrail.Base.{
  ℕ, ◌-◌, ◌*◌, ◌/◌, Bool, true, false, not, ◌||◌, String, Option, none, some, ◌>>=◌, List, [], ◌∷◌,
  ◌++◌, ltb, leb, ◌==◌, keep, traverse, or_default, if◌then◌else◌,
}
use riskrail.Base.Decimal.{to_decimal, of_decimal}
use riskrail.Base.Int.{ℤ, pos, negsuc, min_ℤ, max_ℤ}
use riskrail.Value.{
  Value, undefined, null, bool, number, bigint, str, array, object, Fields, end, field, get_field,
  elements,
}
use riskrail.Position.{
  Accessibility, NormalizedPosition, PositionAsset, PositionType, ProtocolMetadata, Role,
}
use riskrail.Stacks.Clarity.{unwrap_clarity}
use riskrail.Adapters.Decode.{
  without_u, as_uint_string, as_string, max_safe_integer, Argument, principal_cv, uint_cv,
  CallReadOnly, AdapterContext, source_of,
}

pub record BitPayStream : Type 0 where
  pub sender : String
  pub recipient : String
  pub total_amount_atomic : String
  pub withdrawn_amount_atomic : String
  pub vested_amount_atomic : String
  pub start_block : Option ℕ
  pub end_block : Option ℕ
  pub cancelled : Bool

abbrev natural : ℤ → Option ℕ
natural (pos n) = some n
natural (negsuc n) = none

-- `asNumber`, which throws for what is neither a number nor a text
unfoldable pub as_number : Value → Option (Option ℕ)
unfolding unwrap_clarity of_decimal
as_number v = elim (unwrap_clarity v) [
  | bigint n ↦ some (natural n)
  | number n ↦ some (natural n)
  | str s ↦ some (of_decimal (without_u s))
  | _ ↦ none
]

-- `asBoolean`
unfoldable pub as_boolean : Value → Bool
unfolding unwrap_clarity
as_boolean v = elim (unwrap_clarity v) [
  | bool b ↦ b
  | str s ↦ str_eq s "true"
  | undefined ↦ false
  | null ↦ false
  | number n ↦ elim n [ pos k ↦ not (k == 0) | negsuc k ↦ true ]
  | bigint n ↦ elim n [ pos k ↦ not (k == 0) | negsuc k ↦ true ]
  | array xs ↦ true
  | object fs ↦ true
]

abbrev pub safe_numbers : List (Option ℕ) → List ℕ
safe_numbers [] = []
safe_numbers (none ∷ rest) = safe_numbers rest
safe_numbers (some n ∷ rest) =
    if leb n max_safe_integer then n ∷ safe_numbers rest else safe_numbers rest

-- `decodeUintList`
unfoldable pub decode_uint_list : Value → Option (List ℕ)
unfolding unwrap_clarity as_number
decode_uint_list v = elim (unwrap_clarity v) [
  | array xs ↦ traverse as_number (elements xs) >>= λ ns. some (safe_numbers ns)
  | _ ↦ some []
]

-- `decodeOptionalTuple`
unfoldable pub decode_optional_tuple : Value → Option Fields
unfolding unwrap_clarity
decode_optional_tuple v = elim (unwrap_clarity v) [ object fs ↦ some fs | _ ↦ none ]

-- `[...new Set(ids)]`
unfoldable pub unique : List ℕ → List ℕ
unique [] = []
unique (n ∷ ns) = n ∷ keep (λ k. not (k == n)) (unique ns)

abbrev pub insert_sorted : ℕ → List ℕ → List ℕ
insert_sorted n [] = n ∷ []
insert_sorted n (k ∷ ks) = let rest = insert_sorted n ks in if leb n k then n ∷ k ∷ ks else k ∷ rest

-- `ids.sort((a, b) => a - b)`
unfoldable pub sort : List ℕ → List ℕ
sort [] = []
sort (n ∷ ns) = insert_sorted n (sort ns)

-- The reader's contract, and the sender it was configured with.
pub record ReaderConfig : Type 0 where
  pub call_read_only : CallReadOnly
  pub contract_id : String
  pub sender_address : Option String

unfoldable pub get_stream_ids : ReaderConfig → String → Option (List ℕ)
unfolding decode_uint_list unique sort
get_stream_ids config address =
    let sender = some (or_default config.sender_address address) in
    config.call_read_only config.contract_id "get-sender-streams" (principal_cv address ∷ []) sender
    >>= λ sent.
        config.call_read_only config.contract_id "get-recipient-streams" (principal_cv address ∷ [])
          sender
        >>= λ received. decode_uint_list sent >>= λ a.
            decode_uint_list received >>= λ b. some (sort (unique (a ++ b)))

unfoldable pub decode_stream : Fields → Value → Option BitPayStream
unfolding get_field as_string as_uint_string as_number as_boolean unwrap_clarity
decode_stream stream vested_json = as_string (get_field "sender" stream) >>= λ sender.
    as_string (get_field "recipient" stream) >>= λ recipient.
    as_uint_string (get_field "amount" stream) >>= λ total.
    as_uint_string (get_field "withdrawn" stream) >>= λ withdrawn.
    as_uint_string (unwrap_clarity vested_json) >>= λ vested.
    as_number (get_field "start-block" stream) >>= λ start_block.
    as_number (get_field "end-block" stream) >>= λ end_block. some (record {
      sender = sender;
      recipient = recipient;
      total_amount_atomic = total;
      withdrawn_amount_atomic = withdrawn;
      vested_amount_atomic = vested;
      start_block = start_block;
      end_block = end_block;
      cancelled = as_boolean (get_field "cancelled" stream);
    })

-- `none` where it throws, `some none` for the `null` of a stream that does not exist
unfoldable pub get_stream : ReaderConfig → ℕ → Option (Option BitPayStream)
unfolding decode_optional_tuple decode_stream
get_stream config id =
    config.call_read_only config.contract_id "get-stream" (uint_cv id ∷ []) config.sender_address
    >>= λ stream_json.
        config.call_read_only config.contract_id "get-vested-amount" (uint_cv id ∷ [])
          config.sender_address
        >>= λ vested_json. elim (decode_optional_tuple stream_json) [
          | none ↦ some none
          | some stream ↦ decode_stream stream vested_json >>= λ s. some (some s)
        ]

-- the amounts of a stream as numbers: `none` where `BigInt` throws
pub record Amounts : Type 0 where
  pub total : ℕ
  pub withdrawn : ℕ
  pub vested : ℕ

unfoldable pub amounts_of : BitPayStream → Option Amounts
unfolding of_decimal
amounts_of stream = of_decimal stream.total_amount_atomic >>= λ total.
    of_decimal stream.withdrawn_amount_atomic >>= λ withdrawn.
    of_decimal stream.vested_amount_atomic >>= λ vested.
    some (record { total = total; withdrawn = withdrawn; vested = vested })

-- `total > withdrawn ? total - withdrawn : 0n`
unfoldable pub outstanding : Amounts → ℕ
outstanding a = if ltb a.withdrawn a.total then a.total - a.withdrawn else 0

unfoldable pub currently_withdrawable : Amounts → ℕ
currently_withdrawable a = if ltb a.withdrawn a.vested then a.vested - a.withdrawn else 0

-- of a recipient; the division is of a live stream, whose rest is not 0
unfoldable pub liquid_bps : Amounts → ℤ
unfolding outstanding currently_withdrawable
liquid_bps a = pos (currently_withdrawable a * 10000 / outstanding a)

abbrev pub metadata : String → ProtocolMetadata
metadata contract_id = record {
  id = "bitpay";
  name = "BitPay";
  protocol_type = "streaming-payments";
  website = none;
  contracts = contract_id ∷ [];
}

abbrev pub is_recipient : String → BitPayStream → Bool
is_recipient address stream = str_eq address stream.recipient

unfoldable pub claim_assets : Bool → ℕ → List PositionAsset
claim_assets true amount =
    (record {
      asset_id = "sBTC";
      symbol = "sBTC";
      amount_atomic = to_decimal amount;
      decimals = 8;
      value_usd = none;
      role = Role.locked;
      protocol_asset_id = none;
    })
    ∷ []
claim_assets false amount = []

unfoldable pub accessibility_of : Bool → BitPayStream → Amounts → Option Accessibility
unfolding liquid_bps
accessibility_of true stream a = some (record {
  liquid_bps = max_ℤ (pos 0) (min_ℤ (pos 10000) (liquid_bps a));
  locked_until_block = stream.end_block;
})
accessibility_of false stream a = none

abbrev height_value : Option ℕ → Value
height_value none = undefined
height_value (some n) = number (pos n)

unfoldable pub details : String → ℕ → BitPayStream → Amounts → Fields
unfolding to_decimal outstanding currently_withdrawable
details address id stream a = field "streamId" (number (pos id)) (
    field "relationship" (str (if is_recipient address stream then "recipient" else "sender")) (
      field "sender" (str stream.sender) (
        field "recipient" (str stream.recipient) (
          field "cancelled" (bool stream.cancelled) (
            field "totalAmountAtomic" (str (to_decimal a.total)) (
              field "withdrawnAmountAtomic" (str (to_decimal a.withdrawn)) (
                field "vestedAmountAtomic" (str (to_decimal a.vested)) (
                  field "withdrawableAmountAtomic" (str (to_decimal (currently_withdrawable a))) (
                    field "startBlock" (height_value stream.start_block)
                      (field "endBlock" (height_value stream.end_block) end))))))))))

unfoldable pub stream_position :
    String → String → AdapterContext → ℕ → BitPayStream → Amounts → NormalizedPosition
unfolding claim_assets accessibility_of outstanding details
stream_position address contract_id context id stream a = record {
  id = append "bitpay:" (append (to_decimal id) (append ":" address));
  owner = address;
  protocol = metadata contract_id;
  position_type = PositionType.stream;
  assets = claim_assets (is_recipient address stream) (outstanding a);
  value_usd = none;
  collateral_of = none;
  debt_of = none;
  liquidation = none;
  lending_of = none;
  liquidity_of = none;
  accessibility = accessibility_of (is_recipient address stream) stream a;
  source = source_of context;
  metadata = details address id stream a;
}

-- the body of the loop: `none` where it throws, `some []` where it continues
unfoldable pub stream_positions :
    String → String → AdapterContext → ℕ → BitPayStream → Option (List NormalizedPosition)
unfolding amounts_of outstanding stream_position
stream_positions address contract_id context id stream = amounts_of stream >>= λ a. some (
    if stream.cancelled || outstanding a == 0
    then []
    else stream_position address contract_id context id stream a ∷ [])

unfoldable pub positions_of :
    ReaderConfig → String → AdapterContext → List ℕ → Option (List NormalizedPosition)
unfolding get_stream stream_positions
positions_of config address context [] = some []
positions_of config address context (id ∷ ids) = get_stream config id >>= λ found.
    or_default
      (found >>= λ stream. some (stream_positions address config.contract_id context id stream))
      (some [])
    >>= λ here. positions_of config address context ids >>= λ later. some (here ++ later)

-- `BitPayAdapter.getPositions`
unfoldable pub get_positions :
    ReaderConfig → String → AdapterContext → Option (List NormalizedPosition)
unfolding get_stream_ids positions_of
get_positions config address context =
    get_stream_ids config address >>= λ ids. positions_of config address context ids

-- `BitPayAdapter.supports`
unfoldable pub supports : ReaderConfig → String → Option Bool
unfolding get_stream_ids
supports config address =
    get_stream_ids config address >>= λ ids. some (elim ids [ [] ↦ false | n ∷ ns ↦ true ])

-- ===== src/Webhooks.antt =====
-- packages/webhooks/src/index.ts and packages/sdk/src/webhooks.ts: signing a payload, and the two
-- verifiers. The HMAC is a parameter that gives bytes; a time that is not written in digits counts
-- as not finite.
pub mod Agreement
pub mod Secrets
mod Tests
use Prim.Native.Char.{Char, code}
use riskrail.Base.{
  ℕ, ◌+◌, ◌-◌, ◌/◌, ◌%◌, Bool, true, false, not, ◌&&◌, ◌||◌, String, Option, none, some, ◌>>=◌,
  List, [], ◌∷◌, ltb, leb, ◌==◌, length, Dict, lookup, insert, or_default, if◌then◌else◌,
}
use riskrail.Base.Text.{trim, join, cut, split_on, is_empty}
use riskrail.Base.Decimal.{to_decimal, of_decimal}
use riskrail.Base.Hex.{to_hex, of_hex, of_hex_prefix, with_hex}

-- a key and a text give the bytes of the digest
abbrev pub Hmac : Type 0
Hmac = String → String → List ℕ

-- `${timestamp}.${body}`
unfoldable pub material : ℕ → String → String
unfolding to_decimal
material timestamp body = join (to_decimal timestamp) (join "." body)

unfoldable pub header_of : ℕ → String → String
unfolding to_decimal
header_of timestamp mac = join "t=" (join (to_decimal timestamp) (join ",v1=" mac))

-- `signPayload` of the server
unfoldable pub sign_payload : Hmac → String → String → ℕ → String
unfolding material header_of to_hex
sign_payload hmac body secret timestamp =
    header_of timestamp (to_hex (hmac secret (material timestamp body)))

-- `byte.toString(16).padStart(2, '0')`
abbrev pub byte_text : ℕ → String
byte_text b =
    if ltb b 16 then join "0" (with_hex b "") else with_hex (b / 16) (with_hex (b % 16) "")

unfoldable pub bytes_text : List ℕ → String
bytes_text [] = ""
bytes_text (b ∷ bytes) = join (byte_text b) (bytes_text bytes)

-- `signWebhookPayload` of the client library
unfoldable pub sign_webhook_payload : Hmac → String → String → ℕ → String
unfolding material header_of bytes_text
sign_webhook_payload hmac body secret timestamp =
    header_of timestamp (bytes_text (hmac secret (material timestamp body)))

pub record ParsedSignature : Type 0 where
  pub timestamp : ℕ
  pub signature : String

-- `parts[key] = value` for each pair that has a `=`
unfoldable pub collect_parts : List String → Dict String → Dict String
unfolding cut
collect_parts [] parts = parts
collect_parts (pair ∷ pairs) parts = elim (cut 61 pair) [
  | none ↦ collect_parts pairs parts
  | some kv ↦ collect_parts pairs (insert (trim kv.0) (trim kv.1) parts)
]

-- a time that is finite, and a signature that is not empty
unfoldable pub checked_parts : Option String → Option String → Option ParsedSignature
unfolding of_decimal
checked_parts timestamp_text signature_text = timestamp_text >>= λ t. of_decimal t >>= λ timestamp.
    signature_text >>= λ signature.
    (if is_empty signature
      then none
      else some (record { timestamp = timestamp; signature = signature }))

unfoldable pub parse_signature_header : String → Option ParsedSignature
unfolding split_on collect_parts lookup checked_parts
parse_signature_header header =
    let parts = collect_parts (split_on 44 header) [] in
    checked_parts (lookup "t" parts) (lookup "v1" parts)

abbrev pub same_bytes : List ℕ → List ℕ → Bool
same_bytes [] [] = true
same_bytes (a ∷ xs) (b ∷ ys) = a == b && same_bytes xs ys
same_bytes _ _ = false

-- `timingSafeEqual`, after the test of the lengths
unfoldable pub timing_safe_equal : List ℕ → List ℕ → Bool
timing_safe_equal a b = length a == length b && same_bytes a b

-- `Math.abs(a - b)`
abbrev pub time_between : ℕ → ℕ → ℕ
time_between a b = (a - b) + (b - a)

abbrev too_old : ℕ → ℕ → ℕ → Bool
too_old tolerance now timestamp = ltb 0 tolerance && ltb tolerance (time_between now timestamp)

unfoldable pub check_parsed :
    Hmac → String → ParsedSignature → String → (tolerance now_ms : ℕ) → Bool
unfolding of_hex timing_safe_equal material
check_parsed hmac raw_body parsed secret tolerance now_ms =
    if too_old tolerance (now_ms / 1000) parsed.timestamp
    then false
    else elim (of_hex parsed.signature) [
      | none ↦ false
      | some given ↦ timing_safe_equal (hmac secret (material parsed.timestamp raw_body)) given
    ]

-- `verifyWebhookSignature` of the client library
unfoldable pub verify_webhook_signature :
    Hmac → String → Option String → String → (tolerance now_ms : ℕ) → Bool
unfolding parse_signature_header check_parsed
verify_webhook_signature hmac raw_body none secret tolerance now_ms = false
verify_webhook_signature hmac raw_body (some header) secret tolerance now_ms =
    elim (parse_signature_header header) [
      | none ↦ false
      | some parsed ↦
          not (is_empty header) && check_parsed hmac raw_body parsed secret tolerance now_ms
    ]

pub data EventResult {ℓ} (E : Type ℓ) : Type ℓ where
  event : E → EventResult E
  not_verified not_json : EventResult E

-- `constructWebhookEvent`, where `parse` is `JSON.parse`
unfoldable pub construct_webhook_event {ℓ} :
    {E : Type ℓ}
    → (String → Option E)
    → Hmac
    → String
    → Option String
    → String
    → (tolerance now_ms : ℕ) → EventResult E
unfolding verify_webhook_signature
construct_webhook_event parse hmac raw_body header secret tolerance now_ms =
    if verify_webhook_signature hmac raw_body header secret tolerance now_ms
    then elim (parse raw_body) [ none ↦ not_json | some e ↦ event e ]
    else not_verified

abbrev first_of : List String → String
first_of [] = ""
first_of (s ∷ rest) = s

abbrev second_of : List String → String
second_of [] = ""
second_of (s ∷ rest) = first_of rest

-- `Object.fromEntries` of the pairs of `verifySignature`
unfoldable pub entries_of : List String → Dict String → Dict String
unfolding split_on
entries_of [] parts = parts
entries_of (pair ∷ pairs) parts =
    entries_of pairs
      (insert (trim (first_of (split_on 61 pair))) (trim (second_of (split_on 61 pair))) parts)

unfoldable pub verify_signature : Hmac → String → String → String → (tolerance now : ℕ) → Bool
unfolding split_on entries_of lookup checked_parts timing_safe_equal material of_hex_prefix
verify_signature hmac body header secret tolerance now =
    let parts = entries_of (split_on 44 header) [] in
    elim (checked_parts (lookup "t" parts) (lookup "v1" parts)) [
      | none ↦ false
      | some parsed ↦
          not (ltb tolerance (time_between now parsed.timestamp))
          && timing_safe_equal (hmac secret (material parsed.timestamp body))
              (of_hex_prefix parsed.signature)
    ]

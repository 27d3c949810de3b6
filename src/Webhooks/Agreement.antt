-- ===== src/Webhooks/Agreement.antt =====
-- What one side signs the other side accepts, and what is accepted was signed.
use Prim.Native.Char.{code}
use riskrail.Base.{
  ℕ, ◌/◌, ◌%◌, ◌<◌, ◌≡◌, refl, ap, sym, ◌∙◌, true, false, not, ◌||◌, String, some, List, [], ◌∷◌,
  ltb, leb, ◌==◌, All, lookup, insert, arith, Bool-cases, Option-cases, some_injective, inl, inr,
}
use riskrail.Base.Text.{
  trim, join, cut, split_on, is_empty, is_plain, is_space, all_chars, all_chars-implies,
  split_on-join, split_on-none, trim-none, cut-join,
}
use riskrail.Base.Decimal.{to_decimal, of_decimal, of_decimal-to_decimal, to_decimal-is_plain}
use riskrail.Base.Hex.{
  to_hex, of_hex, of_hex-to_hex, of_hex_prefix-of_hex, to_hex-is_plain, IsByte, with_hex, hex_char,
}
use riskrail.Webhooks.{
  Hmac, material, header_of, sign_payload, sign_webhook_payload, bytes_text, ParsedSignature,
  collect_parts, checked_parts, parse_signature_header, timing_safe_equal, same_bytes, time_between,
  check_parsed, verify_webhook_signature, verify_signature, entries_of, byte_text,
}

plain_without :
    (s : String) → all_chars is_plain s ≡ true → all_chars (λ c. not (code c == 44)) s ≡ true
plain_without s = all_chars-implies is_plain (λ c. not (code c == 44)) s (λ c h. ground (arith, h))

plain_whole :
    (s : String) → all_chars is_plain s ≡ true → all_chars (λ c. not (code c == 61)) s ≡ true
plain_whole s = all_chars-implies is_plain (λ c. not (code c == 61)) s (λ c h. ground (arith, h))

header_of-not_empty : (timestamp : ℕ) (mac : String) → is_empty (header_of timestamp mac) ≡ false
unfolding header_of
header_of-not_empty timestamp mac = refl

plain_trim : (s : String) → all_chars is_plain s ≡ true → trim s ≡ s
plain_trim s h =
    trim-none s (all_chars-implies is_plain (λ c. not (is_space c)) s (λ c k. ground (arith, k)) h)

-- the two pairs of a header
split_on-header :
    (timestamp : ℕ) (mac : String)
    → all_chars is_plain mac ≡ true
    → split_on 44 (header_of timestamp mac) ≡ join "t=" (to_decimal timestamp) ∷ join "v1=" mac ∷ []
unfolding header_of split_on
split_on-header timestamp mac h = rw (
  split_on-join 44 (to_decimal timestamp) (join "v1=" mac) (",")
      (plain_without (to_decimal timestamp) (to_decimal-is_plain timestamp)) refl,
  split_on-none 44 mac (plain_without mac h),
)

collect_parts-header :
    (timestamp : ℕ) (mac : String)
    → all_chars is_plain mac ≡ true
    → collect_parts (join "t=" (to_decimal timestamp) ∷ join "v1=" mac ∷ []) []
      ≡ ("t", to_decimal timestamp) ∷ ("v1", mac) ∷ []
unfolding collect_parts cut insert
collect_parts-header timestamp mac h =
    rw (plain_trim mac h, plain_trim (to_decimal timestamp) (to_decimal-is_plain timestamp))

parse_signature_header-header :
    (timestamp : ℕ) (mac : String)
    → all_chars is_plain mac ≡ true
    → is_empty mac ≡ false
    → parse_signature_header (header_of timestamp mac)
      ≡ some (record { timestamp = timestamp; signature = mac })
unfolding parse_signature_header lookup checked_parts
parse_signature_header-header timestamp mac h k =
    rw (split_on-header timestamp mac h, collect_parts-header timestamp mac h)
      (rw (of_decimal-to_decimal timestamp, k))

same_bytes_refl : (a : List ℕ) → same_bytes a a ≡ true
same_bytes_refl [] = refl
same_bytes_refl (n ∷ a) = ground (arith, same_bytes_refl a)

same_bytes→eq : (a b : List ℕ) → same_bytes a b ≡ true → a ≡ b
same_bytes→eq [] [] h = refl
same_bytes→eq [] (m ∷ b) h = absurd (ground (arith, h))
same_bytes→eq (n ∷ a) [] h = absurd (ground (arith, h))
same_bytes→eq (n ∷ a) (m ∷ b) h =
    let first : n ≡ m = ground (arith, h) in
    let rest : same_bytes a b ≡ true = ground (arith, h) in cc (first, same_bytes→eq a b rest)

pub timing_safe_equal_refl : (a : List ℕ) → timing_safe_equal a a ≡ true
unfolding timing_safe_equal
timing_safe_equal_refl a = ground (arith, same_bytes_refl a)

timing_safe_equal→eq : (a b : List ℕ) → timing_safe_equal a b ≡ true → a ≡ b
unfolding timing_safe_equal
timing_safe_equal→eq a b h = same_bytes→eq a b (ground (arith, h))

-- what the theorems rely on: a digest is a list of bytes, and is not empty
pub record IsDigest (bytes : List ℕ) : Type 0 where
  pub are_bytes : All IsByte bytes
  pub not_nil : is_empty (to_hex bytes) ≡ false

check_parsed-signed :
    (hmac : Hmac) (body secret : String) (timestamp tolerance now_ms : ℕ)
    → All IsByte (hmac secret (material timestamp body))
    → check_parsed hmac body
        (record {
          timestamp = timestamp;
          signature = to_hex (hmac secret (material timestamp body));
        })
        secret
        tolerance
        now_ms
      ≡ (leb (time_between (now_ms / 1000) timestamp) tolerance || tolerance == 0)
unfolding check_parsed
check_parsed-signed hmac body secret timestamp tolerance now_ms h =
    rw
      (
        of_hex-to_hex (hmac secret (material timestamp body)) h,
        timing_safe_equal_refl (hmac secret (material timestamp body)),
      )
      (ground arith)

verify_webhook_signature-header :
    (hmac : Hmac) (body secret : String) (timestamp tolerance now_ms : ℕ) (bytes : List ℕ)
    → IsDigest bytes
    → verify_webhook_signature hmac body
        (some (header_of timestamp (to_hex bytes)))
        secret
        tolerance
        now_ms
      ≡ check_parsed hmac body
          (record { timestamp = timestamp; signature = to_hex bytes })
          secret
          tolerance
          now_ms
unfolding verify_webhook_signature
verify_webhook_signature-header hmac body secret timestamp tolerance now_ms bytes digest = rw (
  verify_webhook_signature,
  parse_signature_header-header timestamp (to_hex bytes) (to_hex-is_plain bytes digest.are_bytes)
      digest.not_nil,
  header_of-not_empty timestamp (to_hex bytes),
)

-- The client library accepts what the server signed exactly while the time of the signature is
-- within the tolerance, or if there is no tolerance to keep.
pub verify_webhook_signature-sign_payload :
    (hmac : Hmac) (body secret : String) (timestamp tolerance now_ms : ℕ)
    → IsDigest (hmac secret (material timestamp body))
    → verify_webhook_signature hmac body
        (some (sign_payload hmac body secret timestamp))
        secret
        tolerance
        now_ms
      ≡ (leb (time_between (now_ms / 1000) timestamp) tolerance || tolerance == 0)
unfolding sign_payload
verify_webhook_signature-sign_payload hmac body secret timestamp tolerance now_ms digest =
    verify_webhook_signature-header hmac body secret timestamp tolerance now_ms
      (hmac secret (material timestamp body)) digest
    ∙ check_parsed-signed hmac body secret timestamp tolerance now_ms digest.are_bytes

entries_of-header :
    (timestamp : ℕ) (mac : String)
    → all_chars is_plain mac ≡ true
    → entries_of (join "t=" (to_decimal timestamp) ∷ join "v1=" mac ∷ []) []
      ≡ ("t", to_decimal timestamp) ∷ ("v1", mac) ∷ []
unfolding entries_of split_on insert
entries_of-header timestamp mac h = rw (
  split_on-none 61 mac (plain_whole mac h),
  split_on-none 61 (to_decimal timestamp)
      (plain_whole (to_decimal timestamp) (to_decimal-is_plain timestamp)),
  plain_trim mac h,
  plain_trim (to_decimal timestamp) (to_decimal-is_plain timestamp),
)

-- The server's own verifier accepts what the server signed exactly while the time of the signature
-- is within the tolerance.
pub verify_signature-sign_payload :
    (hmac : Hmac) (body secret : String) (timestamp tolerance now : ℕ)
    → IsDigest (hmac secret (material timestamp body))
    → verify_signature hmac body (sign_payload hmac body secret timestamp) secret tolerance now
      ≡ leb (time_between now timestamp) tolerance
unfolding verify_signature sign_payload lookup checked_parts
verify_signature-sign_payload hmac body secret timestamp tolerance now digest =
    let bytes = hmac secret (material timestamp body) in
    let plain = to_hex-is_plain bytes digest.are_bytes in
    rw
      (
        verify_signature,
        split_on-header timestamp (to_hex bytes) plain,
        entries_of-header timestamp (to_hex bytes) plain,
      )
      (rw (of_decimal-to_decimal timestamp, digest.not_nil)
        (rw
          (
            of_hex_prefix-of_hex (to_hex bytes) bytes (of_hex-to_hex bytes digest.are_bytes),
            timing_safe_equal_refl bytes,
          )
          (ground arith)))

check_parsed→eq :
    (hmac : Hmac) (body secret : String) (parsed : ParsedSignature) (tolerance now_ms : ℕ)
    → check_parsed hmac body parsed secret tolerance now_ms ≡ true
    → of_hex parsed.signature ≡ some (hmac secret (material parsed.timestamp body))
unfolding check_parsed
check_parsed→eq hmac body secret parsed tolerance now_ms h =
    elim (Option-cases (of_hex parsed.signature)) [
      | inl e ↦ absurd (ground (arith, rw e at h))
      | inr (given, e) ↦
          e
          ∙ ap some (
              sym (
                timing_safe_equal→eq (hmac secret (material parsed.timestamp body)) given
                  (ground (arith, rw e at h))))
    ]

cut-material :
    (timestamp : ℕ) (body : String)
    → cut 46 (material timestamp body) ≡ some (to_decimal timestamp, body)
unfolding material
cut-material timestamp body =
    cut-join 46 (to_decimal timestamp) body (".")
      (all_chars-implies is_plain (λ c. not (code c == 46)) (to_decimal timestamp)
        (λ c h. ground (arith, h)) (to_decimal-is_plain timestamp))
      refl

material_injective : (t u : ℕ) (a b : String) → material t a ≡ material u b → (t ≡ u) × (a ≡ b)
material_injective t u a b h =
    let parts = some_injective (sym (cut-material t a) ∙ (ap (cut 46) h ∙ cut-material u b)) in
    (
      some_injective (
          sym (of_decimal-to_decimal t)
          ∙ (ap (λ (p : String × String). of_decimal p.0) parts ∙ of_decimal-to_decimal u)),
      ap (λ (p : String × String). p.1) parts,
    )

-- A digest that the server made for one body and time cannot be used for another body or under
-- another time, as long as the two signed texts do not have the same digest by accident.
pub verify_webhook_signature-no_replay :
    (hmac : Hmac) (secret body other : String) (timestamp later tolerance now_ms : ℕ)
    → IsDigest (hmac secret (material timestamp body))
    → (hmac secret (material timestamp body) ≡ hmac secret (material later other)
        → material timestamp body ≡ material later other)
    → verify_webhook_signature hmac other
        (some (header_of later (to_hex (hmac secret (material timestamp body)))))
        secret
        tolerance
        now_ms
      ≡ true
    → (timestamp ≡ later) × (body ≡ other)
verify_webhook_signature-no_replay hmac secret body other timestamp later tolerance now_ms digest
      apart h =
    let bytes = hmac secret (material timestamp body) in
    let accepted =
      check_parsed→eq hmac other secret (record { timestamp = later; signature = to_hex bytes })
        tolerance now_ms
        (sym (verify_webhook_signature-header hmac other secret later tolerance now_ms bytes digest)
          ∙ h) in
    material_injective timestamp later body other
      (apart (some_injective (sym (of_hex-to_hex bytes digest.are_bytes) ∙ accepted)))

join-byte_text :
    (b : ℕ) (rest : String)
    → IsByte b
    → join (byte_text b) rest ≡ with_hex (b / 16) (with_hex (b % 16) rest)
join-byte_text b rest h =
    let (c, c_eq, c_digit, c_plain) = hex_char (b / 16) (omega (arith, h)) in
    let (d, d_eq, d_digit, d_plain) = hex_char (b % 16) (omega arith) in
    elim (Bool-cases (ltb b 16)) [
      | inl e ↦
          let below : b < 16 = ground (arith, e) in
          let high : b / 16 ≡ 0 = omega (arith, below) in
          let low : b % 16 ≡ b = omega (arith, below) in
          let (f, f_eq, f_digit, f_plain) = hex_char b below in
          rw (e, high, low, f_eq "", f_eq rest)
      | inr e ↦ rw (e, d_eq "", c_eq (String.◌∷◌ d ""), d_eq rest, c_eq (String.◌∷◌ d rest))
    ]

bytes_text-to_hex : (bytes : List ℕ) → All IsByte bytes → bytes_text bytes ≡ to_hex bytes
unfolding bytes_text to_hex
bytes_text-to_hex [] h = refl
bytes_text-to_hex (b ∷ bytes) (h, hs) =
    rw (bytes_text-to_hex bytes hs) (join-byte_text b (to_hex bytes) h)

-- The signature that the client library makes for a fake sender is the one of the server.
pub sign_webhook_payload-eq :
    (hmac : Hmac) (body secret : String) (timestamp : ℕ)
    → IsDigest (hmac secret (material timestamp body))
    → sign_webhook_payload hmac body secret timestamp ≡ sign_payload hmac body secret timestamp
unfolding sign_webhook_payload sign_payload
sign_webhook_payload-eq hmac body secret timestamp digest =
    ap (header_of timestamp)
      (bytes_text-to_hex (hmac secret (material timestamp body)) digest.are_bytes)

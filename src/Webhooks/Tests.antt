-- ===== src/Webhooks/Tests.antt =====
-- Runs of the signatures, with a digest that reads only the length of the signed text, and of the
-- stored secrets, with a cipher that hides nothing.
use riskrail.Base.{
  ℕ, zero, suc, ◌+◌, ◌≡◌, refl, Bool, true, false, String, Option, none, some, List, [], ◌∷◌, ◌%◌,
  arith, or_default, not, ◌==◌, if◌then◌else◌,
}
use Prim.Native.Char.{code}
use riskrail.Base.Decimal.{to_decimal, of_decimal, of_decimal-to_decimal, to_decimal-is_plain}
use riskrail.Base.Text.{is_plain, all_chars-implies}
use riskrail.Webhooks.{
  Hmac, material, header_of, sign_payload, sign_webhook_payload, verify_webhook_signature,
  verify_signature,
}
use riskrail.Webhooks.Agreement.{
  IsDigest, verify_webhook_signature-sign_payload, verify_webhook_signature-no_replay,
}
use riskrail.Webhooks.Secrets.{
  Runtime, IsLawful, encrypt_secret, decrypt_secret, decrypt_secret-encrypt_secret,
}

abbrev size : String → ℕ
size String.[] = 0
size (String.◌∷◌ c s) = size s + 1

abbrev toy_hmac : Hmac
toy_hmac secret text = (size text % 256) ∷ (size secret % 256) ∷ []

abbrev digest : List ℕ
digest = toy_hmac "whsec" (material 1000 "{}")

digest-IsDigest : IsDigest digest
unfolding riskrail.Webhooks.material riskrail.Base.Hex.to_hex
digest-IsDigest = record { are_bytes = (omega arith, (omega arith, tt)); not_nil = refl }

verify_webhook_signature-sign_payload_example :
    verify_webhook_signature toy_hmac "{}"
      (some (sign_payload toy_hmac "{}" "whsec" 1000))
      "whsec"
      300
      1200999
    ≡ true
verify_webhook_signature-sign_payload_example =
    verify_webhook_signature-sign_payload toy_hmac "{}" "whsec" 1000 300 1200999 digest-IsDigest

abbrev empty_body : String
empty_body = "{}"

abbrev noon : ℕ
noon = 1000

verify_webhook_signature-no_replay_example : (noon ≡ noon) × (empty_body ≡ empty_body)
unfolding riskrail.Webhooks.verify_webhook_signature riskrail.Webhooks.material
    riskrail.Webhooks.header_of riskrail.Base.Hex.to_hex riskrail.Base.insert
verify_webhook_signature-no_replay_example =
    verify_webhook_signature-no_replay toy_hmac "whsec" empty_body empty_body noon noon 300 1000000
      digest-IsDigest (λ h. refl) refl

abbrev toy_runtime : Runtime
unfolding to_decimal of_decimal
toy_runtime = record {
  Bytes = ℕ;
  Key = String;
  to_text = to_decimal;
  of_text = λ s. or_default (of_decimal s) 0;
  derive_key = λ s. s;
  text_length = size;
  seal = λ k iv text. (size text, iv + 1);
  unseal = λ k iv tag text. if tag == iv + 1 then some "whsec" else none;
}

toy_runtime-IsLawful : IsLawful toy_runtime "whsec"
unfolding toy_runtime
toy_runtime-IsLawful = record {
  of_text-to_text = λ n. rw (of_decimal-to_decimal n);
  to_text-dotless = λ n.
      all_chars-implies is_plain (λ c. not (code c == 46)) (to_decimal n) (λ c h. ground (arith, h))
        (to_decimal-is_plain n);
  unseal-seal = λ k iv. ground arith;
}

abbrev key_variable : String
key_variable = "0123456789012345678901234567890123456789"

decrypt_secret-encrypt_secret_example :
    decrypt_secret toy_runtime (some key_variable) "7.8.5" ≡ some "whsec"
unfolding riskrail.Webhooks.Secrets.key riskrail.Webhooks.Secrets.encrypt_secret toy_runtime
decrypt_secret-encrypt_secret_example =
    decrypt_secret-encrypt_secret toy_runtime "whsec" toy_runtime-IsLawful (some key_variable) 7
      "7.8.5" key_variable refl refl refl refl refl

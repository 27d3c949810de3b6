-- ===== src/Webhooks/Secrets.antt =====
-- packages/webhooks/src/index.ts: `encryptSecret` and `decryptSecret`. The cipher, the derivation of
-- the key and the coding of bytes as text are those of the runtime, and parameters.
use Prim.Native.Char.{code}
use riskrail.Base.{
  ℕ, ◌≡◌, refl, true, false, not, ◌||◌, String, Option, none, some, ◌>>=◌, List, ◌∷◌, ltb, ◌==◌,
  if◌then◌else◌, some_injective, subst,
}
use riskrail.Base.Text.{is_empty, join, split_on, all_chars, split_on-join, split_on-none}

pub record Runtime : Type 1 where
  pub Bytes : Type 0
  pub Key : Type 0
  -- `toString('base64url')` and `Buffer.from(text, 'base64url')`
  pub to_text : Bytes → String
  pub of_text : String → Bytes
  -- `scryptSync(material, SALT, 32)` and the count of the characters of the material
  pub derive_key : String → Key
  pub text_length : String → ℕ
  -- AES-256-GCM: the data and the tag; and the text, where the tag is right
  pub seal : Key → Bytes → String → Bytes × Bytes
  pub unseal : Key → Bytes → Bytes → Bytes → Option String

-- What the theorem relies on: the coding of base64url, which has no dot, is undone by its reading,
-- and the cipher opens with a key what it sealed with it, for the text in question.
pub record IsLawful (run : Runtime) (plaintext : String) : Type 1 where
  pub of_text-to_text : (b : run.Bytes) → run.of_text (run.to_text b) ≡ b
  pub to_text-dotless : (b : run.Bytes) → all_chars (λ c. not (code c == 46)) (run.to_text b) ≡ true
  pub unseal-seal :
      (k : run.Key) (iv : run.Bytes)
      → run.unseal k iv (run.seal k iv plaintext).1 (run.seal k iv plaintext).0 ≡ some plaintext

module _ (run : Runtime) where
  open run use {Bytes, Key, to_text, of_text, derive_key, text_length, seal, unseal}

  -- `key()`, of the variable `WEBHOOK_ENCRYPTION_KEY`: `none` where it throws
  unfoldable pub key : Option String → Option Key
  key variable = variable >>= λ material.
      if is_empty material || ltb (text_length material) 32
      then none
      else some (derive_key material)

  -- `encryptSecret`, with the random bytes as an argument
  unfoldable pub encrypt_secret : Option String → Bytes → String → Option String
  unfolding key
  encrypt_secret variable iv plaintext = key variable >>= λ k.
      let sealed = seal k iv plaintext in
      some (join (to_text iv) (join "." (join (to_text sealed.1) (join "." (to_text sealed.0)))))

  open_parts : Option String → List String → Option String
  unfolding key
  open_parts variable (iv ∷ tag ∷ text ∷ rest) =
      if is_empty iv || (is_empty tag || is_empty text)
      then none
      else (key variable >>= λ k. unseal k (of_text iv) (of_text tag) (of_text text))
  open_parts variable _ = none

  -- `decryptSecret`
  unfoldable pub decrypt_secret : Option String → String → Option String
  unfolding open_parts split_on
  decrypt_secret variable stored = open_parts variable (split_on 46 stored)

  module _ (plaintext : String) (law : IsLawful run plaintext) where
    -- A secret that was stored is read back, as long as the same key is set and none of the three
    -- stored parts is empty.
    pub decrypt_secret-encrypt_secret :
        (variable : Option String) (iv : Bytes) (stored : String) (k : Key)
        → key variable ≡ some k
        → is_empty (to_text iv) ≡ false
        → is_empty (to_text (seal k iv plaintext).1) ≡ false
        → is_empty (to_text (seal k iv plaintext).0) ≡ false
        → encrypt_secret variable iv plaintext ≡ some stored
        → decrypt_secret variable stored ≡ some plaintext
    unfolding encrypt_secret decrypt_secret open_parts
    decrypt_secret-encrypt_secret variable iv stored k key_eq a b c h =
        let sealed = seal k iv plaintext in
        let text_eq = some_injective (rw key_eq at h) in
        subst (λ s. decrypt_secret variable s ≡ some plaintext) text_eq
          (rw
            (
              split_on-join 46 (to_text iv) (join (to_text sealed.1) (join "." (to_text sealed.0)))
                  (".") (law.to_text-dotless iv) refl,
              split_on-join 46 (to_text sealed.1) (to_text sealed.0) (".")
                  (law.to_text-dotless sealed.1) refl,
              split_on-none 46 (to_text sealed.0) (law.to_text-dotless sealed.0),
            )
            (rw
              (
                a,
                b,
                c,
                key_eq,
                law.of_text-to_text iv,
                law.of_text-to_text sealed.1,
                law.of_text-to_text sealed.0,
              )
              (law.unseal-seal k iv)))

-- ===== src/Base/Hex.antt =====
-- Hexadecimal text.
use Prim.Native.Nat.{ℕ, zero, suc, ◌+◌, ◌-◌, ◌*◌, ◌/◌, ◌%◌, ◌<◌}
use Prim.Native.Char.{Char, code}
use Prim.Native.String.{String}
use native.Mathlib.Omega.{arith}
use mathlib.Core.Path.{◌≡◌, refl, ap, ◌∙◌}
use mathlib.Core.Bool.{true, ◌&&◌}
use mathlib.Core.Option.{Option, none, some}
use mathlib.Core.List.{List, [], ◌∷◌}
use riskrail.Base.Lists.{All}
use riskrail.Base.Text.{is_plain, all_chars}
use riskrail.Base.Tests.{leb, or_default, bind-cases, some_injective, if◌then◌else◌, ◌>>=◌}

-- a character of `[0-9a-fA-F]`
unfoldable pub hex_digit : Char → Option ℕ
hex_digit c =
    if leb 48 (code c) && leb (code c) 57
    then some (code c - 48)
    else if leb 97 (code c) && leb (code c) 102
    then some (code c - 87)
    else if leb 65 (code c) && leb (code c) 70
    then some (code c - 55)
    else none

unfoldable pub read_hex : ℕ → String → Option ℕ
unfolding hex_digit
read_hex n String.[] = some n
read_hex n (String.◌∷◌ c s) = hex_digit c >>= λ d. read_hex (n * 16 + d) s

-- a digit before a text
abbrev pub pick : ℕ → String → String → String
pick n String.[] rest = rest
pick zero (String.◌∷◌ c s) rest = String.◌∷◌ c rest
pick (suc n) (String.◌∷◌ c s) rest = pick n s rest

abbrev pub with_hex : ℕ → String → String
with_hex d rest = pick d "0123456789abcdef" rest

-- two digits for each byte
unfoldable pub to_hex : List ℕ → String
to_hex [] = String.[]
to_hex (b ∷ bytes) = with_hex (b / 16) (with_hex (b % 16) (to_hex bytes))

-- the bytes of a text that is wholly hexadecimal and of even length
unfoldable pub of_hex : String → Option (List ℕ)
unfolding hex_digit
of_hex String.[] = some []
of_hex (String.◌∷◌ c String.[]) = none
of_hex (String.◌∷◌ c (String.◌∷◌ d s)) = hex_digit c >>= λ high.
    hex_digit d >>= λ low. of_hex s >>= λ rest. some ((high * 16 + low) ∷ rest)

-- the bytes before the first pair that is not hexadecimal
unfoldable pub of_hex_prefix : String → List ℕ
unfolding hex_digit
of_hex_prefix String.[] = []
of_hex_prefix (String.◌∷◌ c String.[]) = []
of_hex_prefix (String.◌∷◌ c (String.◌∷◌ d s)) =
    let rest = of_hex_prefix s in
    or_default (hex_digit c >>= λ high. hex_digit d >>= λ low. some ((high * 16 + low) ∷ rest)) []

abbrev pub IsByte : ℕ → Type 0
IsByte b = b < 256

-- the character of a digit
pub hex_char :
    (d : ℕ)
    → d < 16
    → (c : Char) × ((rest : String) → with_hex d rest ≡ String.◌∷◌ c rest)
      × (hex_digit c ≡ some d)
      × (is_plain c ≡ true)
unfolding hex_digit
hex_char zero h = ("0", λ rest. refl, refl, refl)
hex_char (suc zero) h = ("1", λ rest. refl, refl, refl)
hex_char (suc (suc zero)) h = ("2", λ rest. refl, refl, refl)
hex_char (suc (suc (suc zero))) h = ("3", λ rest. refl, refl, refl)
hex_char (suc (suc (suc (suc zero)))) h = ("4", λ rest. refl, refl, refl)
hex_char (suc (suc (suc (suc (suc zero))))) h = ("5", λ rest. refl, refl, refl)
hex_char (suc (suc (suc (suc (suc (suc zero)))))) h = ("6", λ rest. refl, refl, refl)
hex_char (suc (suc (suc (suc (suc (suc (suc zero))))))) h = ("7", λ rest. refl, refl, refl)
hex_char (suc (suc (suc (suc (suc (suc (suc (suc zero)))))))) h = ("8", λ rest. refl, refl, refl)
hex_char (suc (suc (suc (suc (suc (suc (suc (suc (suc zero))))))))) h =
    ("9", λ rest. refl, refl, refl)
hex_char (suc (suc (suc (suc (suc (suc (suc (suc (suc (suc zero)))))))))) h =
    ("a", λ rest. refl, refl, refl)
hex_char (suc (suc (suc (suc (suc (suc (suc (suc (suc (suc (suc zero))))))))))) h =
    ("b", λ rest. refl, refl, refl)
hex_char (suc (suc (suc (suc (suc (suc (suc (suc (suc (suc (suc (suc zero)))))))))))) h =
    ("c", λ rest. refl, refl, refl)
hex_char (suc (suc (suc (suc (suc (suc (suc (suc (suc (suc (suc (suc (suc zero))))))))))))) h =
    ("d", λ rest. refl, refl, refl)
hex_char (suc (suc (suc (suc (suc (suc (suc (suc (suc (suc (suc (suc (suc (suc zero))))))))))))))
      h =
    ("e", λ rest. refl, refl, refl)
hex_char
      (suc (suc (suc (suc (suc (suc (suc (suc (suc (suc (suc (suc (suc (suc (suc zero)))))))))))))))
      h =
    ("f", λ rest. refl, refl, refl)
hex_char
      (suc
        (suc (suc (suc (suc (suc (suc (suc (suc (suc (suc (suc (suc (suc (suc (suc n))))))))))))))))
      h =
    absurd (omega (arith, h))

of_hex-pair :
    (high low : ℕ) (s : String)
    → high < 16
    → low < 16
    → of_hex (with_hex high (with_hex low s))
      ≡ (of_hex s >>= λ rest. some ((high * 16 + low) ∷ rest))
unfolding of_hex
of_hex-pair high low s h k =
    let (c, c_eq, c_digit, c_plain) = hex_char high h in
    let (d, d_eq, d_digit, d_plain) = hex_char low k in
    rw (c_eq (with_hex low s), d_eq s) (rw (c_digit, d_digit) refl)

of_hex-nil : of_hex "" ≡ some []
unfolding of_hex
of_hex-nil = refl

-- the bytes come back from their text
pub of_hex-to_hex : (bytes : List ℕ) → All IsByte bytes → of_hex (to_hex bytes) ≡ some bytes
unfolding to_hex
of_hex-to_hex [] h = of_hex-nil
of_hex-to_hex (b ∷ bytes) (h, hs) =
    of_hex-pair (b / 16) (b % 16) (to_hex bytes) (omega (arith, h)) (omega arith)
    ∙ rw (of_hex-to_hex bytes hs) (ap (λ n. some (n ∷ bytes)) (omega arith))

-- what is wholly hexadecimal is its own longest such beginning
pub of_hex_prefix-of_hex :
    (s : String) (bytes : List ℕ) → of_hex s ≡ some bytes → of_hex_prefix s ≡ bytes
unfolding of_hex of_hex_prefix
of_hex_prefix-of_hex String.[] bytes h = some_injective h
of_hex_prefix-of_hex (String.◌∷◌ c String.[]) bytes h = absurd (ground (arith, h))
of_hex_prefix-of_hex (String.◌∷◌ c (String.◌∷◌ d s)) bytes h =
    bind-cases (hex_digit c) _
      (λ high e rest.
        bind-cases (hex_digit d) _
          (λ low f next.
            bind-cases (of_hex s) _
              (λ later g last.
                rw (e, f)
                  (ap (λ ns. (high * 16 + low) ∷ ns) (of_hex_prefix-of_hex s later g)
                    ∙ some_injective last))
              next)
          rest)
      h

-- the text of bytes has no separators
pub to_hex-is_plain : (bytes : List ℕ) → All IsByte bytes → all_chars is_plain (to_hex bytes) ≡ true
unfolding to_hex
to_hex-is_plain [] h = refl
to_hex-is_plain (b ∷ bytes) (h, hs) =
    let (c, c_eq, c_digit, c_plain) = hex_char (b / 16) (omega (arith, h)) in
    let (d, d_eq, d_digit, d_plain) = hex_char (b % 16) (omega arith) in
    rw (c_eq (with_hex (b % 16) (to_hex bytes)), d_eq (to_hex bytes))
      (ground (arith, c_plain, d_plain, to_hex-is_plain bytes hs))

reads_ff : read_hex 0 "0fF" ≡ some 255
unfolding read_hex
reads_ff = refl

pairs_ab : of_hex (to_hex (171 ∷ 5 ∷ [])) ≡ some (171 ∷ 5 ∷ [])
unfolding of_hex to_hex
pairs_ab = refl

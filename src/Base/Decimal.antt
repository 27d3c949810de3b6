-- ===== src/Base/Decimal.antt =====
-- Natural numbers as decimal text: `BigInt(text)` and `text` of an integer. The signs, the white
-- space and the other bases that `BigInt` takes too are left out.
use Prim.Native.Nat.{ℕ, zero, suc, ◌+◌, ◌-◌, ◌*◌, ◌/◌, ◌%◌, ◌≤◌, ◌<◌}
use Prim.Native.Char.{Char, code}
use Prim.Native.String.{String}
use mathlib.Core.Path.{◌≡◌, refl, ap, ◌∙◌}
use mathlib.Core.Bool.{Bool, true, ◌&&◌}
use mathlib.Core.Logic.{inl, inr}
use mathlib.Core.Option.{Option, none, some}
use native.Mathlib.Omega.{arith}
use riskrail.Base.Text.{is_plain, all_chars}
use riskrail.Base.Tests.{ltb, leb, if◌then◌else◌, Bool-cases}

abbrev is_digit : Char → Bool
is_digit c = leb 48 (code c) && leb (code c) 57

-- a digit before a text
abbrev pick : ℕ → String → String → String
pick n String.[] rest = rest
pick zero (String.◌∷◌ c s) rest = String.◌∷◌ c rest
pick (suc n) (String.◌∷◌ c s) rest = pick n s rest

abbrev with_digit : ℕ → String → String
with_digit d rest = pick d "0123456789" rest

unfoldable pub print : ℕ → ℕ → String → String
print zero n rest = with_digit n rest
print (suc fuel) n rest =
    let more = print fuel (n / 10) (with_digit (n % 10) rest) in
    if ltb n 10 then with_digit n rest else more

-- `n.toString()`: a number has no more digits than it counts
unfoldable pub to_decimal : ℕ → String
unfolding print
to_decimal n = print n n String.[]

unfoldable pub read_digits : ℕ → String → Option ℕ
read_digits n String.[] = some n
read_digits n (String.◌∷◌ c s) =
    let rest = read_digits (n * 10 + (code c - 48)) s in if is_digit c then rest else none

-- `BigInt(text)`: `none` where it throws
unfoldable pub of_decimal : String → Option ℕ
unfolding read_digits
of_decimal s = read_digits 0 s

read_digits-with_digit :
    (a d : ℕ) (rest : String)
    → d < 10
    → read_digits a (with_digit d rest) ≡ read_digits (a * 10 + d) rest
unfolding read_digits
read_digits-with_digit a zero rest h = refl
read_digits-with_digit a (suc zero) rest h = refl
read_digits-with_digit a (suc (suc zero)) rest h = refl
read_digits-with_digit a (suc (suc (suc zero))) rest h = refl
read_digits-with_digit a (suc (suc (suc (suc zero)))) rest h = refl
read_digits-with_digit a (suc (suc (suc (suc (suc zero))))) rest h = refl
read_digits-with_digit a (suc (suc (suc (suc (suc (suc zero)))))) rest h = refl
read_digits-with_digit a (suc (suc (suc (suc (suc (suc (suc zero))))))) rest h = refl
read_digits-with_digit a (suc (suc (suc (suc (suc (suc (suc (suc zero)))))))) rest h = refl
read_digits-with_digit a (suc (suc (suc (suc (suc (suc (suc (suc (suc zero))))))))) rest h = refl
read_digits-with_digit a (suc (suc (suc (suc (suc (suc (suc (suc (suc (suc n)))))))))) rest h =
    absurd (omega (arith, h))

read_digits-print :
    (fuel n : ℕ) (rest : String) → n ≤ fuel → read_digits 0 (print fuel n rest) ≡ read_digits n rest
unfolding print
read_digits-print zero n rest h =
    read_digits-with_digit 0 n rest (omega (arith, h)) ∙ ap (λ k. read_digits k rest) (omega arith)
read_digits-print (suc fuel) n rest h = elim (Bool-cases (ltb n 10)) [
  | inl e ↦ rw e (
      read_digits-with_digit 0 n rest (ground (arith, e))
      ∙ ap (λ k. read_digits k rest) (omega arith))
  | inr e ↦ rw e (
      read_digits-print fuel (n / 10) (with_digit (n % 10) rest) (ground (arith, e, h))
      ∙ (read_digits-with_digit (n / 10) (n % 10) rest (omega arith)
          ∙ ap (λ k. read_digits k rest) (omega arith)))
]

pub of_decimal-to_decimal : (n : ℕ) → of_decimal (to_decimal n) ≡ some n
unfolding of_decimal to_decimal read_digits
of_decimal-to_decimal n = read_digits-print n n String.[] (omega arith)

with_digit-plain :
    (d : ℕ) (rest : String)
    → d < 10
    → all_chars is_plain (with_digit d rest) ≡ all_chars is_plain rest
with_digit-plain zero rest h = refl
with_digit-plain (suc zero) rest h = refl
with_digit-plain (suc (suc zero)) rest h = refl
with_digit-plain (suc (suc (suc zero))) rest h = refl
with_digit-plain (suc (suc (suc (suc zero)))) rest h = refl
with_digit-plain (suc (suc (suc (suc (suc zero))))) rest h = refl
with_digit-plain (suc (suc (suc (suc (suc (suc zero)))))) rest h = refl
with_digit-plain (suc (suc (suc (suc (suc (suc (suc zero))))))) rest h = refl
with_digit-plain (suc (suc (suc (suc (suc (suc (suc (suc zero)))))))) rest h = refl
with_digit-plain (suc (suc (suc (suc (suc (suc (suc (suc (suc zero))))))))) rest h = refl
with_digit-plain (suc (suc (suc (suc (suc (suc (suc (suc (suc (suc n)))))))))) rest h =
    absurd (omega (arith, h))

print-plain :
    (fuel n : ℕ) (rest : String)
    → n ≤ fuel
    → all_chars is_plain (print fuel n rest) ≡ all_chars is_plain rest
unfolding print
print-plain zero n rest h = with_digit-plain n rest (omega (arith, h))
print-plain (suc fuel) n rest h = elim (Bool-cases (ltb n 10)) [
  | inl e ↦ rw e (with_digit-plain n rest (ground (arith, e)))
  | inr e ↦ rw e (
      print-plain fuel (n / 10) (with_digit (n % 10) rest) (ground (arith, e, h))
      ∙ with_digit-plain (n % 10) rest (omega arith))
]

-- the text of a number has no separators
pub to_decimal-is_plain : (n : ℕ) → all_chars is_plain (to_decimal n) ≡ true
unfolding to_decimal
to_decimal-is_plain n = print-plain n n String.[] (omega arith)

prints_42 : to_decimal 4200 ≡ "4200"
unfolding to_decimal
prints_42 = refl

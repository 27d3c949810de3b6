-- ===== src/Numbers/Scaled.antt =====
-- Numbers that satisfy the laws: non-negative multiples of 10^-8, rounded down. Texts are read as
-- decimal integers, and written as a unary count of their integral part.
use Prim.Native.Char.{code}
use native.Mathlib.Nat.{div-le_of_le-mul, mul-div_cancel_left}
use riskrail.Base.{
  ℕ, zero, suc, ◌+◌, ◌-◌, ◌*◌, ◌/◌, ◌^◌, ◌≤◌, ◌≡◌, true, false, le→leb, String, leb, ltb, ◌==◌,
  arith, refl,
}
use riskrail.Base.Int.{ℤ, pos, pos_part, ◌≤ℤ◌}
use riskrail.Numbers.{Numbers, IsLawful}

abbrev unit : ℕ
unit = 100000000

abbrev read : ℕ → String → ℕ
read acc String.[] = acc
read acc (String.◌∷◌ c s) = read (acc * 10 + (code c - 48)) s

abbrev write : ℕ → String
write zero = ""
write (suc n) = String.◌∷◌ "1" (write n)

abbrev pub scaled : Numbers
scaled = record {
  Decimal = ℕ;
  decimal = λ s. read 0 s * unit;
  of_int = λ z. pos_part z * unit;
  plus = λ a b. a + b;
  minus = λ a b. a - b;
  times = λ a b. a * b / unit;
  div = λ a b. a * unit / b;
  pow = λ a n. (a / unit) ^ n * unit;
  abs = λ a. a;
  negated = λ a. 0;
  gt = λ a b. ltb b a;
  gte = λ a b. leb b a;
  lte = leb;
  eq = ◌==◌;
  to_fixed = λ n a. write (a / unit);
  to_string = λ a. write (a / unit);
  to_integer = λ a. pos (a / unit);
  Double = ℕ;
  of_number = λ z. pos_part z * unit;
  lit = λ s. read 0 s * unit;
  add = λ a b. a + b;
  mul = λ a b. a * b / unit;
  quotient = λ a b. a * unit / b;
  round = λ a. pos ((a + unit / 2) / unit);
}

times_scaled : (a m n : ℕ) → m ≤ n → leb (a * (m * unit) / unit) (a * (n * unit) / unit) ≡ true
times_scaled a m n h = let below : a * m ≤ a * n = grind arith in le→leb _ _ (omega arith)

part_mono : (m n : ℤ) → m ≤ℤ n → pos_part m ≤ pos_part n
part_mono (pos m) n h = ground arith
part_mono m n h = omega arith

ratio_scaled :
    (a b : ℕ)
    → leb b 0 ≡ false
    → leb a b ≡ true
    → leb (a * unit / b * 1000000000000 / unit) 1000000000000 ≡ true
ratio_scaled a b h k =
    let below : a * unit ≤ b * unit = ground arith in
    le→leb _ _ (omega (arith, div-le_of_le-mul b below))

mean_scaled :
    (a b : ℕ)
    → leb b 0 ≡ false
    → leb a (b * 1000000000000 / unit) ≡ true
    → leb (a * unit / b) 1000000000000 ≡ true
mean_scaled a b h k =
    let below : a * unit ≤ b * 1000000000000 = ground arith in le→leb _ _ (div-le_of_le-mul b below)

pub scaled-IsLawful : IsLawful scaled
scaled-IsLawful = record {
  IsExact = λ a. Unit;
  exact_zero = tt;
  exact_plus = λ a b. tt;
  zero_le = refl;
  lte_trans = λ a b c h k. ground arith;
  lte_plus = λ a b c h. ground arith;
  lte_plus_right = λ a b c h. ground arith;
  plus_grows = λ a c e h. ground arith;
  abs_nonneg = λ a. ground arith;
  ne_zero_pos = λ a h k. ground arith;
  times_mono = λ a m n h k. times_scaled a _ _ (part_mono m n k);
  times_nonneg = λ a m h k. ground arith;
  times_ten_thousand = λ a b e e'. omega arith;
  ratio_le = λ a b h k. ratio_scaled a b h k;
  mean_le = λ a b h k. mean_scaled a b h k;
  div_nonneg = λ a b h k. ground arith;
  to_integer_le = λ a n h. ground arith;
  to_integer_ge = λ a n h. ground arith;
  LeDouble = ◌≤◌;
  quotient_le = λ v t h k. div-le_of_le-mul (t * unit) (omega arith);
  quotient_nonneg = λ v t h. omega arith;
  quotient_self = λ t h. mul-div_cancel_left unit (omega arith);
  mul_one_le = λ x n h. div-le_of_le-mul unit (grind arith);
  mul_one = λ n. omega arith;
  mul_nonneg = λ x n h. omega arith;
  round_le = λ x n h. omega arith;
  round_ge = λ x n h. omega arith;
  round_integer = λ n. ground arith;
}

pub scaled_exact : (a : ℕ) → scaled-IsLawful.IsExact a
unfolding scaled-IsLawful
scaled_exact a = tt

-- the order of these doubles
pub scaled-LeDouble : (a b : ℕ) → a ≤ b → scaled-IsLawful.LeDouble a b
unfolding scaled-IsLawful
scaled-LeDouble a b h = h

pub LeDouble-scaled : (a b : ℕ) → scaled-IsLawful.LeDouble a b → a ≤ b
unfolding scaled-IsLawful
LeDouble-scaled a b h = h

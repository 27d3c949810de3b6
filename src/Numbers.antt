-- ===== src/Numbers.antt =====
-- The arithmetic that the engines take from elsewhere: the type `Decimal` of decimal.js, which the
-- repository does not hold, and the IEEE doubles of the language, of which it uses three operations.
-- Both are parameters of the model. `decimal` and `lit` are applied to numeric text only.
pub mod Scaled
use riskrail.Base.{ℕ, ◌≤◌, ◌<◌, ◌≡◌, Bool, true, false, String}
use riskrail.Base.Int.{ℤ, pos, ◌≤ℤ◌}

pub record Numbers : Type 1 where
  pub Decimal : Type 0
  -- `new Decimal(text)` and `new Decimal(integer)`
  pub decimal : String → Decimal
  pub of_int : ℤ → Decimal
  pub plus : Decimal → Decimal → Decimal
  pub minus : Decimal → Decimal → Decimal
  pub times : Decimal → Decimal → Decimal
  pub div : Decimal → Decimal → Decimal
  pub pow : Decimal → ℕ → Decimal
  pub abs : Decimal → Decimal
  pub negated : Decimal → Decimal
  pub gt : Decimal → Decimal → Bool
  pub gte : Decimal → Decimal → Bool
  pub lte : Decimal → Decimal → Bool
  pub eq : Decimal → Decimal → Bool
  -- `toFixed(n)`, `toString()` and `toDecimalPlaces(0).toNumber()`
  pub to_fixed : ℕ → Decimal → String
  pub to_string : Decimal → String
  pub to_integer : Decimal → ℤ
  -- doubles: an integer, a decimal numeral, `+`, `*`, `/` and `Math.round`
  pub Double : Type 0
  pub of_number : ℤ → Double
  pub lit : String → Double
  pub add : Double → Double → Double
  pub mul : Double → Double → Double
  pub quotient : Double → Double → Double
  pub round : Double → ℤ

-- What the theorems rely on, of finite decimals: texts are numerals, and the code divides by nothing
-- that is 0. Results of decimal.js are correctly rounded to the working precision, so they keep the
-- order of the exact results. `IsExact` says that a value fits the working precision, as every
-- result of an operation does; a power of ten only moves the exponent of such a value. Doubles are
-- correctly rounded too, and integers of this size are doubles.
pub record IsLawful (num : Numbers) : Type 1 where
  pub IsExact : num.Decimal → Type 0
  pub exact_zero : IsExact (num.of_int (pos 0))
  pub exact_plus : (a b : num.Decimal) → IsExact (num.plus a b)
  pub zero_le : num.lte (num.of_int (pos 0)) (num.of_int (pos 0)) ≡ true
  pub lte_trans :
      (a b c : num.Decimal) → num.lte a b ≡ true → num.lte b c ≡ true → num.lte a c ≡ true
  pub lte_plus :
      (a b c : num.Decimal) → num.lte a b ≡ true → num.lte (num.plus a c) (num.plus b c) ≡ true
  pub lte_plus_right :
      (a b c : num.Decimal) → num.lte b c ≡ true → num.lte (num.plus a b) (num.plus a c) ≡ true
  pub plus_grows :
      (a c : num.Decimal)
      → IsExact a
      → num.lte (num.of_int (pos 0)) c ≡ true
      → num.lte a (num.plus a c) ≡ true
  pub abs_nonneg : (a : num.Decimal) → num.lte (num.of_int (pos 0)) (num.abs a) ≡ true
  pub ne_zero_pos :
      (a : num.Decimal)
      → num.lte (num.of_int (pos 0)) a ≡ true
      → num.eq a (num.of_int (pos 0)) ≡ false
      → num.lte a (num.of_int (pos 0)) ≡ false
  pub times_mono :
      (a : num.Decimal) (m n : ℤ)
      → num.lte (num.of_int (pos 0)) a ≡ true
      → m ≤ℤ n
      → num.lte (num.times a (num.of_int m)) (num.times a (num.of_int n)) ≡ true
  pub times_nonneg :
      (a : num.Decimal) (m : ℤ)
      → num.lte (num.of_int (pos 0)) a ≡ true
      → pos 0 ≤ℤ m
      → num.lte (num.of_int (pos 0)) (num.times a (num.of_int m)) ≡ true
  pub times_ten_thousand :
      (a b : num.Decimal)
      → IsExact a
      → IsExact b
      → num.plus (num.times a (num.of_int (pos 10000))) (num.times b (num.of_int (pos 10000)))
        ≡ num.times (num.plus a b) (num.of_int (pos 10000))
  -- a ≤ b gives (a / b) * 10000 ≤ 10000
  pub ratio_le :
      (a b : num.Decimal)
      → num.lte b (num.of_int (pos 0)) ≡ false
      → num.lte a b ≡ true
      → num.lte (num.times (num.div a b) (num.of_int (pos 10000))) (num.of_int (pos 10000)) ≡ true
  -- a ≤ b * 10000 gives a / b ≤ 10000
  pub mean_le :
      (a b : num.Decimal)
      → num.lte b (num.of_int (pos 0)) ≡ false
      → num.lte a (num.times b (num.of_int (pos 10000))) ≡ true
      → num.lte (num.div a b) (num.of_int (pos 10000)) ≡ true
  pub div_nonneg :
      (a b : num.Decimal)
      → num.lte b (num.of_int (pos 0)) ≡ false
      → num.lte (num.of_int (pos 0)) a ≡ true
      → num.lte (num.of_int (pos 0)) (num.div a b) ≡ true
  pub to_integer_le :
      (a : num.Decimal) (n : ℕ) → num.lte a (num.of_int (pos n)) ≡ true → num.to_integer a ≤ℤ pos n
  pub to_integer_ge :
      (a : num.Decimal) (n : ℕ) → num.lte (num.of_int (pos n)) a ≡ true → pos n ≤ℤ num.to_integer a
  pub LeDouble : num.Double → num.Double → Type 0
  pub quotient_le :
      (v t : ℕ)
      → 0 < t
      → v ≤ t
      → LeDouble
          (num.quotient (num.of_number (pos v)) (num.of_number (pos t)))
          (num.of_number (pos 1))
  pub quotient_nonneg :
      (v t : ℕ)
      → 0 < t
      → LeDouble
          (num.of_number (pos 0))
          (num.quotient (num.of_number (pos v)) (num.of_number (pos t)))
  pub quotient_self :
      (t : ℕ)
      → 0 < t
      → num.quotient (num.of_number (pos t)) (num.of_number (pos t)) ≡ num.of_number (pos 1)
  pub mul_one_le :
      (x : num.Double) (n : ℕ)
      → LeDouble x (num.of_number (pos 1))
      → LeDouble (num.mul x (num.of_number (pos n))) (num.of_number (pos n))
  pub mul_one :
      (n : ℕ) → num.mul (num.of_number (pos 1)) (num.of_number (pos n)) ≡ num.of_number (pos n)
  pub mul_nonneg :
      (x : num.Double) (n : ℕ)
      → LeDouble (num.of_number (pos 0)) x
      → LeDouble (num.of_number (pos 0)) (num.mul x (num.of_number (pos n)))
  pub round_le :
      (x : num.Double) (n : ℕ) → LeDouble x (num.of_number (pos n)) → num.round x ≤ℤ pos n
  pub round_ge :
      (x : num.Double) (n : ℕ) → LeDouble (num.of_number (pos n)) x → pos n ≤ℤ num.round x
  pub round_integer : (n : ℕ) → num.round (num.of_number (pos n)) ≡ pos n

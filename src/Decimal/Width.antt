-- ===== src/Decimal/Width.antt =====
-- How many characters a number takes.
use mt_hvac.Base.{
  ℕ, zero, suc, ◌+◌, ◌*◌, ◌/◌, ◌%◌, ◌≤◌, ◌<◌, inl, inr, Bool-cases, ◌∷◌, ltb, arith, Text, length,
}
use mt_hvac.Decimal.{digits}

abbrev pub power_of_ten : ℕ → ℕ
power_of_ten zero = 1
power_of_ten (suc k) = 10 * power_of_ten k

power_of_ten-positive : (k : ℕ) → 1 ≤ power_of_ten k
power_of_ten-positive zero = omega arith
power_of_ten-positive (suc k) = omega (arith, power_of_ten-positive k)

-- A number below the power has at most as many digits as its exponent, or one.
pub length-digits-le :
    (f n k : ℕ) (rest : Text)
    → n < f
    → n < power_of_ten (suc k)
    → length (digits f n rest) ≤ suc k + length rest
unfolding digits
length-digits-le zero n k rest h below = elim h [ ]
length-digits-le (suc f) n zero rest h below = ground arith
length-digits-le (suc f) n (suc k) rest h below = elim (Bool-cases (ltb n 10)) [
  | inl small ↦ rw small (omega arith)
  | inr large ↦
      let more =
        length-digits-le f (n / 10) k ((48 + n % 10) ∷ rest) (ground arith) (ground arith) in
      rw large (omega arith)
]

-- A number that is not below it has one more at least.
pub length-digits-ge :
    (f n k : ℕ) (rest : Text)
    → n < f
    → power_of_ten k ≤ n
    → suc k + length rest ≤ length (digits f n rest)
unfolding digits
length-digits-ge zero n k rest h above = elim h [ ]
length-digits-ge (suc f) n zero rest h above = elim (Bool-cases (ltb n 10)) [
  | inl small ↦ rw small (omega arith)
  | inr large ↦
      let more =
        length-digits-ge f (n / 10) 0 ((48 + n % 10) ∷ rest) (ground arith) (ground arith) in
      rw large (omega arith)
]
length-digits-ge (suc f) n (suc k) rest h above = elim (Bool-cases (ltb n 10)) [
  | inl small ↦ let ten : n < 10 = ground arith in absurd (omega (arith, power_of_ten-positive k))
  | inr large ↦
      let more =
        length-digits-ge f (n / 10) k ((48 + n % 10) ∷ rest) (ground arith) (ground arith) in
      rw large (omega arith)
]

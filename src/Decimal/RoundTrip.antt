-- ===== src/Decimal/RoundTrip.antt =====
-- A number that is printed is read back.
use mt_hvac.Base.{
  ℕ, zero, suc, ◌+◌, ◌/◌, ◌%◌, ◌^◌, ◌≤◌, ◌<◌, ◌≡◌, refl, ◌∙◌, ap, sym, some, [], ◌∷◌, ◌++◌, arith,
  Text, pos, to_int32_small, inl, inr, Bool-cases, ltb,
}
use mt_hvac.Decimal.{
  digits, print_int, is_space, is_digit, skip_space, scan_digits, scan_nat, positive, scan_int,
  int_or_zero, atoi,
}

-- Reading back the digits of a number yields the number.
pub scan_digits-digits :
    (f n : ℕ) (rest : Text) → n < f → scan_digits 0 (digits f n rest) ≡ scan_digits n rest
unfolding digits scan_digits is_digit
scan_digits-digits zero n rest h = elim h [ ]
scan_digits-digits (suc f) n rest h =
    ground (arith, scan_digits-digits f (n / 10) ((48 + n % 10) ∷ rest))

pub digits-append :
    (f n : ℕ) (rest more : Text) → digits f n rest ++ more ≡ digits f n (rest ++ more)
unfolding digits
digits-append zero n rest more = refl
digits-append (suc f) n rest more =
    ground (arith, digits-append f (n / 10) ((48 + n % 10) ∷ rest) more)

-- The first of them is a digit.
pub digits-head :
    (f n : ℕ) (rest : Text)
    → n < f
    → (c : ℕ) × (more : Text) × (digits f n rest ≡ c ∷ more) × (48 ≤ c) × (c ≤ 57)
unfolding digits
digits-head zero n rest h = elim h [ ]
digits-head (suc f) n rest h = elim (Bool-cases (ltb n 10)) [
  | inl small ↦ (48 + n, rest, rw small, omega arith, ground arith)
  | inr large ↦
      let (c, more, e, lo, hi) = digits-head f (n / 10) ((48 + n % 10) ∷ rest) (ground arith) in
      (c, more, rw large e, lo, hi)
]

pub skip_space-digit : (c : ℕ) (rest : Text) → 48 ≤ c → c ≤ 57 → skip_space (c ∷ rest) ≡ c ∷ rest
unfolding skip_space is_space
skip_space-digit c rest lo hi = ground arith

pub scan_int-digit :
    (c : ℕ) (rest : Text)
    → 48 ≤ c
    → c ≤ 57
    → scan_int (c ∷ rest) ≡ positive (some (scan_digits 0 (c ∷ rest)))
unfolding scan_int scan_nat is_digit
scan_int-digit c rest lo hi = ground arith

pub scan_digits-space : (n : ℕ) (rest : Text) → scan_digits n (32 ∷ rest) ≡ (n, 32 ∷ rest)
unfolding scan_digits is_digit
scan_digits-space n rest = refl

pub positive-small :
    (n : ℕ) (rest : Text) → n < 2 ^ 31 → positive (some (n, rest)) ≡ some (pos n, rest)
unfolding positive
positive-small n rest h = rw (to_int32_small n h)

pub scan_int-print_int :
    (n : ℕ) (rest : Text)
    → n < 2 ^ 31
    → (c : ℕ) × (more : Text) × (print_int (pos n) (32 ∷ rest) ≡ c ∷ more)
      × (skip_space (c ∷ more) ≡ c ∷ more)
      × (scan_int (c ∷ more) ≡ some (pos n, 32 ∷ rest))
unfolding print_int
scan_int-print_int n rest h =
    let (c, more, e, lo, hi) = digits-head (suc n) n (32 ∷ rest) (omega arith) in
    (
      c,
      more,
      e,
      skip_space-digit c more lo hi,
      scan_int-digit c more lo hi
          ∙ ap (λ q. positive (some (scan_digits 0 q))) (sym e)
          ∙ ap (λ p. positive (some p))
              (scan_digits-digits (suc n) n (32 ∷ rest) (omega arith) ∙ scan_digits-space n rest)
          ∙ positive-small n (32 ∷ rest) h,
    )

scan_digits-nil : (n : ℕ) → scan_digits n [] ≡ (n, [])
unfolding scan_digits
scan_digits-nil n = refl

-- A number that an `int` holds is what `atoi` makes of its digits.
pub atoi-print_int : (n : ℕ) → n < 2 ^ 31 → atoi (print_int (pos n) []) ≡ pos n
unfolding atoi print_int
atoi-print_int n h =
    let (c, more, e, lo, hi) = digits-head (suc n) n [] (omega arith) in
    let at = ap int_or_zero (
      scan_int-digit c more lo hi
      ∙ ap (λ q. positive (some (scan_digits 0 q))) (sym e)
      ∙ ap (λ p. positive (some p))
          (scan_digits-digits (suc n) n [] (omega arith) ∙ scan_digits-nil n)
      ∙ positive-small n [] h) in
    ap (λ t. int_or_zero (scan_int (skip_space t))) e
    ∙ ap (λ t. int_or_zero (scan_int t)) (skip_space-digit c more lo hi)
    ∙ at

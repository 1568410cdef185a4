-- ===== src/Decimal.antt =====
-- Numbers in text: `printf` and `std::ostream` on integers, `scanf` with `%d`, and `atoi`.
pub mod RoundTrip
pub mod Width
use mt_hvac.Base.{
  ℕ, zero, suc, ◌+◌, ◌-◌, ◌*◌, ◌/◌, ◌%◌, Bool, true, false, ◌&&◌, ◌||◌, Option, none, some, List,
  [], ◌∷◌, ◌++◌, leb, ltb, ◌==◌, if◌then◌else◌, Text, text, length, ℤ, pos, negsuc, to_int32,
  int_key, ◌=?◌,
}

-- The decimal digits of a number before a text. The fuel is above the number.
unfoldable pub digits : ℕ → ℕ → Text → Text
digits zero n rest = rest
digits (suc f) n rest =
    let more = digits f (n / 10) ((48 + n % 10) ∷ rest) in
    if ltb n 10 then (48 + n) ∷ rest else more

-- "%d"
unfoldable pub print_int : ℤ → Text → Text
print_int (pos n) rest = digits (suc n) n rest
print_int (negsuc n) rest = b'-' ∷ digits (suc (suc n)) (suc n) rest

-- isspace
unfoldable pub is_space : ℕ → Bool
is_space c = c == 32 || (leb 9 c && leb c 13)

unfoldable pub is_digit : ℕ → Bool
is_digit c = leb 48 c && leb c 57

unfoldable pub skip_space : Text → Text
skip_space [] = []
skip_space (c ∷ rest) = let more = skip_space rest in if is_space c then more else c ∷ rest

-- The number that continues a number already read, and what follows it.
unfoldable pub scan_digits : ℕ → Text → ℕ × Text
scan_digits n [] = (n, [])
scan_digits n (c ∷ rest) =
    let more = scan_digits (n * 10 + (c - 48)) rest in if is_digit c then more else (n, c ∷ rest)

-- At least one digit.
unfoldable pub scan_nat : Text → Option (ℕ × Text)
scan_nat [] = none
scan_nat (c ∷ rest) = if is_digit c then some (scan_digits 0 (c ∷ rest)) else none

unfoldable pub negate : Option (ℕ × Text) → Option (ℤ × Text)
negate none = none
negate (some (zero, rest)) = some (pos 0, rest)
negate (some (suc n, rest)) = some (to_int32 (negsuc n), rest)

unfoldable pub positive : Option (ℕ × Text) → Option (ℤ × Text)
positive none = none
positive (some (n, rest)) = some (to_int32 (pos n), rest)

-- "%d" after the white space: a number too large for an `int` loses its upper bits.
unfoldable pub scan_int : Text → Option (ℤ × Text)
scan_int [] = none
scan_int (c ∷ rest) =
    if c == b'-'
    then negate (scan_nat rest)
    else if c == b'+'
    then positive (scan_nat rest)
    else positive (scan_nat (c ∷ rest))

abbrev pub int_or_zero : Option (ℤ × Text) → ℤ
int_or_zero none = pos 0
int_or_zero (some (n, rest)) = n

-- atoi: 0 where there is no number
unfoldable pub atoi : Text → ℤ
atoi t = int_or_zero (scan_int (skip_space t))

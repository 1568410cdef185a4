-- ===== src/Timer/Report/Rows.antt =====
-- The rows of an exported history, read back.
use mt_hvac.Base.{
  ℕ, zero, suc, ◌+◌, ◌<◌, ◌≤◌, ◌≡◌, refl, sym, ap, ◌∙◌, ◌==◌, true, false, Option, none, some, List,
  [], ◌∷◌, ◌++◌, arith, Text, length, ℤ, if◌then◌else◌, find, text_key,
}
use mt_hvac.Decimal.{scan_nat, scan_digits, is_digit}
use mt_hvac.Decimal.RoundTrip.{scan_digits-digits, digits-head}
use mt_hvac.Timer.{Timer}
use mt_hvac.Timer.Report.{
  print_nat, print_rows, export_header, export_footer, export_body, export_tag_call_history,
  is_named,
}

-- A number, a given character, and what follows.
abbrev pub after_char : ℕ → Option (ℕ × Text) → Option (ℕ × Text)
after_char c none = none
after_char c (some (n, [])) = none
after_char c (some (n, d ∷ rest)) = if d == c then some (n, rest) else none

abbrev with_index : ℕ → Option (ℕ × Text) → Option (ℕ × ℕ × Text)
with_index i none = none
with_index i (some (us, rest)) = some (i, us, rest)

abbrev duration_of : Option (ℕ × Text) → Option (ℕ × ℕ × Text)
duration_of none = none
duration_of (some (i, rest)) = with_index i (after_char 10 (scan_nat rest))

-- A reader of one `Call_Index,Duration_us` line.
pub read_row : Text → Option (ℕ × ℕ × Text)
read_row t = duration_of (after_char b',' (scan_nat t))

-- A reader of lines, as many as there are and at most as many as the fuel.
pub read_rows : ℕ → Text → List (ℕ × ℕ)
read_rows zero t = []
read_rows (suc f) t = elim (read_row t) [
  | none ↦ []
  | some (i, us, rest) ↦ (i, us) ∷ read_rows f rest
]

abbrev pub numbered : ℕ → List ℕ → List (ℕ × ℕ)
numbered i [] = []
numbered i (us ∷ ds) = (i, us) ∷ numbered (i + 1) ds

scan_nat-digit :
    (c : ℕ) (rest : Text) → 48 ≤ c → c ≤ 57 → scan_nat (c ∷ rest) ≡ some (scan_digits 0 (c ∷ rest))
unfolding scan_nat is_digit
scan_nat-digit c rest lo hi = ground arith

scan_digits-stop :
    (n c : ℕ) (rest : Text) → is_digit c ≡ false → scan_digits n (c ∷ rest) ≡ (n, c ∷ rest)
unfolding scan_digits
scan_digits-stop n c rest h = rw h

scan_nat-print_nat :
    (n c : ℕ) (rest : Text)
    → is_digit c ≡ false
    → scan_nat (print_nat n (c ∷ rest)) ≡ some (n, c ∷ rest)
scan_nat-print_nat n c rest h =
    let (d, more, e, lo, hi) = digits-head (suc n) n (c ∷ rest) (omega arith) in
    ap scan_nat e
    ∙ scan_nat-digit d more lo hi
    ∙ ap (λ q. some (scan_digits 0 q)) (sym e)
    ∙ ap some (scan_digits-digits (suc n) n (c ∷ rest) (omega arith) ∙ scan_digits-stop n c rest h)

is_digit-comma : is_digit b',' ≡ false
unfolding is_digit
is_digit-comma = refl

is_digit-newline : is_digit 10 ≡ false
unfolding is_digit
is_digit-newline = refl

read_row-print :
    (i us : ℕ) (rest : Text)
    → read_row (print_nat i (b',' ∷ print_nat us (10 ∷ rest))) ≡ some (i, us, rest)
unfolding read_row
read_row-print i us rest =
    ap (λ o. duration_of (after_char b',' o))
      (scan_nat-print_nat i b',' (print_nat us (10 ∷ rest)) is_digit-comma)
    ∙ ap (λ o. with_index i (after_char 10 o)) (scan_nat-print_nat us 10 rest is_digit-newline)

-- Reading back the lines yields the numbered durations, if no line follows them.
read_rows-print_rows :
    (f i : ℕ) (ds : List ℕ) (rest : Text)
    → length ds < f
    → read_row rest ≡ none
    → read_rows f (print_rows i ds rest) ≡ numbered i ds
unfolding print_rows read_rows
read_rows-print_rows zero i ds rest h e = elim h [ ]
read_rows-print_rows (suc f) i [] rest h e = rw (e, read_rows)
read_rows-print_rows (suc f) i (us ∷ ds) rest h e =
    rw (read_row-print i us (print_rows (i + 1) ds rest), read_rows)
      (ap (◌∷◌ (i, us)) (read_rows-print_rows f (i + 1) ds rest (omega arith) e))

read_row-footer : (tag : Text) (n : ℕ) → read_row (export_footer tag n) ≡ none
unfolding read_row export_footer scan_nat is_digit
read_row-footer tag n = refl

-- What is appended for a tag with calls in its log is a header that does not depend on them, and
-- then text from which a reader of the lines gets back every call's number, from 1 on, and its
-- duration, in order, and no more.
pub export-read_rows :
    (tag name : Text) (epoch : ℤ) (us : ℕ) (ds : List ℕ) (t : Timer)
    → is_named (some name) ≡ true
    → find tag t.call_history ≡ some (us ∷ ds)
    → (body : Text) × (export_tag_call_history tag (some name) true epoch t
        ≡ some (export_header tag epoch ++ body))
      × ((f : ℕ) → suc (length ds) < f → read_rows f body ≡ numbered 1 (us ∷ ds))
unfolding export_tag_call_history export_body
export-read_rows tag name epoch us ds t named e = (
  print_rows 1 (us ∷ ds) (export_footer tag (length (us ∷ ds))),
  rw (named, e),
  λ f enough. read_rows-print_rows f 1 (us ∷ ds) _ enough (read_row-footer tag (length (us ∷ ds))),
)

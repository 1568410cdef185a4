-- ===== src/Ports/RoundTrip.antt =====
-- What the servers print, the clients scan: src/mthvac_comm.cpp against src/mthvac_comm_client.cpp.
use mathlib.Core.List.{append_assoc}
use mt_hvac.Base.{
  ℕ, suc, ◌^◌, ◌<◌, ◌≡◌, refl, ◌∙◌, ap, sym, true, false, none, some, [], ◌∷◌, ◌++◌, arith, Text,
  length, ℤ, pos,
}
use mt_hvac.Ports.{
  digits, print_int, print_entry, is_space, skip_space, scan_int, scan_word, with_word, after_int,
  scan_entry,
}
use mt_hvac.Decimal.{digits, print_int, is_space, skip_space, scan_int}
use mt_hvac.Decimal.RoundTrip.{digits-append, digits-head, scan_int-print_int}

-- A text with no white space.
abbrev pub IsWord : Text → Type 0
IsWord [] = Unit {0}
IsWord (c ∷ w) = (is_space c ≡ false) × IsWord w

scan_word-append :
    (w : Text) (c : ℕ) (rest : Text)
    → IsWord w
    → is_space c ≡ true
    → scan_word (w ++ c ∷ rest) ≡ (w, c ∷ rest)
unfolding scan_word
scan_word-append [] c rest v h = rw h
scan_word-append (d ∷ w) c rest v h = rw (v.0, scan_word-append w c rest v.1 h)

skip_space-word :
    (c : ℕ) (rest : Text) → is_space c ≡ false → skip_space (32 ∷ (c ∷ rest)) ≡ c ∷ rest
unfolding skip_space is_space
skip_space-word c rest h = rw h

newline-space : is_space 10 ≡ true
unfolding is_space
newline-space = refl

skip_newline : (rest : Text) → skip_space (10 ∷ rest) ≡ skip_space rest
unfolding skip_space is_space
skip_newline rest = refl

after_int-word :
    (rank : ℤ) (c : ℕ) (w rest : Text)
    → IsWord (c ∷ w)
    → after_int (some (rank, 32 ∷ (c ∷ w ++ 10 ∷ rest))) ≡ some (rank, c ∷ w, skip_space rest)
unfolding after_int with_word
after_int-word rank c w rest v =
    rw (skip_space-word c (w ++ 10 ∷ rest) v.0, scan_word-append (c ∷ w) 10 rest v newline-space)
      (ap (λ r. some (rank, c ∷ w, r)) (skip_newline rest))

print_entry-append :
    (rank : ℕ) (w rest : Text)
    → print_entry (pos rank) w ++ rest ≡ print_int (pos rank) (32 ∷ (w ++ 10 ∷ rest))
unfolding print_entry print_int
print_entry-append rank w rest =
    digits-append (suc rank) rank (32 ∷ (w ++ 10 ∷ [])) rest
    ∙ ap (λ q. digits (suc rank) rank (32 ∷ q)) (append_assoc w (10 ∷ []) rest)

-- One line as a server prints it, with a rank that an `int` holds and an address without white
-- space, is read back as it was, and with it the white space that follows.
pub scan_entry-print_entry :
    (rank c : ℕ) (w rest : Text)
    → rank < 2 ^ 31
    → IsWord (c ∷ w)
    → scan_entry (print_entry (pos rank) (c ∷ w) ++ rest) ≡ some (pos rank, c ∷ w, skip_space rest)
unfolding scan_entry
scan_entry-print_entry rank c w rest h v =
    let (d, more, e, sp, sc) = scan_int-print_int rank (c ∷ w ++ 10 ∷ rest) h in
    ap (λ q. after_int (scan_int (skip_space q))) (print_entry-append rank (c ∷ w) rest ∙ e)
    ∙ ap (λ q. after_int (scan_int q)) sp
    ∙ ap after_int sc
    ∙ after_int-word (pos rank) c w rest v

pub skip_space-print_entry :
    (rank : ℕ) (w rest : Text)
    → rank < 2 ^ 31
    → skip_space (print_entry (pos rank) w ++ rest) ≡ print_entry (pos rank) w ++ rest
skip_space-print_entry rank w rest h =
    let (d, more, e, sp, sc) = scan_int-print_int rank (w ++ 10 ∷ rest) h in
    let shape = print_entry-append rank w rest ∙ e in ap skip_space shape ∙ sp ∙ sym shape

pub scan_entry-nil : scan_entry [] ≡ none
unfolding scan_entry skip_space scan_int after_int
scan_entry-nil = refl

pub length-print_entry : (rank : ℕ) (w : Text) → 0 < length (print_entry (pos rank) w)
unfolding print_entry print_int
length-print_entry rank w =
    let (c, more, e, lo, hi) = digits-head (suc rank) rank (32 ∷ (w ++ 10 ∷ [])) (omega arith) in
    rw e (omega arith)

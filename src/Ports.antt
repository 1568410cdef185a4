-- ===== src/Ports.antt =====
-- The file `./.ports.cfg.<job>` through which servers tell clients their addresses: the line that
-- `hvac_comm_list_addr` of src/mthvac_comm.cpp appends, and the scan of
-- `hvac_client_comm_lookup_addr` in src/mthvac_comm_client.cpp.
pub mod RoundTrip
pub mod Posted
use mt_hvac.Base.{
  ℕ, zero, suc, ◌+◌, ◌-◌, ◌*◌, ◌/◌, ◌%◌, Bool, true, false, ◌&&◌, ◌||◌, Option, none, some, List,
  [], ◌∷◌, ◌++◌, leb, ltb, ◌==◌, if◌then◌else◌, Text, text, length, ℤ, pos, negsuc, to_int32,
  int_key, ◌=?◌,
}
use mt_hvac.Decimal.{
  digits, print_int, is_space, is_digit, skip_space, scan_digits, scan_nat, negate, positive,
  scan_int,
}

-- sprintf(filename, "./.ports.cfg.%s", jobid)
unfoldable pub ports_filename : Text → Text
ports_filename job = text "./.ports.cfg." ++ job

-- fprintf(na_config, "%d %s\n", rank, address)
unfoldable pub print_entry : ℤ → Text → Text
print_entry rank address = print_int rank (32 ∷ (address ++ 10 ∷ []))

-- "%s" after the white space: the characters up to the next one.
unfoldable pub scan_word : Text → Text × Text
scan_word [] = ([], [])
scan_word (c ∷ rest) =
    let (word, more) = scan_word rest in if is_space c then ([], c ∷ rest) else (c ∷ word, more)

unfoldable pub with_word : ℤ → Text × Text → Option (ℤ × Text × Text)
with_word rank ([], rest) = none
with_word rank (c ∷ word, rest) = some (rank, c ∷ word, skip_space rest)

unfoldable pub after_int : Option (ℤ × Text) → Option (ℤ × Text × Text)
after_int none = none
after_int (some (rank, rest)) = with_word rank (scan_word (skip_space rest))

-- fscanf(na_config, "%d %s\n", &svr_rank, svr_str) == 2, with what it leaves of the file
unfoldable pub scan_entry : Text → Option (ℤ × Text × Text)
scan_entry file = after_int (scan_int (skip_space file))

-- The scan finds an address, or comes to an end, or writes past the end of `svr_str`.
pub data Scan : Type 0 where
  found : Text → Scan
  missing overrun : Scan

abbrev pub path_max : ℕ
path_max = 4096

unfoldable pub scan_loop : ℕ → ℤ → Text → Scan
scan_loop zero rank file = missing
scan_loop (suc f) rank file = elim (scan_entry file) [
  | none ↦ missing
  | some (r, address, rest) ↦
      let more = scan_loop f rank rest in
      if leb path_max (length address) then overrun else if r =? rank then found address else more
]

-- The loop over the file. Each round reads a character at least, so the fuel is enough.
unfoldable pub scan_ports : ℤ → Text → Scan
scan_ports rank file = scan_loop (suc (length file)) rank file

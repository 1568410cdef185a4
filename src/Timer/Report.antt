-- ===== src/Timer/Report.antt =====
-- The reports of src/mthvac_timer.h: what is printed, and what is written to files.
pub mod Rows
use mt_hvac.Base.{
  ℕ, suc, ◌+◌, ◌-◌, ◌==◌, Bool, true, false, Option, none, some, List, [], ◌∷◌, ◌++◌, Text, text,
  length, replicate, ℤ, is_negative, text_key, if◌then◌else◌, find,
}
use mt_hvac.Decimal.{digits, print_int}
use mt_hvac.Timer.{Stat, Timer}

-- `std::setw` with `std::left` and `std::right`
abbrev pub pad_left : ℕ → Text → Text
pad_left width t = t ++ replicate (width - length t) 32

abbrev pub pad_right : ℕ → Text → Text
pad_right width t = replicate (width - length t) 32 ++ t

abbrev pub print_nat : ℕ → Text → Text
print_nat n rest = digits (suc n) n rest

abbrev pub quoted : Text → Text
quoted t = 34 ∷ (t ++ 34 ∷ [])

-- The epoch is named if it is not negative.
abbrev pub epoch_part : Text → ℤ → Text
epoch_part label epoch = if is_negative epoch then [] else label ++ print_int epoch []

-- One `Call_Index,Duration_us` line for each duration, and what follows.
unfoldable pub print_rows : ℕ → List ℕ → Text → Text
print_rows i [] rest = rest
print_rows i (us ∷ ds) rest = print_nat i (b',' ∷ print_nat us (10 ∷ print_rows (i + 1) ds rest))

unfoldable pub export_header : Text → ℤ → Text
export_header tag epoch =
    10
    ∷ (text "=== HVAC Detailed Call History for Tag: "
        ++ (quoted tag
            ++ (text " ("
                ++ (epoch_part (text ", For Client Epoch: ") epoch
                    ++ (text ") ===" ++ 10 ∷ (text "Call_Index,Duration_us" ++ 10 ∷ []))))))

unfoldable pub export_footer : Text → ℕ → Text
export_footer tag exported =
    text "--- End of detailed history for tag: "
    ++ (quoted tag
        ++ (text " (Exported "
            ++ print_nat exported (text " calls) ---" ++ 10 ∷ (replicate 78 b'=' ++ 10 ∷ []))))

unfoldable pub export_body : Text → Option (List ℕ) → Text
export_body tag none =
    text "(Tag "
    ++ (quoted tag
        ++ (text " not found in detailed history or not enabled for detailed logging)"
            ++ 10 ∷ export_footer tag 0))
export_body tag (some []) =
    text "(No calls recorded for this tag in this period/since last reset)"
    ++ 10 ∷ export_footer tag 0
export_body tag (some (us ∷ ds)) = print_rows 1 (us ∷ ds) (export_footer tag (length (us ∷ ds)))

-- Whether a name is given and not empty.
abbrev pub is_named : Option Text → Bool
is_named none = false
is_named (some []) = false
is_named (some (c ∷ name)) = true

-- export_tag_call_history_to_file: what is appended to the file, if its name is not null or empty
-- and it opens.
unfoldable pub export_tag_call_history :
    Text → (filename : Option Text) → (opens : Bool) → ℤ → Timer → Option Text
export_tag_call_history tag filename opens epoch t =
    if is_named filename
    then (if opens
        then some (export_header tag epoch ++ export_body tag (find tag t.call_history))
        else none)
    else none

-- hvac_client_export_tag_details of src/mthvac_client.cpp: neither name may be null.
unfoldable pub export_tag_details :
    (tag filename : Option Text) → (opens : Bool) → ℤ → Timer → Option Text
export_tag_details none filename opens epoch t = none
export_tag_details (some tag) none opens epoch t = none
export_tag_details (some tag) (some filename) opens epoch t =
    export_tag_call_history tag (some filename) opens epoch t

module _ (fixed2 : ℕ → ℕ → Text) where
  -- `c ? tot / static_cast<double>(c) : 0.0`
  abbrev pub average : Stat → Text
  average s = if s.calls == 0 then fixed2 0 1 else fixed2 s.total_us s.calls

  -- A line of the table with the widths of its columns.
  unfoldable pub print_row : (section calls total avg : ℕ) → Text → Stat → Text → Text
  print_row section calls total avg tag s rest =
      pad_left section tag
      ++ (pad_right calls (print_nat s.calls [])
          ++ (pad_right total (fixed2 s.total_us 1) ++ (pad_right avg (average s) ++ 10 ∷ rest)))

  unfoldable pub print_table : (section calls total avg : ℕ) → List (Text × Stat) → Text → Text
  print_table section calls total avg [] rest = rest
  print_table section calls total avg ((tag, s) ∷ table) rest =
      print_row section calls total avg tag s (print_table section calls total avg table rest)

  -- print_all_stats: the text that goes to standard output
  unfoldable pub print_all_stats : ℤ → Timer → Text
  print_all_stats epoch t =
      10
      ∷ (text "=== HVAC timing summary ("
          ++ (epoch_part (text "Epoch: ") epoch
              ++ (text ") ==="
                  ++ 10
                    ∷ (pad_left 75 (text "Section")
                        ++ (pad_right 12 (text "Calls")
                            ++ (pad_right 18 (text "Total(us)")
                                ++ (pad_right 15 (text "Avg(us)")
                                    ++ 10
                                      ∷ (replicate 120 b'-'
                                          ++ 10
                                            ∷ print_table 75 12 18 15 t.table
                                                (replicate 120 b'=' ++ 10 ∷ [])))))))))

  -- What export_all_stats_to_file writes: to standard output, and into the file from its start.
  pub record Exported : Type 0 where
    pub console : Text
    pub file : Option Text

  unfoldable pub export_all_stats : (filename : Option Text) → (opens : Bool) → ℤ → Timer → Exported
  export_all_stats filename opens epoch t =
      if is_named filename
      then (if opens
          then record {
            console = [];
            file = some (
                pad_left 75 (text "Section")
                ++ (pad_right 12 (text "Calls")
                    ++ (pad_right 18 (text "Total(us)")
                        ++ (pad_right 15 (text "Avg(us)")
                            ++ 10
                              ∷ (replicate 83 b'-'
                                  ++ 10
                                    ∷ print_table 45 12 15 15 t.table
                                        (replicate 83 b'=' ++ 10 ∷ []))))));
          }
          else record { console = print_all_stats epoch t; file = none })
      else record { console = print_all_stats epoch t; file = none }

-- ===== src/Wrappers/Export.antt =====
-- The file of the counters: `export_stats_to_file` of src/wrappers.c. `fixed6 t` is the text that
-- "%.6f" makes of the double t.
use mt_hvac.Base.{suc, Bool, Option, none, some, [], ◌∷◌, ◌++◌, Text, text, if◌then◌else◌}
use mt_hvac.Decimal.{digits}
use mt_hvac.Rpc.State.{Seconds, plus, Stats, IoStats}

module _ (fixed6 : Seconds → Text) where
  unfoldable pub print_stats : (label : Text) → Stats → Text → Text
  print_stats label s rest =
      label
      ++ (text " Stats: count="
          ++ digits (suc s.count) s.count
              (text ", total_time=" ++ (fixed6 s.total_time ++ 10 ∷ rest)))

  -- What the file holds, if it opens. The counters of `fopen` are not written.
  unfoldable pub export_stats_to_file : (opens : Bool) → IoStats → Option Text
  export_stats_to_file opens s =
      if opens
      then some (
          print_stats (text "Open") s.open_stats (
            print_stats (text "Open Data") s.open_data_stats (
              print_stats (text "Open System") s.open_system_stats (
                text "Open total_time="
                ++ (fixed6 (plus s.open_data_stats.total_time s.open_system_stats.total_time)
                    ++ 10
                      ∷ (print_stats (text "Close") s.close_stats (
                          print_stats (text "Read") s.read_stats
                            (print_stats (text "Pread") s.pread_stats []))))))))
      else none

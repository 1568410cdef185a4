-- ===== src/Tests/Timers.antt =====
-- The theorems on the timing tables, at concrete inputs.
use mt_hvac.Base.{
  ℕ, ◌<◌, ◌≡◌, refl, true, some, List, [], ◌∷◌, ◌++◌, arith, Text, text, pos, text_key, find,
}
use mt_hvac.Timer.{Timer, new_timer, is_detailed}
use mt_hvac.Timer.Traces.{
  Event, ends, enables, resets, run, durations, stat_of, stat_at, run-stat_of,
}
use mt_hvac.Timer.Histories.{history_at, run-history_at}
use mt_hvac.Timer.Report.{export_header, export_tag_call_history}
use mt_hvac.Timer.Report.Rows.{read_rows, numbered, export-read_rows}

abbrev events : List Event
events =
    ends (text "read") 7
    ∷ resets
    ∷ ends (text "read") 3
    ∷ ends (text "open") 9
    ∷ enables (text "open")
    ∷ ends (text "read") 4
    ∷ []

run-stat_of_example :
    stat_at (text "read") (run events new_timer) ≡ stat_of (durations (text "read") events [])
run-stat_of_example = run-stat_of (text "read") events

durations_read : durations (text "read") events [] ≡ 3 ∷ 4 ∷ []
durations_read = ground arith

-- The tag read is logged in detail.
abbrev detailed : Timer
detailed = record new_timer { detailed_tags = text "read" ∷ [] }

detailed_read : is_detailed (text "read") detailed.detailed_tags ≡ true
unfolding is_detailed
detailed_read = ground arith

run-history_at_example :
    history_at (text "read") (run events detailed)
    ≡ durations (text "read") events (history_at (text "read") detailed)
run-history_at_example = run-history_at (text "read") events detailed detailed_read tt

abbrev logged : Timer
logged = record detailed { call_history = (text "read", 3 ∷ 4 ∷ []) ∷ [] }

logged_read : find (text "read") logged.call_history ≡ some (3 ∷ 4 ∷ [])
unfolding find
logged_read = ground arith

export-read_rows_example :
    (body : Text) × (export_tag_call_history (text "read") (some (text "f")) true (pos 2) logged
      ≡ some (export_header (text "read") (pos 2) ++ body))
    × ((f : ℕ) → 2 < f → read_rows f body ≡ numbered 1 (3 ∷ 4 ∷ []))
export-read_rows_example =
    export-read_rows (text "read") (text "f") (pos 2) 3 (4 ∷ []) logged refl logged_read

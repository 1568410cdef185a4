-- ===== src/Timer.antt =====
-- The timing tables: src/mthvac_timer.h. Every function runs under the one mutex. A total is a
-- whole number of microseconds, which a double holds exactly up to 2 ^ 53; `fixed2 a b` is the text
-- that `std::fixed << std::setprecision(2)` makes of the double a / b.
pub mod Traces
pub mod Histories
pub mod Report
use mt_hvac.Base.{
  ℕ, zero, suc, ◌+◌, ◌-◌, ◌%◌, ◌^◌, ◌==◌, Bool, true, false, ◌||◌, Option, none, some, List, [],
  ◌∷◌, ◌++◌, Text, text, length, replicate, ℤ, is_negative, text_key, ◌=?◌, if◌then◌else◌, find,
  put, or_else,
}
use mt_hvac.Decimal.{digits, print_int}

-- struct Stat
pub record Stat : Type 0 where
  pub total_us : ℕ
  pub calls : ℕ

abbrev pub no_calls : Stat
no_calls = record { total_us = 0; calls = 0 }

-- The three static tables.
pub record Timer : Type 0 where
  pub table : List (Text × Stat)
  pub detailed_tags : List Text
  pub call_history : List (Text × List ℕ)

abbrev pub new_timer : Timer
new_timer = record { table = []; detailed_tags = []; call_history = [] }

-- `detailed_tags.count(tag)`
unfoldable pub is_detailed : Text → List Text → Bool
is_detailed tag [] = false
is_detailed tag (t ∷ tags) = t =? tag || is_detailed tag tags

unfoldable pub insert_tag : Text → List Text → List Text
insert_tag tag tags = if is_detailed tag tags then tags else tag ∷ tags

unfoldable pub erase_tag : Text → List Text → List Text
erase_tag tag [] = []
erase_tag tag (t ∷ tags) = if t =? tag then erase_tag tag tags else t ∷ erase_tag tag tags

-- enable_detailed_call_logging_for_tag
unfoldable pub enable_detailed : Text → Timer → Timer
enable_detailed tag t = record t { detailed_tags = insert_tag tag t.detailed_tags }

-- disable_detailed_call_logging_for_tag
unfoldable pub disable_detailed : Text → Timer → Timer
disable_detailed tag t = record t { detailed_tags = erase_tag tag t.detailed_tags }

abbrev pub counted : ℕ → Stat → Stat
counted us s = record { total_us = s.total_us + us; calls = (s.calls + 1) % 2 ^ 64 }

unfoldable pub log_call : Text → ℕ → Timer → Timer
log_call tag us t =
    if is_detailed tag t.detailed_tags
    then record t {
      call_history = put tag (or_else [] (find tag t.call_history) ++ us ∷ []) t.call_history;
    }
    else t

-- ~TimerGuard, for a call that took `us` microseconds
unfoldable pub end_call : Text → ℕ → Timer → Timer
end_call tag us t =
    log_call tag us
      (record t { table = put tag (counted us (or_else no_calls (find tag t.table))) t.table })

unfoldable pub zero_table : List (Text × Stat) → List (Text × Stat)
zero_table [] = []
zero_table ((tag, s) ∷ table) = (tag, no_calls) ∷ zero_table table

-- The history of a tag is cleared if there is one.
unfoldable pub clear_tag : Text → List (Text × List ℕ) → List (Text × List ℕ)
clear_tag tag [] = []
clear_tag tag ((t, h) ∷ m) = if t =? tag then (t, []) ∷ m else (t, h) ∷ clear_tag tag m

unfoldable pub clear_tags : List Text → List (Text × List ℕ) → List (Text × List ℕ)
clear_tags [] m = m
clear_tags (tag ∷ tags) m = clear_tags tags (clear_tag tag m)

-- reset_all_stats
unfoldable pub reset_all_stats : Timer → Timer
reset_all_stats t = record t {
  table = zero_table t.table;
  call_history = clear_tags t.detailed_tags t.call_history;
}

-- ===== src/Timer/Traces.antt =====
-- What the timing tables hold after any calls of src/mthvac_timer.h, against the trace of the calls.
use mt_hvac.Base.{
  ℕ, ◌+◌, ◌%◌, ◌^◌, ◌≡◌, refl, ◌∙◌, List, [], ◌∷◌, ◌++◌, arith, Text, length, length-append,
  text_key, ◌=?◌, if◌then◌else◌, find, put, find-put, or_else,
}
use mt_hvac.Timer.{
  Stat, no_calls, Timer, new_timer, enable_detailed, disable_detailed, counted, log_call, end_call,
  zero_table, reset_all_stats,
}

-- A call of the module: a timed call ends, the detailed log of a tag is switched, or a reset.
pub data Event : Type 0 where
  ends : Text → ℕ → Event
  enables disables : Text → Event
  resets : Event

unfoldable pub event : Event → Timer → Timer
event (ends tag us) t = end_call tag us t
event (enables tag) t = enable_detailed tag t
event (disables tag) t = disable_detailed tag t
event resets t = reset_all_stats t

unfoldable pub run : List Event → Timer → Timer
run [] t = t
run (e ∷ es) t = run es (event e t)

-- The durations of a tag's calls since the last reset, after those in `ds`.
abbrev pub durations : Text → List Event → List ℕ → List ℕ
durations tag [] ds = ds
durations tag (ends t us ∷ es) ds = durations tag es (if t =? tag then ds ++ us ∷ [] else ds)
durations tag (enables t ∷ es) ds = durations tag es ds
durations tag (disables t ∷ es) ds = durations tag es ds
durations tag (resets ∷ es) ds = durations tag es []

abbrev pub sum : List ℕ → ℕ
sum [] = 0
sum (x ∷ xs) = x + sum xs

sum-append : (xs ys : List ℕ) → sum (xs ++ ys) ≡ sum xs + sum ys
sum-append [] ys = omega arith
sum-append (x ∷ xs) ys = omega (arith, sum-append xs ys)

-- The statistics of a list of durations.
abbrev pub stat_of : List ℕ → Stat
stat_of ds = record { total_us = sum ds; calls = length ds % 2 ^ 64 }

-- `table[tag]`
abbrev pub stat_at : Text → Timer → Stat
stat_at tag t = or_else no_calls (find tag t.table)

log_call-table : (tag : Text) (us : ℕ) (t : Timer) → (log_call tag us t).table ≡ t.table
unfolding log_call
log_call-table tag us t = ground arith

end_call-stat_at :
    (tag j : Text) (us : ℕ) (t : Timer)
    → stat_at j (end_call tag us t) ≡ (if tag =? j then counted us (stat_at j t) else stat_at j t)
unfolding end_call
end_call-stat_at tag j us t =
    let s = counted us (stat_at tag t) in
    rw (log_call-table tag us (record t { table = put tag s t.table }), find-put tag j s t.table)
      (ground arith)

find-zero_table :
    (tag : Text) (m : List (Text × Stat)) → or_else no_calls (find tag (zero_table m)) ≡ no_calls
unfolding zero_table find
find-zero_table tag [] = refl
find-zero_table tag ((t, s) ∷ m) = ground (arith, find-zero_table tag m)

counted-stat_of : (us : ℕ) (ds : List ℕ) → counted us (stat_of ds) ≡ stat_of (ds ++ us ∷ [])
counted-stat_of us ds = ground (arith, sum-append ds (us ∷ []), length-append ds (us ∷ []))

reset-stat_at : (tag : Text) (t : Timer) → stat_at tag (reset_all_stats t) ≡ no_calls
unfolding reset_all_stats
reset-stat_at tag t = find-zero_table tag t.table

-- The statistics of a tag are those of the durations in `ds`, or of more.
run-stat_at :
    (tag : Text) (es : List Event) (t : Timer) (ds : List ℕ)
    → stat_at tag t ≡ stat_of ds
    → stat_at tag (run es t) ≡ stat_of (durations tag es ds)
unfolding run event enable_detailed disable_detailed
run-stat_at tag [] t ds h = h
run-stat_at tag (ends j us ∷ es) t ds h =
    run-stat_at tag es (end_call j us t) (if j =? tag then ds ++ us ∷ [] else ds)
      (end_call-stat_at j tag us t ∙ ground (arith, counted-stat_of us ds))
run-stat_at tag (enables j ∷ es) t ds h = run-stat_at tag es (enable_detailed j t) ds h
run-stat_at tag (disables j ∷ es) t ds h = run-stat_at tag es (disable_detailed j t) ds h
run-stat_at tag (resets ∷ es) t ds h =
    run-stat_at tag es (reset_all_stats t) [] (reset-stat_at tag t)

-- After any calls from the empty tables, the entry of every tag has the sum of the durations of its
-- calls since the last reset, and their number in 64 bits, whatever is logged in detail.
pub run-stat_of :
    (tag : Text) (es : List Event) → stat_at tag (run es new_timer) ≡ stat_of (durations tag es [])
unfolding find
run-stat_of tag es = run-stat_at tag es new_timer [] refl

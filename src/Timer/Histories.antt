-- ===== src/Timer/Histories.antt =====
-- The detailed log of a tag: `call_history_table` of src/mthvac_timer.h, against the trace of calls.
use mt_hvac.Base.{
  ℕ, ◌≡◌, refl, ap, ◌∙◌, true, false, ◌||◌, List, [], ◌∷◌, ◌++◌, arith, Text, text_key, ◌=?◌,
  if◌then◌else◌, find, find-put, or_else,
}
use mt_hvac.Timer.{
  Timer, is_detailed, insert_tag, erase_tag, enable_detailed, disable_detailed, log_call, end_call,
  clear_tag, clear_tags, reset_all_stats,
}
use mt_hvac.Timer.Traces.{Event, ends, enables, disables, resets, event, run, durations}

-- `call_history[tag]`
abbrev pub history_at : Text → Timer → List ℕ
history_at tag t = or_else [] (find tag t.call_history)

is_detailed-insert_tag :
    (tag j : Text) (tags : List Text)
    → is_detailed tag (insert_tag j tags) ≡ (j =? tag || is_detailed tag tags)
unfolding insert_tag is_detailed
is_detailed-insert_tag tag j tags = ground arith

is_detailed-erase_tag :
    (tag j : Text) (tags : List Text)
    → (j =? tag) ≡ false
    → is_detailed tag (erase_tag j tags) ≡ is_detailed tag tags
unfolding erase_tag is_detailed
is_detailed-erase_tag tag j [] h = refl
is_detailed-erase_tag tag j (t ∷ tags) h = ground (arith, is_detailed-erase_tag tag j tags h)

find-clear_tag :
    (tag j : Text) (m : List (Text × List ℕ))
    → or_else [] (find tag (clear_tag j m)) ≡ (if j =? tag then [] else or_else [] (find tag m))
unfolding clear_tag find
find-clear_tag tag j [] = ground arith
find-clear_tag tag j ((t, h) ∷ m) = ground (arith, find-clear_tag tag j m)

find-clear_tags :
    (tag : Text) (tags : List Text) (m : List (Text × List ℕ))
    → or_else [] (find tag (clear_tags tags m))
      ≡ (if is_detailed tag tags then [] else or_else [] (find tag m))
unfolding clear_tags is_detailed
find-clear_tags tag [] m = refl
find-clear_tags tag (j ∷ tags) m =
    ground (arith, find-clear_tags tag tags (clear_tag j m), find-clear_tag tag j m)

log_call-history_at :
    (tag j : Text) (us : ℕ) (t : Timer)
    → is_detailed tag t.detailed_tags ≡ true
    → history_at tag (log_call j us t)
      ≡ (if j =? tag then history_at tag t ++ us ∷ [] else history_at tag t)
unfolding log_call
log_call-history_at tag j us t on =
    ground (arith, find-put j tag (or_else [] (find j t.call_history) ++ us ∷ []) t.call_history)

log_call-detailed_tags :
    (j : Text) (us : ℕ) (t : Timer) → (log_call j us t).detailed_tags ≡ t.detailed_tags
unfolding log_call
log_call-detailed_tags j us t = ground arith

-- The detailed log of the tag is never switched off.
abbrev pub NeverDisables : Text → List Event → Type 0
NeverDisables tag [] = Unit {0}
NeverDisables tag (ends j us ∷ es) = NeverDisables tag es
NeverDisables tag (enables j ∷ es) = NeverDisables tag es
NeverDisables tag (disables j ∷ es) = ((j =? tag) ≡ false) × NeverDisables tag es
NeverDisables tag (resets ∷ es) = NeverDisables tag es

-- From tables in which a tag is logged in detail, and for as long as that is not switched off, the
-- log of the tag has what it had and then the durations of its calls in order, or after a reset
-- those since the last one.
pub run-history_at :
    (tag : Text) (es : List Event) (t : Timer)
    → is_detailed tag t.detailed_tags ≡ true
    → NeverDisables tag es
    → history_at tag (run es t) ≡ durations tag es (history_at tag t)
unfolding run event end_call enable_detailed disable_detailed reset_all_stats
run-history_at tag [] t on v = refl
run-history_at tag (ends j us ∷ es) t on v =
    run-history_at tag es (end_call j us t)
      (ap (is_detailed tag) (log_call-detailed_tags j us _) ∙ on) v
    ∙ ap (durations tag es) (log_call-history_at tag j us _ on)
run-history_at tag (enables j ∷ es) t on v =
    run-history_at tag es (enable_detailed j t)
      (is_detailed-insert_tag tag j t.detailed_tags ∙ ground arith) v
run-history_at tag (disables j ∷ es) t on v =
    run-history_at tag es (disable_detailed j t)
      (is_detailed-erase_tag tag j t.detailed_tags v.0 ∙ on) v.1
run-history_at tag (resets ∷ es) t on v =
    run-history_at tag es (reset_all_stats t) on v
    ∙ ap (durations tag es) (find-clear_tags tag t.detailed_tags t.call_history ∙ ground arith)

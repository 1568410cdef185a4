-- ===== src/Tests/Waits.antt =====
-- The theorems on the wait for an answer, at a concrete interleaving.
use mt_hvac.Base.{◌<◌, ◌≡◌, refl, ◌⊎◌, true, pos}
use mt_hvac.Rpc.Waiting.{
  Context, woken, finished, gone, Step, lock, wait, call_back, mark, fill, broadcasts, unlock,
  relock, take, leave, Reach, start, next, IsSpurious, rank, wait_returns, wait_terminates,
}

-- The caller waits, the answer 3 comes, and the callback ends.
abbrev answered_context : Context
answered_context = record { done = true; result = pos 3; caller = woken; callback = finished }

answered_context-Reach : Reach (pos 3) answered_context
answered_context-Reach =
    next
      (next
        (next
          (next (next (next (next start (lock refl refl)) (wait refl refl)) (call_back refl refl))
            (mark refl))
          (fill refl))
        (broadcasts refl))
      (unlock refl)

abbrev returned : Context
returned = record answered_context { caller = gone (pos 3) }

returned-Reach : Reach (pos 3) returned
returned-Reach =
    next (next (next answered_context-Reach (relock refl refl)) (take refl refl)) (leave refl)

wait_returns_example : (pos 3 ≡ pos 3) × ((t : Context) → Step (pos 3) returned t → ⊥)
wait_returns_example = wait_returns (pos 3) returned-Reach refl

wait_terminates_example :
    (rank answered_context.caller < 4)
    × ((answered_context.caller ≡ gone (pos 3))
        ⊎ ((t : Context) × (st : Step (pos 3) answered_context t) × ¬ IsSpurious st))
    × ((t : Context) (st : Step (pos 3) answered_context t)
        → (t.callback ≡ finished)
          × (rank t.caller < rank answered_context.caller)
          × ¬ IsSpurious st)
wait_terminates_example = wait_terminates answered_context-Reach refl

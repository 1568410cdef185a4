-- ===== src/Wrappers/Elapsed.antt =====
-- The time that a call has taken: the computation of `delta` in src/wrappers.c.
use mt_hvac.Base.{ℕ, ◌+◌, ◌-◌, ◌*◌, ◌≤◌, ◌<◌, ◌≡◌, arith, ltb, if◌then◌else◌}
use mt_hvac.Fd.Deadline.{Timespec, nanos}
use mt_hvac.Rpc.State.{Seconds, no_seconds, interval, borrowed, plus}

-- The clock does not go back, so the seconds of `start` are not more than those of `end`.
pub elapsed : Timespec → Timespec → Seconds
elapsed start end =
    if ltb start.tv_nsec end.tv_nsec
    then interval (end.tv_sec - start.tv_sec) (end.tv_nsec - start.tv_nsec)
    else borrowed (end.tv_sec - start.tv_sec) (end.tv_nsec + 1_000_000_000 - start.tv_nsec)

-- The exact value of a sum, in nanoseconds, which the double rounds. No time is negative, since the
-- clock does not go back.
abbrev pub value : Seconds → ℕ
value no_seconds = 0
value (interval s n) = s * 1_000_000_000 + n
value (borrowed s n) = s * 1_000_000_000 + n - 1_000_000_000
value (plus a b) = value a + value b

-- For normal times in order, its exact value is the time between them.
pub elapsed_exact :
    (start end : Timespec)
    → start.tv_nsec < 1_000_000_000
    → end.tv_nsec < 1_000_000_000
    → nanos start ≤ nanos end
    → nanos start + value (elapsed start end) ≡ nanos end
unfolding elapsed
elapsed_exact start end h k le = ground arith

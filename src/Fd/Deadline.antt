-- ===== src/Fd/Deadline.antt =====
-- The deadline of `hvac_wait_fd_ready` in src/mthvac_comm_client.cpp.
use mt_hvac.Base.{ℕ, ◌+◌, ◌-◌, ◌*◌, ◌/◌, ◌%◌, ◌<◌, ◌≡◌, arith, leb, if◌then◌else◌}

-- struct timespec, for times from the epoch on
pub record Timespec : Type 0 where
  pub tv_sec : ℕ
  pub tv_nsec : ℕ

abbrev pub nanos : Timespec → ℕ
nanos t = t.tv_sec * 1_000_000_000 + t.tv_nsec

normalise : Timespec → Timespec
normalise t =
    if leb 1_000_000_000 t.tv_nsec
    then record { tv_sec = t.tv_sec + 1; tv_nsec = t.tv_nsec - 1_000_000_000 }
    else t

pub deadline : Timespec → ℕ → Timespec
unfolding normalise
deadline now timeout_ms = normalise (record {
  tv_sec = now.tv_sec + timeout_ms / 1000;
  tv_nsec = now.tv_nsec + timeout_ms % 1000 * 1_000_000;
})

-- From a normal time, the deadline is a normal time that lies exactly the timeout after it.
pub deadline_exact :
    (now : Timespec) (timeout_ms : ℕ)
    → now.tv_nsec < 1_000_000_000
    → ((deadline now timeout_ms).tv_nsec < 1_000_000_000)
      × (nanos (deadline now timeout_ms) ≡ nanos now + timeout_ms * 1_000_000)
unfolding deadline
deadline_exact now timeout_ms h = ground arith

-- ===== src/Tests/Fds.antt =====
-- The theorems on descriptors, clocks and the ports file, at concrete inputs.
use mt_hvac.Base.{◌+◌, ◌*◌, ◌<◌, ◌≡◌, some, List, [], ◌∷◌, arith, text, ℤ, pos}
use mt_hvac.Fd.{opening, FdTable, no_fds, state_of}
use mt_hvac.Fd.Deadline.{Timespec, nanos, deadline, deadline_exact}
use mt_hvac.Fd.Waiting.{
  IsOwned, Call, opens, readies, cleans, call, run, run-IsOwned, reopen_strands_waiter,
}
use mt_hvac.Fd.States.{IsBacked, states, run-states}
use mt_hvac.Ports.{scan_ports}
use mt_hvac.Decimal.{is_space}
use mt_hvac.Ports.Posted.{Post, ArePosts, posted, first_post, scan_ports-posted}

abbrev noon : Timespec
noon = record { tv_sec = 43_200; tv_nsec = 999_000_000 }

deadline_exact_example :
    ((deadline noon 5250).tv_nsec < 1_000_000_000)
    × (nanos (deadline noon 5250) ≡ nanos noon + 5250 * 1_000_000)
deadline_exact_example = deadline_exact noon 5250 (omega arith)

abbrev later : Timespec
later = record { tv_sec = 43_202; tv_nsec = 1_000_000 }

no_fds-IsOwned : IsOwned no_fds
no_fds-IsOwned = record { below = λ fd p h. cc; apart = λ a b p h k. cc }

abbrev calls : List Call
calls = opens (pos 5) ∷ opens (pos 6) ∷ readies (pos 5) ∷ cleans (pos 6) ∷ []

no_fds-IsBacked : IsBacked no_fds
no_fds-IsBacked = record { owned = no_fds-IsOwned; exists = λ fd p h. cc }

run-states_example :
    IsBacked (run no_fds calls)
    × ((fd : ℤ) → state_of fd (run no_fds calls) ≡ states calls (λ d. state_of d no_fds) fd)
run-states_example = run-states no_fds calls no_fds-IsBacked

-- Descriptor 5 is ready, descriptor 6 is being opened.
abbrev two_fds : FdTable
two_fds = run no_fds (opens (pos 5) ∷ opens (pos 6) ∷ readies (pos 5) ∷ [])

two_fds-IsOwned : IsOwned two_fds
two_fds-IsOwned =
    run-IsOwned no_fds (opens (pos 5) ∷ opens (pos 6) ∷ readies (pos 5) ∷ []) no_fds-IsOwned

entry_six : two_fds.entry (pos 6) ≡ some 1
unfolding run call
entry_six = ground arith

reopen_strands_waiter_example :
    (run (call (opens (pos 6)) two_fds) (readies (pos 6) ∷ [])).status 1 ≡ two_fds.status 1
reopen_strands_waiter_example =
    reopen_strands_waiter two_fds (pos 6) 1 (readies (pos 6) ∷ []) two_fds-IsOwned entry_six

six_opening : state_of (pos 6) two_fds ≡ some opening
unfolding run call
six_opening = ground arith

abbrev posts : List Post
posts =
    record { rank = 0; address = text "tcp://n0" }
    ∷ record { rank = 12; address = text "tcp://n1" }
    ∷ record { rank = 0; address = text "tcp://n2" }
    ∷ []

posts-ArePosts : ArePosts posts
unfolding is_space
posts-ArePosts = ground arith

scan_ports-posted_example : scan_ports (pos 12) (posted posts) ≡ first_post 12 posts
scan_ports-posted_example = scan_ports-posted 12 posts posts-ArePosts

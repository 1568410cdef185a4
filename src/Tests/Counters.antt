-- ===== src/Tests/Counters.antt =====
-- The theorem on the wrappers' counters, at a concrete input.
use mt_hvac.Base.{◌≡◌, true, none, some, List, [], ◌∷◌, arith, text, pos, int_key, returns}
use mt_hvac.Fd.Deadline.{Timespec}
use mt_hvac.Rpc.State.{new_client, World, no_seconds}
use mt_hvac.Client.{track_file, remote_read, read_tracked, contains, starts_with}
use mt_hvac.Wrappers.{timed, wrap_open, wrap_close, wrap_read, count_open}
use mt_hvac.Wrappers.Elapsed.{elapsed}
use mt_hvac.Wrappers.Counters.{
  opens, closes, reads, TimedCall, Tally, one_more, tally_of, observe, observe_all,
  observe_all-tally,
}
use mt_hvac.Tests.Clients.{base, after}

abbrev start : Timespec
start = record { tv_sec = 1; tv_nsec = 0 }

abbrev end : Timespec
end = record { tv_sec = 2; tv_nsec = 5 }

abbrev idle : World base.Sys
idle = record { client = new_client 1 none none (some (text "0")); sys = tt }

-- A file is opened for writing only, a read fails, and the file is closed.
abbrev three_calls : List TimedCall
three_calls =
    record { call = opens (text "/d/y") 1 0; start = start; end = end }
    ∷ record { call = reads (pos 5) true 8; start = start; end = end }
    ∷ record { call = closes (pos 5); start = start; end = end }
    ∷ []

abbrev counted : Tally
counted = record (tally_of idle.client.stats) {
  opened = one_more (elapsed start end) (record { count = 0; ns = 0 });
  closed = timed (elapsed start end) (record { count = 0; total_time = no_seconds });
  read = timed (elapsed start end) (record { count = 0; total_time = no_seconds });
}

abbrev called : World base.Sys
called = after (observe_all base three_calls (tally_of idle.client.stats) idle) idle

three_calls-run :
    observe_all base three_calls (tally_of idle.client.stats) idle ≡ returns (counted, called)
unfolding observe_all observe wrap_open wrap_close wrap_read track_file remote_read read_tracked
    count_open contains starts_with
three_calls-run = ground arith

observe_all-tally_example : tally_of called.client.stats ≡ counted
observe_all-tally_example = observe_all-tally base three_calls idle called counted three_calls-run

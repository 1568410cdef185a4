-- ===== src/Tests/Tracking.antt =====
-- The theorems on the tracking decisions and on sequences of RPCs, at concrete inputs.
use mt_hvac.Base.{
  ◌≡◌, ◌↔◌, ◌⊎◌, refl, true, false, some, List, [], ◌∷◌, arith, Text, text, text_key, ℤ, pos,
  returns,
}
use mt_hvac.Rpc.State.{World}
use mt_hvac.Rpc.{open_rpc, lookup_addr, create_handle, opened, open_cb, free_addr, destroy_handle}
use mt_hvac.Client.{
  contains, starts_with, track_file, to_track, track, init_once, host_of, parent_path,
}
use mt_hvac.Client.Opens.{IsTracked}
use mt_hvac.Client.Tracking.{IsLocated, IsTrackable, to_track_iff, track_file-IsTrackable}
use mt_hvac.Rpc.Calls.{RpcCall, opens, requests, call_all, call_rpc, Leaks, call_all-Leaks}
use mt_hvac.Rpc.Stats.{request_print_stats, send_request}
use mt_hvac.Fd.{ready}
use mt_hvac.Tests.Clients.{base, open_net, client, after}

-- A file outside the data directory, whose path has the directory's in it.
to_track_iff_example :
    (to_track base (text "/other/d/y") (some (text "/d")) tt ≡ some (text "/other/d/y")) ↔ (
      (base.canonical (text "/other/d/y") tt ≡ some (text "/other/d/y"))
      × IsLocated base (some (text "/d")) (text "/other/d/y") tt)
to_track_iff_example =
    to_track_iff base (text "/other/d/y") (text "/other/d/y") (some (text "/d")) tt

abbrev start : World open_net.Sys
start = record { client = client ready; sys = tt }

abbrev tracked : World open_net.Sys
tracked = after (track_file open_net (text "/d/y") 0 (pos 6) start) start

tracks : track_file open_net (text "/d/y") 0 (pos 6) start ≡ returns (true, tracked)
unfolding track_file to_track track init_once host_of open_rpc lookup_addr create_handle opened
    free_addr open_cb destroy_handle contains starts_with parent_path
tracks = refl

track_file-IsTrackable_example :
    ((true ≡ false) × (tracked ≡ start))
    ⊎ ((full : Text) × IsTrackable open_net (text "/d/y") 0 full start
        × (status : ℤ) × IsTracked open_net (pos 6) full status true start tracked)
track_file-IsTrackable_example =
    track_file-IsTrackable open_net (text "/d/y") 0 (pos 6) start tracked true tracks

-- An open that is refused, and the request for statistics.
abbrev calls : List RpcCall
calls = opens (pos 0) (text "/d/y") (pos 6) ∷ requests (some (text "0")) ∷ []

abbrev called : World base.Sys
called = after (call_all base calls start) start

calls_run : call_all base calls start ≡ returns (1, called)
unfolding call_all call_rpc open_rpc lookup_addr create_handle opened free_addr open_cb
    destroy_handle request_print_stats send_request
calls_run = ground arith

call_all-Leaks_example : Leaks base 1 start.client.live called.client.live
call_all-Leaks_example = call_all-Leaks base calls start called 1 calls_run

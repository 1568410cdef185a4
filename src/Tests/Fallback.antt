-- ===== src/Tests/Fallback.antt =====
-- A program whose server cannot be reached, at a concrete input.
use mt_hvac.Base.{◌≡◌, refl, inl, [], text, arith, int_key, returns}
use mt_hvac.Posix.{reading}
use mt_hvac.Platform.{Platform}
use mt_hvac.Fd.{ready}
use mt_hvac.Fd.Deadline.{Timespec}
use mt_hvac.Rpc.State.{World}
use mt_hvac.Client.{contains, starts_with, parent_path}
use mt_hvac.Client.Tracking.{IsTrackable}
use mt_hvac.Wrappers.Fallback.{read_locally}
use mt_hvac.Wrappers.Opens.{after_open, opened_fd}
use mt_hvac.System.Programs.{opened_and_read}
use mt_hvac.System.Fallback.{IsTurnedDown, opened_and_read-local}
use mt_hvac.Tests.Clients.{base, client, three_reads}

-- No request is sent, and the C library reads four letters from any descriptor.
abbrev lone : Platform
lone = record base { real_read = λ fd n s. (reading (text "abcd"), s) }

abbrev outset : World lone.Sys
outset = record { client = client ready; sys = tt }

file-IsTrackable :
    IsTrackable lone (text "/d/x") 0 (text "/d/x") (after_open lone (text "/d/x") 0 0 outset)
unfolding contains starts_with parent_path
file-IsTrackable = record {
  not_ports = refl;
  not_write_only = refl;
  not_append = refl;
  is_canonical = refl;
  located = (text "/d", refl, [], [], refl);
}

file-IsTurnedDown : IsTurnedDown lone (text "/d/x") 0 0 (text "/d/x") 0 outset
file-IsTurnedDown = record {
  rank = text "0";
  name = text "n0";
  redirects = refl;
  granted = ground arith;
  trackable = file-IsTrackable;
  usable = record { creates_all = λ s. refl; frees_all = λ s. refl };
  ranked = refl;
  counted = refl;
  known = refl;
  resolved = refl;
  declined = inl refl;
}

abbrev now : Timespec
now = record { tv_sec = 1; tv_nsec = 0 }

opened_and_read-local_example :
    (w' : World lone.Sys) × (opened_and_read lone now now (text "/d/x") 0 0 three_reads outset
      ≡ returns
          ((read_locally lone (opened_fd lone (text "/d/x") 0 0 outset) three_reads tt).0, w'))
    × (w'.sys ≡ (read_locally lone (opened_fd lone (text "/d/x") 0 0 outset) three_reads tt).1)
opened_and_read-local_example =
    opened_and_read-local lone now now (text "/d/x") (text "/d/x") 0 0 0 three_reads outset
      file-IsTurnedDown

-- ===== src/Tests/Messages.antt =====
-- A message of log4c, at a concrete input.
use mt_hvac.Base.{◌≡◌, false, text, returns}
use mt_hvac.Fd.{ready}
use mt_hvac.Fd.Deadline.{Timespec}
use mt_hvac.Wrappers.Messages.{
  Emission, finished, opens, closes, writes, direct, log_message, log_message-direct,
}
use mt_hvac.Tests.Clients.{net, world}

abbrev now : Timespec
now = record { tv_sec = 1; tv_nsec = 0 }

-- A log file is opened, written and closed.
abbrev message : Emission net.Sys
message =
    opens now now (text "/d/log") 1 0 (λ fd. writes (λ s. s) (closes now now fd (λ ret. finished)))

log_message-direct_example :
    log_message net message (world ready)
    ≡ returns (
      tt,
      record {
        client = record (world ready).client { tl_disable_redirect = false };
        sys = direct net message (world ready).sys;
      },
    )
log_message-direct_example = log_message-direct net message (world ready)

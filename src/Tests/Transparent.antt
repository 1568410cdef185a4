-- ===== src/Tests/Transparent.antt =====
-- A program that opens a file outside the data directory, at a concrete input.
use mt_hvac.Base.{◌≡◌, refl, inr, true, none, text, arith, int_key, returns, some, to_int32_small}
use mt_hvac.Posix.{reading}
use mt_hvac.Platform.{Platform}
use mt_hvac.Fd.Deadline.{Timespec}
use mt_hvac.Rpc.State.{IoStats, World, new_client}
use mt_hvac.Wrappers.{map_stats}
use mt_hvac.Wrappers.Programs.{
  Program, finished, opens, reads, closes, intercepted, direct, IsPlain,
}
use mt_hvac.Wrappers.Transparent.{intercepted-direct}
use mt_hvac.Client.{contains, starts_with, parent_path, to_track}
use mt_hvac.Tests.Clients.{net, world}
use mt_hvac.Fd.{ready}

abbrev now : Timespec
now = record { tv_sec = 1; tv_nsec = 0 }

-- The C library reads four letters from any descriptor.
abbrev local : Platform
local = record net { real_read = λ fd n s. (reading (text "abcd"), s) }

-- A client that has opened nothing, with the data directory /d.
abbrev outset : World local.Sys
outset = record (world ready) { client = new_client 1 (some (text "/d")) none (some (text "0")) }

abbrev program : Program local.Sys
program =
    opens now now (text "/e/x") 0 0
      (λ fd. reads now now fd true 4 (λ r. closes now now fd (λ ret. finished r.bytes)))

program-IsPlain : IsPlain local program outset.client.data_dir outset.sys
unfolding IsPlain to_track contains starts_with parent_path
program-IsPlain = (inr (inr refl), (to_int32_small 4 (omega arith), tt))

intercepted-direct_example :
    (g : IoStats → IoStats) × (intercepted local program outset
      ≡ returns (
        (direct local program outset.sys).0,
        record { client = map_stats g outset.client; sys = (direct local program outset.sys).1 },
      ))
intercepted-direct_example = intercepted-direct local program outset (λ fd. refl) program-IsPlain

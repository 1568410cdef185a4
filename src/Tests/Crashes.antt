-- ===== src/Tests/Crashes.antt =====
-- A read that fails at its server, at a concrete input.
use mt_hvac.Base.{
  ℕ, ◌≡◌, ◌≢◌, refl, true, some, none, arith, text, pos, minus_one, nat_key, int_key, update,
  update_self, nothing, stops, blocked,
}
use mt_hvac.Fd.{ready}
use mt_hvac.Fd.Deadline.{Timespec}
use mt_hvac.Rpc.State.{World}
use mt_hvac.Client.Reads.{request}
use mt_hvac.Client.Unanswered.{IsMapped}
use mt_hvac.Wrappers.{wrap_read}
use mt_hvac.System.Crashes.{failed_read-crash}
use mt_hvac.Tests.Node.{memory, bulk, bulk-IsBulk}
use mt_hvac.Tests.Servers.{server, disk}
use mt_hvac.Tests.Clients.{base, net, client, in_state-state_of}

-- Descriptor 5 stands for descriptor 9 of the server, which is not open there.
abbrev stale : World net.Sys
stale = record {
  client = record (client ready) { fd_redir_map = update nothing (pos 5) (pos 9) };
  sys = record { rest = tt; servers = update nothing 0 server };
}

stale-IsMapped : IsMapped net (pos 5) (pos 9) 0 stale
stale-IsMapped = record {
  path = text "/d/x";
  name = text "n0";
  tracked = update_self nothing (pos 5) (text "/d/x");
  is_ready = in_state-state_of ready;
  mapped = update_self nothing (pos 5) (pos 9);
  nonzero = ground arith;
  counted = refl;
  cached = refl;
  resolved = refl;
  creates = refl;
  registers = λ n. refl;
  frees = λ s. refl;
}

nine_fails : (memory.read (pos 9) 4 disk).0.result ≡ minus_one
nine_fails = ground arith

abbrev clock : Timespec
clock = record { tv_sec = 1; tv_nsec = 0 }

failed_read-crash_example :
    (wrap_read net clock clock (pos 5) true 4 stale ≡ stops blocked)
    × ((net.send_read (some 0) (request 4 (pos 9) minus_one) stale.sys).1.servers 0 ≡ none)
    × ((b : ℕ)
        → 0 ≢ b
        → (net.send_read (some 0) (request 4 (pos 9) minus_one) stale.sys).1.servers b
          ≡ stale.sys.servers b)
failed_read-crash_example =
    failed_read-crash base memory bulk bulk-IsBulk clock clock (pos 5) (pos 9) 4 0 server stale
      (omega arith) stale-IsMapped (update_self {K = ℕ} nothing 0 server) refl nine_fails

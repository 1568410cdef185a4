-- ===== src/Tests/Clients.antt =====
-- The theorems on the client, at concrete inputs: one server, reached through Mercury.
use mt_hvac.Base.{
  ℕ, ◌≡◌, refl, true, false, some, none, List, [], ◌∷◌, arith, text, ℤ, pos, nat_key, int_key,
  text_key, update, update_self, nothing, Outcome, returns, stops, ◌≢◌, minus_one,
}
use mt_hvac.Posix.{slice, reading}
use mt_hvac.Fd.{FdTable, ready, state_of, FdState}
use mt_hvac.Fd.Deadline.{Timespec}
use mt_hvac.Platform.{Platform, refused, answered}
use mt_hvac.Rpc.State.{Client, new_client, World}
use mt_hvac.Rpc.{
  open_rpc, not_read, lookup_addr, create_handle, opened, open_cb, free_addr, destroy_handle,
  close_rpc, close_mapped,
}
use mt_hvac.Rpc.Effects.{IsOpened, open_rpc-effect}
use mt_hvac.Client.{track, init_once, host_of, remove_fd, remote_close, close_tracked}
use mt_hvac.Client.Reads.{advance, IsHonest, IsServed}
use mt_hvac.Client.Closes.{IsUntracked, IsCleaned, IsUnmapped, remove_fd-effect}
use mt_hvac.Client.Opens.{IsTracked, track-effect}
use mt_hvac.Wrappers.{wrap_pread}
use mt_hvac.Wrappers.Reads.{ReadCall, AreSmall}
use mt_hvac.System.{clustered}
use mt_hvac.System.Preads.{pread_by_server}
use mt_hvac.System.Honest.{IsUp, remote_file, clustered-IsHonest}
use mt_hvac.Tests.Node.{memory, memory-IsPosix, bulk, bulk-IsBulk}
use mt_hvac.Tests.Servers.{server, letters, letters_file}

-- The client's node. Every address is that of node 0.
abbrev pub base : Platform
base = record {
  Sys = Unit {0};
  Addr = ℕ;
  real_open = λ path flags mode s. (pos 5, s);
  real_close = λ fd s. (pos 0, s);
  real_read = λ fd n s. (not_read, s);
  real_pread = λ fd n offset s. (not_read, s);
  canonical = λ path s. some path;
  current_path = λ s. none;
  read_file = λ path s. none;
  hash = λ path. 0;
  resolve = λ name s. some 0;
  creates = λ a s. true;
  frees = λ a s. true;
  bulk_creates = λ n s. true;
  send_open = λ a path s. (refused, s);
  send_read = λ a i s. (refused, s);
  send_seek = λ a fd offset whence s. (refused, s);
  send_close = λ a fd s. (false, s);
  send_stats = λ a s. (true, s);
}

abbrev pub net : Platform
net = clustered base memory bulk

pub base-IsUp : IsUp base memory bulk
base-IsUp = record {
  creates = λ a s. refl;
  frees = λ a s. refl;
  registers = λ n s. refl;
  resolves = λ name a i s. refl;
  allocates = λ n s h. refl;
}

clustered-IsHonest_example : IsHonest net (remote_file base memory bulk)
clustered-IsHonest_example =
    clustered-IsHonest base memory bulk base-IsUp memory-IsPosix bulk-IsBulk

abbrev pub in_state : FdState → FdTable
in_state st = record { entry = update nothing (pos 5) 0; status = update nothing 0 st; next = 1 }

-- Descriptor 5 has been opened, and is descriptor 3 of the server.
abbrev pub client : FdState → Client
client st = record (new_client 1 (some (text "/d")) none (some (text "0"))) {
  fd_map = update nothing (pos 5) (text "/d/x");
  fd_redir_map = update nothing (pos 5) (pos 3);
  fds = in_state st;
  address_cache = λ rank. some (text "n0");
}

abbrev pub world : FdState → World net.Sys
world st = record {
  client = client st;
  sys = record { rest = tt; servers = update nothing 0 server };
}

pub in_state-state_of : (st : FdState) → state_of (pos 5) (in_state st) ≡ some st
in_state-state_of st = ground arith

served : remote_file base memory bulk 0 (pos 3) (world ready).sys ≡ some letters_file
served = ground arith

world-IsServed : IsServed net (remote_file base memory bulk) (pos 5) letters_file (world ready)
world-IsServed = record {
  path = text "/d/x";
  name = text "n0";
  addr = 0;
  remote_fd = pos 3;
  tracked = update_self nothing (pos 5) (text "/d/x");
  is_ready = in_state-state_of ready;
  mapped = update_self nothing (pos 5) (pos 3);
  nonzero = ground arith;
  counted = refl;
  cached = refl;
  resolved = refl;
  served = served;
}

abbrev start : Timespec
start = record { tv_sec = 1; tv_nsec = 0 }

abbrev end : Timespec
end = record { tv_sec = 2; tv_nsec = 0 }

abbrev pub three_reads : List ReadCall
three_reads =
    record { count = 3; start = start; end = end }
    ∷ record { count = 2; start = start; end = end }
    ∷ record { count = 100; start = start; end = end }
    ∷ []

pub three_reads-AreSmall : AreSmall three_reads
three_reads-AreSmall = (omega arith, (omega arith, (omega arith, tt)))

pread_by_server_example :
    ((offset : ℕ)
      → (w' : World net.Sys) × (wrap_pread net start end (pos 5) true 4 (pos offset) (world ready)
          ≡ returns (reading (slice offset 4 letters), w'))
        × IsServed net (remote_file base memory bulk) (pos 5) letters_file w')
    × ((w' : World net.Sys) × (wrap_pread net start end (pos 5) true 4 minus_one (world ready)
          ≡ returns (reading (slice 2 4 letters), w'))
        × IsServed net (remote_file base memory bulk) (pos 5) (advance letters_file 4) w')
pread_by_server_example =
    pread_by_server base memory bulk base-IsUp memory-IsPosix bulk-IsBulk start end (pos 5) 4
      letters_file (world ready) (omega arith) world-IsServed

-- A server that opens every file as its descriptor 4.
abbrev pub open_net : Platform
open_net = record base { send_open = λ a path s. (answered (pos 4), s) }

-- The state that a call leaves.
abbrev pub after : {A S : Type 0} → Outcome (A × S) → S → S
after (returns (a, s)) t = s
after (stops e) t = t

abbrev before : World open_net.Sys
before = record { client = client ready; sys = tt }

abbrev opened_world : World open_net.Sys
opened_world = after (open_rpc open_net (pos 0) (text "/d/x") (pos 6) before) before

open_runs : open_rpc open_net (pos 0) (text "/d/x") (pos 6) before ≡ returns (pos 4, opened_world)
unfolding open_rpc lookup_addr create_handle opened free_addr open_cb destroy_handle
open_runs = refl

open_rpc-effect_example : IsOpened (pos 6) (pos 4) before.client opened_world.client
open_rpc-effect_example =
    open_rpc-effect open_net (pos 0) (pos 6) (text "/d/x") before opened_world (pos 4) open_runs

abbrev tracked_world : World open_net.Sys
tracked_world = after (track open_net (pos 6) (some (text "/d/y")) before) before

track_runs : track open_net (pos 6) (some (text "/d/y")) before ≡ returns (true, tracked_world)
unfolding track init_once host_of open_rpc lookup_addr create_handle opened free_addr open_cb
    destroy_handle
track_runs = refl

track-effect_example :
    (status : ℤ) × IsTracked open_net (pos 6) (text "/d/y") status true before tracked_world
track-effect_example =
    track-effect open_net (pos 6) (text "/d/y") before tracked_world true track_runs

-- Every descriptor is of one file.
abbrev many : ℤ → World open_net.Sys
many remote = record {
  client = record (client ready) {
    fd_map = λ fd. some (text "/d/x");
    fd_redir_map = λ fd. some remote;
  };
  sys = tt;
}

abbrev removed_world : ℤ → World open_net.Sys
removed_world remote = after (remove_fd open_net (pos 5) (many remote)) (many remote)

remove_runs :
    (remote : ℤ)
    → remote ≢ pos 0
    → remove_fd open_net (pos 5) (many remote) ≡ returns (tt, removed_world remote)
unfolding remove_fd remote_close close_tracked host_of close_rpc lookup_addr create_handle
    close_mapped destroy_handle free_addr
remove_runs remote h = ground arith

remove_fd-effect_example :
    IsUntracked (pos 5) (many (pos 3)).client (removed_world (pos 3)).client
    × IsCleaned (pos 5) (many (pos 3)).client (removed_world (pos 3)).client
    × IsUnmapped (pos 5) (many (pos 3)).client (removed_world (pos 3)).client
remove_fd-effect_example =
    remove_fd-effect open_net (pos 5) (text "/d/x") (many (pos 3)) (removed_world (pos 3)) tt refl
      (remove_runs (pos 3) (λ e. cc))

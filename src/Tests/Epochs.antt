-- ===== src/Tests/Epochs.antt =====
-- Epochs of a training program, at a concrete input.
use mt_hvac.Base.{
  ℕ, ◌+◌, ◌≡◌, refl, true, [], text, pos, arith, int_key, nat_key, is_positive, update_self,
  nothing, returns,
}
use mt_hvac.Posix.{slice}
use mt_hvac.Fd.{ready}
use mt_hvac.Rpc.State.{World, settings}
use mt_hvac.Server.{State, open_handler}
use mt_hvac.Client.{contains, starts_with, parent_path}
use mt_hvac.Mover.Copies.{opens, happens}
use mt_hvac.System.Stocked.{IsAmple, moved}
use mt_hvac.Wrappers.Opens.{IsConfigured}
use mt_hvac.System.Epochs.{IsReady, Life, begins, event, epoch, epochs-content}
use mt_hvac.Wrappers.Reads.{total}
use mt_hvac.Fd.Deadline.{Timespec}
use mt_hvac.Tests.Node.{memory, memory-IsPosix, memory-IsStable, bulk, bulk-IsBulk}
use mt_hvac.Tests.Servers.{server, letters, letters_there}
use mt_hvac.Tests.Clients.{base, net, base-IsUp, client, world, three_reads, three_reads-AreSmall}

positive_succ : (n : ℕ) → is_positive (pos (n + 1)) ≡ true
positive_succ n = ground arith

pub memory-IsAmple : IsAmple memory
memory-IsAmple = record {
  opens = λ path s c there. rw there (positive_succ s.last_fd);
  closes = λ fd s f there. refl;
}

pub letters-IsConfigured :
    IsConfigured net (text "/d/x") 0 0 (text "/d/x") 0 (settings (client ready))
unfolding contains starts_with parent_path
letters-IsConfigured = record {
  rank = text "0";
  name = text "n0";
  redirects = refl;
  ranked = refl;
  counted = refl;
  known = refl;
  resolved = λ s. refl;
  granted = λ s. ground arith;
  not_ports = refl;
  not_write_only = refl;
  not_append = refl;
  is_canonical = λ s. refl;
  located = λ s. (text "/d", refl, [], [], refl);
}

letters-IsReady :
    IsReady base memory bulk (text "/d/x") letters 0 (settings (client ready)) (world ready)
letters-IsReady =
    (refl, (server, update_self {K = ℕ} nothing 0 server, ((λ p c h. cc), letters_there)))

-- Another client opens the file at the server.
abbrev opened_server : State memory
opened_server = (open_handler memory (text "/d/x") server).1

abbrev later : World net.Sys
later = record (world ready) { sys = moved base memory bulk 0 opened_server (world ready).sys }

opens_happens :
    happens memory bulk (text "/bb/XXXXXX") (opens (text "/d/x")) server ≡ returns opened_server
unfolding happens
opens_happens = refl

life : Life base memory bulk (text "/bb/XXXXXX") (text "/d/x") 0 0 (world ready) later
life =
    event 0 server opened_server (opens (text "/d/x")) begins (update_self {K = ℕ} nothing 0 server)
      opens_happens

abbrev start : Timespec
start = record { tv_sec = 1; tv_nsec = 0 }

abbrev end : Timespec
end = record { tv_sec = 2; tv_nsec = 0 }

epochs-content_example :
    (w'' : World net.Sys) × (epoch base memory bulk start end (text "/d/x") 0 0 three_reads later
      ≡ returns (slice 0 (total three_reads) letters, w''))
epochs-content_example =
    epochs-content base memory bulk base-IsUp memory-IsStable memory-IsPosix memory-IsAmple
      bulk-IsBulk (text "/bb/XXXXXX") (text "/d/x") letters 0 (text "/d/x") 0 0
      (settings (client ready)) letters-IsConfigured start end three_reads letters-IsReady life
      three_reads-AreSmall

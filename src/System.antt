-- ===== src/System.antt =====
-- The servers of src/mthvac_comm.cpp behind the client of src/mthvac_comm_client.cpp: the platform
-- on which the client's calls run the servers' handlers. `B` has all that is neither the client nor
-- a server: the client's own node, and Mercury where no server listens. `Q` is the operating system
-- of the servers' nodes. A handler runs when its request is sent, before anything else happens.
pub mod Honest
pub mod Opens
pub mod Programs
pub mod Fallback
pub mod Stocked
pub mod Serving
pub mod Sessions
pub mod Crashes
pub mod Epochs
pub mod Sharing
pub mod Preads
use mt_hvac.Base.{
  ℕ, Bool, true, Option, none, some, Text, ℤ, Key, update, erase, Outcome, returns, stops,
}
use mt_hvac.Posix.{Posix}
use mt_hvac.Server.{
  Server, State, ReadIn, ReadOut, open_handler, close_handler, seek_handler, read_handler,
}
use mt_hvac.Platform.{Platform, Sent, refused, failed, unanswered, answered}

-- The processes of the servers that run, by their addresses, and the rest of the world.
pub record Cluster (Rest Addr Fs : Type 0) : Type 0 where
  pub rest : Rest
  pub servers : Addr → Option (Server Fs)

module _ (B : Platform) ⦃k : Key B.Addr⦄ (Q : Posix) (bulk_transfer : ℕ → ℕ → Bool) where
  abbrev pub Nodes : Type 0
  Nodes = Cluster B.Sys B.Addr Q.Fs

  abbrev pub lift : {A : Type 0} → (B.Sys → A × B.Sys) → Nodes → A × Nodes
  lift f s = let (a, rest') = f s.rest in (a, record s { rest = rest' })

  abbrev pub server_at : Option B.Addr → Nodes → Option (Server Q.Fs)
  server_at none s = none
  server_at (some a) s = s.servers a

  -- The server goes on from a new state.
  abbrev pub set_server : Option B.Addr → State Q → Nodes → Nodes
  set_server none t s = s
  set_server (some a) t s = record s { servers = update s.servers a t }

  -- A handler that does not return takes its process with it.
  abbrev pub kill : Option B.Addr → Nodes → Nodes
  kill none s = s
  kill (some a) s = record s { servers = erase s.servers a }

  -- What the client and the cluster see of a handler.
  abbrev pub respond : {A : Type 0} → Option B.Addr → Outcome (A × State Q) → Nodes → Sent A × Nodes
  respond a (returns (r, t)) s = (answered r, set_server a t s)
  respond a (stops e) s = (unanswered, kill a s)

  -- The close request has no response.
  abbrev pub notify : Option B.Addr → Outcome (Unit {0} × State Q) → Nodes → Bool × Nodes
  notify a (returns (u, t)) s = (true, set_server a t s)
  notify a (stops e) s = (true, kill a s)

  unfoldable pub open_at : Option B.Addr → Option (Server Q.Fs) → Text → Nodes → Sent ℤ × Nodes
  open_at a none path s = lift (B.send_open a path) s
  open_at a (some t) path s = respond a (returns (open_handler Q path t)) s

  unfoldable pub read_at :
      Option B.Addr → Option (Server Q.Fs) → ReadIn → Nodes → Sent ReadOut × Nodes
  read_at a none i s = lift (B.send_read a i) s
  read_at a (some t) i s = respond a (read_handler Q bulk_transfer i t) s

  unfoldable pub seek_at :
      Option B.Addr → Option (Server Q.Fs) → (fd offset whence : ℤ) → Nodes → Sent ℤ × Nodes
  seek_at a none fd offset whence s = lift (B.send_seek a fd offset whence) s
  seek_at a (some t) fd offset whence s = respond a (returns (seek_handler Q fd offset whence t)) s

  unfoldable pub close_at : Option B.Addr → Option (Server Q.Fs) → ℤ → Nodes → Bool × Nodes
  close_at a none fd s = lift (B.send_close a fd) s
  close_at a (some t) fd s = notify a (close_handler Q fd t) s

  abbrev pub clustered : Platform
  clustered = record {
    Sys = Nodes;
    Addr = B.Addr;
    real_open = λ path flags mode. lift (B.real_open path flags mode);
    real_close = λ fd. lift (B.real_close fd);
    real_read = λ fd n. lift (B.real_read fd n);
    real_pread = λ fd n offset. lift (B.real_pread fd n offset);
    canonical = λ path s. B.canonical path s.rest;
    current_path = λ s. B.current_path s.rest;
    read_file = λ path s. B.read_file path s.rest;
    hash = B.hash;
    resolve = λ name s. B.resolve name s.rest;
    creates = λ a s. B.creates a s.rest;
    frees = λ a s. B.frees a s.rest;
    bulk_creates = λ n s. B.bulk_creates n s.rest;
    send_open = λ a path s. open_at a (server_at a s) path s;
    send_read = λ a i s. read_at a (server_at a s) i s;
    send_seek = λ a fd offset whence s. seek_at a (server_at a s) fd offset whence s;
    send_close = λ a fd s. close_at a (server_at a s) fd s;
    send_stats = λ a. lift (B.send_stats a);
  }

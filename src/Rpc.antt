-- ===== src/Rpc.antt =====
-- The client's side of the RPCs: src/mthvac_comm_client.cpp. A call runs to its end before another
-- one starts, and a callback runs before the wait for it ends.
pub mod State
pub mod Effects
pub mod Balance
pub mod Waiting
pub mod Services
pub mod Stats
pub mod Calls
pub mod Progress
pub mod Counters
pub mod Legacy
use mt_hvac.Base.{
  ℕ, suc, ◌+◌, ◌-◌, Bool, true, false, Option, none, some, List, [], Text, ℤ, pos, minus_one,
  is_positive, to_int32, int_key, update, erase, ◌=?◌, M, ◌>>=◌, ◌>>◌, pure, branch, returns, stops,
  aborted, blocked, undefined, Stop, if◌then◌else◌,
}
use mt_hvac.Fd.{set_fd_opening, set_fd_ready, set_fd_error, cleanup_fd_state, wait_fd_ready}
use mt_hvac.Posix.{Reading}
use mt_hvac.Server.{ReadIn, ReadOut}
use mt_hvac.Platform.{Platform, Sent, refused, failed, unanswered, answered}
use mt_hvac.Ports.{ports_filename, Scan, found, missing, overrun, scan_ports}
use State.{Live, Client, World, gets, modify, outside, map_live}

abbrev pub halt : {S A : Type 0} → Stop → M S A
halt e s = stops e

-- assert(b)
abbrev pub assert : {S : Type 0} → Bool → M S (Unit {0})
assert true s = returns (tt, s)
assert false s = stops aborted

abbrev pub not_read : Reading
not_read = record { result = minus_one; bytes = [] }

module _ (P : Platform) where
  open P use {
    Sys, Addr, read_file, resolve, creates, frees, bulk_creates, send_open, send_read, send_seek,
    send_close,
  }

  abbrev pub Action : Type 0 → Type 0
  Action A = M (World Sys) A

  -- A looked-up address counts as held.
  unfoldable pub held : Option Addr → Live → Live
  held none l = l
  held (some a) l = record l { addrs = l.addrs + 1 }

  -- HG_Addr_lookup2 into an address that is null before.
  lookup_new : Text → Action (Option Addr)
  unfolding held
  lookup_new name = do
    addr ← gets (λ w. resolve name w.sys)
    modify (map_live (held addr))
    pure addr

  hold : Option Addr → Action (Option Addr)
  unfolding held
  hold none = halt undefined
  hold (some a) = do modify (map_live (held (some a))); pure (some a)

  -- HG_Addr_lookup2 into an address that is not initialised.
  lookup_cached : Text → Action (Option Addr)
  unfolding hold
  lookup_cached name = do addr ← gets (λ w. resolve name w.sys); hold addr

  use_scan : ℤ → Scan → Action (Option Addr)
  unfolding lookup_new
  use_scan rank (found name) = do
    modify (λ c. record c { address_cache = update c.address_cache rank name })
    lookup_new name
  use_scan rank missing = pure none
  use_scan rank overrun = halt undefined

  -- The file is read through a null pointer if it cannot be opened.
  scan_file : ℤ → Option Text → Action (Option Addr)
  unfolding use_scan
  scan_file rank none = halt undefined
  scan_file rank (some file) = use_scan rank (scan_ports rank file)

  job_file : ℤ → Option Text → Action (Option Addr)
  unfolding scan_file
  job_file rank none = halt undefined
  job_file rank (some job) = do
    file ← gets (λ w. read_file (ports_filename job) w.sys)
    scan_file rank file

  cache_or_file : ℤ → Option Text → Action (Option Addr)
  unfolding lookup_cached job_file
  cache_or_file rank (some name) = lookup_cached name
  cache_or_file rank none = do job ← gets (λ w. w.client.job_id); job_file rank job

  -- hvac_client_comm_lookup_addr
  unfoldable pub lookup_addr : ℤ → Action (Option Addr)
  unfolding cache_or_file
  lookup_addr rank = do cached ← gets (λ w. w.client.address_cache rank); cache_or_file rank cached

  -- hvac_comm_create_handle
  unfoldable pub create_handle : Option Addr → Action (Unit {0})
  create_handle addr = do
    created ← gets (λ w. creates addr w.sys)
    assert created
    modify (map_live (λ l. record l { handles = l.handles + 1 }))

  -- HG_Destroy
  unfoldable pub destroy_handle : Action (Unit {0})
  destroy_handle = modify (map_live (λ l. record l { handles = l.handles - 1 }))

  unfoldable pub released : Option Addr → Live → Live
  released none l = l
  released (some a) l = record l { addrs = l.addrs - 1 }

  -- hvac_comm_free_addr
  unfoldable pub free_addr : Option Addr → Action (Unit {0})
  unfolding released
  free_addr addr = do
    freed ← gets (λ w. frees addr w.sys)
    assert freed
    modify (map_live (released addr))

  -- hvac_open_cb, on an answer
  unfoldable pub open_cb : ℤ → ℤ → Action (Unit {0})
  open_cb fd status = do
    modify (λ c.
        if is_positive status
        then record c {
          fd_redir_map = update c.fd_redir_map fd status;
          fds = set_fd_ready fd c.fds;
        }
        else record c { fds = set_fd_error fd c.fds })
    destroy_handle

  -- What follows HG_Forward in the next function: a handle that could not be sent is not destroyed.
  unfoldable pub opened : ℤ → Option Addr → Sent ℤ → Action ℤ
  opened fd addr refused = do
    modify (λ c. record c { fds = set_fd_error fd c.fds })
    free_addr addr
    pure minus_one
  opened fd addr failed = halt aborted
  opened fd addr unanswered = do free_addr addr; halt blocked
  opened fd addr (answered status) = do free_addr addr; open_cb fd status; pure status

  -- hvac_client_comm_gen_open_rpc
  unfoldable pub open_rpc : (host : ℤ) → Text → (fd : ℤ) → Action ℤ
  open_rpc host path fd = do
    modify (λ c. record c { fds = set_fd_opening fd c.fds })
    addr ← lookup_addr host
    create_handle addr
    sent ← outside (send_open addr path)
    opened fd addr sent

  -- The wait, the callback hvac_read_cb and its cleaning up.
  unfoldable pub read_done : Option Addr → Sent ReadOut → Action Reading
  read_done addr refused = do
    modify (map_live (λ l. record l { bulks = l.bulks - 1 }))
    destroy_handle
    free_addr addr
    pure not_read
  read_done addr failed = halt aborted
  read_done addr unanswered = do free_addr addr; halt blocked
  read_done addr (answered out) = do
    free_addr addr
    modify (map_live (λ l. record l { bulks = l.bulks - 1 }))
    destroy_handle
    pure (record { result = out.ret; bytes = out.pushed })

  -- The part of the next function that has a remote descriptor. `has_buffer` tells whether the
  -- caller's buffer is not null.
  unfoldable pub read_remote :
      (host : ℤ) (remote : ℤ) (has_buffer : Bool) (count : ℕ) (offset : ℤ) → Action Reading
  read_remote host remote has_buffer count offset = do
    addr ← lookup_addr host
    assert has_buffer
    create_handle addr
    registered ← gets (λ w. bulk_creates count w.sys)
    assert registered
    modify (map_live (λ l. record l { bulks = l.bulks + 1 }))
    let request : ReadIn = record {
      input_val = to_int32 (pos count);
      accessfd = remote;
      offset = offset;
    }
    sent ← outside (send_read addr request)
    read_done addr sent

  -- No descriptor of the server stands for one that is not in the map, or that is mapped to 0.
  unfoldable pub read_mapped :
      (host : ℤ) (redir : Option ℤ) (has_buffer : Bool) (count : ℕ) (offset : ℤ) → Action Reading
  read_mapped host none has_buffer count offset = pure not_read
  read_mapped host (some remote) has_buffer count offset =
      branch (remote =? pos 0) (pure not_read) (read_remote host remote has_buffer count offset)

  -- hvac_client_comm_gen_read_rpc. No other thread changes the state of the descriptor in the wait.
  unfoldable pub read_rpc :
      (host : ℤ) (fd : ℤ) (has_buffer : Bool) (count : ℕ) (offset : ℤ) → Action Reading
  read_rpc host fd has_buffer count offset = do
    ready ← gets (λ w. wait_fd_ready fd [] w.client.fds)
    redir ← gets (λ w. w.client.fd_redir_map fd)
    branch ready (read_mapped host redir has_buffer count offset) (pure not_read)

  redir_or_zero : ℤ → Option ℤ → Action ℤ
  redir_or_zero fd none = do
    modify (λ c. record c { fd_redir_map = update c.fd_redir_map fd (pos 0) })
    pure (pos 0)
  redir_or_zero fd (some remote) = pure remote

  -- `fd_redir_map[fd]`, which enters 0 for a descriptor that is absent
  unfoldable pub redir_at : ℤ → Action ℤ
  unfolding redir_or_zero
  redir_at fd = do redir ← gets (λ w. w.client.fd_redir_map fd); redir_or_zero fd redir

  -- hvac_seek_cb does not look at the error of a failed call.
  sought : Option Addr → Sent ℤ → Action ℤ
  unfolding free_addr destroy_handle
  sought addr refused = halt aborted
  sought addr failed = halt undefined
  sought addr unanswered = do free_addr addr; halt blocked
  sought addr (answered out) = do free_addr addr; destroy_handle; pure out

  -- hvac_client_comm_gen_seek_rpc
  unfoldable pub seek_rpc : (host fd offset whence : ℤ) → Action ℤ
  unfolding redir_at sought lookup_addr create_handle
  seek_rpc host fd offset whence = do
    addr ← lookup_addr host
    create_handle addr
    remote ← redir_at fd
    sent ← outside (send_seek addr remote offset whence)
    sought addr sent

  -- The close is sent and the mapping dropped if there is a remote descriptor.
  unfoldable pub close_mapped : ℤ → Option Addr → Option ℤ → Action (Unit {0})
  close_mapped fd addr none = pure tt
  close_mapped fd addr (some remote) = branch (remote =? pos 0) (pure tt) (do
    _ ← outside (send_close addr remote)
    modify (λ c. record c { fd_redir_map = erase c.fd_redir_map fd }))

  -- hvac_client_comm_gen_close_rpc
  unfoldable pub close_rpc : (host fd : ℤ) → Action (Unit {0})
  close_rpc host fd = do
    addr ← lookup_addr host
    create_handle addr
    redir ← gets (λ w. w.client.fd_redir_map fd)
    close_mapped fd addr redir
    modify (λ c. record c { fds = cleanup_fd_state fd c.fds })
    destroy_handle
    free_addr addr

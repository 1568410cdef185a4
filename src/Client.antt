-- ===== src/Client.antt =====
-- The client library's own functions: src/mthvac_client.cpp.
pub mod Reads
pub mod Preads
pub mod Opens
pub mod Closes
pub mod Frames
pub mod Unanswered
pub mod Served
pub mod Declined
pub mod Releases
pub mod Tracking
pub mod Startup
pub mod Counters
use mt_hvac.Base.{
  ℕ, zero, suc, ◌+◌, ◌/◌, ◌%◌, ◌==◌, Bool, true, false, ◌&&◌, ◌||◌, not, Option, none, some, List,
  [], ◌∷◌, ◌++◌, Text, text, ℤ, pos, minus_one, is_negative, to_int32, int_key, text_key, update,
  erase, ◌=?◌, M, ◌>>=◌, ◌>>◌, pure, branch, undefined, if◌then◌else◌,
}
use mt_hvac.Posix.{Reading}
use mt_hvac.Platform.{Platform}
use mt_hvac.Rpc.State.{Client, World, gets, modify}
use mt_hvac.Rpc.{Action, halt, open_rpc, read_rpc, seek_rpc, close_rpc, redir_at, not_read}

-- Whether a text begins with another, and whether it holds it: `strstr`, `std::string::find`.
unfoldable pub starts_with : Text → Text → Bool
starts_with s [] = true
starts_with [] (d ∷ pattern) = false
starts_with (c ∷ s) (d ∷ pattern) = c == d && starts_with s pattern

unfoldable pub contains : Text → Text → Bool
unfolding starts_with
contains [] pattern = starts_with [] pattern
contains (c ∷ s) pattern = starts_with (c ∷ s) pattern || contains s pattern

has_slash : Text → Bool
has_slash [] = false
has_slash (c ∷ s) = c == b'/' || has_slash s

-- What stands before the last slash.
before_slash : Text → Text
unfolding has_slash
before_slash [] = []
before_slash (c ∷ s) = if has_slash s then c ∷ before_slash s else []

-- The parent of an absolute path; that of a file in the root is the root.
unfoldable pub parent_path : Text → Text
unfolding before_slash
parent_path path = elim (before_slash path) [ [] ↦ text "/" | c ∷ s ↦ c ∷ s ]

-- O_ACCMODE is 3, O_WRONLY is 1, O_APPEND is 02000.
abbrev pub is_write_only : ℕ → Bool
is_write_only flags = flags % 4 == 1

abbrev pub is_append : ℕ → Bool
is_append flags = flags / 0o2000 % 2 == 1

module _ (P : Platform) where
  open P use {Sys, canonical, current_path, hash}

  -- The host of a path, which is undefined without servers.
  unfoldable pub host_of : Text → Action P ℤ
  host_of path = do
    count ← gets (λ w. w.client.server_count)
    branch (count == 0) (halt undefined) (pure (to_int32 (pos (hash path % count))))

  -- Whether the file lies in the data directory, or without one in the current directory: what the
  -- `try` block finds, with the canonical path if so. An exception is a no.
  in_dir : Option Text → Text → Text → Option Text
  in_dir none path full = none
  in_dir (some dir) path full = if contains (parent_path full) dir then some full else none

  in_cwd : Option Text → Text → Option Text
  in_cwd none full = none
  in_cwd (some cwd) full = if parent_path full =? cwd then some full else none

  with_full : Option Text → Option Text → Sys → Option Text
  unfolding in_dir in_cwd
  with_full none dir s = none
  with_full (some full) none s = in_cwd (current_path s) full
  with_full (some full) (some dir) s = in_dir (canonical dir s) dir full

  unfoldable pub to_track : Text → Option Text → Sys → Option Text
  unfolding with_full
  to_track path dir s = with_full (canonical path s) dir s

  -- The first open starts Mercury: hvac_init_comm reads SLURM_PROCID through a pointer that it has
  -- not tested.
  init_comm : Option Text → Action P (Unit {0})
  init_comm none = halt undefined
  init_comm (some rank) = modify (λ c. record c { mercury_init = true })

  unfoldable pub init_once : Action P (Unit {0})
  unfolding init_comm
  init_once = do
    started ← gets (λ w. w.client.mercury_init)
    proc ← gets (λ w. w.client.proc_id)
    branch started (pure tt) (init_comm proc)

  -- The part of the next function for a file that is to be tracked. A failed open changes the answer
  -- and leaves the entry of `fd_map`.
  unfoldable pub track : ℤ → Option Text → Action P Bool
  track fd none = pure false
  track fd (some full) = do
    modify (λ c. record c { fd_map = update c.fd_map fd full })
    init_once
    host ← host_of full
    result ← open_rpc P host full fd
    pure (not (is_negative result))

  -- hvac_track_file
  unfoldable pub track_file : Text → (flags : ℕ) → (fd : ℤ) → Action P Bool
  track_file path flags fd =
      branch (contains path (text ".ports.cfg.") || (is_write_only flags || is_append flags))
        (pure false)
        (do
          dir ← gets (λ w. w.client.data_dir)
          full ← gets (λ w. to_track path dir w.sys)
          track fd full)

  -- hvac_file_tracked, hvac_get_path
  abbrev pub get_path : ℤ → World Sys → Option Text
  get_path fd w = w.client.fd_map fd

  unfoldable pub read_tracked : Option Text → ℤ → Bool → ℕ → Action P Reading
  read_tracked none fd has_buffer count = pure not_read
  read_tracked (some path) fd has_buffer count = do
    host ← host_of path
    read_rpc P host fd has_buffer count minus_one

  -- hvac_remote_read
  unfoldable pub remote_read : ℤ → Bool → ℕ → Action P Reading
  remote_read fd has_buffer count = do
    path ← gets (get_path fd)
    read_tracked path fd has_buffer count

  unfoldable pub pread_tracked : Option Text → ℤ → Bool → ℕ → ℤ → Action P Reading
  pread_tracked none fd has_buffer count offset = pure not_read
  pread_tracked (some path) fd has_buffer count offset = do
    remote ← redir_at P fd
    branch (remote =? pos 0) (pure not_read)
        (do host ← host_of path; read_rpc P host fd has_buffer count offset)

  -- hvac_remote_pread
  unfoldable pub remote_pread : ℤ → Bool → ℕ → ℤ → Action P Reading
  remote_pread fd has_buffer count offset = do
    path ← gets (get_path fd)
    pread_tracked path fd has_buffer count offset

  seek_tracked : Option Text → (fd offset whence : ℤ) → Action P ℤ
  seek_tracked none fd offset whence = pure minus_one
  seek_tracked (some path) fd offset whence = do
    host ← host_of path
    seek_rpc P host fd offset whence

  -- hvac_remote_lseek
  unfoldable pub remote_lseek : (fd offset whence : ℤ) → Action P ℤ
  unfolding seek_tracked host_of
  remote_lseek fd offset whence = do path ← gets (get_path fd); seek_tracked path fd offset whence

  unfoldable pub close_tracked : Option Text → ℤ → Action P (Unit {0})
  close_tracked none fd = pure tt
  close_tracked (some path) fd = do host ← host_of path; close_rpc P host fd

  -- hvac_remote_close
  unfoldable pub remote_close : ℤ → Action P (Unit {0})
  remote_close fd = do path ← gets (get_path fd); close_tracked path fd

  -- hvac_remove_fd
  unfoldable pub remove_fd : ℤ → Action P (Unit {0})
  remove_fd fd = do remote_close fd; modify (λ c. record c { fd_map = erase c.fd_map fd })

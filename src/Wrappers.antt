-- ===== src/Wrappers.antt =====
-- The functions that stand before the C library's: src/wrappers.c. The two clock readings of a call
-- are arguments, and a time is the sum that the code computes, before any rounding.
pub mod Elapsed
pub mod Reads
pub mod Opens
pub mod Closes
pub mod Counters
pub mod Turns
pub mod Tables
pub mod Sessions
pub mod Serving
pub mod Matches
pub mod Local
pub mod Faithful
pub mod Refinement
pub mod Sharing
pub mod Export
pub mod Messages
pub mod Programs
pub mod Transparent
pub mod Fallback
pub mod Symbols
use mt_hvac.Base.{
  ℕ, ◌+◌, ◌%◌, ◌^◌, Bool, true, false, Option, none, some, Text, text, ℤ, pos, minus_one, to_int32,
  int_key, ◌=?◌, M, ◌>>=◌, ◌>>◌, pure, branch, ◌||◌, if◌then◌else◌,
}
use mt_hvac.Posix.{Reading}
use mt_hvac.Platform.{Platform}
use mt_hvac.Fd.Deadline.{Timespec}
use mt_hvac.Rpc.State.{
  redirect_off, Client, Seconds, plus, Stats, IoStats, World, gets, modify, outside,
}
use mt_hvac.Rpc.{Action}
use mt_hvac.Client.{contains, track_file, remote_read, remote_pread, remove_fd}
use Elapsed.{elapsed}

-- One call more in a `size_t`, and its time.
abbrev pub timed : Seconds → Stats → Stats
timed delta s = record { count = (s.count + 1) % 2 ^ 64; total_time = plus s.total_time delta }

abbrev pub data_path : Text
data_path = text "/lustre/orion/gen008/proj-shared/ghu4/data/cosmoUniverse"

-- Which counters an open adds to.
unfoldable pub count_open : (tracked : Bool) → Text → Seconds → IoStats → IoStats
count_open true path delta s = record s { open_stats = timed delta s.open_stats }
count_open false path delta s =
    if contains path data_path
    then record s { open_data_stats = timed delta s.open_data_stats }
    else record s { open_system_stats = timed delta s.open_system_stats }

abbrev pub map_stats : (IoStats → IoStats) → Client → Client
map_stats f c = record c { stats = f c.stats }

-- An `int` that a reading's result passes through.
abbrev narrowed : Reading → Reading
narrowed r = record r { result = to_int32 r.result }

module _ (P : Platform) (start end : Timespec) where
  open P use {Sys, real_open, real_close, real_read, real_pread}

  -- open
  unfoldable pub wrap_open : Text → (flags mode : ℕ) → Action P ℤ
  wrap_open path flags mode = do
    off ← gets (λ w. redirect_off w.client)
    fd ← outside (real_open path flags mode)
    branch (off || (fd =? minus_one)) (pure fd) (do
      tracked ← track_file P path flags fd
      modify (map_stats (count_open tracked path (elapsed start end)))
      pure fd)

  drop_tracked : Option Text → ℤ → Action P (Unit {0})
  drop_tracked none fd = pure tt
  drop_tracked (some path) fd = remove_fd P fd

  count_close : ℤ → Action P ℤ
  count_close ret = do
    modify (map_stats (λ s. record s { close_stats = timed (elapsed start end) s.close_stats }))
    pure ret

  -- close
  unfoldable pub wrap_close : ℤ → Action P ℤ
  unfolding drop_tracked count_close
  wrap_close fd = do
    off ← gets (λ w. redirect_off w.client)
    branch off (outside (real_close fd)) (do
      path ← gets (λ w. w.client.fd_map fd)
      drop_tracked path fd
      ret ← outside (real_close fd)
      branch (ret =? pos 0) (count_close ret) (pure ret))

  -- read
  unfoldable pub wrap_read : ℤ → Bool → ℕ → Action P Reading
  wrap_read fd has_buffer count = do
    remote ← remote_read P fd has_buffer count
    r ← branch (to_int32 remote.result =? minus_one) (outside (real_read fd count)) (pure remote)
    modify (map_stats (λ s. record s { read_stats = timed (elapsed start end) s.read_stats }))
    pure (narrowed r)

  pread_with : Option Text → ℤ → Bool → ℕ → ℤ → Action P Reading
  pread_with none fd has_buffer count offset = outside (real_pread fd count offset)
  pread_with (some path) fd has_buffer count offset = do
    remote ← remote_pread P fd has_buffer count offset
    r ← branch (remote.result =? minus_one) (outside (real_pread fd count offset)) (pure remote)
    modify (map_stats (λ s. record s { pread_stats = timed (elapsed start end) s.pread_stats }))
    pure r

  -- pread
  unfoldable pub wrap_pread : ℤ → Bool → ℕ → ℤ → Action P Reading
  unfolding pread_with
  wrap_pread fd has_buffer count offset = do
    path ← gets (λ w. w.client.fd_map fd)
    pread_with path fd has_buffer count offset

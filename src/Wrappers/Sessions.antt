-- ===== src/Wrappers/Sessions.antt =====
-- Processes that open, read and close files through the wrappers of src/wrappers.c, each with its
-- own client library, over the same servers, and what their calls give on local files. A call runs to
-- its end before another process makes one.
use mt_hvac.Base.{
  to_int32, ℕ, ◌<◌, ◌^◌, ◌≡◌, true, Option, none, some, List, [], Text, ℤ, pos, M, ◌>>=◌, Outcome,
  returns, stops, pure,
}
use mt_hvac.Posix.{OpenFile, Reading, reading, slice}
use mt_hvac.Platform.{Platform}
use mt_hvac.Fd.Deadline.{Timespec}
use mt_hvac.Rpc.State.{World, Settings}
use mt_hvac.Rpc.{Action}
use mt_hvac.Client.Reads.{advance}
use mt_hvac.Wrappers.{wrap_open, wrap_close, wrap_read, wrap_pread}
use mt_hvac.Wrappers.Opens.{opened_fd, IsConfigured}
use mt_hvac.Wrappers.Programs.{IsPassed}
use mt_hvac.Wrappers.Tables.{put}
use mt_hvac.Wrappers.Turns.{Processes, set_client, world_of}

-- A call of a process, between two readings of the clock.
pub data Call : Type 0 where
  opens : (start end : Timespec) → Text → (flags mode : ℕ) → Call
  reads : (start end : Timespec) → ℤ → (count : ℕ) → Call
  preads : (start end : Timespec) → ℤ → (count offset : ℕ) → Call
  closes : (start end : Timespec) → ℤ → Call

-- A result without bytes.
abbrev pub number : ℤ → Reading
number x = record { result = x; bytes = [] }

-- The files of the servers that each process has open.
abbrev pub Table : Type 0
Table = ℕ → ℤ → Option OpenFile

module _ (P : Platform) where
  unfoldable pub perform : Call → Action P Reading
  perform (opens start end path flags mode) = do
    fd ← wrap_open P start end path flags mode
    pure (number fd)
  perform (reads start end fd count) = wrap_read P start end fd true count
  perform (preads start end fd count offset) = wrap_pread P start end fd true count (pos offset)
  perform (closes start end fd) = do ret ← wrap_close P start end fd; pure (number ret)

  -- What a call leaves for all processes.
  abbrev pub settle :
      ℕ → Processes P.Sys → Outcome (Reading × World P.Sys) → Outcome (Reading × Processes P.Sys)
  settle i s (returns (r, w)) =
      returns (r, record { clients = set_client s.clients i w.client; sys = w.sys })
  settle i s (stops e) = stops e

  unfoldable pub act : ℕ → Call → M (Processes P.Sys) Reading
  act i c s = settle i s (perform c (world_of P s i))

  module _ (files : Text → P.Addr → Option (List ℕ)) (σs : ℕ → Settings) where
    -- What a process may call: the open of a file that its node and its settings lead to a server
    -- which has it, if the C library grants a descriptor that the process does not have open there;
    -- a read of fewer than 2 ^ 31 bytes, or a close, of a descriptor that it has open there; an open
    -- that fails or is of a file that is not tracked; and the same of any other descriptor, if an int
    -- holds the result of the read.
    pub data IsAllowed (s : Processes P.Sys) (t : Table) (i : ℕ) : Call → Type 0 where
      may_open :
          (start end : Timespec) (path full : Text) (flags mode : ℕ) (a : P.Addr) (c : List ℕ)
          → IsConfigured P path flags mode full a (σs i)
          → files full a ≡ some c
          → t i (opened_fd P path flags mode (world_of P s i)) ≡ none
          → IsAllowed s t i (opens start end path flags mode)
      may_read :
          (start end : Timespec) (fd : ℤ) (count : ℕ) (f : OpenFile)
          → t i fd ≡ some f
          → count < 2 ^ 31
          → IsAllowed s t i (reads start end fd count)
      may_pread :
          (start end : Timespec) (fd : ℤ) (count offset : ℕ) (f : OpenFile)
          → t i fd ≡ some f
          → count < 2 ^ 31
          → IsAllowed s t i (preads start end fd count offset)
      may_close :
          (start end : Timespec) (fd : ℤ) (f : OpenFile)
          → t i fd ≡ some f
          → IsAllowed s t i (closes start end fd)
      may_open_locally :
          (start end : Timespec) (path : Text) (flags mode : ℕ)
          → IsPassed P path flags
              (P.real_open path flags mode s.sys).0
              (s.clients i).data_dir
              (P.real_open path flags mode s.sys).1
          → IsAllowed s t i (opens start end path flags mode)
      may_read_locally :
          (start end : Timespec) (fd : ℤ) (count : ℕ)
          → t i fd ≡ none
          → to_int32 (P.real_read fd count s.sys).0.result ≡ (P.real_read fd count s.sys).0.result
          → IsAllowed s t i (reads start end fd count)
      may_pread_locally :
          (start end : Timespec) (fd : ℤ) (count offset : ℕ)
          → t i fd ≡ none
          → IsAllowed s t i (preads start end fd count offset)
      may_close_locally :
          (start end : Timespec) (fd : ℤ) → t i fd ≡ none → IsAllowed s t i (closes start end fd)

    -- What the call gives on local files.
    abbrev pub Gives :
        (s : Processes P.Sys) (t : Table) (i : ℕ) (c : Call) → IsAllowed s t i c → Reading → Type 0
    Gives s t i _ (may_open start end path full flags mode a c m there new) r =
        r ≡ number (opened_fd P path flags mode (world_of P s i))
    Gives s t i _ (may_read start end fd count f open_file small) r =
        r ≡ reading (slice f.offset count f.content)
    Gives s t i _ (may_pread start end fd count offset f open_file small) r =
        r ≡ reading (slice offset count f.content)
    Gives s t i _ (may_close start end fd f open_file) r =
        (s' : P.Sys) × (r ≡ number (P.real_close fd s').0)
    Gives s t i _ (may_open_locally start end path flags mode passed) r =
        r ≡ number (P.real_open path flags mode s.sys).0
    Gives s t i _ (may_read_locally start end fd count local fits) r =
        r ≡ (P.real_read fd count s.sys).0
    Gives s t i _ (may_pread_locally start end fd count offset local) r =
        r ≡ (P.real_pread fd count (pos offset) s.sys).0
    Gives s t i _ (may_close_locally start end fd local) r = r ≡ number (P.real_close fd s.sys).0

    -- What it does to the open files.
    abbrev pub after :
        (s : Processes P.Sys) (t : Table) (i : ℕ) (c : Call) → IsAllowed s t i c → Table
    after s t i _ (may_open start end path full flags mode a c m there new) =
        put t i (opened_fd P path flags mode (world_of P s i))
          (some (record { content = c; offset = 0 }))
    after s t i _ (may_read start end fd count f open_file small) =
        put t i fd (some (advance f count))
    after s t i _ (may_pread start end fd count offset f open_file small) = t
    after s t i _ (may_close start end fd f open_file) = put t i fd none
    after s t i _ (may_open_locally start end path flags mode passed) = t
    after s t i _ (may_read_locally start end fd count local fits) = t
    after s t i _ (may_pread_locally start end fd count offset local) = t
    after s t i _ (may_close_locally start end fd local) = t

    -- What may happen, in any order: an allowed call of a process, and a change of the rest.
    pub data Session (Change : P.Sys → P.Sys → Type 0) (s : Processes P.Sys) (t : Table)
        : Processes P.Sys → Table → Type 0 where
      begins : Session Change s t s t
      called :
          {u u' : Processes P.Sys} {v : Table} {r : Reading} (i : ℕ) (c : Call)
          (allowed : IsAllowed u v i c)
          → Session Change s t u v
          → act i c u ≡ returns (r, u')
          → Session Change s t u' (after u v i c allowed)
      changes :
          {u : Processes P.Sys} {v : Table} (sys : P.Sys)
          → Session Change s t u v
          → Change u.sys sys
          → Session Change s t (record u { sys = sys }) v

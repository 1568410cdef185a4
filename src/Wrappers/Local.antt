-- ===== src/Wrappers/Local.antt =====
-- The calls of a process that the C library answers, through the wrappers of src/wrappers.c, while
-- other descriptors are served.
use mt_hvac.Base.{
  ℕ, ◌≡◌, ap, true, none, Option, Text, ℤ, pos, to_int32, int_key, >>=-returns, returns,
}
use mt_hvac.Posix.{OpenFile, Reading}
use mt_hvac.Platform.{Platform}
use mt_hvac.Fd.Deadline.{Timespec}
use mt_hvac.Rpc.State.{Settings}
use mt_hvac.Wrappers.{wrap_open, wrap_close, map_stats}
use mt_hvac.Wrappers.Programs.{IsPassed}
use mt_hvac.Wrappers.Transparent.{
  IsCounted, wrap_open-IsCounted, wrap_read-IsCounted, wrap_pread-IsCounted, wrap_close-IsCounted,
}
use mt_hvac.Wrappers.Turns.{Processes, set_client, world_of}
use mt_hvac.Wrappers.Sessions.{
  Call, opens, reads, preads, closes, number, Table, perform, settle, act,
}
use mt_hvac.Wrappers.Serving.{IsCalm, Everywhere, IsMatched}
use mt_hvac.Wrappers.Matches.{IsMatched-counted}

module _ (P : Platform) (remote : P.Addr → ℤ → P.Sys → Option OpenFile) (Sound : P.Sys → Type 0)
    (σs : ℕ → Settings) (Old : P.Addr → ℤ → Type 0) (same_addr : (a b : P.Addr) → Dec (a ≡ b))
    (fixed : (name : Text) (s s' : P.Sys) → P.resolve name s ≡ P.resolve name s') (t : Table)
    (addrs : ℕ → ℤ → P.Addr) (remote_fds : ℕ → ℤ → ℤ) (s : Processes P.Sys)
    (M : IsMatched P remote Sound σs Old t addrs remote_fds s) (i : ℕ) where
  -- The call returns this, and leaves that outside and all that is served served.
  abbrev pub IsLocal : Call → Reading → P.Sys → Type 0
  IsLocal c r sys =
      IsCalm P remote Sound (Everywhere P remote Sound) s.sys sys
      → (s' : Processes P.Sys) × (act P i c s ≡ returns (r, s'))
        × IsMatched P remote Sound σs Old t addrs remote_fds s'

  counted-IsLocal :
      (c : Call) (r : Reading) (sys : P.Sys)
      → IsCounted P (perform P c) (world_of P s i) (r, sys)
      → IsLocal c r sys
  unfolding act
  counted-IsLocal c r sys (g, e) calm = (
    record { clients = set_client s.clients i (map_stats g (s.clients i)); sys = sys },
    ap (settle P i s) e,
    IsMatched-counted P remote Sound σs Old same_addr fixed t addrs remote_fds s M i g sys calm,
  )

  module _ (start end : Timespec) where
    pub opens-IsLocal :
        (path : Text) (flags mode : ℕ)
        → let (fd, sys) = P.real_open path flags mode s.sys in
          IsPassed P path flags fd (s.clients i).data_dir sys
          → IsLocal (opens start end path flags mode) (number fd) sys
    unfolding perform
    opens-IsLocal path flags mode passed =
        let (g, e) = wrap_open-IsCounted P start end path flags mode (world_of P s i) passed in
        counted-IsLocal (opens start end path flags mode) _ _
          (g, >>=-returns (wrap_open P start end path flags mode) _ (world_of P s i) e)

    pub reads-IsLocal :
        (fd : ℤ) (n : ℕ)
        → t i fd ≡ none
        → to_int32 (P.real_read fd n s.sys).0.result ≡ (P.real_read fd n s.sys).0.result
        → IsLocal (reads start end fd n) (P.real_read fd n s.sys).0 (P.real_read fd n s.sys).1
    unfolding perform
    reads-IsLocal fd n e fits =
        counted-IsLocal (reads start end fd n) _ _
          (wrap_read-IsCounted P start end fd true n (world_of P s i) (M.untracked i fd e) fits)

    pub preads-IsLocal :
        (fd : ℤ) (n offset : ℕ)
        → t i fd ≡ none
        → let (r, sys) = P.real_pread fd n (pos offset) s.sys in
          IsLocal (preads start end fd n offset) r sys
    unfolding perform
    preads-IsLocal fd n offset e = counted-IsLocal (preads start end fd n offset) _ _ (
        wrap_pread-IsCounted P start end fd true n (pos offset) (world_of P s i)
          (M.untracked i fd e))

    pub closes-IsLocal :
        (fd : ℤ)
        → t i fd ≡ none
        → IsLocal (closes start end fd) (number (P.real_close fd s.sys).0) (P.real_close fd s.sys).1
    unfolding perform
    closes-IsLocal fd h =
        let (g, e) = wrap_close-IsCounted P start end fd (world_of P s i) (M.untracked i fd h) in
        counted-IsLocal (closes start end fd) _ _
          (g, >>=-returns (wrap_close P start end fd) _ (world_of P s i) e)

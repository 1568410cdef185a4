-- ===== src/System/Programs.antt =====
-- A program that opens a file and reads it, by the functions of src/wrappers.c, down to the servers.
use mt_hvac.Base.{
  refl, ℕ, ◌≡◌, ◌∙◌, Bool, true, some, false, Option, List, Text, ℤ, minus_one, Key, int_key, ◌=?◌,
  ◌>>=◌, >>=-returns, returns,
}
use mt_hvac.Posix.{Posix, IsPosix, IsStable, OpenFile, slice}
use mt_hvac.Server.Reads.{IsBulk}
use mt_hvac.Platform.{Platform}
use mt_hvac.Fd.Deadline.{Timespec}
use mt_hvac.Rpc.State.{redirect_off, World, IoStats, settings}
use mt_hvac.Rpc.{Action}
use mt_hvac.Client.Tracking.{IsTrackable, track_file-track}
use mt_hvac.Client.Reads.{IsServed, IsServed-move}
use mt_hvac.Wrappers.{wrap_open, count_open, map_stats}
use mt_hvac.Wrappers.Elapsed.{elapsed}
use mt_hvac.Wrappers.Opens.{after_open, opened_fd, wrap_open-returns}
use mt_hvac.Wrappers.Reads.{ReadCall, AreSmall, read_all, total, read_all-content}
use mt_hvac.System.{Nodes, clustered, open_at}
use mt_hvac.System.Honest.{IsUp, remote_file, clustered-IsHonest}
use mt_hvac.System.Opens.{IsReachable, clustered-track_kept}

module _ (P : Platform) where
  -- A program that opens a file and reads what it gets again and again, with the bytes put together.
  abbrev pub opened_and_read :
      (start end : Timespec) (path : Text) (flags mode : ℕ) → List ReadCall → Action P (List ℕ)
  opened_and_read start end path flags mode cs =
      wrap_open P start end path flags mode >>= λ fd. read_all P fd cs

  -- The counters have nothing to do with what serves a descriptor.
  map_stats-IsServed :
      (remote : P.Addr → ℤ → P.Sys → Option OpenFile) (fd : ℤ) (f : OpenFile) (w : World P.Sys)
      (g : IoStats → IoStats)
      → IsServed P remote fd f w
      → IsServed P remote fd f (record w { client = map_stats g w.client })
  map_stats-IsServed remote fd f w g v = IsServed-move P remote fd f f w g w.sys v refl v.served

module _ (B : Platform) ⦃k : Key B.Addr⦄ (Q : Posix) (bulk_transfer : ℕ → ℕ → Bool) where
  abbrev Net : Platform
  Net = clustered B Q bulk_transfer

  -- Such a program before the servers.
  abbrev open_then_read :
      (start end : Timespec) (path : Text) (flags mode : ℕ) → List ReadCall → Action Net (List ℕ)
  open_then_read start end path flags mode cs = opened_and_read Net start end path flags mode cs

  -- What the program asks for: redirection is on, the C library's open grants a descriptor, the file
  -- may be tracked, and its server is reachable and has it with the content `c`.
  pub record IsServable (path : Text) (flags mode : ℕ) (full : Text) (c : List ℕ)
      (w : World (Nodes B Q bulk_transfer)) : Type 0 where
    pub redirects : redirect_off w.client ≡ false
    pub granted : (opened_fd Net path flags mode w =? minus_one) ≡ false
    pub trackable : IsTrackable Net path flags full (after_open Net path flags mode w)
    pub reachable : IsReachable B Q bulk_transfer full c (after_open Net path flags mode w)

module _ (B : Platform) ⦃k : Key B.Addr⦄ (Q : Posix) (bulk_transfer : ℕ → ℕ → Bool)
    (U : IsUp B Q bulk_transfer) (K : IsStable Q) (L : IsPosix Q)
    (bulk : IsBulk bulk_transfer) where
  abbrev P : Platform
  P = clustered B Q bulk_transfer

  -- The intercepted open of such a file returns the C library's descriptor, and it is served with the
  -- content of the server's file from its start. The settings stay, and outside the client only the
  -- file's server has moved on.
  pub wrap_open-IsServed :
      (start end : Timespec) (path full : Text) (flags mode : ℕ) (c : List ℕ)
      (w : World (Nodes B Q bulk_transfer))
      (v : IsServable B Q bulk_transfer path flags mode full c w)
      → let s = (after_open P path flags mode w).sys in
        (w' : World (Nodes B Q bulk_transfer)) × (wrap_open P start end path flags mode w
          ≡ returns (opened_fd P path flags mode w, w'))
        × IsServed P
            (remote_file B Q bulk_transfer)
            (opened_fd P path flags mode w)
            (record { content = c; offset = 0 })
            w'
        × (settings w'.client ≡ settings w.client)
        × (w'.sys
            ≡ (open_at B Q bulk_transfer
                (some v.reachable.addr)
                (s.servers v.reachable.addr)
                full
                s).1)
  wrap_open-IsServed start end path full flags mode c w v =
      let fd = opened_fd P path flags mode w in
      let (w₁, e, served, same, sys) =
        clustered-track_kept B Q bulk_transfer U K L bulk fd full c (after_open P path flags mode w)
          v.reachable in
      (
        record w₁ { client = map_stats (count_open true path (elapsed start end)) w₁.client },
        wrap_open-returns P start end path flags mode true w w₁ v.redirects v.granted (
            track_file-track P path full flags fd (after_open P path flags mode w) v.trackable ∙ e),
        map_stats-IsServed P (remote_file B Q bulk_transfer) fd (record { content = c; offset = 0 })
            w₁ (count_open true path (elapsed start end)) served,
        same,
        sys,
      )

  -- A program that opens such a file and reads it, with any number of reads of fewer than 2 ^ 31 bytes
  -- each, gets the bytes of the server's file from its start up to the sum of the sizes.
  open_then_read-content :
      (start end : Timespec) (path full : Text) (flags mode : ℕ) (c : List ℕ) (cs : List ReadCall)
      (w : World (Nodes B Q bulk_transfer))
      → AreSmall cs
      → IsServable B Q bulk_transfer path flags mode full c w
      → (w' : World (Nodes B Q bulk_transfer)) × (open_then_read B Q bulk_transfer start end path
            flags mode cs w
          ≡ returns (slice 0 (total cs) c, w'))
  open_then_read-content start end path full flags mode c cs w small v =
      let (w₁, e, served, same, sys) = wrap_open-IsServed start end path full flags mode c w v in
      let (w₂, e₂, after) =
        read_all-content P (remote_file B Q bulk_transfer)
          (clustered-IsHonest B Q bulk_transfer U L bulk) (opened_fd P path flags mode w) cs
          (record { content = c; offset = 0 }) w₁ small served in
      (w₂, >>=-returns (wrap_open P start end path flags mode) _ w e ∙ e₂)

-- ===== src/System/Opens.antt =====
-- A file is opened, and then read: src/wrappers.c and the client library over the servers' handlers
-- of src/mthvac_comm.cpp.
use mt_hvac.Base.{
  ℕ, ◌%◌, ◌==◌, ◌≡◌, ◌∙◌, ap, Bool, true, false, some, List, [], arith, Text, ℤ, pos, Key, to_int32,
  is_positive, is_negative, update_self, ◌>>=◌, >>=-returns, returns,
}
use mt_hvac.Posix.{Posix, IsPosix, IsStable, slice}
use mt_hvac.Server.{State, open_handler}
use mt_hvac.Server.Reads.{IsBulk}
use mt_hvac.Mover.Copies.{IsCached, open_handler-content}
use mt_hvac.Platform.{Platform, answered}
use mt_hvac.Rpc.State.{World, settings}
use mt_hvac.Rpc.{Action}
use mt_hvac.Client.{track}
use mt_hvac.Client.Reads.{IsServed}
use mt_hvac.Client.Served.{track-sent}
use mt_hvac.Wrappers.Reads.{ReadCall, AreSmall, read_all, total, read_all-content}
use mt_hvac.System.{Nodes, clustered, open_at}
use mt_hvac.System.Honest.{IsUp, remote_file, file_of, clustered-IsHonest}

-- A file that is tracked and then read again and again, with the bytes put together.
abbrev track_then_read : (P : Platform) → ℤ → Text → List ReadCall → Action P (List ℕ)
track_then_read P fd full cs = track P fd (some full) >>= λ tracked. read_all P fd cs

pub positive-nonnegative : (x : ℤ) → is_positive x ≡ true → is_negative x ≡ false
positive-nonnegative x h = ground arith

module _ (B : Platform) ⦃k : Key B.Addr⦄ (Q : Posix) (bulk_transfer : ℕ → ℕ → Bool) where
  -- The client knows the address of the file's server, and that server runs and has the file.
  pub record IsReachable (full : Text) (c : List ℕ) (w : World (Nodes B Q bulk_transfer))
      : Type 0 where
    pub rank : Text
    pub name : Text
    pub addr : B.Addr
    pub server : State Q
    pub ranked : w.client.proc_id ≡ some rank
    pub counted : (w.client.server_count == 0) ≡ false
    pub known :
        w.client.address_cache (to_int32 (pos (B.hash full % w.client.server_count))) ≡ some name
    pub resolved : B.resolve name w.sys.rest ≡ some addr
    pub runs : w.sys.servers addr ≡ some server
    pub copies : IsCached Q server
    pub there : Q.content full server.fs ≡ some c
    pub opens : is_positive (open_handler Q full server).0 ≡ true

module _ (B : Platform) ⦃k : Key B.Addr⦄ (Q : Posix) (bulk_transfer : ℕ → ℕ → Bool)
    (U : IsUp B Q bulk_transfer) (K : IsStable Q) (L : IsPosix Q)
    (bulk : IsBulk bulk_transfer) where
  pub open_at-answered :
      (full : Text) (a : B.Addr) (t : State Q) (s : Nodes B Q bulk_transfer)
      → s.servers a ≡ some t
      → let sent = open_at B Q bulk_transfer (some a) (s.servers a) full s in
        (sent.0 ≡ answered (open_handler Q full t).0)
        × (sent.1.rest ≡ s.rest)
        × ((fd : ℤ)
            → remote_file B Q bulk_transfer a fd sent.1 ≡ Q.file fd (open_handler Q full t).1.fs)
  unfolding open_at
  open_at-answered full a t s e = (
    rw (e, open_at),
    rw (e, open_at),
    λ fd.
        rw (e, open_at)
          (ap (λ o. file_of B Q bulk_transfer o fd)
            (update_self s.servers a (open_handler Q full t).1)),
  )

  -- Such an open leaves the settings, and the servers as the server's open leaves them.
  pub clustered-track_kept :
      (fd : ℤ) (full : Text) (c : List ℕ) (w : World (Nodes B Q bulk_transfer))
      (v : IsReachable B Q bulk_transfer full c w)
      → (w' : World (Nodes B Q bulk_transfer)) × (track
            (clustered B Q bulk_transfer)
            fd
            (some full)
            w
          ≡ returns (true, w'))
        × IsServed
            (clustered B Q bulk_transfer)
            (remote_file B Q bulk_transfer)
            fd
            (record { content = c; offset = 0 })
            w'
        × (settings w'.client ≡ settings w.client)
        × (w'.sys ≡ (open_at B Q bulk_transfer (some v.addr) (w.sys.servers v.addr) full w.sys).1)
  clustered-track_kept fd full c w v =
      let (sent, rest, file) = open_at-answered full v.addr v.server w.sys v.runs in
      track-sent (clustered B Q bulk_transfer) (remote_file B Q bulk_transfer)
        (clustered-IsHonest B Q bulk_transfer U L bulk) fd (open_handler Q full v.server).0 full
        v.rank v.name v.addr (record { content = c; offset = 0 }) w v.ranked v.counted v.known
        v.resolved sent v.opens (ap (B.resolve v.name) rest ∙ v.resolved)
        (file (open_handler Q full v.server).0
          ∙ open_handler-content Q bulk_transfer [] K L full v.server c v.copies v.there
              (positive-nonnegative (open_handler Q full v.server).0 v.opens))

  -- The open of a tracked file whose server runs, is known and has the file, redirected to a copy or
  -- not, succeeds if the server's open does, and serves the descriptor with the content of the file
  -- from its start.
  pub clustered-track :
      (fd : ℤ) (full : Text) (c : List ℕ) (w : World (Nodes B Q bulk_transfer))
      → IsReachable B Q bulk_transfer full c w
      → (w' : World (Nodes B Q bulk_transfer)) × (track
            (clustered B Q bulk_transfer)
            fd
            (some full)
            w
          ≡ returns (true, w'))
        × IsServed
            (clustered B Q bulk_transfer)
            (remote_file B Q bulk_transfer)
            fd
            (record { content = c; offset = 0 })
            w'
  clustered-track fd full c w v =
      let (w', e, served, same, sys) = clustered-track_kept fd full c w v in (w', e, served)

  -- A file that is tracked and then read yields, with any number of reads of fewer than 2 ^ 31 bytes
  -- each, the bytes of the file from its start up to the sum of the sizes, if its server runs, is
  -- known, has the file and opens it.
  track_then_read-content :
      (fd : ℤ) (full : Text) (c : List ℕ) (cs : List ReadCall) (w : World (Nodes B Q bulk_transfer))
      → AreSmall cs
      → IsReachable B Q bulk_transfer full c w
      → (w' : World (Nodes B Q bulk_transfer)) × (track_then_read
            (clustered B Q bulk_transfer)
            fd
            full
            cs
            w
          ≡ returns (slice 0 (total cs) c, w'))
  track_then_read-content fd full c cs w small v =
      let (w₁, e, served) = clustered-track fd full c w v in
      let (w₂, e₂, after) =
        read_all-content (clustered B Q bulk_transfer) (remote_file B Q bulk_transfer)
          (clustered-IsHonest B Q bulk_transfer U L bulk) fd cs (record { content = c; offset = 0 })
          w₁ small served in
      (w₂, >>=-returns (track (clustered B Q bulk_transfer) fd (some full)) _ w e ∙ e₂)

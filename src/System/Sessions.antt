-- ===== src/System/Sessions.antt =====
-- Processes that open, read and close files through the wrappers of src/wrappers.c, in any
-- interleaving, down to the servers of src/mthvac_comm.cpp and their data movers.
use mt_hvac.Base.{
  refl, inr, ℕ, ◌≡◌, ap, ◌∙◌, subst, Bool, true, Option, none, some, List, [], Text, ℤ, Key,
  is_positive, returns,
}
use mt_hvac.Posix.{Posix, IsPosix, IsStable, IsFdTable, OpenFile, Reading}
use mt_hvac.Server.{State, open_handler, redirect}
use mt_hvac.Server.Reads.{IsBulk}
use mt_hvac.Mover.Copies.{open_handler-content}
use mt_hvac.Platform.{Platform, answered}
use mt_hvac.Fd.Waiting.{IsOwned}
use mt_hvac.Rpc.State.{Settings, settings}
use mt_hvac.Wrappers.Turns.{Processes}
use mt_hvac.Wrappers.Sessions.{Call, Table, act, IsAllowed, Gives, after, Session}
use mt_hvac.Wrappers.Serving.{IsCalm, AwayFrom, IsServing}
use mt_hvac.Wrappers.Faithful.{Matches}
use mt_hvac.Wrappers.Refinement.{session-IsFaithful}
use mt_hvac.System.{Nodes, clustered, open_at}
use mt_hvac.System.Honest.{IsUp, remote_file, file_of, clustered-IsHonest}
use mt_hvac.System.Opens.{open_at-answered, positive-nonnegative}
use mt_hvac.System.Stocked.{IsAmple, moved, open_handler-positive}
use mt_hvac.System.Serving.{
  AreStocked, Change, open-IsCalm, Change-IsCalm, read-IsCalm, pread-IsCalm, close-IsCalm,
  close-none,
}

module _ (B : Platform) ⦃k : Key B.Addr⦄ (Q : Posix) (bulk_transfer : ℕ → ℕ → Bool)
    (U : IsUp B Q bulk_transfer) (K : IsStable Q) (L : IsPosix Q) (A : IsAmple Q) (F : IsFdTable Q)
    (bulk : IsBulk bulk_transfer) (nvmepath : Text) (files : Text → B.Addr → Option (List ℕ)) where
  abbrev P : Platform
  P = clustered B Q bulk_transfer

  abbrev remote : B.Addr → ℤ → Nodes B Q bulk_transfer → Option OpenFile
  remote = remote_file B Q bulk_transfer

  abbrev Sound : Nodes B Q bulk_transfer → Type 0
  Sound = AreStocked B Q bulk_transfer files

  open_at-moved :
      (a : B.Addr) (t : State Q) (path : Text) (s : Nodes B Q bulk_transfer)
      → s.servers a ≡ some t
      → moved B Q bulk_transfer a (open_handler Q path t).1 s
        ≡ (open_at B Q bulk_transfer (some a) (s.servers a) path s).1
  unfolding open_at
  open_at-moved a t path s runs = rw (runs, open_at)

  -- The server's descriptor for a file that it has is new there, and stands for the file's start.
  opened :
      (a : B.Addr) (full : Text) (c : List ℕ) (s : Nodes B Q bulk_transfer)
      → Sound s
      → files full a ≡ some c
      → let sent = P.send_open (some a) full s in
        (status : ℤ) × (sent.0 ≡ answered status)
        × (is_positive status ≡ true)
        × (remote a status s ≡ none)
        × (remote a status sent.1 ≡ some (record { content = c; offset = 0 }))
        × IsCalm P remote Sound (AwayFrom P remote Sound a status) s sent.1
  unfolding open_handler
  opened a full c s sound have =
      let (t, runs, (cached, there)) = sound full c a have in
      let status = (open_handler Q full t).0 in
      let (sent, rest, file) = open_at-answered B Q bulk_transfer U K L bulk full a t s runs in
      let positive =
        open_handler-positive B Q bulk_transfer U K L A bulk nvmepath full c a t (cached, there) in
      (
        status,
        sent,
        positive,
        ap (λ o. file_of B Q bulk_transfer o status) runs
            ∙ F.open_read-new (redirect Q full t) t.fs (positive-nonnegative status positive),
        file status
            ∙ open_handler-content Q bulk_transfer [] K L full t c cached there
                (positive-nonnegative status positive),
        subst (IsCalm P remote Sound (AwayFrom P remote Sound a status) s)
            (open_at-moved a t full s runs)
            (open-IsCalm B Q bulk_transfer U K L A F bulk nvmepath files a t full s runs),
      )

  module _ (fixed : (name : Text) (s s' : B.Sys) → B.resolve name s ≡ B.resolve name s') where
    clustered-IsServing : IsServing P remote Sound files (Change B Q bulk_transfer nvmepath)
    clustered-IsServing = record {
      same_addr = k.dec;
      fixed = λ name s s'. fixed name s.rest s'.rest;
      local_opens = λ path flags mode s. (λ h. h, λ b d away. refl);
      local_closes = λ fd s. (λ h. h, λ b d away. refl);
      local_reads = λ fd n s. (λ h. h, λ b d away. refl);
      local_preads = λ fd n offset s. (λ h. h, λ b d away. refl);
      changed = Change-IsCalm B Q bulk_transfer U K L A F bulk nvmepath files;
      answers_open = opened;
      calm_read = read-IsCalm B Q bulk_transfer U K L A F bulk nvmepath files;
      calm_pread = pread-IsCalm B Q bulk_transfer U K L A F bulk nvmepath files;
      calm_close = close-IsCalm B Q bulk_transfer U K L A F bulk nvmepath files;
      closes_open = close-none B Q bulk_transfer U K L A F bulk nvmepath files;
    }

    -- A descriptor that a server has open.
    abbrev pub IsOpenIn : Nodes B Q bulk_transfer → B.Addr → ℤ → Type 0
    IsOpenIn s b d = (g : OpenFile) × (remote b d s ≡ some g)

    -- What the processes have open is served to them, and what else the servers have open is old.
    abbrev pub IsServedAll :
        (σs : ℕ → Settings) (Old : B.Addr → ℤ → Type 0)
        → Table
        → Processes (Nodes B Q bulk_transfer)
        → Type 0
    IsServedAll σs Old t s =
        Matches P remote Sound files (Change B Q bulk_transfer nvmepath) σs Old t s

    -- Processes of which no descriptor is tracked match a table without files.
    pub new-Matches :
        (σs : ℕ → Settings) (s : Processes (Nodes B Q bulk_transfer)) (a : B.Addr)
        → ((i : ℕ) → settings (s.clients i) ≡ σs i)
        → ((i : ℕ) → IsOwned (s.clients i).fds)
        → ((i : ℕ) (fd : ℤ) → (s.clients i).fd_map fd ≡ none)
        → Sound s.sys
        → IsServedAll σs (IsOpenIn s.sys) (λ i fd. none) s
    new-Matches σs s a same owned untracked sound = (
      λ i fd. a,
      λ i fd. fd,
      record {
        same = same;
        owned = owned;
        sound = sound;
        placed = λ i fd f h. cc;
        apart = λ i j fd d f g h. cc;
        on = λ i fd f h. cc;
        untracked = λ i fd h. untracked i fd;
        origin = λ b d g h. inr (g, h);
      },
    )

    -- Where the servers' nodes, Mercury and the memory behave as documented, descriptors do not
    -- run out, and a name always resolves to the same address: processes open, read, pread and
    -- close files, each through its own client library, in any interleaving of whole calls, with
    -- rounds of the data movers and changes outside clients and servers between them. At the
    -- start, what the processes have open at servers is served to them, no two by one descriptor
    -- of one server, no other descriptor is tracked, no two descriptors of a process share a
    -- status object, and every server has its files and full copies only. Then the next call of a
    -- process returns, and gives what it would on local files: an open, the descriptor that the C
    -- library grants, at the start of the content of the server's file; a read, the bytes from the
    -- process's own offset on, which moves behind them; a pread, the bytes at its offset; a close,
    -- what the C library's close gives; and a call that is not for a server, what the C library
    -- gives. What may be called is the open of a file that the node and the settings of the
    -- process lead to a server which has it, where the C library grants a descriptor that the
    -- process does not have open there; a read or pread of fewer than 2 ^ 31 bytes or a close of a
    -- descriptor that it has; an open that fails or is of a file that is not tracked; and a read
    -- of which an int holds the result, a pread or a close of any other descriptor.
    pub session-local :
        (σs : ℕ → Settings) (Old : B.Addr → ℤ → Type 0) {s u : Processes (Nodes B Q bulk_transfer)}
        {t v : Table} (i : ℕ) (c : Call) (allowed : IsAllowed P files σs u v i c)
        → IsServedAll σs Old t s
        → Session P files σs (Change B Q bulk_transfer nvmepath) s t u v
        → (r : Reading) × (u' : Processes (Nodes B Q bulk_transfer)) × (act P i c u
            ≡ returns (r, u'))
          × Gives P files σs u v i c allowed r
          × Session P files σs
              (Change B Q bulk_transfer nvmepath)
              s
              t
              u'
              (after P files σs u v i c allowed)
    session-local σs Old i c allowed m l =
        session-IsFaithful P remote Sound files (Change B Q bulk_transfer nvmepath) σs Old
          (clustered-IsHonest B Q bulk_transfer U L bulk) clustered-IsServing i c allowed m l

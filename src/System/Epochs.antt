-- ===== src/System/Epochs.antt =====
-- A training program that opens a file, reads it and closes it, epoch after epoch, while the servers
-- of src/mthvac_comm.cpp work for others and the data mover of src/mthvac_data_mover.cpp copies.
use mt_hvac.Base.{
  ℕ, ◌%◌, ◌==◌, ◌≡◌, sym, ap, subst, ◌∙◌, Bool, some, List, Text, pos, Key, int_key, to_int32,
  ◌>>=◌, >>=-returns, pure, returns,
}
use mt_hvac.Posix.{Posix, IsPosix, IsStable, slice}
use mt_hvac.Server.{State}
use mt_hvac.Server.Reads.{IsBulk}
use mt_hvac.Mover.Copies.{Event, happens}
use mt_hvac.Platform.{Platform}
use mt_hvac.Fd.Deadline.{Timespec}
use mt_hvac.Rpc.State.{World, Settings, settings}
use mt_hvac.Rpc.{Action}
use mt_hvac.Wrappers.{wrap_open, wrap_close}
use mt_hvac.Wrappers.Reads.{ReadCall, AreSmall, read_all, total, read_all-kept}
use mt_hvac.Wrappers.Closes.{wrap_close-sent}
use mt_hvac.System.{Nodes, clustered}
use mt_hvac.System.Honest.{IsUp, remote_file, clustered-IsHonest}
use mt_hvac.Wrappers.Opens.{opened_fd, after_open, IsConfigured, IsConfigured-IsTrackable}
use mt_hvac.System.Programs.{IsServable, wrap_open-IsServed}
use mt_hvac.System.Stocked.{
  IsAmple, IsStocked, open_handler-positive, moved, moved-IsStocked, open_at-IsStocked,
  read_at-IsStocked, close_at-IsStocked,
}

module _ (B : Platform) ⦃k : Key B.Addr⦄ (Q : Posix) (bulk_transfer : ℕ → ℕ → Bool) where
  -- One epoch of the program.
  abbrev pub epoch :
      (start end : Timespec)
      → Text
      → (flags mode : ℕ) → List ReadCall
      → Action (clustered B Q bulk_transfer) (List ℕ)
  epoch start end path flags mode cs = do
    fd ← wrap_open (clustered B Q bulk_transfer) start end path flags mode
    bytes ← read_all (clustered B Q bulk_transfer) fd cs
    ret ← wrap_close (clustered B Q bulk_transfer) start end fd
    pure bytes

  abbrev pub IsReady : Text → List ℕ → B.Addr → Settings → World (Nodes B Q bulk_transfer) → Type 0
  IsReady full c a σ w = (settings w.client ≡ σ) × IsStocked B Q bulk_transfer full c a w.sys

  -- What may happen, in any order: an epoch of the program; a request of anybody at a server, or a
  -- round of its data mover, from which it goes on; and anything at all outside client and servers.
  pub data Life (nvmepath : Text) (path : Text) (flags mode : ℕ)
      (w : World (Nodes B Q bulk_transfer)) : World (Nodes B Q bulk_transfer) → Type 0 where
    begins : Life nvmepath path flags mode w w
    epoch_over :
        {w₁ w₂ : World (Nodes B Q bulk_transfer)} {bytes : List ℕ} (start end : Timespec)
        (cs : List ReadCall)
        → Life nvmepath path flags mode w w₁
        → AreSmall cs
        → epoch start end path flags mode cs w₁ ≡ returns (bytes, w₂)
        → Life nvmepath path flags mode w w₂
    event :
        {w₁ : World (Nodes B Q bulk_transfer)} (a : B.Addr) (t t' : State Q) (e : Event)
        → Life nvmepath path flags mode w w₁
        → w₁.sys.servers a ≡ some t
        → happens Q bulk_transfer nvmepath e t ≡ returns t'
        → Life nvmepath path flags mode w (record w₁ { sys = moved B Q bulk_transfer a t' w₁.sys })
    elsewhere :
        {w₁ : World (Nodes B Q bulk_transfer)} (r : B.Sys)
        → Life nvmepath path flags mode w w₁
        → Life nvmepath path flags mode w (record w₁ { sys = record w₁.sys { rest = r } })

module _ (B : Platform) ⦃k : Key B.Addr⦄ (Q : Posix) (bulk_transfer : ℕ → ℕ → Bool)
    (U : IsUp B Q bulk_transfer) (K : IsStable Q) (L : IsPosix Q) (A : IsAmple Q)
    (bulk : IsBulk bulk_transfer) (nvmepath : Text) (full : Text) (c : List ℕ) (a : B.Addr) where
  abbrev P : Platform
  P = clustered B Q bulk_transfer

  abbrev Stocked : Nodes B Q bulk_transfer → Type 0
  Stocked s = IsStocked B Q bulk_transfer full c a s

  module _ (path : Text) (flags mode : ℕ) (σ : Settings)
      (S : IsConfigured P path flags mode full a σ) where
    abbrev Ready : World (Nodes B Q bulk_transfer) → Type 0
    Ready w = IsReady B Q bulk_transfer full c a σ w

    Ready-IsServable :
        (w : World (Nodes B Q bulk_transfer))
        → Ready w
        → IsServable B Q bulk_transfer path flags mode full c w
    Ready-IsServable w (same, (t, runs, (cached, there))) = record {
      redirects = ap (λ x. x.off) same ∙ S.redirects;
      granted = S.granted w.sys;
      trackable =
          IsConfigured-IsTrackable P path full flags mode a σ (after_open P path flags mode w) S
            same;
      reachable = record {
        rank = S.rank;
        name = S.name;
        addr = a;
        server = t;
        ranked = ap (λ x. x.proc_id) same ∙ S.ranked;
        counted = ap (λ x. x.server_count == 0) same ∙ S.counted;
        known =
            ap (λ x. x.address_cache (to_int32 (pos (B.hash full % x.server_count)))) same
            ∙ S.known;
        resolved = S.resolved (after_open P path flags mode w).sys;
        runs = runs;
        copies = cached;
        there = there;
        opens =
            open_handler-positive B Q bulk_transfer U K L A bulk nvmepath full c a t
              (cached, there);
      };
    }

    -- An epoch from such a state returns the bytes of the file, and leaves such a state.
    epoch-content :
        (start end : Timespec) (cs : List ReadCall) (w : World (Nodes B Q bulk_transfer))
        → AreSmall cs
        → Ready w
        → (w' : World (Nodes B Q bulk_transfer)) × (epoch B Q bulk_transfer start end path flags
              mode cs w
            ≡ returns (slice 0 (total cs) c, w'))
          × Ready w'
    epoch-content start end cs w small (same, (t, runs, stock)) =
        let H = clustered-IsHonest B Q bulk_transfer U L bulk in
        let fd = opened_fd P path flags mode w in
        let v = Ready-IsServable w (same, (t, runs, stock)) in
        let (w₁, e₁, v₁, same₁, sys₁) =
          wrap_open-IsServed B Q bulk_transfer U K L bulk start end path full flags mode c w v in
        let h₁ : Stocked w₁.sys = subst Stocked (sym sys₁) (
          open_at-IsStocked B Q bulk_transfer U K L A bulk nvmepath full c a v.reachable.addr
            v.reachable.server full (after_open P path flags mode w).sys v.reachable.runs
            (t, runs, stock)) in
        let (w₂, e₂, v₂, same₂, h₂) =
          read_all-kept P (remote_file B Q bulk_transfer) H Stocked
            (read_at-IsStocked B Q bulk_transfer U K L A bulk nvmepath full c a) fd cs
            (record { content = c; offset = 0 }) w₁ small v₁ h₁ in
        let (w₃, e₃, same₃, sys₃, framed, dropped) =
          wrap_close-sent P (remote_file B Q bulk_transfer) H start end fd _ w₂ v₂
            (ap (λ x. x.off) (same₂ ∙ same₁ ∙ same) ∙ S.redirects) in
        (
          w₃,
          >>=-returns (wrap_open P start end path flags mode) _ w e₁
              ∙ >>=-returns (read_all P fd cs) _ w₁ e₂
              ∙ >>=-returns (wrap_close P start end fd) _ w₂ e₃,
          (
            same₃ ∙ same₂ ∙ same₁ ∙ same,
            subst Stocked (sym sys₃) (
                close_at-IsStocked B Q bulk_transfer U K L A bulk nvmepath full c a v₂.addr
                  v₂.remote_fd w₂.sys _ v₂.served h₂),
          ),
        )

    Life-Ready :
        {w w' : World (Nodes B Q bulk_transfer)}
        → Ready w
        → Life B Q bulk_transfer nvmepath path flags mode w w'
        → Ready w'
    Life-Ready h begins = h
    Life-Ready h (epoch_over {w₁ = w₁} {w₂ = w₂} start end cs l small e) =
        let (u, e', h') = epoch-content start end cs w₁ small (Life-Ready h l) in
        let same : u ≡ w₂ = cc in subst Ready same h'
    Life-Ready h (event {w₁ = w₁} b t t' e l runs does) =
        let (same, stock) = Life-Ready h l in
        (
          same,
          moved-IsStocked B Q bulk_transfer U K L A bulk nvmepath full c a b t t' e w₁.sys runs does
              stock,
        )
    Life-Ready h (elsewhere r l) = Life-Ready h l

    -- Where the nodes, Mercury and the memory behave as documented, and descriptors do not run
    -- out: after any number of epochs of the program, requests of others at the servers from which
    -- these go on, rounds of the data movers and changes outside, in any order, the next epoch of
    -- reads of fewer than 2 ^ 31 bytes each returns, and returns the bytes of the file from its
    -- start up to the sum of the sizes, if at the start the file's server runs, is known to the
    -- client, and has the file and full copies only, and the program's node always grants the file
    -- a descriptor and finds it where files are tracked.
    pub epochs-content :
        (start end : Timespec) (cs : List ReadCall) {w w' : World (Nodes B Q bulk_transfer)}
        → Ready w
        → Life B Q bulk_transfer nvmepath path flags mode w w'
        → AreSmall cs
        → (w'' : World (Nodes B Q bulk_transfer)) × (epoch B Q bulk_transfer start end path flags
              mode cs w'
            ≡ returns (slice 0 (total cs) c, w''))
    epochs-content start end cs {w' = w'} h l small =
        let (w'', e, h') = epoch-content start end cs w' small (Life-Ready h l) in (w'', e)

-- ===== src/System/Sharing.antt =====
-- Processes that read through the wrappers of src/wrappers.c at the same time, down to the servers of
-- src/mthvac_comm.cpp.
use mt_hvac.Base.{
  ℕ, ◌<◌, ◌^◌, ◌≡◌, ◌≢◌, ap, sym, ◌∙◌, subst, some, List, ℤ, Key, minus_one, update_self, update_ne,
  update, Bool, returns,
}
use mt_hvac.Posix.{Posix, IsPosix, OpenFile, slice}
use mt_hvac.Server.Reads.{IsBulk, read_handler-sent}
use mt_hvac.Platform.{Platform}
use mt_hvac.Client.Reads.{request}
use mt_hvac.Wrappers.Turns.{Processes, Turn, AreTurns, take_turns, total_of}
use mt_hvac.Wrappers.Sharing.{ArePlaced, AreApart, IsIsolated, take_turns-content}
use mt_hvac.System.{Nodes, clustered, read_at}
use mt_hvac.System.Honest.{IsUp, file_of, file_of-some, remote_file, clustered-IsHonest}

module _ (B : Platform) ⦃k : Key B.Addr⦄ (Q : Posix) (bulk_transfer : ℕ → ℕ → Bool)
    (U : IsUp B Q bulk_transfer) (L : IsPosix Q) (bulk : IsBulk bulk_transfer) where
  -- A read of one descriptor of a server leaves every other one of any server as it was.
  read_at-other :
      (a b : B.Addr) (fd other : ℤ) (n : ℕ) (s : Nodes B Q bulk_transfer) (f : OpenFile)
      → n < 2 ^ 31
      → remote_file B Q bulk_transfer a fd s ≡ some f
      → (a ≡ b → fd ≢ other)
      → remote_file B Q bulk_transfer b other
          (read_at B Q bulk_transfer (some a) (s.servers a) (request n fd minus_one) s).1
        ≡ remote_file B Q bulk_transfer b other s
  unfolding read_at
  read_at-other a b fd other n s f small h apart =
      let (t, e, h') = file_of-some B Q bulk_transfer (s.servers a) fd f h in
      let r =
        read_handler-sent Q bulk_transfer bulk L fd n t f small h' (U.allocates n t.fs small) in
      let t' = record t { fs = (Q.read fd n t.fs).1 } in
      rw (e, read_at)
        (rw r (elim (k.dec a b) [
          | yes same ↦
              subst
                (λ c.
                  file_of B Q bulk_transfer (update s.servers a t' c) other
                  ≡ file_of B Q bulk_transfer (s.servers c) other)
                same
                (ap (λ o. file_of B Q bulk_transfer o other) (update_self s.servers a t')
                  ∙ L.file-read_ne fd other n t.fs (apart same)
                  ∙ sym (ap (λ o. file_of B Q bulk_transfer o other) e))
          | no differs ↦
              ap (λ o. file_of B Q bulk_transfer o other) (update_ne s.servers a b t' differs)
        ]))

  clustered-IsIsolated : IsIsolated (clustered B Q bulk_transfer) (remote_file B Q bulk_transfer)
  clustered-IsIsolated = record { remote-send_read = read_at-other }

  -- Where the servers' nodes, Mercury and the memory behave as documented: processes that read at
  -- the same time, each its own served descriptor with reads of fewer than 2 ^ 31 bytes, in any
  -- interleaving of their calls, and no two of them at one descriptor of one server, all return
  -- from every call, and each gets the bytes of its own file from its offset on, in order, none
  -- twice and none left out, up to the sum of the sizes that it asked for.
  pub shared_reads-content :
      (n : ℕ) (fds : ℕ → ℤ) (addrs : ℕ → B.Addr) (remote_fds : ℕ → ℤ) (ts : List Turn)
      (files : ℕ → OpenFile) (s : Processes (Nodes B Q bulk_transfer))
      → AreTurns n ts
      → AreApart
          (clustered B Q bulk_transfer)
          (remote_file B Q bulk_transfer)
          n
          fds
          addrs
          remote_fds
      → ArePlaced
          (clustered B Q bulk_transfer)
          (remote_file B Q bulk_transfer)
          n
          fds
          addrs
          remote_fds
          files
          s
      → (bytes : ℕ → List ℕ) × (s' : Processes (Nodes B Q bulk_transfer)) × (take_turns
            (clustered B Q bulk_transfer)
            fds
            ts
            s
          ≡ returns (bytes, s'))
        × ((i : ℕ) → bytes i ≡ slice (files i).offset (total_of i ts) (files i).content)
  shared_reads-content n fds addrs remote_fds ts files s are apart placed =
      take_turns-content (clustered B Q bulk_transfer) (remote_file B Q bulk_transfer) n fds addrs
        remote_fds (clustered-IsHonest B Q bulk_transfer U L bulk) clustered-IsIsolated apart ts
        files s are placed

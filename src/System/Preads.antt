-- ===== src/System/Preads.antt =====
-- `pread` of src/wrappers.c, down to the read handler of src/mthvac_comm.cpp.
use mt_hvac.Base.{ℕ, ◌<◌, ◌^◌, ◌≡◌, Bool, true, ℤ, pos, Key, minus_one, returns}
use mt_hvac.Posix.{Posix, IsPosix, OpenFile, reading, slice}
use mt_hvac.Fd.Deadline.{Timespec}
use mt_hvac.Server.Reads.{IsBulk}
use mt_hvac.Platform.{Platform}
use mt_hvac.Rpc.State.{World}
use mt_hvac.Client.Reads.{IsServed, advance}
use mt_hvac.Wrappers.{wrap_pread}
use mt_hvac.Wrappers.Reads.{wrap_pread-IsServed, wrap_pread_sequential-IsServed}
use mt_hvac.System.{Nodes, clustered}
use mt_hvac.System.Honest.{IsUp, remote_file, clustered-IsHonest}

module _ (B : Platform) ⦃k : Key B.Addr⦄ (Q : Posix) (bulk_transfer : ℕ → ℕ → Bool)
    (U : IsUp B Q bulk_transfer) (L : IsPosix Q) (bulk : IsBulk bulk_transfer) where
  -- Where the servers' nodes, Mercury and the memory behave as documented, an intercepted `pread` of
  -- fewer than 2 ^ 31 bytes of a descriptor that is tracked, ready and open at a server, whose
  -- address is cached: at an offset of 0 or more it returns the bytes of the server's file from that
  -- offset on and their number, and leaves the server's offset; at the offset -1 it does not fail,
  -- but returns the bytes from the server's offset on, as `read` would, and moves it behind them.
  -- Either way the descriptor can be read further.
  pub pread_by_server :
      (start end : Timespec) (fd : ℤ) (n : ℕ) (f : OpenFile) (w : World (Nodes B Q bulk_transfer))
      → n < 2 ^ 31
      → IsServed (clustered B Q bulk_transfer) (remote_file B Q bulk_transfer) fd f w
      → ((offset : ℕ)
          → (w' : World (Nodes B Q bulk_transfer)) × (wrap_pread
                (clustered B Q bulk_transfer)
                start
                end
                fd
                true
                n
                (pos offset)
                w
              ≡ returns (reading (slice offset n f.content), w'))
            × IsServed (clustered B Q bulk_transfer) (remote_file B Q bulk_transfer) fd f w')
        × ((w' : World (Nodes B Q bulk_transfer)) × (wrap_pread
                (clustered B Q bulk_transfer)
                start
                end
                fd
                true
                n
                minus_one
                w
              ≡ returns (reading (slice f.offset n f.content), w'))
            × IsServed
                (clustered B Q bulk_transfer)
                (remote_file B Q bulk_transfer)
                fd
                (advance f n)
                w')
  pread_by_server start end fd n f w small v =
      let H = clustered-IsHonest B Q bulk_transfer U L bulk in
      (
        λ offset.
            wrap_pread-IsServed (clustered B Q bulk_transfer) (remote_file B Q bulk_transfer) H
              start end fd n offset f w small v,
        wrap_pread_sequential-IsServed (clustered B Q bulk_transfer) (remote_file B Q bulk_transfer)
            H start end fd n f w small v,
      )

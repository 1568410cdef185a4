-- ===== src/Client/Unanswered.antt =====
-- A read that is never answered: `hvac_remote_read` of src/mthvac_client.cpp over
-- `hvac_client_comm_gen_read_rpc` of src/mthvac_comm_client.cpp.
use mt_hvac.Base.{
  ℕ, ◌%◌, ◌<◌, ◌^◌, ◌==◌, ◌≡◌, ◌∙◌, true, false, Option, none, some, Text, ℤ, pos, minus_one,
  to_int32, to_int32_small, int_key, >>=-returns, stops, blocked, ◌=?◌,
}
use mt_hvac.Posix.{OpenFile}
use mt_hvac.Platform.{Platform, unanswered}
use mt_hvac.Fd.{ready, state_of, wait_fd_ready}
use mt_hvac.Rpc.State.{World}
use mt_hvac.Rpc.{
  lookup_addr, create_handle, free_addr, read_remote, read_mapped, read_rpc, read_done,
}
use mt_hvac.Client.{host_of, read_tracked, remote_read}
use mt_hvac.Client.Reads.{
  request, lookup_addr-cached, create_handle-some, free_addr-some, host_of-counted,
}

module _ (P : Platform) where
  -- The descriptor `fd` is tracked and ready, and stands for a descriptor of a server whose address is
  -- known, whatever is behind it, and Mercury has what a request needs.
  pub record IsMapped (fd remote_fd : ℤ) (a : P.Addr) (w : World P.Sys) : Type 0 where
    pub path : Text
    pub name : Text
    pub tracked : w.client.fd_map fd ≡ some path
    pub is_ready : state_of fd w.client.fds ≡ some ready
    pub mapped : w.client.fd_redir_map fd ≡ some remote_fd
    pub nonzero : (remote_fd =? pos 0) ≡ false
    pub counted : (w.client.server_count == 0) ≡ false
    pub cached :
        w.client.address_cache (to_int32 (pos (P.hash path % w.client.server_count))) ≡ some name
    pub resolved : P.resolve name w.sys ≡ some a
    pub creates : P.creates (some a) w.sys ≡ true
    pub registers : (n : ℕ) → P.bulk_creates n w.sys ≡ true
    pub frees : (s : P.Sys) → P.frees (some a) s ≡ true

  -- What stands behind the servers' descriptors has nothing to do with such a read.
  abbrev nowhere : P.Addr → ℤ → P.Sys → Option OpenFile
  nowhere a d s = none

  module _ (fd remote_fd : ℤ) (a : P.Addr) (n : ℕ) (w : World P.Sys) (v : IsMapped fd remote_fd a w)
      (small : n < 2 ^ 31)
      (sent : (P.send_read (some a) (request n remote_fd minus_one) w.sys).0 ≡ unanswered) where
    read_remote-unanswered :
        read_remote P
          (to_int32 (pos (P.hash v.path % w.client.server_count)))
          remote_fd
          true
          n
          minus_one
          w
        ≡ stops blocked
    unfolding read_remote read_done
    read_remote-unanswered =
        >>=-returns (lookup_addr P _) _ w
          (lookup_addr-cached P nowhere _ w v.name a v.cached v.resolved)
        ∙ >>=-returns (create_handle P (some a)) _ _ (create_handle-some P nowhere a _ v.creates)
        ∙ rw (v.registers n, to_int32_small n small)
            (rw sent
              (>>=-returns (free_addr P (some a)) _ _ (free_addr-some P nowhere a _ (v.frees _))))

    -- Then the client waits for ever.
    pub remote_read-unanswered : remote_read P fd true n w ≡ stops blocked
    unfolding remote_read read_tracked read_rpc read_mapped wait_fd_ready
    remote_read-unanswered = rw v.tracked (
        >>=-returns (host_of P v.path) _ w (host_of-counted P v.path w v.counted)
        ∙ rw (v.is_ready, v.mapped) (rw v.nonzero read_remote-unanswered))

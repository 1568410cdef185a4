-- ===== src/Client/Preads.antt =====
-- Reads of a tracked file at an offset of their own: `hvac_remote_pread` of src/mthvac_client.cpp
-- down to the call, when the descriptor is ready and the server answers as it should.
use mt_hvac.Base.{
  ℕ, ◌<◌, ◌^◌, ◌≡◌, ◌∙◌, true, Option, some, ℤ, pos, minus_one, int_key, >>=-returns, returns,
}
use mt_hvac.Posix.{OpenFile, reading, slice}
use mt_hvac.Platform.{Platform}
use mt_hvac.Rpc.State.{World}
use mt_hvac.Rpc.{redir_at}
use mt_hvac.Client.{host_of, pread_tracked, remote_pread}
use mt_hvac.Client.Reads.{
  IsHonest, IsServed, advance, request, at_sys, read_rpc-answered, host_of-counted,
  IsServed-send_read,
}

module _ (P : Platform) (remote : P.Addr → ℤ → P.Sys → Option OpenFile)
    (H : IsHonest P remote) where
  redir_at-some :
      (fd remote_fd : ℤ) (w : World P.Sys)
      → w.client.fd_redir_map fd ≡ some remote_fd
      → redir_at P fd w ≡ returns (remote_fd, w)
  unfolding redir_at
  redir_at-some fd remote_fd w e = rw e

  -- What the server answers to a read at an offset of its own.
  pub remote_pread-sent :
      (fd : ℤ) (n offset : ℕ) (f : OpenFile) (w : World P.Sys) (v : IsServed P remote fd f w)
      → n < 2 ^ 31
      → let s = (P.send_read (some v.addr) (request n v.remote_fd (pos offset)) w.sys).1 in
        (remote_pread P fd true n (pos offset) w
          ≡ returns (reading (slice offset n f.content), at_sys P remote w s))
        × (remote v.addr v.remote_fd s ≡ some f)
  unfolding remote_pread pread_tracked
  remote_pread-sent fd n offset f w v small =
      let (sent, served') = H.send_read-pread v.addr v.remote_fd n offset w.sys f small v.served in
      (
        rw v.tracked (
            >>=-returns (redir_at P fd) _ w (redir_at-some fd v.remote_fd w v.mapped)
            ∙ rw v.nonzero (
                >>=-returns (host_of P v.path) _ w (host_of-counted P v.path w v.counted)
                ∙ read_rpc-answered P remote H _ fd v.remote_fd (pos offset) n w v.name v.addr _
                    small v.is_ready v.mapped v.nonzero v.cached v.resolved sent)),
        served',
      )

  -- A read at the offset -1 is a read at the file's own offset.
  pub remote_pread_sequential-IsServed :
      (fd : ℤ) (n : ℕ) (f : OpenFile) (w : World P.Sys)
      → n < 2 ^ 31
      → IsServed P remote fd f w
      → (s : P.Sys) × (remote_pread P fd true n minus_one w
          ≡ returns (reading (slice f.offset n f.content), at_sys P remote w s))
        × IsServed P remote fd (advance f n) (at_sys P remote w s)
  unfolding remote_pread pread_tracked
  remote_pread_sequential-IsServed fd n f w small v =
      let (sent, served') = H.send_read-read v.addr v.remote_fd n w.sys f small v.served in
      let s = (P.send_read (some v.addr) (request n v.remote_fd minus_one) w.sys).1 in
      (
        s,
        rw v.tracked (
            >>=-returns (redir_at P fd) _ w (redir_at-some fd v.remote_fd w v.mapped)
            ∙ rw v.nonzero (
                >>=-returns (host_of P v.path) _ w (host_of-counted P v.path w v.counted)
                ∙ read_rpc-answered P remote H _ fd v.remote_fd minus_one n w v.name v.addr _ small
                    v.is_ready v.mapped v.nonzero v.cached v.resolved sent)),
        IsServed-send_read P remote H fd f (advance f n) w (request n v.remote_fd minus_one) v
            served',
      )

-- ===== src/Client/Counters.antt =====
-- The functions of src/mthvac_client.cpp leave the counters of src/wrappers.c as they are.
use mt_hvac.Base.{
  ℕ, ◌≡◌, Bool, ◌||◌, Option, none, some, arith, Bool-cases, inl, inr, Text, text, ℤ, pos, int_key,
  minus_one, >>=-eq-returns, ◌>>=◌, returns, ◌=?◌,
}
use mt_hvac.Platform.{Platform}
use mt_hvac.Posix.{Reading}
use mt_hvac.Rpc.{open_rpc, read_rpc, redir_at}
use mt_hvac.Rpc.Effects.{W}
use mt_hvac.Rpc.Counters.{stats, read_rpc-stats, redir_at-stats, close_rpc-stats, open_rpc-stats}
use mt_hvac.Client.{
  contains, is_write_only, is_append, to_track, init_once, host_of, track, track_file, read_tracked,
  remote_read, pread_tracked, remote_pread, close_tracked, remote_close, remove_fd,
}

module _ (P : Platform) where
  host_of-same :
      (path : Text) (w w' : W P) (host : ℤ) → host_of P path w ≡ returns (host, w') → w' ≡ w
  unfolding host_of
  host_of-same path w w' host h = ground arith

  init_once-stats :
      (w w' : W P) (u : Unit {0}) → init_once P w ≡ returns (u, w') → stats P w' ≡ stats P w
  unfolding init_once
  init_once-stats w w' u h = ground arith

  track-stats :
      (fd : ℤ) (full : Option Text) (w w' : W P) (tracked : Bool)
      → track P fd full w ≡ returns (tracked, w')
      → stats P w' ≡ stats P w
  unfolding track
  track-stats fd none w w' tracked h = ground arith
  track-stats fd (some full) w w' tracked h =
      let (u, w₁, i, h₁) = >>=-eq-returns (init_once P) _ _ h in
      let e₁ = init_once-stats _ w₁ u i in
      let (host, w₂, a, h₂) = >>=-eq-returns (host_of P full) _ w₁ h₁ in
      let e₂ = host_of-same full w₁ w₂ host a in
      let (r, w₃, o, h₃) = >>=-eq-returns (open_rpc P host full fd) _ w₂ h₂ in
      let e₃ = open_rpc-stats P host fd full w₂ w₃ r o in ground arith

  pub track_file-stats :
      (path : Text) (flags : ℕ) (fd : ℤ) (w w' : W P) (tracked : Bool)
      → track_file P path flags fd w ≡ returns (tracked, w')
      → stats P w' ≡ stats P w
  unfolding track_file
  track_file-stats path flags fd w w' tracked h =
      elim (Bool-cases
        (contains path (text ".ports.cfg.") || (is_write_only flags || is_append flags))) [
          | inl out ↦ ground arith
          | inr within ↦
              track-stats fd (to_track P path w.client.data_dir w.sys) w w' tracked (ground arith)
        ]

  -- A read that is sent to the host of a path.
  sent-stats :
      (path : Text) (fd : ℤ) (has_buffer : Bool) (n : ℕ) (offset : ℤ) (w w' : W P) (r : Reading)
      → (host_of P path >>= λ host. read_rpc P host fd has_buffer n offset) w ≡ returns (r, w')
      → stats P w' ≡ stats P w
  sent-stats path fd has_buffer n offset w w' r h =
      let (host, w₁, a, h₁) = >>=-eq-returns (host_of P path) _ w h in
      let e₁ = host_of-same path w w₁ host a in
      let e₂ = read_rpc-stats P host fd offset has_buffer n w₁ w' r h₁ in ground arith

  read_tracked-stats :
      (path : Option Text) (fd : ℤ) (has_buffer : Bool) (n : ℕ) (w w' : W P) (r : Reading)
      → read_tracked P path fd has_buffer n w ≡ returns (r, w')
      → stats P w' ≡ stats P w
  unfolding read_tracked
  read_tracked-stats none fd has_buffer n w w' r h = ground arith
  read_tracked-stats (some path) fd has_buffer n w w' r h =
      sent-stats path fd has_buffer n minus_one w w' r h

  pub remote_read-stats :
      (fd : ℤ) (has_buffer : Bool) (n : ℕ) (w w' : W P) (r : Reading)
      → remote_read P fd has_buffer n w ≡ returns (r, w')
      → stats P w' ≡ stats P w
  unfolding remote_read
  remote_read-stats fd has_buffer n w w' r h =
      read_tracked-stats (w.client.fd_map fd) fd has_buffer n w w' r h

  pread_tracked-stats :
      (path : Option Text) (fd : ℤ) (has_buffer : Bool) (n : ℕ) (offset : ℤ) (w w' : W P)
      (r : Reading)
      → pread_tracked P path fd has_buffer n offset w ≡ returns (r, w')
      → stats P w' ≡ stats P w
  unfolding pread_tracked
  pread_tracked-stats none fd has_buffer n offset w w' r h = ground arith
  pread_tracked-stats (some path) fd has_buffer n offset w w' r h =
      let (remote, w₁, m, h₁) = >>=-eq-returns (redir_at P fd) _ w h in
      let e₁ = redir_at-stats P fd remote w w₁ m in
      elim (Bool-cases (remote =? pos 0)) [
        | inl zero_fd ↦ ground arith
        | inr real ↦
            let e₂ = sent-stats path fd has_buffer n offset w₁ w' r (ground arith) in ground arith
      ]

  pub remote_pread-stats :
      (fd : ℤ) (has_buffer : Bool) (n : ℕ) (offset : ℤ) (w w' : W P) (r : Reading)
      → remote_pread P fd has_buffer n offset w ≡ returns (r, w')
      → stats P w' ≡ stats P w
  unfolding remote_pread
  remote_pread-stats fd has_buffer n offset w w' r h =
      pread_tracked-stats (w.client.fd_map fd) fd has_buffer n offset w w' r h

  close_tracked-stats :
      (path : Option Text) (fd : ℤ) (w w' : W P) (u : Unit {0})
      → close_tracked P path fd w ≡ returns (u, w')
      → stats P w' ≡ stats P w
  unfolding close_tracked
  close_tracked-stats none fd w w' u h = ground arith
  close_tracked-stats (some path) fd w w' u h =
      let (host, w₁, a, h₁) = >>=-eq-returns (host_of P path) _ w h in
      let e₁ = host_of-same path w w₁ host a in
      let e₂ = close_rpc-stats P host fd w₁ w' u h₁ in ground arith

  pub remove_fd-stats :
      (fd : ℤ) (w w' : W P) (u : Unit {0})
      → remove_fd P fd w ≡ returns (u, w')
      → stats P w' ≡ stats P w
  unfolding remove_fd remote_close
  remove_fd-stats fd w w' u h =
      let (v, w₁, c, h₁) = >>=-eq-returns (close_tracked P (w.client.fd_map fd) fd) _ w h in
      let e₁ = close_tracked-stats (w.client.fd_map fd) fd w w₁ v c in ground arith

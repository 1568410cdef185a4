-- ===== src/Client/Opens.antt =====
-- What tracking a file leaves at the client: `hvac_track_file` of src/mthvac_client.cpp.
use mt_hvac.Base.{
  ℕ, ◌==◌, ◌≡◌, ◌∙◌, subst, update, Bool, false, ◌&&◌, some, arith, Text, ℤ, pos, to_int32, ◌%◌,
  minus_one, is_positive, is_negative, int_key, >>=-eq-returns, >>=-returns, returns, pure, ◌=?◌,
  not, if◌then◌else◌,
}
use mt_hvac.Platform.{Platform}
use mt_hvac.Fd.{ready, error, state_of, wait_fd_ready}
use mt_hvac.Rpc.State.{World}
use mt_hvac.Rpc.{open_rpc, read_rpc, not_read}
use mt_hvac.Rpc.Effects.{open_rpc-effect}
use mt_hvac.Client.{track, init_once, host_of, remote_read, read_tracked}

module _ (P : Platform) where
  init_once-effect :
      (w w' : World P.Sys) (u : Unit {0})
      → init_once P w ≡ returns (u, w')
      → w' ≡ record w { client = record w.client { mercury_init = w'.client.mercury_init } }
  unfolding init_once
  init_once-effect w w' u h = ground arith

  pub host_of-effect :
      (path : Text) (w w' : World P.Sys) (host : ℤ) → host_of P path w ≡ returns (host, w') → w' ≡ w
  unfolding host_of
  host_of-effect path w w' host h = ground arith

  abbrev pub IsTracked : ℤ → Text → ℤ → Bool → World P.Sys → World P.Sys → Type 0
  IsTracked fd full status tracked w w' =
      (tracked ≡ not (is_negative status))
      × (w'.client.fd_map fd ≡ some full)
      × (state_of fd w'.client.fds ≡ some (if is_positive status then ready else error))
      × ((a : ℤ)
          → w'.client.fd_redir_map a
            ≡ (if is_positive status && (fd =? a) then some status else w.client.fd_redir_map a))

  abbrev entered : ℤ → Text → World P.Sys → World P.Sys
  entered fd full w = record w {
    client = record w.client { fd_map = update w.client.fd_map fd full };
  }

  track_finish :
      (fd : ℤ) (full : Text) (w w₁ w₂ w₃ w' : World P.Sys) (host status : ℤ) (tracked : Bool)
      (u : Unit {0})
      → init_once P (entered fd full w) ≡ returns (u, w₁)
      → host_of P full w₁ ≡ returns (host, w₂)
      → open_rpc P host full fd w₂ ≡ returns (status, w₃)
      → pure (not (is_negative status)) w₃ ≡ returns (tracked, w')
      → IsTracked fd full status tracked w w'
  track_finish fd full w w₁ w₂ w₃ w' host status tracked u i c o h =
      let e₁ = init_once-effect (entered fd full w) w₁ u i in
      let e₂ = host_of-effect full w₁ w₂ host c in
      let (m, st, r) = open_rpc-effect P host fd full w₂ w₃ status o in
      let w₃-w' : w₃ ≡ w' = ground arith in
      (
        ground arith,
        ground (arith, m fd),
        subst
            (λ (x : World P.Sys).
              state_of fd x.client.fds ≡ some (if is_positive status then ready else error))
            w₃-w' st,
        λ a. ground (arith, r a),
      )

  -- When the open of a file that is to be tracked returns, the file is entered under the descriptor
  -- whatever the server said. The answer is yes exactly if the server's descriptor is not negative;
  -- the descriptor is ready if it is positive, and in error if not.
  pub track-effect :
      (fd : ℤ) (full : Text) (w w' : World P.Sys) (tracked : Bool)
      → track P fd (some full) w ≡ returns (tracked, w')
      → (status : ℤ) × IsTracked fd full status tracked w w'
  unfolding track
  track-effect fd full w w' tracked h =
      let (u, w₁, i, h₁) = >>=-eq-returns (init_once P) _ _ h in
      let (host, w₂, c, h₂) = >>=-eq-returns (host_of P full) _ w₁ h₁ in
      let (status, w₃, o, h₃) = >>=-eq-returns (open_rpc P host full fd) _ w₂ h₂ in
      (status, track_finish fd full w w₁ w₂ w₃ w' host status tracked u i c o h₃)

  read_rpc-error :
      (host fd offset : ℤ) (has_buffer : Bool) (n : ℕ) (w : World P.Sys)
      → state_of fd w.client.fds ≡ some error
      → read_rpc P host fd has_buffer n offset w ≡ returns (not_read, w)
  unfolding read_rpc wait_fd_ready
  read_rpc-error host fd offset has_buffer n w e = rw e

  host_of-returns :
      (path : Text) (w : World P.Sys)
      → (w.client.server_count == 0) ≡ false
      → (host : ℤ) × (host_of P path w ≡ returns (host, w))
  unfolding host_of
  host_of-returns path w e = (to_int32 (pos (P.hash path % w.client.server_count)), rw e)

  -- A descriptor whose open has failed is read at its own node: with a server count that is not 0,
  -- `hvac_remote_read` gives -1, on which the caller reads the file itself, and leaves everything as
  -- it was.
  pub remote_read-error :
      (fd : ℤ) (path : Text) (has_buffer : Bool) (n : ℕ) (w : World P.Sys)
      → w.client.fd_map fd ≡ some path
      → (w.client.server_count == 0) ≡ false
      → state_of fd w.client.fds ≡ some error
      → remote_read P fd has_buffer n w ≡ returns (not_read, w)
  unfolding remote_read read_tracked
  remote_read-error fd path has_buffer n w t c e =
      let (host, h) = host_of-returns path w c in
      rw t (>>=-returns (host_of P path) _ w h ∙ read_rpc-error host fd minus_one has_buffer n w e)

-- ===== src/Client/Closes.antt =====
-- What closing a tracked descriptor leaves at the client: `hvac_remove_fd` of src/mthvac_client.cpp
-- and `hvac_client_comm_gen_close_rpc` of src/mthvac_comm_client.cpp.
use mt_hvac.Base.{
  ◌≡◌, ◌≢◌, refl, subst, Bool, true, false, ◌&&◌, Option, none, some, arith, Text, ℤ, pos, int_key,
  >>=-eq-returns, returns, ◌=?◌, if◌then◌else◌,
}
use mt_hvac.Platform.{Platform}
use mt_hvac.Fd.{state_of, cleanup_fd_state}
use mt_hvac.Rpc.State.{Client, World}
use mt_hvac.Rpc.{close_rpc, close_mapped, lookup_addr, create_handle, destroy_handle}
use mt_hvac.Rpc.Effects.{lookup_addr-effect, create_handle-effect, free_addr-effect}
use mt_hvac.Client.{remove_fd, remote_close, close_tracked, host_of}
use mt_hvac.Client.Opens.{host_of-effect}

-- Whether a descriptor of the server stands for it.
abbrev pub is_mapped : Option ℤ → Bool
is_mapped none = false
is_mapped (some remote) = if remote =? pos 0 then false else true

-- The server's descriptor is forgotten, if there was one; that of every other is kept.
abbrev pub IsUnmapped : ℤ → Client → Client → Type 0
IsUnmapped fd c c' =
    (a : ℤ)
    → c'.fd_redir_map a
      ≡ (if is_mapped (c.fd_redir_map fd) && (fd =? a) then none else c.fd_redir_map a)

-- The status object is let go, and every other is kept.
abbrev pub IsCleaned : ℤ → Client → Client → Type 0
IsCleaned fd c c' =
    (state_of fd c'.fds ≡ none) × ((a : ℤ) → fd ≢ a → state_of a c'.fds ≡ state_of a c.fds)

-- The path is forgotten, and every other is kept.
abbrev pub IsUntracked : ℤ → Client → Client → Type 0
IsUntracked fd c c' = (c'.fd_map fd ≡ none) × ((a : ℤ) → fd ≢ a → c'.fd_map a ≡ c.fd_map a)

module _ (P : Platform) where
  close_mapped-effect :
      (fd : ℤ) (addr : Option P.Addr) (redir : Option ℤ) (w w' : World P.Sys) (u : Unit {0})
      → w.client.fd_redir_map fd ≡ redir
      → close_mapped P fd addr redir w ≡ returns (u, w')
      → (w'.client.fds ≡ w.client.fds)
        × ((a : ℤ) → w'.client.fd_map a ≡ w.client.fd_map a)
        × IsUnmapped fd w.client w'.client
  unfolding close_mapped
  close_mapped-effect fd addr none w w' u e h = (ground arith, λ a. ground arith, λ a. ground arith)
  close_mapped-effect fd addr (some remote) w w' u e h =
      (ground arith, λ a. ground arith, λ a. ground arith)

  close_rpc-effect :
      (host fd : ℤ) (w w' : World P.Sys) (u : Unit {0})
      → close_rpc P host fd w ≡ returns (u, w')
      → ((a : ℤ) → w'.client.fd_map a ≡ w.client.fd_map a)
        × IsCleaned fd w.client w'.client
        × IsUnmapped fd w.client w'.client
  unfolding close_rpc cleanup_fd_state destroy_handle
  close_rpc-effect host fd w w' u h =
      let (addr, w₁, l, h₁) = >>=-eq-returns (lookup_addr P host) _ w h in
      let e₁ = lookup_addr-effect P host w w₁ addr l in
      let (v, w₂, c, h₂) = >>=-eq-returns (create_handle P addr) _ w₁ h₁ in
      let e₂ = create_handle-effect P addr w₁ w₂ v c in
      let (v', w₃, d, h₃) =
        >>=-eq-returns (close_mapped P fd addr (w₂.client.fd_redir_map fd)) _ w₂ h₂ in
      let (f, m, r) = close_mapped-effect fd addr (w₂.client.fd_redir_map fd) w₂ w₃ v' refl d in
      let e₄ = free_addr-effect P addr _ w' u h₃ in
      (λ a. ground (arith, m a), (ground arith, λ a other. ground arith), λ a. ground (arith, r a))

  -- When the close of a tracked descriptor returns, its path, its status object and the server's
  -- descriptor for it are gone from the client, and those of every other descriptor are as before.
  -- A server's descriptor 0 counts as none.
  pub remove_fd-effect :
      (fd : ℤ) (path : Text) (w w' : World P.Sys) (u : Unit {0})
      → w.client.fd_map fd ≡ some path
      → remove_fd P fd w ≡ returns (u, w')
      → IsUntracked fd w.client w'.client
        × IsCleaned fd w.client w'.client
        × IsUnmapped fd w.client w'.client
  unfolding remove_fd remote_close close_tracked
  remove_fd-effect fd path w w' u t h =
      let (v, w₁, c, h₁) = >>=-eq-returns (remote_close P fd) _ w h in
      let c' : close_tracked P (some path) fd w ≡ returns (v, w₁) =
        subst (λ (o : Option Text). close_tracked P o fd w ≡ returns (v, w₁)) t c in
      let (host, w₂, k, l) = >>=-eq-returns (host_of P path) _ w c' in
      let e = host_of-effect P path w w₂ host k in
      let (m, (s, other), r) = close_rpc-effect host fd w₂ w₁ v l in
      (
        (ground arith, λ a ne. ground (arith, m a)),
        (ground arith, λ a ne. ground (arith, other a ne)),
        λ a. ground (arith, r a),
      )

-- ===== src/Rpc/Effects.antt =====
-- What the RPC functions of src/mthvac_comm_client.cpp leave of the client's state.
use mt_hvac.Base.{
  ℕ, ◌+◌, ◌≡◌, Option, some, arith, Text, ℤ, is_positive, int_key, >>=-eq-returns, returns, ◌=?◌,
  ◌&&◌, if◌then◌else◌,
}
use mt_hvac.Platform.{Platform, Sent, refused, failed, unanswered, answered}
use mt_hvac.Fd.{ready, error, state_of, set_fd_opening, set_fd_ready, set_fd_error}
use mt_hvac.Rpc.State.{Client, World}
use mt_hvac.Rpc.{
  lookup_addr, create_handle, destroy_handle, free_addr, open_cb, opened, open_rpc, held,
}

-- What an open leaves: the state that the answer calls for.
abbrev pub IsOpened : ℤ → ℤ → Client → Client → Type 0
IsOpened fd status c c' =
    ((a : ℤ) → c'.fd_map a ≡ c.fd_map a)
    × (state_of fd c'.fds ≡ some (if is_positive status then ready else error))
    × ((a : ℤ)
        → c'.fd_redir_map a
          ≡ (if is_positive status && (fd =? a) then some status else c.fd_redir_map a))

module _ (P : Platform) where
  abbrev pub W : Type 0
  W = World P.Sys

  -- A lookup changes the address cache and holds the address that it gives.
  pub lookup_addr-effect :
      (rank : ℤ) (w w' : W) (addr : Option P.Addr)
      → lookup_addr P rank w ≡ returns (addr, w')
      → w' ≡ record w {
        client = record w.client {
          address_cache = w'.client.address_cache;
          live = held P addr w.client.live;
        };
      }
  unfolding lookup_addr
  lookup_addr-effect rank w w' addr h = ground arith

  pub free_addr-effect :
      (addr : Option P.Addr) (w w' : W) (u : Unit {0})
      → free_addr P addr w ≡ returns (u, w')
      → w' ≡ record w { client = record w.client { live = w'.client.live } }
  unfolding free_addr
  free_addr-effect addr w w' u h = ground arith

  pub create_handle-effect :
      (addr : Option P.Addr) (w w' : W) (u : Unit {0})
      → create_handle P addr w ≡ returns (u, w')
      → w' ≡ record w {
        client = record w.client {
          live = record w.client.live { handles = w.client.live.handles + 1 };
        };
      }
  unfolding create_handle
  create_handle-effect addr w w' u h = ground arith

  open_cb-effect :
      (fd status : ℤ) (w w' : W) (u : Unit {0}) (p : ℕ)
      → w.client.fds.entry fd ≡ some p
      → open_cb P fd status w ≡ returns (u, w')
      → IsOpened fd status w.client w'.client
  unfolding open_cb destroy_handle set_fd_ready set_fd_error
  open_cb-effect fd status w w' u p e h = (λ a. ground arith, ground arith, λ a. ground arith)

  opened-effect :
      (fd : ℤ) (addr : Option P.Addr) (sent : Sent ℤ) (w w' : W) (status : ℤ) (p : ℕ)
      → w.client.fds.entry fd ≡ some p
      → opened P fd addr sent w ≡ returns (status, w')
      → IsOpened fd status w.client w'.client
  unfolding opened set_fd_error
  opened-effect fd addr refused w w' status p e h =
      let (u, w₁, f, k) = >>=-eq-returns (free_addr P addr) _ _ h in
      let g = free_addr-effect addr _ w₁ u f in (λ a. ground arith, ground arith, λ a. ground arith)
  opened-effect fd addr failed w w' status p e h = cc
  opened-effect fd addr unanswered w w' status p e h =
      let (u, w₁, f, k) = >>=-eq-returns (free_addr P addr) _ w h in cc
  opened-effect fd addr (answered out) w w' status p e h =
      let (u, w₁, f, k) = >>=-eq-returns (free_addr P addr) _ w h in
      let g = free_addr-effect addr w w₁ u f in
      let (u', w₂, f', k') = >>=-eq-returns (open_cb P fd out) _ w₁ k in
      let (m, st, r) = open_cb-effect fd out w₁ w₂ u' p (ground arith) f' in
      (λ a. ground (arith, m a), ground arith, λ a. ground (arith, r a))

  -- When an open returns, the descriptor is ready and stands for the server's descriptor if that is
  -- positive; otherwise it is in error, and no server's descriptor is entered for it. The paths of
  -- the tracked files stay as they are.
  pub open_rpc-effect :
      (host fd : ℤ) (path : Text) (w w' : W) (status : ℤ)
      → open_rpc P host path fd w ≡ returns (status, w')
      → IsOpened fd status w.client w'.client
  unfolding open_rpc set_fd_opening
  open_rpc-effect host fd path w w' status h =
      let (addr, w₁, l, k) = >>=-eq-returns (lookup_addr P host) _ _ h in
      let e = lookup_addr-effect host _ w₁ addr l in
      let (u, w₂, c, k₂) = >>=-eq-returns (create_handle P addr) _ w₁ k in
      let e₂ = create_handle-effect addr w₁ w₂ u c in
      let (sent, sys') = P.send_open addr path w₂.sys in
      let (m, st, r) =
        opened-effect fd addr sent (record w₂ { sys = sys' }) w' status w.client.fds.next
          (ground arith) k₂ in
      (λ a. ground (arith, m a), st, λ a. ground (arith, r a))

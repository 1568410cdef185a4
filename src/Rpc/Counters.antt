-- ===== src/Rpc/Counters.antt =====
-- The RPCs of src/mthvac_comm_client.cpp leave the counters of src/wrappers.c as they are.
use mt_hvac.Base.{
  ℕ, ◌≡◌, ap, Bool, true, false, Option, none, some, arith, Bool-cases, inl, inr, [], Text, ℤ, pos,
  int_key, >>=-eq-returns, returns, ◌=?◌,
}
use mt_hvac.Platform.{Platform, Sent, refused, failed, unanswered, answered}
use mt_hvac.Fd.{wait_fd_ready}
use mt_hvac.Posix.{Reading}
use mt_hvac.Server.{ReadOut}
use mt_hvac.Rpc.State.{IoStats}
use mt_hvac.Rpc.{
  assert, lookup_addr, create_handle, destroy_handle, free_addr, open_cb, opened, open_rpc,
  read_done, read_remote, read_mapped, read_rpc, redir_at, close_mapped, close_rpc,
}
use mt_hvac.Rpc.Effects.{W, lookup_addr-effect, create_handle-effect, free_addr-effect}

module _ (P : Platform) where
  abbrev pub stats : W P → IoStats
  stats w = w.client.stats

  lookup_addr-stats :
      (rank : ℤ) (w w' : W P) (addr : Option P.Addr)
      → lookup_addr P rank w ≡ returns (addr, w')
      → stats w' ≡ stats w
  lookup_addr-stats rank w w' addr h = let e = lookup_addr-effect P rank w w' addr h in ap stats e

  create_handle-stats :
      (addr : Option P.Addr) (w w' : W P) (u : Unit {0})
      → create_handle P addr w ≡ returns (u, w')
      → stats w' ≡ stats w
  create_handle-stats addr w w' u h = let e = create_handle-effect P addr w w' u h in ap stats e

  free_addr-stats :
      (addr : Option P.Addr) (w w' : W P) (u : Unit {0})
      → free_addr P addr w ≡ returns (u, w')
      → stats w' ≡ stats w
  free_addr-stats addr w w' u h = let e = free_addr-effect P addr w w' u h in ap stats e

  read_done-stats :
      (addr : Option P.Addr) (sent : Sent ReadOut) (w w' : W P) (r : Reading)
      → read_done P addr sent w ≡ returns (r, w')
      → stats w' ≡ stats w
  unfolding read_done destroy_handle
  read_done-stats addr refused w w' r h =
      let (u, w₁, f, k) = >>=-eq-returns (free_addr P addr) _ _ h in
      let g = free_addr-stats addr _ w₁ u f in ground arith
  read_done-stats addr failed w w' r h = cc
  read_done-stats addr unanswered w w' r h =
      let (u, w₁, f, k) = >>=-eq-returns (free_addr P addr) _ w h in cc
  read_done-stats addr (answered out) w w' r h =
      let (u, w₁, f, k) = >>=-eq-returns (free_addr P addr) _ w h in
      let g = free_addr-stats addr w w₁ u f in ground arith

  read_remote-stats :
      (host remote offset : ℤ) (has_buffer : Bool) (n : ℕ) (w w' : W P) (r : Reading)
      → read_remote P host remote has_buffer n offset w ≡ returns (r, w')
      → stats w' ≡ stats w
  unfolding read_remote
  read_remote-stats host remote offset false n w w' r h =
      let (addr, w₁, a, h₁) = >>=-eq-returns (lookup_addr P host) _ w h in cc
  read_remote-stats host remote offset true n w w' r h =
      let (addr, w₁, a, h₁) = >>=-eq-returns (lookup_addr P host) _ w h in
      let e₁ = lookup_addr-stats host w w₁ addr a in
      let (u, w₂, c, h₂) = >>=-eq-returns (create_handle P addr) _ w₁ h₁ in
      let e₂ = create_handle-stats addr w₁ w₂ u c in
      let (v, w₃, b, h₃) = >>=-eq-returns (assert (P.bulk_creates n w₂.sys)) _ w₂ h₂ in
      let same : w₃ ≡ w₂ = ground arith in let e₃ = read_done-stats addr _ _ w' r h₃ in ground arith

  read_mapped-stats :
      (host offset : ℤ) (redir : Option ℤ) (has_buffer : Bool) (n : ℕ) (w w' : W P) (r : Reading)
      → read_mapped P host redir has_buffer n offset w ≡ returns (r, w')
      → stats w' ≡ stats w
  unfolding read_mapped
  read_mapped-stats host offset none has_buffer n w w' r h = ground arith
  read_mapped-stats host offset (some remote) has_buffer n w w' r h =
      elim (Bool-cases (remote =? pos 0)) [
        | inl zero_fd ↦ ground arith
        | inr real ↦ read_remote-stats host remote offset has_buffer n w w' r (ground arith)
      ]

  pub read_rpc-stats :
      (host fd offset : ℤ) (has_buffer : Bool) (n : ℕ) (w w' : W P) (r : Reading)
      → read_rpc P host fd has_buffer n offset w ≡ returns (r, w')
      → stats w' ≡ stats w
  unfolding read_rpc
  read_rpc-stats host fd offset has_buffer n w w' r h =
      elim (Bool-cases (wait_fd_ready fd [] w.client.fds)) [
        | inl go ↦
            read_mapped-stats host offset (w.client.fd_redir_map fd) has_buffer n w w' r
              (ground arith)
        | inr stop ↦ ground arith
      ]

  pub redir_at-stats :
      (fd remote : ℤ) (w w' : W P) → redir_at P fd w ≡ returns (remote, w') → stats w' ≡ stats w
  unfolding redir_at
  redir_at-stats fd remote w w' h = ground arith

  close_mapped-stats :
      (fd : ℤ) (addr : Option P.Addr) (redir : Option ℤ) (w w' : W P) (u : Unit {0})
      → close_mapped P fd addr redir w ≡ returns (u, w')
      → stats w' ≡ stats w
  unfolding close_mapped
  close_mapped-stats fd addr none w w' u h = ground arith
  close_mapped-stats fd addr (some remote) w w' u h = ground arith

  pub close_rpc-stats :
      (host fd : ℤ) (w w' : W P) (u : Unit {0})
      → close_rpc P host fd w ≡ returns (u, w')
      → stats w' ≡ stats w
  unfolding close_rpc destroy_handle
  close_rpc-stats host fd w w' u h =
      let (addr, w₁, a, h₁) = >>=-eq-returns (lookup_addr P host) _ w h in
      let e₁ = lookup_addr-stats host w w₁ addr a in
      let (v, w₂, c, h₂) = >>=-eq-returns (create_handle P addr) _ w₁ h₁ in
      let e₂ = create_handle-stats addr w₁ w₂ v c in
      let (v', w₃, m, h₃) =
        >>=-eq-returns (close_mapped P fd addr (w₂.client.fd_redir_map fd)) _ w₂ h₂ in
      let e₃ = close_mapped-stats fd addr (w₂.client.fd_redir_map fd) w₂ w₃ v' m in
      let g = free_addr-stats addr _ w' u h₃ in ground arith

  open_cb-stats :
      (fd status : ℤ) (w w' : W P) (u : Unit {0})
      → open_cb P fd status w ≡ returns (u, w')
      → stats w' ≡ stats w
  unfolding open_cb destroy_handle
  open_cb-stats fd status w w' u h = ground arith

  opened-stats :
      (fd : ℤ) (addr : Option P.Addr) (sent : Sent ℤ) (w w' : W P) (status : ℤ)
      → opened P fd addr sent w ≡ returns (status, w')
      → stats w' ≡ stats w
  unfolding opened
  opened-stats fd addr refused w w' status h =
      let (u, w₁, f, k) = >>=-eq-returns (free_addr P addr) _ _ h in
      let g = free_addr-stats addr _ w₁ u f in ground arith
  opened-stats fd addr failed w w' status h = cc
  opened-stats fd addr unanswered w w' status h =
      let (u, w₁, f, k) = >>=-eq-returns (free_addr P addr) _ w h in cc
  opened-stats fd addr (answered out) w w' status h =
      let (u, w₁, f, k) = >>=-eq-returns (free_addr P addr) _ w h in
      let g = free_addr-stats addr w w₁ u f in
      let (u', w₂, f', k') = >>=-eq-returns (open_cb P fd out) _ w₁ k in
      let g' = open_cb-stats fd out w₁ w₂ u' f' in ground arith

  pub open_rpc-stats :
      (host fd : ℤ) (path : Text) (w w' : W P) (status : ℤ)
      → open_rpc P host path fd w ≡ returns (status, w')
      → stats w' ≡ stats w
  unfolding open_rpc
  open_rpc-stats host fd path w w' status h =
      let (addr, w₁, a, h₁) = >>=-eq-returns (lookup_addr P host) _ _ h in
      let e₁ = lookup_addr-stats host _ w₁ addr a in
      let (u, w₂, c, h₂) = >>=-eq-returns (create_handle P addr) _ w₁ h₁ in
      let e₂ = create_handle-stats addr w₁ w₂ u c in
      let e₃ = opened-stats fd addr _ _ w' status h₂ in ground arith

-- ===== src/Rpc/Balance.antt =====
-- Which Mercury objects an RPC of src/mthvac_comm_client.cpp leaves: handles, addresses and
-- registered buffers, counted in `Live`.
use mt_hvac.Base.{
  ℕ, ◌+◌, ◌-◌, ◌≡◌, ap, Bool, true, false, Option, none, some, arith, Bool-cases, inl, inr, [],
  Text, ℤ, pos, minus_one, ◌⊎◌, int_key, >>=-eq-returns, returns, ◌=?◌,
}
use mt_hvac.Platform.{Platform, Sent, refused, failed, unanswered, answered}
use mt_hvac.Fd.{wait_fd_ready}
use mt_hvac.Posix.{Reading}
use mt_hvac.Server.{ReadOut}
use mt_hvac.Rpc.State.{Live}
use mt_hvac.Rpc.{
  assert, held, released, lookup_addr, create_handle, destroy_handle, free_addr, open_cb, opened,
  open_rpc, read_done, read_remote, read_mapped, read_rpc, redir_at, sought, seek_rpc, close_mapped,
  close_rpc,
}
use mt_hvac.Rpc.Effects.{W, lookup_addr-effect, create_handle-effect}

module _ (P : Platform) where
  abbrev pub live : W P → Live
  live w = w.client.live

  pub lookup_addr-live :
      (rank : ℤ) (w w' : W P) (addr : Option P.Addr)
      → lookup_addr P rank w ≡ returns (addr, w')
      → live w' ≡ held P addr (live w)
  lookup_addr-live rank w w' addr h = let e = lookup_addr-effect P rank w w' addr h in ap live e

  pub create_handle-live :
      (addr : Option P.Addr) (w w' : W P) (u : Unit {0})
      → create_handle P addr w ≡ returns (u, w')
      → live w' ≡ record (live w) { handles = (live w).handles + 1 }
  create_handle-live addr w w' u h = let e = create_handle-effect P addr w w' u h in ap live e

  pub free_addr-live :
      (addr : Option P.Addr) (w w' : W P) (u : Unit {0})
      → free_addr P addr w ≡ returns (u, w')
      → live w' ≡ released P addr (live w)
  unfolding free_addr
  free_addr-live addr w w' u h = ground arith

  -- What a call holds when its request is sent.
  abbrev pub calling : Option P.Addr → Live → Live
  calling addr l = record (held P addr l) { handles = (held P addr l).handles + 1 }

  -- What a read holds then.
  abbrev pub reading : Option P.Addr → Live → Live
  reading addr l = record (calling addr l) { bulks = (calling addr l).bulks + 1 }

  released-reading :
      (addr : Option P.Addr) (l : Live)
      → record (released P addr (reading addr l)) {
        handles = (released P addr (reading addr l)).handles - 1;
        bulks = (released P addr (reading addr l)).bulks - 1;
      }
        ≡ l
  unfolding held released
  released-reading none l = ground arith
  released-reading (some a) l = ground arith

  released-calling :
      (addr : Option P.Addr) (l : Live)
      → record (released P addr (calling addr l)) {
        handles = (released P addr (calling addr l)).handles - 1;
      }
        ≡ l
  unfolding held released
  released-calling none l = ground arith
  released-calling (some a) l = ground arith

  reading-released :
      (addr : Option P.Addr) (l : Live)
      → released P addr (record (reading addr l) {
        handles = (reading addr l).handles - 1;
        bulks = (reading addr l).bulks - 1;
      })
        ≡ l
  unfolding held released
  reading-released none l = ground arith
  reading-released (some a) l = ground arith

  pub calling-released :
      (addr : Option P.Addr) (l : Live)
      → released P addr (record (calling addr l) { handles = (calling addr l).handles - 1 }) ≡ l
  unfolding held released
  calling-released none l = ground arith
  calling-released (some a) l = ground arith

  calling-kept :
      (addr : Option P.Addr) (l : Live)
      → released P addr (calling addr l) ≡ record l { handles = l.handles + 1 }
  unfolding held released
  calling-kept none l = ground arith
  calling-kept (some a) l = ground arith

  read_done-live :
      (addr : Option P.Addr) (sent : Sent ReadOut) (w w' : W P) (r : Reading) (l : Live)
      → live w ≡ reading addr l
      → read_done P addr sent w ≡ returns (r, w')
      → live w' ≡ l
  unfolding read_done destroy_handle
  read_done-live addr refused w w' r l e h =
      let (u, w₁, f, k) = >>=-eq-returns (free_addr P addr) _ _ h in
      let g = free_addr-live addr _ w₁ u f in ground (arith, reading-released addr l)
  read_done-live addr failed w w' r l e h = cc
  read_done-live addr unanswered w w' r l e h =
      let (u, w₁, f, k) = >>=-eq-returns (free_addr P addr) _ w h in cc
  read_done-live addr (answered out) w w' r l e h =
      let (u, w₁, f, k) = >>=-eq-returns (free_addr P addr) _ w h in
      let g = free_addr-live addr w w₁ u f in ground (arith, released-reading addr l)

  read_remote-live :
      (host remote offset : ℤ) (has_buffer : Bool) (n : ℕ) (w w' : W P) (r : Reading)
      → read_remote P host remote has_buffer n offset w ≡ returns (r, w')
      → live w' ≡ live w
  unfolding read_remote
  read_remote-live host remote offset false n w w' r h =
      let (addr, w₁, a, h₁) = >>=-eq-returns (lookup_addr P host) _ w h in cc
  read_remote-live host remote offset true n w w' r h =
      let (addr, w₁, a, h₁) = >>=-eq-returns (lookup_addr P host) _ w h in
      let e₁ = lookup_addr-live host w w₁ addr a in
      let (u, w₂, c, h₂) = >>=-eq-returns (create_handle P addr) _ w₁ h₁ in
      let e₂ = create_handle-live addr w₁ w₂ u c in
      let (v, w₃, b, h₃) = >>=-eq-returns (assert (P.bulk_creates n w₂.sys)) _ w₂ h₂ in
      let same : w₃ ≡ w₂ = ground arith in read_done-live addr _ _ w' r (live w) (ground arith) h₃

  read_mapped-live :
      (host offset : ℤ) (redir : Option ℤ) (has_buffer : Bool) (n : ℕ) (w w' : W P) (r : Reading)
      → read_mapped P host redir has_buffer n offset w ≡ returns (r, w')
      → live w' ≡ live w
  unfolding read_mapped
  read_mapped-live host offset none has_buffer n w w' r h = ground arith
  read_mapped-live host offset (some remote) has_buffer n w w' r h =
      elim (Bool-cases (remote =? pos 0)) [
        | inl zero_fd ↦ ground arith
        | inr real ↦ read_remote-live host remote offset has_buffer n w w' r (ground arith)
      ]

  -- A read that returns, whether it is sent or not, answered or refused, holds nothing afterwards
  -- that it did not hold before.
  pub read_rpc-live :
      (host fd offset : ℤ) (has_buffer : Bool) (n : ℕ) (w w' : W P) (r : Reading)
      → read_rpc P host fd has_buffer n offset w ≡ returns (r, w')
      → w'.client.live ≡ w.client.live
  unfolding read_rpc
  read_rpc-live host fd offset has_buffer n w w' r h =
      elim (Bool-cases (wait_fd_ready fd [] w.client.fds)) [
        | inl go ↦ mapped (w.client.fd_redir_map fd) (ground arith)
        | inr stop ↦ ground arith
      ]
    where
      mapped :
          (redir : Option ℤ)
          → read_mapped P host redir has_buffer n offset w ≡ returns (r, w')
          → live w' ≡ live w
      mapped redir k = read_mapped-live host offset redir has_buffer n w w' r k

  redir_at-live :
      (fd remote : ℤ) (w w' : W P) → redir_at P fd w ≡ returns (remote, w') → live w' ≡ live w
  unfolding redir_at
  redir_at-live fd remote w w' h = ground arith

  sought-live :
      (addr : Option P.Addr) (sent : Sent ℤ) (w w' : W P) (r : ℤ) (l : Live)
      → live w ≡ calling addr l
      → sought P addr sent w ≡ returns (r, w')
      → live w' ≡ l
  unfolding sought destroy_handle
  sought-live addr refused w w' r l e h = cc
  sought-live addr failed w w' r l e h = cc
  sought-live addr unanswered w w' r l e h =
      let (u, w₁, f, k) = >>=-eq-returns (free_addr P addr) _ w h in cc
  sought-live addr (answered out) w w' r l e h =
      let (u, w₁, f, k) = >>=-eq-returns (free_addr P addr) _ w h in
      let g = free_addr-live addr w w₁ u f in ground (arith, released-calling addr l)

  -- So does a seek.
  pub seek_rpc-live :
      (host fd offset whence : ℤ) (w w' : W P) (r : ℤ)
      → seek_rpc P host fd offset whence w ≡ returns (r, w')
      → w'.client.live ≡ w.client.live
  unfolding seek_rpc
  seek_rpc-live host fd offset whence w w' r h =
      let (addr, w₁, a, h₁) = >>=-eq-returns (lookup_addr P host) _ w h in
      let e₁ = lookup_addr-live host w w₁ addr a in
      let (u, w₂, c, h₂) = >>=-eq-returns (create_handle P addr) _ w₁ h₁ in
      let e₂ = create_handle-live addr w₁ w₂ u c in
      let (remote, w₃, m, h₃) = >>=-eq-returns (redir_at P fd) _ w₂ h₂ in
      let e₃ = redir_at-live fd remote w₂ w₃ m in
      sought-live addr _ _ w' r (live w) (ground arith) h₃

  close_mapped-live :
      (fd : ℤ) (addr : Option P.Addr) (redir : Option ℤ) (w w' : W P) (u : Unit {0})
      → close_mapped P fd addr redir w ≡ returns (u, w')
      → live w' ≡ live w
  unfolding close_mapped
  close_mapped-live fd addr none w w' u h = ground arith
  close_mapped-live fd addr (some remote) w w' u h = ground arith

  -- So does a close.
  pub close_rpc-live :
      (host fd : ℤ) (w w' : W P) (u : Unit {0})
      → close_rpc P host fd w ≡ returns (u, w')
      → w'.client.live ≡ w.client.live
  unfolding close_rpc destroy_handle
  close_rpc-live host fd w w' u h =
      let (addr, w₁, a, h₁) = >>=-eq-returns (lookup_addr P host) _ w h in
      let e₁ = lookup_addr-live host w w₁ addr a in
      let (v, w₂, c, h₂) = >>=-eq-returns (create_handle P addr) _ w₁ h₁ in
      let e₂ = create_handle-live addr w₁ w₂ v c in
      let (v', w₃, m, h₃) =
        >>=-eq-returns (close_mapped P fd addr (w₂.client.fd_redir_map fd)) _ w₂ h₂ in
      let e₃ = close_mapped-live fd addr (w₂.client.fd_redir_map fd) w₂ w₃ v' m in
      let g = free_addr-live addr _ w' u h₃ in ground (arith, calling-released addr (live w))

  open_cb-live :
      (fd status : ℤ) (w w' : W P) (u : Unit {0})
      → open_cb P fd status w ≡ returns (u, w')
      → live w' ≡ record (live w) { handles = (live w).handles - 1 }
  unfolding open_cb destroy_handle
  open_cb-live fd status w w' u h = ground arith

  -- An open that could not be sent keeps its handle.
  abbrev pub Opened : ℤ → Live → Live → Type 0
  Opened status l l' =
      (l' ≡ l) ⊎ ((status ≡ minus_one) × (l' ≡ record l { handles = l.handles + 1 }))

  opened-live :
      (fd : ℤ) (addr : Option P.Addr) (sent : Sent ℤ) (w w' : W P) (status : ℤ) (l : Live)
      → live w ≡ calling addr l
      → opened P fd addr sent w ≡ returns (status, w')
      → Opened status l (live w')
  unfolding opened
  opened-live fd addr refused w w' status l e h =
      let (u, w₁, f, k) = >>=-eq-returns (free_addr P addr) _ _ h in
      let g = free_addr-live addr _ w₁ u f in inr (cc, ground (arith, calling-kept addr l))
  opened-live fd addr failed w w' status l e h = cc
  opened-live fd addr unanswered w w' status l e h =
      let (u, w₁, f, k) = >>=-eq-returns (free_addr P addr) _ w h in cc
  opened-live fd addr (answered out) w w' status l e h =
      let (u, w₁, f, k) = >>=-eq-returns (free_addr P addr) _ w h in
      let g = free_addr-live addr w w₁ u f in
      let (u', w₂, f', k') = >>=-eq-returns (open_cb P fd out) _ w₁ k in
      let g' = open_cb-live fd out w₁ w₂ u' f' in inl (ground (arith, released-calling addr l))

  -- An open that returns holds nothing more either, except that one which could not be sent, and
  -- returns -1, has one handle more.
  pub open_rpc-live :
      (host fd : ℤ) (path : Text) (w w' : W P) (status : ℤ)
      → open_rpc P host path fd w ≡ returns (status, w')
      → Opened status w.client.live w'.client.live
  unfolding open_rpc
  open_rpc-live host fd path w w' status h =
      let (addr, w₁, a, h₁) = >>=-eq-returns (lookup_addr P host) _ _ h in
      let e₁ = lookup_addr-live host _ w₁ addr a in
      let (u, w₂, c, h₂) = >>=-eq-returns (create_handle P addr) _ w₁ h₁ in
      let e₂ = create_handle-live addr w₁ w₂ u c in
      opened-live fd addr _ _ w' status (live w) (ground arith) h₂

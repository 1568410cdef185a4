-- ===== src/Rpc/Calls.antt =====
-- Sequences of RPCs of src/mthvac_comm_client.cpp, and what they leave of Mercury's objects.
use mt_hvac.Base.{
  ℕ, ◌+◌, ◌≤◌, ◌≡◌, Bool, Option, none, some, List, [], ◌∷◌, arith, Text, ℤ, pos, minus_one,
  int_key, ◌>>=◌, ◌>>◌, >>=-eq-returns, returns, pure, ◌=?◌, if◌then◌else◌,
}
use mt_hvac.Platform.{Platform}
use mt_hvac.Rpc.State.{Live}
use mt_hvac.Rpc.{
  Action, lookup_addr, create_handle, destroy_handle, free_addr, held, open_rpc, read_rpc, seek_rpc,
  close_rpc,
}
use mt_hvac.Rpc.Effects.{W}
use mt_hvac.Rpc.Balance.{
  lookup_addr-live, create_handle-live, free_addr-live, calling-released, open_rpc-live,
  read_rpc-live, seek_rpc-live, close_rpc-live,
}
use mt_hvac.Rpc.Stats.{send_request, request_print_stats}

pub data RpcCall : Type 0 where
  opens : (host : ℤ) → Text → (fd : ℤ) → RpcCall
  reads : (host fd : ℤ) → (has_buffer : Bool) → ℕ → (offset : ℤ) → RpcCall
  seeks : (host fd offset whence : ℤ) → RpcCall
  closes : (host fd : ℤ) → RpcCall
  requests : Option Text → RpcCall

module _ (P : Platform) where
  -- The number that a call returns; that of a close, which returns none, is 0.
  unfoldable pub call_rpc : RpcCall → Action P ℤ
  call_rpc (opens host path fd) = open_rpc P host path fd
  call_rpc (reads host fd has_buffer n offset) = do
    r ← read_rpc P host fd has_buffer n offset
    pure r.result
  call_rpc (seeks host fd offset whence) = seek_rpc P host fd offset whence
  call_rpc (closes host fd) = do close_rpc P host fd; pure (pos 0)
  call_rpc (requests rank) = request_print_stats P rank

  abbrev pub failed_open : RpcCall → ℤ → ℕ
  failed_open (opens host path fd) status = if status =? minus_one then 1 else 0
  failed_open (reads host fd has_buffer n offset) r = 0
  failed_open (seeks host fd offset whence) r = 0
  failed_open (closes host fd) r = 0
  failed_open (requests rank) r = 0

  -- One call after the other, and how many of the opens returned -1.
  unfoldable pub call_all : List RpcCall → Action P ℕ
  call_all [] = pure 0
  call_all (c ∷ cs) = do r ← call_rpc c; rest ← call_all cs; pure (failed_open c r + rest)

  -- At most so many handles more, and all else as before.
  abbrev pub Leaks : ℕ → Live → Live → Type 0
  Leaks k l l' =
      (l'.addrs ≡ l.addrs)
      × (l'.bulks ≡ l.bulks)
      × (l.handles ≤ l'.handles)
      × (l'.handles ≤ l.handles + k)

  send_request-live :
      (addr : Option P.Addr) (w w' : W P) (r : ℤ) (l : Live)
      → w.client.live ≡ held P addr l
      → send_request P addr w ≡ returns (r, w')
      → w'.client.live ≡ l
  unfolding send_request destroy_handle held
  send_request-live none w w' r l e h = ground arith
  send_request-live (some a) w w' r l e h =
      let (u, w₁, c, h₁) = >>=-eq-returns (create_handle P (some a)) _ w h in
      let e₁ = create_handle-live P (some a) w w₁ u c in
      let (v, w₂, f, h₂) = >>=-eq-returns (free_addr P (some a)) _ _ h₁ in
      let e₂ = free_addr-live P (some a) _ w₂ v f in ground (arith, calling-released P (some a) l)

  request_print_stats-live :
      (rank : Option Text) (w w' : W P) (r : ℤ)
      → request_print_stats P rank w ≡ returns (r, w')
      → w'.client.live ≡ w.client.live
  unfolding request_print_stats
  request_print_stats-live none w w' r h = ground arith
  request_print_stats-live (some rank) w w' r h =
      let (addr, w₁, a, h₁) = >>=-eq-returns (lookup_addr P _) _ w h in
      send_request-live addr w₁ w' r w.client.live (lookup_addr-live P _ w w₁ addr a) h₁

  call_rpc-Leaks :
      (c : RpcCall) (w w' : W P) (r : ℤ)
      → call_rpc c w ≡ returns (r, w')
      → Leaks (failed_open c r) w.client.live w'.client.live
  unfolding call_rpc
  call_rpc-Leaks (opens host path fd) w w' r h =
      let o = open_rpc-live P host fd path w w' r h in ground arith
  call_rpc-Leaks (reads host fd has_buffer n offset) w w' r h =
      let (x, w₁, a, k) = >>=-eq-returns (read_rpc P host fd has_buffer n offset) _ w h in
      let e = read_rpc-live P host fd offset has_buffer n w w₁ x a in ground arith
  call_rpc-Leaks (seeks host fd offset whence) w w' r h =
      let e = seek_rpc-live P host fd offset whence w w' r h in ground arith
  call_rpc-Leaks (closes host fd) w w' r h =
      let (u, w₁, a, k) = >>=-eq-returns (close_rpc P host fd) _ w h in
      let e = close_rpc-live P host fd w w₁ u a in ground arith
  call_rpc-Leaks (requests rank) w w' r h =
      let e = request_print_stats-live rank w w' r h in ground arith

  -- RPCs in any number and order, all of which return, leave as many addresses and registered buffers
  -- as before, and of handles at least as many and at most one more for each open that returned -1.
  pub call_all-Leaks :
      (cs : List RpcCall) (w w' : W P) (k : ℕ)
      → call_all cs w ≡ returns (k, w')
      → Leaks k w.client.live w'.client.live
  unfolding call_all
  call_all-Leaks [] w w' k h = ground arith
  call_all-Leaks (c ∷ cs) w w' k h =
      let (r, w₁, a, h₁) = >>=-eq-returns (call_rpc c) _ w h in
      let (rest, w₂, b, h₂) = >>=-eq-returns (call_all cs) _ w₁ h₁ in
      let one = call_rpc-Leaks c w w₁ r a in
      let more = call_all-Leaks cs w₁ w₂ rest b in ground arith

-- ===== src/Wrappers/Fallback.antt =====
-- A program whose file is to be tracked and whose server does not open it: the wrappers of
-- src/wrappers.c fall back on the C library, over src/mthvac_client.cpp.
use mt_hvac.Base.{
  ℕ, ◌≡◌, refl, ◌∙◌, true, List, [], ◌∷◌, ◌++◌, ℤ, arith, minus_one, to_int32, to_int32-minus_one,
  int_key, ◌=?◌, >>=-returns, returns,
}
use mt_hvac.Platform.{Platform}
use mt_hvac.Rpc.State.{Client, IoStats, World}
use mt_hvac.Client.{remote_read}
use mt_hvac.Client.Opens.{remote_read-error}
use mt_hvac.Client.Declined.{IsFailed}
use mt_hvac.Wrappers.{wrap_read, map_stats, timed}
use mt_hvac.Wrappers.Elapsed.{elapsed}
use mt_hvac.Wrappers.Reads.{ReadCall, read_all}

module _ (P : Platform) where
  -- The reads with the C library's function.
  unfoldable pub read_locally : ℤ → List ReadCall → P.Sys → List ℕ × P.Sys
  read_locally fd [] s = ([], s)
  read_locally fd (c ∷ cs) s =
      let (r, s₁) = P.real_read fd c.count s in
      let (rest, s₂) = read_locally fd cs s₁ in (r.bytes ++ rest, s₂)

  fails : (to_int32 minus_one =? minus_one) ≡ true
  fails = ground (arith, to_int32-minus_one)

  abbrev count_read : ReadCall → IoStats → IoStats
  count_read call s = record s { read_stats = timed (elapsed call.start call.end) s.read_stats }

  wrap_read-IsFailed :
      (call : ReadCall) (fd : ℤ) (w : World P.Sys)
      → IsFailed fd w.client
      → let (r, s) = P.real_read fd call.count w.sys in
        wrap_read P call.start call.end fd true call.count w
        ≡ returns (
          record r { result = to_int32 r.result },
          record { client = map_stats (count_read call) w.client; sys = s },
        )
  unfolding wrap_read
  wrap_read-IsFailed call fd w v =
      >>=-returns (remote_read P fd true call.count) _ w
        (remote_read-error P fd v.path true call.count w v.tracked v.counted v.is_error)
      ∙ rw fails refl

  pub IsFailed-stats :
      (fd : ℤ) (c : Client) (g : IoStats → IoStats) → IsFailed fd c → IsFailed fd (map_stats g c)
  IsFailed-stats fd c g v = record {
    path = v.path;
    tracked = v.tracked;
    counted = v.counted;
    is_error = v.is_error;
  }

  pub read_all-IsFailed :
      (fd : ℤ) (cs : List ReadCall) (w : World P.Sys)
      → IsFailed fd w.client
      → (w' : World P.Sys) × (read_all P fd cs w ≡ returns ((read_locally fd cs w.sys).0, w'))
        × (w'.sys ≡ (read_locally fd cs w.sys).1)
  unfolding read_locally
  read_all-IsFailed fd [] w v = (w, refl, refl)
  read_all-IsFailed fd (c ∷ cs) w v =
      let s = (P.real_read fd c.count w.sys).1 in
      let w₁ : World P.Sys = record { client = map_stats (count_read c) w.client; sys = s } in
      let (w₂, e, same) =
        read_all-IsFailed fd cs w₁ (IsFailed-stats fd w.client (count_read c) v) in
      (
        w₂,
        >>=-returns (wrap_read P c.start c.end fd true c.count) _ w (wrap_read-IsFailed c fd w v)
            ∙ >>=-returns (read_all P fd cs) _ w₁ e,
        same,
      )

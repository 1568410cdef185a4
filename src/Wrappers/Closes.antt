-- ===== src/Wrappers/Closes.antt =====
-- The close of a served descriptor through the wrapper of src/wrappers.c.
use mt_hvac.Base.{
  none, erase_self, ◌≡◌, refl, ◌∙◌, ap, inl, inr, Bool-cases, false, Option, some, ℤ, pos, int_key,
  >>=-returns, returns, branch, ◌=?◌, ◌>>=◌, ◌>>◌, pure, Text,
}
use mt_hvac.Posix.{OpenFile}
use mt_hvac.Platform.{Platform}
use mt_hvac.Fd.Deadline.{Timespec}
use mt_hvac.Rpc.State.{redirect_off, World, IoStats, settings, outside}
use mt_hvac.Rpc.{Action}
use mt_hvac.Client.{remove_fd}
use mt_hvac.Client.Reads.{IsHonest, IsServed}
use mt_hvac.Client.Frames.{IsFramed}
use mt_hvac.Client.Releases.{released-IsFramed, remove_fd-sent, released_client, live_after}
use mt_hvac.Wrappers.{wrap_close, drop_tracked, count_close, map_stats, timed}
use mt_hvac.Wrappers.Elapsed.{elapsed}

module _ (P : Platform) (remote : P.Addr → ℤ → P.Sys → Option OpenFile) (H : IsHonest P remote)
    (start end : Timespec) where
  -- Whatever the C library's close says, only the counters change.
  finish_close :
      (ret : ℤ) (w : World P.Sys)
      → (g : IoStats → IoStats) × (branch (ret =? pos 0) (count_close P start end ret) (pure ret) w
          ≡ returns (ret, record w { client = map_stats g w.client }))
  unfolding count_close
  finish_close ret w = elim (Bool-cases (ret =? pos 0)) [
    | inl closed ↦
        (λ s. record s { close_stats = timed (elapsed start end) s.close_stats }, rw closed refl)
    | inr failed ↦ (λ s. s, rw failed refl)
  ]

  -- The close of a served descriptor returns what the C library's close gives. The settings and the
  -- other descriptors stay, and what is outside the client has seen the request to the server and
  -- then that close.
  pub wrap_close-sent :
      (fd : ℤ) (f : OpenFile) (w : World P.Sys) (v : IsServed P remote fd f w)
      → redirect_off w.client ≡ false
      → let sent = (P.send_close (some v.addr) v.remote_fd w.sys).1 in
        (w' : World P.Sys) × (wrap_close P start end fd w ≡ returns ((P.real_close fd sent).0, w'))
        × (settings w'.client ≡ settings w.client)
        × (w'.sys ≡ (P.real_close fd sent).1)
        × IsFramed fd w.client w'.client
        × (w'.client.fd_map fd ≡ none)
  unfolding wrap_close drop_tracked
  wrap_close-sent fd f w v on =
      let sent = (P.send_close (some v.addr) v.remote_fd w.sys).1 in
      let live = live_after P remote H fd f w v in
      let released : World P.Sys = record {
        client = released_client fd live w.client;
        sys = (P.real_close fd sent).1;
      } in
      let (g, e) = finish_close (P.real_close fd sent).0 released in
      let closing : Option Text → Action P ℤ = λ path.
        drop_tracked P start end path fd
        >> (outside (P.real_close fd) >>= λ ret.
            branch (ret =? pos 0) (count_close P start end ret) (pure ret)) in
      (
        record released { client = map_stats g released.client },
        ap (λ b. branch b (outside (P.real_close fd)) (λ u. closing (u.client.fd_map fd) u) w) on
            ∙ ap (λ path. closing path w) v.tracked
            ∙ >>=-returns (remove_fd P fd) _ w (remove_fd-sent P remote H fd f w v)
            ∙ e,
        refl,
        refl,
        released-IsFramed fd live w.client,
        erase_self w.client.fd_map fd,
      )

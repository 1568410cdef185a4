-- ===== src/Wrappers/Transparent.antt =====
-- A program that opens no file that is tracked: what the wrappers of src/wrappers.c do to it.
use mt_hvac.Base.{
  ℕ, ◌≡◌, refl, ap, ◌∙◌, Bool, true, false, ◌||◌, ◌⊎◌, inl, inr, Bool-cases, none, Text, ℤ, pos,
  arith, minus_one, to_int32, to_int32-minus_one, int_key, ◌=?◌, ◌>>=◌, >>=-returns, returns,
}
use mt_hvac.Platform.{Platform}
use mt_hvac.Fd.Deadline.{Timespec}
use mt_hvac.Rpc.State.{IoStats, World, redirect_off}
use mt_hvac.Rpc.{Action, not_read}
use mt_hvac.Client.{track, track_file, to_track, remote_read, read_tracked}
use mt_hvac.Wrappers.{
  wrap_open, wrap_close, wrap_read, wrap_pread, pread_with, drop_tracked, count_close, map_stats,
  timed, count_open,
}
use mt_hvac.Wrappers.Elapsed.{elapsed}
use mt_hvac.Client.Tracking.{is_excluded, track_file-excluded, track_file-included, track-none}
use mt_hvac.Wrappers.Programs.{
  Program, finished, opens, reads, preads, closes, other, intercepted, direct, IsPassed, IsPlain,
}

module _ (P : Platform) where
  -- A call has given this result and left that outside, and has changed the counters only.
  abbrev pub IsCounted : {A : Type 0} → Action P A → World P.Sys → A × P.Sys → Type 0
  IsCounted m w (r, s) =
      (g : IoStats → IoStats) × (m w
        ≡ returns (r, record { client = map_stats g w.client; sys = s }))

  track_file-IsPassed :
      (path : Text) (flags : ℕ) (fd : ℤ) (w : World P.Sys)
      → (is_excluded P path flags ≡ true) ⊎ (to_track P path w.client.data_dir w.sys ≡ none)
      → track_file P path flags fd w ≡ returns (false, w)
  track_file-IsPassed path flags fd w (inl h) = track_file-excluded P path flags fd w h
  track_file-IsPassed path flags fd w (inr h) = elim (Bool-cases (is_excluded P path flags)) [
    | inl out ↦ track_file-excluded P path flags fd w out
    | inr within ↦
        track_file-included P path flags fd w within
        ∙ ap (λ o. track P fd o w) h
        ∙ track-none P fd w
  ]

  remote_read-untracked :
      (fd : ℤ) (has_buffer : Bool) (n : ℕ) (w : World P.Sys)
      → w.client.fd_map fd ≡ none
      → remote_read P fd has_buffer n w ≡ returns (not_read, w)
  unfolding remote_read read_tracked
  remote_read-untracked fd has_buffer n w e = rw e refl

  not_read-fails : (to_int32 minus_one =? minus_one) ≡ true
  not_read-fails = ground (arith, to_int32-minus_one)

  module _ (start end : Timespec) where
    pub wrap_open-IsCounted :
        (path : Text) (flags mode : ℕ) (w : World P.Sys)
        → let (fd, s) = P.real_open path flags mode w.sys in
          IsPassed P path flags fd w.client.data_dir s
          → IsCounted (wrap_open P start end path flags mode) w (fd, s)
    unfolding wrap_open
    wrap_open-IsCounted path flags mode w (inl failed) = (λ c. c, ground arith)
    wrap_open-IsCounted path flags mode w (inr h) =
        let (fd, s) = P.real_open path flags mode w.sys in
        elim (Bool-cases (redirect_off w.client || (fd =? minus_one))) [
          | inl off ↦ (λ c. c, ground (arith, off))
          | inr on ↦ (
            count_open false path (elapsed start end),
            rw on (
                >>=-returns (track_file P path flags fd) _ (record w { sys = s })
                  (track_file-IsPassed path flags fd (record w { sys = s }) h)),
          )
        ]

    pub wrap_read-IsCounted :
        (fd : ℤ) (has_buffer : Bool) (n : ℕ) (w : World P.Sys)
        → w.client.fd_map fd ≡ none
        → to_int32 (P.real_read fd n w.sys).0.result ≡ (P.real_read fd n w.sys).0.result
        → IsCounted (wrap_read P start end fd has_buffer n) w (P.real_read fd n w.sys)
    unfolding wrap_read
    wrap_read-IsCounted fd has_buffer n w e h = (
      λ c. record c { read_stats = timed (elapsed start end) c.read_stats },
      >>=-returns (remote_read P fd has_buffer n) _ w (remote_read-untracked fd has_buffer n w e)
          ∙ rw not_read-fails (rw h refl),
    )

    pub wrap_pread-IsCounted :
        (fd : ℤ) (has_buffer : Bool) (n : ℕ) (offset : ℤ) (w : World P.Sys)
        → w.client.fd_map fd ≡ none
        → IsCounted
            (wrap_pread P start end fd has_buffer n offset)
            w
            (P.real_pread fd n offset w.sys)
    unfolding wrap_pread pread_with
    wrap_pread-IsCounted fd has_buffer n offset w e = (λ c. c, ground arith)

    pub wrap_close-IsCounted :
        (fd : ℤ) (w : World P.Sys)
        → w.client.fd_map fd ≡ none
        → IsCounted (wrap_close P start end fd) w (P.real_close fd w.sys)
    unfolding wrap_close drop_tracked count_close
    wrap_close-IsCounted fd w e = elim (Bool-cases (redirect_off w.client)) [
      | inl off ↦ (λ c. c, ground (arith, off))
      | inr on ↦ elim (Bool-cases ((P.real_close fd w.sys).0 =? pos 0)) [
        | inl closed ↦
            (λ c. record c { close_stats = timed (elapsed start end) c.close_stats }, ground arith)
        | inr failed ↦ (λ c. c, ground arith)
      ]
    ]

  -- The calls before and those after change the counters only.
  bind-IsCounted :
      {A : Type 0} {B : Type 0} (m : Action P A) (k : A → Action P B) (w : World P.Sys) (r : A)
      (s : P.Sys) (out : B × P.Sys)
      → IsCounted m w (r, s)
      → ((g : IoStats → IoStats)
          → IsCounted (k r) (record { client = map_stats g w.client; sys = s }) out)
      → IsCounted (m >>= k) w out
  bind-IsCounted m k w r s out (g, e) rest =
      let (g', e') = rest g in (λ c. g' (g c), >>=-returns m k w e ∙ e')

  -- A program comes to the same result through the wrappers as without the library and leaves the
  -- same outside, and the client has changed in its counters only, if no descriptor is tracked at
  -- the start, in the run without the library no file that is opened is one to be tracked, and
  -- every result of a read is one that an `int` holds.
  pub intercepted-direct :
      (p : Program P.Sys) (w : World P.Sys)
      → ((fd : ℤ) → w.client.fd_map fd ≡ none)
      → IsPlain P p w.client.data_dir w.sys
      → (g : IoStats → IoStats) × (intercepted P p w
          ≡ returns (
            (direct P p w.sys).0,
            record { client = map_stats g w.client; sys = (direct P p w.sys).1 },
          ))
  unfolding intercepted direct IsPlain
  intercepted-direct (finished bytes) w e plain = (λ c. c, refl)
  intercepted-direct (opens start end path flags mode rest) w e (passed, plain) =
      bind-IsCounted (wrap_open P start end path flags mode) (λ fd. intercepted P (rest fd)) w _ _ _
        (wrap_open-IsCounted start end path flags mode w passed)
        (λ g.
          intercepted-direct (rest _) (record { client = map_stats g w.client; sys = _ }) e plain)
  intercepted-direct (reads start end fd has_buffer n rest) w e (small, plain) =
      bind-IsCounted (wrap_read P start end fd has_buffer n) (λ r. intercepted P (rest r)) w _ _ _
        (wrap_read-IsCounted start end fd has_buffer n w (e fd) small)
        (λ g.
          intercepted-direct (rest _) (record { client = map_stats g w.client; sys = _ }) e plain)
  intercepted-direct (preads start end fd has_buffer n offset rest) w e plain =
      bind-IsCounted (wrap_pread P start end fd has_buffer n offset) (λ r. intercepted P (rest r)) w
        _ _ _ (wrap_pread-IsCounted start end fd has_buffer n offset w (e fd))
        (λ g.
          intercepted-direct (rest _) (record { client = map_stats g w.client; sys = _ }) e plain)
  intercepted-direct (closes start end fd rest) w e plain =
      bind-IsCounted (wrap_close P start end fd) (λ ret. intercepted P (rest ret)) w _ _ _
        (wrap_close-IsCounted start end fd w (e fd))
        (λ g.
          intercepted-direct (rest _) (record { client = map_stats g w.client; sys = _ }) e plain)
  intercepted-direct (other f rest) w e plain =
      intercepted-direct rest (record w { sys = f w.sys }) e plain

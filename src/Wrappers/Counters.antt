-- ===== src/Wrappers/Counters.antt =====
-- The counters of src/wrappers.c against the calls that are made.
use mt_hvac.Base.{
  ℕ, ◌+◌, ◌%◌, ◌^◌, ◌≡◌, ap, ◌∙◌, Bool, true, false, ◌||◌, not, Option, none, some, List, [], ◌∷◌,
  arith, Bool-cases, inl, inr, Text, ℤ, pos, int_key, minus_one, ◌>>=◌, ◌>>◌, >>=-eq-returns,
  returns, pure, branch, ◌=?◌, if◌then◌else◌, to_int32,
}
use mt_hvac.Platform.{Platform}
use mt_hvac.Posix.{Reading}
use mt_hvac.Fd.Deadline.{Timespec}
use mt_hvac.Rpc.State.{redirect_off, Seconds, Stats, IoStats, gets, modify, outside}
use mt_hvac.Rpc.{Action}
use mt_hvac.Rpc.Effects.{W}
use mt_hvac.Client.{track_file, remote_read, remote_pread}
use mt_hvac.Client.Counters.{
  track_file-stats, remote_read-stats, remote_pread-stats, remove_fd-stats,
}
use mt_hvac.Wrappers.{
  timed, map_stats, count_open, wrap_open, wrap_close, wrap_read, wrap_pread, drop_tracked,
  count_close, pread_with,
}
use mt_hvac.Wrappers.Elapsed.{elapsed, value}

pub data IoCall : Type 0 where
  opens : Text → (flags mode : ℕ) → IoCall
  closes : ℤ → IoCall
  reads : ℤ → (has_buffer : Bool) → ℕ → IoCall
  preads : ℤ → (has_buffer : Bool) → ℕ → ℤ → IoCall

pub record TimedCall : Type 0 where
  pub call : IoCall
  pub start : Timespec
  pub end : Timespec

-- The opens that have been counted, modulo 2 ^ 64, and their time in nanoseconds, not rounded.
pub record Opened : Type 0 where
  pub count : ℕ
  pub ns : ℕ

abbrev pub one_more : Seconds → Opened → Opened
one_more delta o = record { count = (o.count + 1) % 2 ^ 64; ns = o.ns + value delta }

-- What has been counted of each kind of calls.
pub record Tally : Type 0 where
  pub opened : Opened
  pub closed : Stats
  pub read : Stats
  pub pread : Stats

-- The three counters of opens are taken together: what they are modulo 2 ^ 64, and the exact value
-- of their times.
abbrev pub tally_of : IoStats → Tally
tally_of s = record {
  opened = record {
    count = (s.open_stats.count + s.open_data_stats.count + s.open_system_stats.count) % 2 ^ 64;
    ns =
        value s.open_stats.total_time
        + value s.open_data_stats.total_time
        + value s.open_system_stats.total_time;
  };
  closed = s.close_stats;
  read = s.read_stats;
  pread = s.pread_stats;
}

module _ (P : Platform) where
  -- A call, and what it adds to a tally: an open if calls are redirected and it gives a
  -- descriptor, a close if they are and it succeeds, a read in any case, and a pread if its
  -- descriptor is tracked.
  unfoldable pub observe : IoCall → (start end : Timespec) → Tally → Action P Tally
  observe (opens path flags mode) start end t = do
    off ← gets (λ w. redirect_off w.client)
    fd ← wrap_open P start end path flags mode
    pure (
        if off || (fd =? minus_one)
        then t
        else record t { opened = one_more (elapsed start end) t.opened })
  observe (closes fd) start end t = do
    off ← gets (λ w. redirect_off w.client)
    ret ← wrap_close P start end fd
    pure (
        if off || not (ret =? pos 0)
        then t
        else record t { closed = timed (elapsed start end) t.closed })
  observe (reads fd has_buffer n) start end t = do
    _ ← wrap_read P start end fd has_buffer n
    pure (record t { read = timed (elapsed start end) t.read })
  observe (preads fd has_buffer n offset) start end t = do
    path ← gets (λ w. w.client.fd_map fd)
    _ ← wrap_pread P start end fd has_buffer n offset
    pure (elim path [ none ↦ t | some p ↦ record t { pread = timed (elapsed start end) t.pread } ])

  -- One call after the other.
  unfoldable pub observe_all : List TimedCall → Tally → Action P Tally
  observe_all [] t = pure t
  observe_all (c ∷ cs) t = do t' ← observe c.call c.start c.end t; observe_all cs t'

  abbrev tally : W P → Tally
  tally w = tally_of w.client.stats

  count_open-tally :
      (tracked : Bool) (path : Text) (delta : Seconds) (s : IoStats)
      → tally_of (count_open tracked path delta s)
        ≡ record (tally_of s) { opened = one_more delta (tally_of s).opened }
  unfolding count_open
  count_open-tally true path delta s = ground arith
  count_open-tally false path delta s = ground arith

  -- The part of an open that is tracked and counted.
  granted-tally :
      (start end : Timespec) (path : Text) (flags : ℕ) (found : ℤ) (w w' : W P) (fd : ℤ)
      → (track_file P path flags found >>= λ tracked.
            modify (map_stats (count_open tracked path (elapsed start end))) >> pure found)
          w
        ≡ returns (fd, w')
      → (fd ≡ found)
        × (tally w' ≡ record (tally w) { opened = one_more (elapsed start end) (tally w).opened })
  granted-tally start end path flags found w w' fd h =
      let (tracked, w₁, a, h₁) = >>=-eq-returns (track_file P path flags found) _ w h in
      let e = track_file-stats P path flags found w w₁ tracked a in
      let c = count_open-tally tracked path (elapsed start end) w₁.client.stats in
      (
        ground arith,
        ap tally_of (stats_of tracked w₁ h₁)
            ∙ c
            ∙ ap
                (λ s. record (tally_of s) {
                  opened = one_more (elapsed start end) (tally_of s).opened;
                })
                e,
      )
    where
      stats_of :
          (tracked : Bool) (w₁ : W P)
          → (modify (map_stats (count_open tracked path (elapsed start end))) >> pure found) w₁
            ≡ returns (fd, w')
          → w'.client.stats ≡ count_open tracked path (elapsed start end) w₁.client.stats
      stats_of tracked w₁ k = ground arith

  wrap_open-tally :
      (start end : Timespec) (path : Text) (flags mode : ℕ) (w w' : W P) (fd : ℤ)
      → wrap_open P start end path flags mode w ≡ returns (fd, w')
      → tally w' ≡ (
          if redirect_off w.client || (fd =? minus_one)
          then tally w
          else record (tally w) { opened = one_more (elapsed start end) (tally w).opened })
  unfolding wrap_open
  wrap_open-tally start end path flags mode w w' fd h =
      let found = (P.real_open path flags mode w.sys).0 in
      let w₀ : W P = record w { sys = (P.real_open path flags mode w.sys).1 } in
      elim (Bool-cases (redirect_off w.client || (found =? minus_one))) [
        | inl out ↦ ground arith
        | inr within ↦
            let (same, e) = granted-tally start end path flags found w₀ w' fd (ground arith) in
            ground arith
      ]

  wrap_read-tally :
      (start end : Timespec) (fd : ℤ) (has_buffer : Bool) (n : ℕ) (w w' : W P) (r : Reading)
      → wrap_read P start end fd has_buffer n w ≡ returns (r, w')
      → tally w' ≡ record (tally w) { read = timed (elapsed start end) (tally w).read }
  unfolding wrap_read
  wrap_read-tally start end fd has_buffer n w w' r h =
      let (remote, w₁, a, h₁) = >>=-eq-returns (remote_read P fd has_buffer n) _ w h in
      let e = remote_read-stats P fd has_buffer n w w₁ remote a in
      elim (Bool-cases (to_int32 remote.result =? minus_one)) [
        | inl local ↦ ground arith
        | inr served ↦ ground arith
      ]

  drop_tracked-stats :
      (start end : Timespec) (path : Option Text) (fd : ℤ) (w w' : W P) (u : Unit {0})
      → drop_tracked P start end path fd w ≡ returns (u, w')
      → w'.client.stats ≡ w.client.stats
  unfolding drop_tracked
  drop_tracked-stats start end none fd w w' u h = ground arith
  drop_tracked-stats start end (some path) fd w w' u h = remove_fd-stats P fd w w' u h

  -- The part of a close that is not passed on at once.
  closing-tally :
      (start end : Timespec) (path : Option Text) (fd : ℤ) (w w' : W P) (r : ℤ)
      → (drop_tracked P start end path fd
            >> (outside (P.real_close fd) >>= λ ret.
                branch (ret =? pos 0) (count_close P start end ret) (pure ret)))
          w
        ≡ returns (r, w')
      → tally w' ≡ (
          if not (r =? pos 0)
          then tally w
          else record (tally w) { closed = timed (elapsed start end) (tally w).closed })
  unfolding count_close
  closing-tally start end path fd w w' r h =
      let (u, w₁, d, h₁) = >>=-eq-returns (drop_tracked P start end path fd) _ w h in
      let e = drop_tracked-stats start end path fd w w₁ u d in
      elim (Bool-cases ((P.real_close fd w₁.sys).0 =? pos 0)) [
        | inl ok ↦ ground arith
        | inr bad ↦ ground arith
      ]

  wrap_close-tally :
      (start end : Timespec) (fd : ℤ) (w w' : W P) (r : ℤ)
      → wrap_close P start end fd w ≡ returns (r, w')
      → tally w' ≡ (
          if redirect_off w.client || not (r =? pos 0)
          then tally w
          else record (tally w) { closed = timed (elapsed start end) (tally w).closed })
  unfolding wrap_close
  wrap_close-tally start end fd w w' r h = elim (Bool-cases (redirect_off w.client)) [
    | inl off ↦ ground arith
    | inr on ↦
        let e = closing-tally start end (w.client.fd_map fd) fd w w' r (ground arith) in
        ground arith
  ]

  pread_with-tally :
      (start end : Timespec) (path : Option Text) (fd : ℤ) (has_buffer : Bool) (n : ℕ) (offset : ℤ)
      (w w' : W P) (r : Reading)
      → pread_with P start end path fd has_buffer n offset w ≡ returns (r, w')
      → tally w' ≡ elim path [
        | none ↦ tally w
        | some p ↦ record (tally w) { pread = timed (elapsed start end) (tally w).pread }
      ]
  unfolding pread_with
  pread_with-tally start end none fd has_buffer n offset w w' r h = ground arith
  pread_with-tally start end (some path) fd has_buffer n offset w w' r h =
      let (remote, w₁, a, h₁) = >>=-eq-returns (remote_pread P fd has_buffer n offset) _ w h in
      let e = remote_pread-stats P fd has_buffer n offset w w₁ remote a in
      elim (Bool-cases (remote.result =? minus_one)) [
        | inl local ↦ ground arith
        | inr served ↦ ground arith
      ]

  observe-tally :
      (c : IoCall) (start end : Timespec) (w w' : W P) (t : Tally)
      → observe c start end (tally w) w ≡ returns (t, w')
      → tally w' ≡ t
  unfolding observe wrap_pread
  observe-tally (opens path flags mode) start end w w' t h =
      let (fd, w₁, a, h₁) = >>=-eq-returns (wrap_open P start end path flags mode) _ w h in
      let e = wrap_open-tally start end path flags mode w w₁ fd a in ground arith
  observe-tally (closes fd) start end w w' t h =
      let (r, w₁, a, h₁) = >>=-eq-returns (wrap_close P start end fd) _ w h in
      let e = wrap_close-tally start end fd w w₁ r a in ground arith
  observe-tally (reads fd has_buffer n) start end w w' t h =
      let (r, w₁, a, h₁) = >>=-eq-returns (wrap_read P start end fd has_buffer n) _ w h in
      let e = wrap_read-tally start end fd has_buffer n w w₁ r a in ground arith
  observe-tally (preads fd has_buffer n offset) start end w w' t h =
      let (r, w₁, a, h₁) = >>=-eq-returns (wrap_pread P start end fd has_buffer n offset) _ w h in
      let e = pread_with-tally start end (w.client.fd_map fd) fd has_buffer n offset w w₁ r a in
      ground arith

  -- After any intercepted calls that return, from counters in any state: the counters of the
  -- reads, of the preads and of the closes are what one addition for each call that counts makes
  -- of them, in their order: 1 modulo 2 ^ 64 to the count, and the call's time to the sum of
  -- doubles, whose rounding is left open. The three counts of opens together have grown by the
  -- opens that count, modulo 2 ^ 64, and the exact value of their times by those opens' times. An
  -- open counts if calls are redirected and it gives a descriptor, a close if they are and it
  -- succeeds, a read in any case, and a pread if its descriptor is tracked.
  pub observe_all-tally :
      (cs : List TimedCall) (w w' : W P) (t : Tally)
      → observe_all cs (tally_of w.client.stats) w ≡ returns (t, w')
      → tally_of w'.client.stats ≡ t
  unfolding observe_all
  observe_all-tally [] w w' t h = ground arith
  observe_all-tally (c ∷ cs) w w' t h =
      let (t₁, w₁, a, h₁) = >>=-eq-returns (observe c.call c.start c.end (tally w)) _ w h in
      let e = observe-tally c.call c.start c.end w w₁ t₁ a in
      observe_all-tally cs w₁ w' t (ap (λ q. observe_all cs q w₁) e ∙ h₁)

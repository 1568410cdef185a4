-- ===== src/Wrappers/Faithful.antt =====
-- One call of a process through the wrappers of src/wrappers.c gives what it would on local files.
use mt_hvac.Base.{
  ℕ, ◌<◌, ◌^◌, ◌≡◌, ◌≢◌, refl, sym, ap, subst, ◌∙◌, Option, none, some, List, Text, ℤ, pos,
  minus_one, >>=-returns, returns,
}
use mt_hvac.Posix.{OpenFile, Reading, reading, slice}
use mt_hvac.Platform.{Platform}
use mt_hvac.Fd.Deadline.{Timespec}
use mt_hvac.Rpc.State.{Client, IoStats, Settings}
use mt_hvac.Client.Reads.{IsHonest, IsPlaced, IsPlaced-move, advance, request}
use mt_hvac.Client.Frames.{IsFramed, IsPlaced-remote}
use mt_hvac.Wrappers.{wrap_open, wrap_close, map_stats}
use mt_hvac.Wrappers.Opens.{opened_fd, after_open, IsConfigured, wrap_open-placed}
use mt_hvac.Wrappers.Reads.{wrap_read-sent, wrap_pread-sent, count_read, count_pread}
use mt_hvac.Wrappers.Closes.{wrap_close-sent}
use mt_hvac.Wrappers.Turns.{Processes, set_client, world_of}
use mt_hvac.Wrappers.Tables.{put, put_same}
use mt_hvac.Wrappers.Sessions.{
  Call, opens, reads, preads, closes, number, Table, perform, settle, act, IsAllowed, may_open,
  may_read, may_pread, may_close, may_open_locally, may_read_locally, may_pread_locally,
  may_close_locally, Gives, after,
}
use mt_hvac.Wrappers.Local.{opens-IsLocal, reads-IsLocal, preads-IsLocal, closes-IsLocal}
use mt_hvac.Wrappers.Serving.{IsCalm, AwayFrom, IsServing, IsMatched}
use mt_hvac.Wrappers.Matches.{IsMatched-put}

-- The counters are nobody's descriptor.
map_stats-IsFramed : (fd : ℤ) (g : IoStats → IoStats) (c : Client) → IsFramed fd c (map_stats g c)
map_stats-IsFramed fd g c v = (v, λ other ne. (refl, refl, refl))

module _ (P : Platform) (remote : P.Addr → ℤ → P.Sys → Option OpenFile) (Sound : P.Sys → Type 0)
    (files : Text → P.Addr → Option (List ℕ)) (Change : P.Sys → P.Sys → Type 0) (σs : ℕ → Settings)
    (Old : P.Addr → ℤ → Type 0) where
  -- Every open file of the table is served to its process.
  abbrev pub Matches : Table → Processes P.Sys → Type 0
  Matches t s =
      (addrs : ℕ → ℤ → P.Addr) × (remote_fds : ℕ → ℤ → ℤ) × IsMatched P remote Sound σs Old t addrs
        remote_fds s

  -- A call returns, gives what it would on local files, and goes on so.
  abbrev pub IsFaithful :
      (s : Processes P.Sys) (t : Table) (i : ℕ) (c : Call) → IsAllowed P files σs s t i c → Type 0
  IsFaithful s t i c allowed =
      (r : Reading) × (s' : Processes P.Sys) × (act P i c s ≡ returns (r, s'))
      × Gives P files σs s t i c allowed r
      × Matches (after P files σs s t i c allowed) s'

  module _ (H : IsHonest P remote) (V : IsServing P remote Sound files Change) (t : Table)
      (addrs : ℕ → ℤ → P.Addr) (remote_fds : ℕ → ℤ → ℤ) (s : Processes P.Sys)
      (M : IsMatched P remote Sound σs Old t addrs remote_fds s) (i : ℕ)
      (start end : Timespec) where
    act-opens :
        (path full : Text) (flags mode : ℕ) (a : P.Addr) (c : List ℕ)
        (m : IsConfigured P path flags mode full a (σs i)) (there : files full a ≡ some c)
        (new : t i (opened_fd P path flags mode (world_of P s i)) ≡ none)
        → IsFaithful s t i
            (opens start end path flags mode)
            (may_open start end path full flags mode a c m there new)
    unfolding act perform
    act-opens path full flags mode a c m there new =
        let f : OpenFile = record { content = c; offset = 0 } in
        let w = world_of P s i in
        let fd = opened_fd P path flags mode w in
        let (stays, keeps) = V.local_opens path flags mode s.sys in
        let (status, sent, positive, fresh, opened, (stays', keeps')) =
          V.answers_open a full c (after_open P path flags mode w).sys (stays M.sound) there in
        let (w', e, placed, same, sys, framed) =
          wrap_open-placed P remote H start end path full flags mode a (σs i) m status f w
            (M.same i) sent positive opened in
        (
          number fd,
          record { clients = set_client s.clients i w'.client; sys = w'.sys },
          ap (settle P i s) (>>=-returns (wrap_open P start end path flags mode) _ w e),
          refl,
          (
            put addrs i fd a,
            put remote_fds i fd status,
            IsMatched-put P remote Sound σs Old V.same_addr V.fixed t addrs remote_fds s M i fd
                (some f) a status w'.client w'.sys (λ g h. m.redirects) same framed
                (
                  λ h. subst Sound (sym sys) (stays' (stays h)),
                  λ b d away. ap (remote b d) sys ∙ keeps' b d away ∙ keeps b d tt,
                )
                (λ j d g h ne e₁ e₂.
                  let old =
                    keeps (addrs j d) (remote_fds j d) tt
                    ∙ IsPlaced-remote P remote d g (addrs j d) (remote_fds j d) (world_of P s j)
                        (M.placed j d g h) in
                  cc)
                (λ g h. subst (λ x. IsPlaced P remote fd x a status w') (cc) placed)
                (λ h. absurd (cc)) (λ h. absurd (cc)) (λ g h. absurd (cc)),
          ),
        )

    module _ (fd : ℤ) (f : OpenFile) (open_file : t i fd ≡ some f) where
      abbrev mine : IsPlaced P remote fd f (addrs i fd) (remote_fds i fd) (world_of P s i)
      mine = M.placed i fd f open_file

      -- No other descriptor stands for the same one of the same server.
      clear :
          (j : ℕ) (d : ℤ) (g : OpenFile)
          → t j d ≡ some g
          → (i ≡ j → fd ≢ d)
          → mine.0.addr ≡ addrs j d
          → mine.0.remote_fd ≢ remote_fds j d
      clear j d g h ne e e' = M.apart i j fd d f g open_file h ne (sym mine.1 ∙ e) (sym mine.2 ∙ e')

      abbrev moved_to : (IoStats → IoStats) → P.Sys → Processes P.Sys
      moved_to g sys = record {
        clients = set_client s.clients i (map_stats g (s.clients i));
        sys = sys;
      }

      -- After a call that changes no more than the counters and a file behind the descriptor.
      moved-Matches :
          (f' : OpenFile) (g : IoStats → IoStats) (sys : P.Sys)
          → IsCalm P remote Sound (AwayFrom P remote Sound mine.0.addr mine.0.remote_fd) s.sys sys
          → remote mine.0.addr mine.0.remote_fd sys ≡ some f'
          → Matches (put t i fd (some f')) (moved_to g sys)
      moved-Matches f' g sys calm served = (
        put addrs i fd mine.0.addr,
        put remote_fds i fd mine.0.remote_fd,
        IsMatched-put P remote Sound σs Old V.same_addr V.fixed t addrs remote_fds s M i fd
            (some f') mine.0.addr mine.0.remote_fd (map_stats g (s.clients i)) sys
            (λ x h. M.on i fd f open_file) refl (map_stats-IsFramed fd g (s.clients i)) calm clear
            (λ x h.
              subst
                (λ y.
                  IsPlaced P remote fd y mine.0.addr mine.0.remote_fd
                    (record { client = map_stats g (s.clients i); sys = sys }))
                (cc)
                (IsPlaced-move P remote fd f f' (world_of P s i) g sys mine.0
                  (V.fixed mine.0.name sys s.sys) served))
            (λ h. absurd (cc)) (λ h. absurd (cc)) (λ y h. (sym mine.1, sym mine.2)),
      )

      act-reads :
          (n : ℕ) (small : n < 2 ^ 31)
          → IsFaithful s t i (reads start end fd n) (may_read start end fd n f open_file small)
      unfolding act perform
      act-reads n small =
          let (e, served) =
            wrap_read-sent P remote H start end fd n f (world_of P s i) mine.0 small in
          let count = count_read P remote H start end in
          let sys =
            (P.send_read (some mine.0.addr) (request n mine.0.remote_fd minus_one) s.sys).1 in
          (
            reading (slice f.offset n f.content),
            moved_to count sys,
            ap (settle P i s) e,
            refl,
            moved-Matches (advance f n) count sys
                (V.calm_read mine.0.addr mine.0.remote_fd n s.sys f small mine.0.served) served,
          )

      act-preads :
          (n offset : ℕ) (small : n < 2 ^ 31)
          → IsFaithful s t i
              (preads start end fd n offset)
              (may_pread start end fd n offset f open_file small)
      unfolding act perform
      act-preads n offset small =
          let (e, served) =
            wrap_pread-sent P remote H start end fd n offset f (world_of P s i) mine.0 small in
          let count = count_pread P remote H start end in
          let sys =
            (P.send_read (some mine.0.addr) (request n mine.0.remote_fd (pos offset)) s.sys).1 in
          (
            reading (slice offset n f.content),
            moved_to count sys,
            ap (settle P i s) e,
            refl,
            subst (λ u. Matches u (moved_to count sys)) (put_same t i fd (some f) open_file)
                (moved-Matches f count sys
                  (V.calm_pread mine.0.addr mine.0.remote_fd n offset s.sys f small mine.0.served)
                  served),
          )

      act-closes : IsFaithful s t i (closes start end fd) (may_close start end fd f open_file)
      unfolding act perform
      act-closes =
          let w = world_of P s i in
          let sent = (P.send_close (some mine.0.addr) mine.0.remote_fd s.sys).1 in
          let (stays, keeps) = V.calm_close mine.0.addr mine.0.remote_fd s.sys f mine.0.served in
          let (stays', keeps') = V.local_closes fd sent in
          let (w', e, same, sys, framed, dropped) =
            wrap_close-sent P remote H start end fd f w mine.0
              (ap (λ x. x.off) (M.same i) ∙ M.on i fd f open_file) in
          (
            number (P.real_close fd sent).0,
            record { clients = set_client s.clients i w'.client; sys = w'.sys },
            ap (settle P i s) (>>=-returns (wrap_close P start end fd) _ w e),
            (sent, refl),
            (
              put addrs i fd mine.0.addr,
              put remote_fds i fd mine.0.remote_fd,
              IsMatched-put P remote Sound σs Old V.same_addr V.fixed t addrs remote_fds s M i fd
                  none mine.0.addr mine.0.remote_fd w'.client w'.sys (λ g h. cc) same framed
                  (
                    λ h. subst Sound (sym sys) (stays' (stays h)),
                    λ b d away. ap (remote b d) sys ∙ keeps' b d tt ∙ keeps b d away,
                  )
                  clear (λ g h. absurd (cc))
                  (λ h.
                    ap (remote mine.0.addr mine.0.remote_fd) sys
                    ∙ keeps' mine.0.addr mine.0.remote_fd tt
                    ∙ V.closes_open mine.0.addr mine.0.remote_fd s.sys f mine.0.served)
                  (λ h. dropped) (λ g h. (sym mine.1, sym mine.2)),
            ),
          )

  module _ (H : IsHonest P remote) (V : IsServing P remote Sound files Change) where
    -- An allowed call of a process gives what it would on local files, and goes on so.
    pub act-IsFaithful :
        (s : Processes P.Sys) (t : Table) (i : ℕ) (c : Call)
        (allowed : IsAllowed P files σs s t i c)
        → Matches t s
        → IsFaithful s t i c allowed
    act-IsFaithful s t i _ (may_open start end path full flags mode a c m there new) (ads, rs, M) =
        act-opens H V t ads rs s M i start end path full flags mode a c m there new
    act-IsFaithful s t i _ (may_read start end fd n f h small) (ads, rs, M) =
        act-reads H V t ads rs s M i start end fd f h n small
    act-IsFaithful s t i _ (may_pread start end fd n offset f h small) (ads, rs, M) =
        act-preads H V t ads rs s M i start end fd f h n offset small
    act-IsFaithful s t i _ (may_close start end fd f h) (ads, rs, M) =
        act-closes H V t ads rs s M i start end fd f h
    act-IsFaithful s t i _ (may_open_locally start end path flags mode passed) (ads, rs, M) =
        let (s', e, M') =
          opens-IsLocal P remote Sound σs Old V.same_addr V.fixed t ads rs s M i start end path
            flags mode passed (V.local_opens path flags mode s.sys) in
        (_, s', e, refl, (ads, rs, M'))
    act-IsFaithful s t i _ (may_read_locally start end fd n h fits) (ads, rs, M) =
        let (s', e, M') =
          reads-IsLocal P remote Sound σs Old V.same_addr V.fixed t ads rs s M i start end fd n h
            fits (V.local_reads fd n s.sys) in
        (_, s', e, refl, (ads, rs, M'))
    act-IsFaithful s t i _ (may_pread_locally start end fd n offset h) (ads, rs, M) =
        let (s', e, M') =
          preads-IsLocal P remote Sound σs Old V.same_addr V.fixed t ads rs s M i start end fd n
            offset h (V.local_preads fd n (pos offset) s.sys) in
        (_, s', e, refl, (ads, rs, M'))
    act-IsFaithful s t i _ (may_close_locally start end fd h) (ads, rs, M) =
        let (s', e, M') =
          closes-IsLocal P remote Sound σs Old V.same_addr V.fixed t ads rs s M i start end fd h
            (V.local_closes fd s.sys) in
        (_, s', e, refl, (ads, rs, M'))

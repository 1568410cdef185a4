-- ===== src/Wrappers/Refinement.antt =====
-- The calls of processes through the wrappers of src/wrappers.c give what they would on local files,
-- in any interleaving.
use mt_hvac.Base.{inl, inr, none, some, ℕ, ◌≡◌, subst, Option, List, Text, ℤ, returns}
use mt_hvac.Posix.{OpenFile, Reading}
use mt_hvac.Platform.{Platform}
use mt_hvac.Rpc.State.{Settings}
use mt_hvac.Client.Reads.{IsHonest}
use mt_hvac.Wrappers.Turns.{Processes}
use mt_hvac.Wrappers.Sessions.{
  Call, Table, act, IsAllowed, Gives, after, Session, begins, called, changes,
}
use mt_hvac.Wrappers.Faithful.{Matches, act-IsFaithful}
use mt_hvac.Wrappers.Serving.{IsServing}
use mt_hvac.Wrappers.Matches.{IsMatched-calm}

module _ (P : Platform) (remote : P.Addr → ℤ → P.Sys → Option OpenFile) (Sound : P.Sys → Type 0)
    (files : Text → P.Addr → Option (List ℕ)) (Change : P.Sys → P.Sys → Type 0) (σs : ℕ → Settings)
    (Old : P.Addr → ℤ → Type 0) (H : IsHonest P remote)
    (V : IsServing P remote Sound files Change) where
  abbrev Good : Table → Processes P.Sys → Type 0
  Good = Matches P remote Sound files Change σs Old

  Session-Matches :
      {s : Processes P.Sys} {t : Table} {u : Processes P.Sys} {v : Table}
      → Good t s
      → Session P files σs Change s t u v
      → Good v u
  Session-Matches m begins = m
  Session-Matches m (called {u = u} {u' = u'} {v = v} i c allowed l e) =
      let (r, u'', e', gives, m') =
        act-IsFaithful P remote Sound files Change σs Old H V u v i c allowed
          (Session-Matches m l) in
      let same : u'' ≡ u' = cc in subst (Good (after P files σs u v i c allowed)) same m'
  Session-Matches m (changes {u = u} sys l change) =
      let (ads, rs, M) = Session-Matches m l in
      (
        ads,
        rs,
        IsMatched-calm P remote Sound σs Old V.same_addr V.fixed _ ads rs u M sys
            (V.changed u.sys sys change),
      )

  -- After any calls of any processes, in any interleaving and with changes of the rest between
  -- them, the next call returns, and gives what it would on local files.
  pub session-IsFaithful :
      {s u : Processes P.Sys} {t v : Table} (i : ℕ) (c : Call)
      (allowed : IsAllowed P files σs u v i c)
      → Good t s
      → Session P files σs Change s t u v
      → (r : Reading) × (u' : Processes P.Sys) × (act P i c u ≡ returns (r, u'))
        × Gives P files σs u v i c allowed r
        × Session P files σs Change s t u' (after P files σs u v i c allowed)
  session-IsFaithful {u} {v} i c allowed m l =
      let (r, u', e, gives, m') =
        act-IsFaithful P remote Sound files Change σs Old H V u v i c allowed
          (Session-Matches m l) in
      (r, u', e, gives, called i c allowed l e)

  -- When the processes have nothing open any more, the servers have nothing open but what is old.
  pub session-origin :
      {s u : Processes P.Sys} {t v : Table} (b : P.Addr) (d : ℤ) (g : OpenFile)
      → Good t s
      → Session P files σs Change s t u v
      → ((i : ℕ) (fd : ℤ) → v i fd ≡ none)
      → remote b d u.sys ≡ some g
      → Old b d
  session-origin b d g m l closed h =
      let (ads, rs, M) = Session-Matches m l in
      elim (M.origin b d g h) [
        | inl (i, fd, f, e, at, as_fd) ↦ let e' = closed i fd in absurd (cc)
        | inr old ↦ old
      ]

-- ===== src/System/Serving.antt =====
-- The servers of src/mthvac_comm.cpp behave as the sessions of src/wrappers.c need it.
use mt_hvac.Base.{
  none, ℕ, ◌<◌, ◌^◌, ◌≡◌, refl, sym, ap, subst, ◌∙◌, Bool, Option, some, List, Text, ℤ, pos,
  minus_one, Key, update_self, update_ne, update, returns,
}
use mt_hvac.Posix.{Posix, IsPosix, IsStable, IsFdTable, OpenFile}
use mt_hvac.Server.{State, open_handler, redirect}
use mt_hvac.Server.Reads.{IsBulk, read_handler-sent, read_handler-pread}
use mt_hvac.Mover.{drain}
use mt_hvac.Mover.Copies.{Event, opens, reads, closes, drains, dropped, happens}
use mt_hvac.Mover.Open.{file-drain}
use mt_hvac.Platform.{Platform}
use mt_hvac.Client.Reads.{request}
use mt_hvac.Wrappers.Serving.{IsCalm, Everywhere, AwayFrom}
use mt_hvac.System.{Nodes, clustered, read_at, close_at}
use mt_hvac.System.Honest.{IsUp, remote_file, file_of, file_of-some}
use mt_hvac.System.Stocked.{IsAmple, IsStocked, moved, moved-IsStocked, close_handler-open}

module _ (B : Platform) ⦃k : Key B.Addr⦄ (Q : Posix) (bulk_transfer : ℕ → ℕ → Bool) where
  -- Every file is at its server, which runs and has full copies only.
  abbrev pub AreStocked :
      (files : Text → B.Addr → Option (List ℕ)) → Nodes B Q bulk_transfer → Type 0
  AreStocked files s =
      (full : Text) (c : List ℕ) (a : B.Addr)
      → files full a ≡ some c
      → IsStocked B Q bulk_transfer full c a s

  -- A round of a server's data mover, and anything at all outside clients and servers.
  pub data Change (nvmepath : Text) (s : Nodes B Q bulk_transfer)
      : Nodes B Q bulk_transfer → Type 0 where
    drained :
        (a : B.Addr) (t : State Q)
        → s.servers a ≡ some t
        → Change nvmepath s (moved B Q bulk_transfer a (drain Q nvmepath t) s)
    elsewhere : (r : B.Sys) → Change nvmepath s (record s { rest = r })

module _ (B : Platform) ⦃k : Key B.Addr⦄ (Q : Posix) (bulk_transfer : ℕ → ℕ → Bool)
    (U : IsUp B Q bulk_transfer) (K : IsStable Q) (L : IsPosix Q) (A : IsAmple Q) (F : IsFdTable Q)
    (bulk : IsBulk bulk_transfer) (nvmepath : Text) (files : Text → B.Addr → Option (List ℕ)) where
  abbrev pub P : Platform
  P = clustered B Q bulk_transfer

  abbrev pub remote : B.Addr → ℤ → Nodes B Q bulk_transfer → Option OpenFile
  remote = remote_file B Q bulk_transfer

  abbrev pub Sound : Nodes B Q bulk_transfer → Type 0
  Sound = AreStocked B Q bulk_transfer files

  abbrev pub Calm :
      (B.Addr → ℤ → Type 0) → Nodes B Q bulk_transfer → Nodes B Q bulk_transfer → Type 0
  Calm = IsCalm P remote Sound

  abbrev pub All : B.Addr → ℤ → Type 0
  All = Everywhere P remote Sound

  remote-moved :
      (a b : B.Addr) (t t' : State Q) (d : ℤ) (s : Nodes B Q bulk_transfer)
      → s.servers a ≡ some t
      → (a ≡ b → Q.file d t'.fs ≡ Q.file d t.fs)
      → remote b d (moved B Q bulk_transfer a t' s) ≡ remote b d s
  remote-moved a b t t' d s runs keeps = elim (k.dec a b) [
    | yes same ↦
        let at : s.servers b ≡ some t = cc in
        let now : update s.servers a t' b ≡ some t' =
          subst (λ x. update s.servers a t' x ≡ some t') same (update_self s.servers a t') in
        ap (λ o. file_of B Q bulk_transfer o d) now
        ∙ keeps same
        ∙ sym (ap (λ o. file_of B Q bulk_transfer o d) at)
    | no differs ↦ ap (λ o. file_of B Q bulk_transfer o d) (update_ne s.servers a b t' differs)
  ]

  -- What happens to one server is calm as far as its other descriptors are left alone.
  pub moved-IsCalm :
      (Away : B.Addr → ℤ → Type 0) (a : B.Addr) (t t' : State Q) (e : Event)
      (s : Nodes B Q bulk_transfer)
      → s.servers a ≡ some t
      → happens Q bulk_transfer nvmepath e t ≡ returns t'
      → ((b : B.Addr) (d : ℤ) → Away b d → a ≡ b → Q.file d t'.fs ≡ Q.file d t.fs)
      → Calm Away s (moved B Q bulk_transfer a t' s)
  moved-IsCalm Away a t t' e s runs does keeps = (
    λ h full c b have.
        moved-IsStocked B Q bulk_transfer U K L A bulk nvmepath full c b a t t' e s runs does
          (h full c b have),
    λ b d away. remote-moved a b t t' d s runs (keeps b d away),
  )

  pub open-IsCalm :
      (a : B.Addr) (t : State Q) (path : Text) (s : Nodes B Q bulk_transfer)
      → s.servers a ≡ some t
      → Calm
          (AwayFrom P remote Sound a (open_handler Q path t).0)
          s
          (moved B Q bulk_transfer a (open_handler Q path t).1 s)
  unfolding happens open_handler
  open-IsCalm a t path s runs =
      moved-IsCalm (AwayFrom P remote Sound a (open_handler Q path t).0) a t _ (opens path) s runs
        refl (λ b d away same. F.file-open_read_ne (redirect Q path t) d t.fs (away same))

  drain-IsCalm :
      (a : B.Addr) (t : State Q) (s : Nodes B Q bulk_transfer)
      → s.servers a ≡ some t
      → Calm All s (moved B Q bulk_transfer a (drain Q nvmepath t) s)
  unfolding happens
  drain-IsCalm a t s runs =
      moved-IsCalm All a t _ drains s runs refl (λ b d away same. file-drain Q F d nvmepath t)

  pub Change-IsCalm :
      (s s' : Nodes B Q bulk_transfer) → Change B Q bulk_transfer nvmepath s s' → Calm All s s'
  Change-IsCalm s _ (drained a t runs) = drain-IsCalm a t s runs
  Change-IsCalm s _ (elsewhere r) = (λ h. h, λ b d away. refl)

  pub read-IsCalm :
      (a : B.Addr) (fd : ℤ) (n : ℕ) (s : Nodes B Q bulk_transfer) (f : OpenFile)
      → n < 2 ^ 31
      → remote a fd s ≡ some f
      → Calm (AwayFrom P remote Sound a fd) s (P.send_read (some a) (request n fd minus_one) s).1
  unfolding read_at happens
  read-IsCalm a fd n s f small there =
      let (t, runs, served) = file_of-some B Q bulk_transfer (s.servers a) fd f there in
      let r =
        read_handler-sent Q bulk_transfer bulk L fd n t f small served (U.allocates n t.fs small) in
      rw (runs, read_at)
        (rw r (
          moved-IsCalm (AwayFrom P remote Sound a fd) a t _ (reads (request n fd minus_one)) s runs
            (ap (dropped Q bulk_transfer nvmepath) r)
            (λ b d away same. L.file-read_ne fd d n t.fs (away same))))

  pub pread-IsCalm :
      (a : B.Addr) (fd : ℤ) (n offset : ℕ) (s : Nodes B Q bulk_transfer) (f : OpenFile)
      → n < 2 ^ 31
      → remote a fd s ≡ some f
      → Calm (AwayFrom P remote Sound a fd) s (P.send_read (some a) (request n fd (pos offset)) s).1
  unfolding read_at happens
  pread-IsCalm a fd n offset s f small there =
      let (t, runs, served) = file_of-some B Q bulk_transfer (s.servers a) fd f there in
      let r =
        read_handler-pread Q bulk_transfer bulk L fd n offset t f small served
          (U.allocates n t.fs small) in
      rw (runs, read_at)
        (rw r (
          moved-IsCalm (AwayFrom P remote Sound a fd) a t t (reads (request n fd (pos offset))) s
            runs (ap (dropped Q bulk_transfer nvmepath) r) (λ b d away same. refl)))

  pub close-IsCalm :
      (a : B.Addr) (fd : ℤ) (s : Nodes B Q bulk_transfer) (f : OpenFile)
      → remote a fd s ≡ some f
      → Calm (AwayFrom P remote Sound a fd) s (P.send_close (some a) fd s).1
  unfolding close_at happens
  close-IsCalm a fd s f there =
      let (t, runs, served) = file_of-some B Q bulk_transfer (s.servers a) fd f there in
      let (t', r, fs) = close_handler-open Q A fd t f served in
      rw (runs, close_at)
        (rw r (
          moved-IsCalm (AwayFrom P remote Sound a fd) a t t' (closes fd) s runs
            (ap (dropped Q bulk_transfer nvmepath) r)
            (λ b d away same. ap (Q.file d) fs ∙ F.file-close_ne fd d t.fs (away same))))

  -- The server's descriptor is closed.
  pub close-none :
      (a : B.Addr) (fd : ℤ) (s : Nodes B Q bulk_transfer) (f : OpenFile)
      → remote a fd s ≡ some f
      → remote a fd (P.send_close (some a) fd s).1 ≡ none
  unfolding close_at
  close-none a fd s f there =
      let (t, runs, served) = file_of-some B Q bulk_transfer (s.servers a) fd f there in
      let (t', r, fs) = close_handler-open Q A fd t f served in
      rw (runs, close_at)
        (rw r (
          ap (λ o. file_of B Q bulk_transfer o fd) (update_self s.servers a t')
          ∙ ap (Q.file fd) fs
          ∙ F.file-close fd t.fs f served))

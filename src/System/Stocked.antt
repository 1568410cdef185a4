-- ===== src/System/Stocked.antt =====
-- The servers of src/mthvac_comm.cpp keep their files, and lead to full copies only, whatever the
-- client of src/mthvac_comm_client.cpp sends them.
use mt_hvac.Base.{
  ℕ, ◌<◌, ◌^◌, ◌≡◌, refl, ap, subst, ◌∙◌, Bool, true, some, List, arith, Text, ℤ, pos, minus_one,
  Key, int_key, is_positive, update, update_self, update_ne, returns,
}
use mt_hvac.Posix.{Posix, IsPosix, IsStable, OpenFile}
use mt_hvac.Server.{State, open_handler, redirect, close_handler, forget, enqueue, path_of}
use mt_hvac.Server.Reads.{IsBulk, read_handler-sent}
use mt_hvac.Mover.Copies.{Event, opens, reads, closes, dropped, happens, redirect-content}
use mt_hvac.Mover.Stock.{IsStock, happens-IsStock}
use mt_hvac.Platform.{Platform}
use mt_hvac.Client.Reads.{request}
use mt_hvac.System.{Nodes, clustered, open_at, read_at, close_at}
use mt_hvac.System.Honest.{IsUp, remote_file, file_of-some}

-- Descriptors do not run out: a file that is there opens, as a descriptor other than 0, which the
-- server has open from its start, and an open descriptor closes.
pub record IsAmple (Q : Posix) : Type 0 where
  pub opens :
      (path : Text) (s : Q.Fs) (c : List ℕ)
      → Q.content path s ≡ some c
      → is_positive (Q.open_read path s).0 ≡ true
  pub closes : (fd : ℤ) (s : Q.Fs) (f : OpenFile) → Q.file fd s ≡ some f → (Q.close fd s).0 ≡ pos 0

enqueue-fs : (Q : Posix) (path : Text) (t : State Q) → (enqueue Q path t).fs ≡ t.fs
unfolding enqueue
enqueue-fs Q path t = ground arith

-- The close of an open descriptor returns.
pub close_handler-open :
    (Q : Posix) (A : IsAmple Q) (fd : ℤ) (t : State Q) (f : OpenFile)
    → Q.file fd t.fs ≡ some f
    → (t' : State Q) × (close_handler Q fd t ≡ returns (tt, t')) × (t'.fs ≡ (Q.close fd t.fs).1)
unfolding close_handler forget
close_handler-open Q A fd t f there = (
  forget Q fd (enqueue Q (path_of Q fd t) (record t { fs = (Q.close fd t.fs).1 })),
  ground (arith, A.closes fd t.fs f there),
  enqueue-fs Q (path_of Q fd t) (record t { fs = (Q.close fd t.fs).1 }),
)

module _ (B : Platform) ⦃k : Key B.Addr⦄ (Q : Posix) (bulk_transfer : ℕ → ℕ → Bool) where
  -- The server at an address runs, and has a file and full copies only.
  abbrev pub IsStocked : Text → List ℕ → B.Addr → Nodes B Q bulk_transfer → Type 0
  IsStocked full c a s = (t : State Q) × (s.servers a ≡ some t) × IsStock Q full c t

  -- What happens to a server.
  abbrev pub moved : B.Addr → State Q → Nodes B Q bulk_transfer → Nodes B Q bulk_transfer
  moved a t s = record s { servers = update s.servers a t }

module _ (B : Platform) ⦃k : Key B.Addr⦄ (Q : Posix) (bulk_transfer : ℕ → ℕ → Bool)
    (U : IsUp B Q bulk_transfer) (K : IsStable Q) (L : IsPosix Q) (A : IsAmple Q)
    (bulk : IsBulk bulk_transfer) (nvmepath : Text) (full : Text) (c : List ℕ) (a : B.Addr) where
  abbrev P : Platform
  P = clustered B Q bulk_transfer

  abbrev pub Stocked : Nodes B Q bulk_transfer → Type 0
  Stocked s = IsStocked B Q bulk_transfer full c a s

  -- Such a server opens the file.
  pub open_handler-positive :
      (t : State Q) → IsStock Q full c t → is_positive (open_handler Q full t).0 ≡ true
  unfolding open_handler
  open_handler-positive t (cached, there) =
      A.opens (redirect Q full t) t.fs c
        (redirect-content Q bulk_transfer nvmepath K full t c cached there)

  one_server :
      (b : B.Addr) (t u : State Q) (s : Nodes B Q bulk_transfer)
      → b ≡ a
      → s.servers b ≡ some t
      → s.servers a ≡ some u
      → u ≡ t
  one_server b t u s same h h' = cc

  pub moved-IsStocked :
      (b : B.Addr) (t t' : State Q) (e : Event) (s : Nodes B Q bulk_transfer)
      → s.servers b ≡ some t
      → happens Q bulk_transfer nvmepath e t ≡ returns t'
      → Stocked s
      → Stocked (moved B Q bulk_transfer b t' s)
  moved-IsStocked b t t' e s runs h (u, there, stock) = elim (k.dec b a) [
    | yes same ↦
        let which : u ≡ t = one_server b t u s same runs there in
        (
          t',
          subst (λ x. update s.servers b t' x ≡ some t') same (update_self s.servers b t'),
          happens-IsStock Q bulk_transfer nvmepath K full c e t t'
              (subst (IsStock Q full c) which stock) h,
        )
    | no other ↦ (u, update_ne s.servers b a t' other ∙ there, stock)
  ]

  pub open_at-IsStocked :
      (b : B.Addr) (t : State Q) (path : Text) (s : Nodes B Q bulk_transfer)
      → s.servers b ≡ some t
      → Stocked s
      → Stocked (open_at B Q bulk_transfer (some b) (s.servers b) path s).1
  unfolding open_at happens
  open_at-IsStocked b t path s runs h =
      rw (runs, open_at) (moved-IsStocked b t _ (opens path) s runs refl h)

  pub read_at-IsStocked :
      (b : B.Addr) (fd : ℤ) (n : ℕ) (s : Nodes B Q bulk_transfer) (f : OpenFile)
      → n < 2 ^ 31
      → remote_file B Q bulk_transfer b fd s ≡ some f
      → Stocked s
      → Stocked (read_at B Q bulk_transfer (some b) (s.servers b) (request n fd minus_one) s).1
  unfolding read_at happens
  read_at-IsStocked b fd n s f small there h =
      let (t, runs, served) = file_of-some B Q bulk_transfer (s.servers b) fd f there in
      let r =
        read_handler-sent Q bulk_transfer bulk L fd n t f small served (U.allocates n t.fs small) in
      rw (runs, read_at)
        (rw r (
          moved-IsStocked b t _ (reads (request n fd minus_one)) s runs
            (ap (dropped Q bulk_transfer nvmepath) r) h))

  pub close_at-IsStocked :
      (b : B.Addr) (fd : ℤ) (s : Nodes B Q bulk_transfer) (f : OpenFile)
      → remote_file B Q bulk_transfer b fd s ≡ some f
      → Stocked s
      → Stocked (close_at B Q bulk_transfer (some b) (s.servers b) fd s).1
  unfolding close_at happens
  close_at-IsStocked b fd s f there h =
      let (t, runs, served) = file_of-some B Q bulk_transfer (s.servers b) fd f there in
      let (t', r, fs) = close_handler-open Q A fd t f served in
      rw (runs, close_at)
        (rw r
          (moved-IsStocked b t t' (closes fd) s runs (ap (dropped Q bulk_transfer nvmepath) r) h))

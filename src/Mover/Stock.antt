-- ===== src/Mover/Stock.antt =====
-- The files of a server stay what they are, whatever it does: the handlers of src/mthvac_comm.cpp and
-- the copying of src/mthvac_data_mover.cpp.
use mt_hvac.Base.{
  ◌≡◌, subst, sym, Bool, true, false, some, List, [], ◌∷◌, ℕ, Text, to_uint64, returns,
  returns-injective, arith,
}
use mt_hvac.Posix.{Posix, IsStable}
use mt_hvac.Server.{State, read_handler, close_handler, seek_handler, open_handler}
use mt_hvac.Mover.{enter, copy_one, copy_all, drain}
use mt_hvac.Mover.Copies.{
  Event, opens, reads, seeks, closes, drains, Keeps, IsCached, dropped-eq, happens,
  happens-IsCached, perform-fs, read_handler-state, close_handler-state,
}

module _ (P : Posix) where
  -- A file is there, and every entry of `path_cache_map` leads to a full copy.
  abbrev pub IsStock : Text → List ℕ → State P → Type 0
  IsStock full c s = IsCached P s × (P.content full s.fs ≡ some c)

module _ (P : Posix) (bulk_transfer : ℕ → ℕ → Bool) (nvmepath : Text) (K : IsStable P) where
  enter-fs :
      (copied : Bool) (path target : Text) (fs : P.Fs) (s : State P)
      → (enter P copied path target fs s).fs ≡ fs
  unfolding enter
  enter-fs true path target fs s = ground arith
  enter-fs false path target fs s = ground arith

  copy_one-Keeps : (path : Text) (s : State P) → Keeps P s.fs (copy_one P nvmepath path s).fs
  unfolding copy_one
  copy_one-Keeps path s p c h =
      rw (enter-fs _ path _ _ s) (K.keeps-copy _ _ p _ c (K.keeps-mkdtemp nvmepath p s.fs c h))

  copy_all-Keeps : (paths : List Text) (s : State P) → Keeps P s.fs (copy_all P nvmepath paths s).fs
  unfolding copy_all
  copy_all-Keeps [] s p c h = h
  copy_all-Keeps (path ∷ rest) s p c h =
      copy_all-Keeps rest (copy_one P nvmepath path s) p c (copy_one-Keeps path s p c h)

  -- No handler and no round of the data mover changes the content of a file that is there.
  happens-Keeps :
      (e : Event) (s s' : State P)
      → happens P bulk_transfer nvmepath e s ≡ returns s'
      → Keeps P s.fs s'.fs
  unfolding happens open_handler seek_handler drain
  happens-Keeps (opens path) s s' h =
      subst (λ t. Keeps P s.fs t.fs) (returns-injective h)
        (λ p c there. K.keeps-open _ p s.fs c there)
  happens-Keeps (reads i) s s' h =
      let (o, e) = dropped-eq P bulk_transfer nvmepath (read_handler P bulk_transfer i s) h in
      subst (λ t. Keeps P s.fs t.fs) (read_handler-state P bulk_transfer nvmepath K i s s' o e)
        (perform-fs P bulk_transfer nvmepath K i (to_uint64 i.input_val) s)
  happens-Keeps (seeks fd offset whence) s s' h =
      subst (λ t. Keeps P s.fs t.fs) (returns-injective h)
        (λ p c there. K.keeps-lseek fd offset whence p s.fs c there)
  happens-Keeps (closes fd) s s' h =
      let (u, e) = dropped-eq P bulk_transfer nvmepath (close_handler P fd s) h in
      subst (Keeps P s.fs) (sym (close_handler-state P bulk_transfer nvmepath K fd s s' u e).0)
        (λ p c there. K.keeps-close fd p s.fs c there)
  happens-Keeps drains s s' h =
      subst (λ t. Keeps P s.fs t.fs) (returns-injective h)
        (copy_all-Keeps s.data_queue (record s { data_queue = [] }))

  pub happens-IsStock :
      (full : Text) (c : List ℕ) (e : Event) (s s' : State P)
      → IsStock P full c s
      → happens P bulk_transfer nvmepath e s ≡ returns s'
      → IsStock P full c s'
  happens-IsStock full c e s s' (cached, there) h = (
    happens-IsCached P bulk_transfer nvmepath K e s s' cached h,
    happens-Keeps e s s' h full c there,
  )

-- ===== src/Mover/Copies.antt =====
-- Every entry of `path_cache_map` leads to a full copy: src/mthvac_data_mover.cpp together with the
-- handlers of src/mthvac_comm.cpp.
use mt_hvac.Base.{
  ℕ, ◌≡◌, refl, sym, ap, subst, ◌∙◌, inl, inr, Bool, true, false, some, List, [], ◌∷◌, arith, Text,
  ℤ, text_key, Option-cases, is_negative, to_uint64, Outcome, returns, stops, returns-injective,
}
use mt_hvac.Posix.{Posix, IsPosix, IsStable}
use mt_hvac.Server.{
  State, ReadIn, ReadOut, open_handler, close_handler, seek_handler, read_handler, perform, push,
  redirect, enqueue, forget,
}
use mt_hvac.Mover.{enter, copy_one, copy_all, drain}

module _ (P : Posix) where
  -- A path and its copy are both there, with one content.
  abbrev pub IsCached : State P → Type 0
  IsCached s =
      (path copy : Text)
      → s.path_cache_map path ≡ some copy
      → (c : List ℕ) × (P.content path s.fs ≡ some c) × (P.content copy s.fs ≡ some c)

  abbrev pub Keeps : P.Fs → P.Fs → Type 0
  Keeps a b = (p : Text) (c : List ℕ) → P.content p a ≡ some c → P.content p b ≡ some c

  IsCached-fs :
      (s s' : State P)
      → Keeps s.fs s'.fs
      → s'.path_cache_map ≡ s.path_cache_map
      → IsCached s
      → IsCached s'
  IsCached-fs s s' k m v path copy e =
      let (c, h, h') = v path copy (ap (λ f. f path) (sym m) ∙ e) in (c, k path c h, k copy c h')

  enter-IsCached :
      (copied : Bool) (path target : Text) (fs : P.Fs) (s : State P)
      → Keeps s.fs fs
      → (copied ≡ true
          → (c : List ℕ) × (P.content path fs ≡ some c) × (P.content target fs ≡ some c))
      → IsCached s
      → IsCached (enter P copied path target fs s)
  unfolding enter
  enter-IsCached false path target fs s k h v p copy e =
      IsCached-fs s (record s { fs = fs }) k refl v p copy e
  enter-IsCached true path target fs s k h v p copy e = elim (text_key.dec path p) [
    | yes same ↦
        let (c, there, copied) = h refl in
        let now : target ≡ copy = ground arith in
        (
          c,
          subst (λ q. P.content q fs ≡ some c) same there,
          subst (λ q. P.content q fs ≡ some c) now copied,
        )
    | no other ↦
        let (c, there, copied) = v p copy (ground arith) in (c, k p c there, k copy c copied)
  ]

  module _ (K : IsStable P) where
    copy_one-IsCached :
        (nvmepath source : Text) (s : State P)
        → IsCached s
        → IsCached (copy_one P nvmepath source s)
    unfolding copy_one
    copy_one-IsCached nvmepath source s v =
        enter-IsCached _ source _ _ s
          (λ p c h. K.keeps-copy _ _ p _ c (K.keeps-mkdtemp nvmepath p s.fs c h))
          (λ done.
            let (c, h, h') = K.copy-content _ _ _ done in (c, K.keeps-copy _ _ source _ c h, h'))
          v

    copy_all-IsCached :
        (nvmepath : Text) (paths : List Text) (s : State P)
        → IsCached s
        → IsCached (copy_all P nvmepath paths s)
    unfolding copy_all
    copy_all-IsCached nvmepath [] s v = v
    copy_all-IsCached nvmepath (path ∷ rest) s v =
        copy_all-IsCached nvmepath rest _ (copy_one-IsCached nvmepath path s v)

    drain-IsCached : (nvmepath : Text) (s : State P) → IsCached s → IsCached (drain P nvmepath s)
    unfolding drain
    drain-IsCached nvmepath s v = copy_all-IsCached nvmepath s.data_queue _ v

-- What may happen at the server, in any order: a request's handler runs, or the data mover empties
-- the queue.
pub data Event : Type 0 where
  opens : Text → Event
  reads : ReadIn → Event
  seeks : (fd offset whence : ℤ) → Event
  closes : ℤ → Event
  drains : Event

module _ (P : Posix) (bulk_transfer : ℕ → ℕ → Bool) (nvmepath : Text) where
  abbrev pub dropped : {A : Type 0} → Outcome (A × State P) → Outcome (State P)
  dropped (returns (a, s)) = returns s
  dropped (stops e) = stops e

  pub dropped-eq :
      {A : Type 0} (o : Outcome (A × State P)) {s : State P}
      → dropped o ≡ returns s
      → (a : A) × (o ≡ returns (a, s))
  dropped-eq (returns (a, t)) h = (a, ground arith)
  dropped-eq (stops e) h = cc

  unfoldable pub happens : Event → State P → Outcome (State P)
  happens (opens path) s = returns (open_handler P path s).1
  happens (reads i) s = dropped (read_handler P bulk_transfer i s)
  happens (seeks fd offset whence) s = returns (seek_handler P fd offset whence s).1
  happens (closes fd) s = dropped (close_handler P fd s)
  happens drains s = returns (drain P nvmepath s)

  pub after : Outcome (State P) → (State P → Outcome (State P)) → Outcome (State P)
  after (returns s) f = f s
  after (stops e) f = stops e

  pub after-eq :
      (o : Outcome (State P)) (f : State P → Outcome (State P)) {s : State P}
      → after o f ≡ returns s
      → (t : State P) × (o ≡ returns t) × (f t ≡ returns s)
  unfolding after
  after-eq (returns t) f h = (t, refl, h)
  after-eq (stops e) f h = cc

  unfoldable pub history : List Event → State P → Outcome (State P)
  unfolding after
  history [] s = returns s
  history (e ∷ es) s = after (happens e s) (history es)

  module _ (K : IsStable P) where
    pub redirect-content :
        (path : Text) (s : State P) (c : List ℕ)
        → IsCached P s
        → P.content path s.fs ≡ some c
        → P.content (redirect P path s) s.fs ≡ some c
    unfolding redirect
    redirect-content path s c v there = elim (Option-cases (s.path_cache_map path)) [
      | inl e ↦ rw (e, redirect) there
      | inr (copy, e) ↦ let (d, h, h') = v path copy e in rw (e, redirect) (ground arith)
    ]

    open_handler-IsCached :
        (path : Text) (s : State P) → IsCached P s → IsCached P (open_handler P path s).1
    unfolding open_handler
    open_handler-IsCached path s v =
        IsCached-fs P s (open_handler P path s).1
          (λ p c h. K.keeps-open (redirect P path s) p s.fs c h) refl v

    pub perform-fs : (i : ReadIn) (size : ℕ) (s : State P) → Keeps P s.fs (perform P i size s).1.fs
    unfolding perform
    perform-fs i size s p c h = ground (arith, K.keeps-read i.accessfd size p s.fs c h)

    perform-map :
        (i : ReadIn) (size : ℕ) (s : State P)
        → (perform P i size s).1.path_cache_map ≡ s.path_cache_map
    unfolding perform
    perform-map i size s = ground arith

    pub read_handler-state :
        (i : ReadIn) (s s' : State P) (o : ReadOut)
        → read_handler P bulk_transfer i s ≡ returns (o, s')
        → (perform P i (to_uint64 i.input_val) s).1 ≡ s'
    unfolding read_handler push
    read_handler-state i s s' o e = ground arith

    read_handler-IsCached :
        (i : ReadIn) (s s' : State P) (o : ReadOut)
        → IsCached P s
        → read_handler P bulk_transfer i s ≡ returns (o, s')
        → IsCached P s'
    read_handler-IsCached i s s' o v e =
        let size = to_uint64 i.input_val in
        subst (IsCached P) (read_handler-state i s s' o e)
          (IsCached-fs P s (perform P i size s).1 (perform-fs i size s) (perform-map i size s) v)

    pub close_handler-state :
        (fd : ℤ) (s s' : State P) (u : Unit {0})
        → close_handler P fd s ≡ returns (u, s')
        → (s'.fs ≡ (P.close fd s.fs).1) × (s'.path_cache_map ≡ s.path_cache_map)
    unfolding close_handler enqueue forget
    close_handler-state fd s s' u e = ground arith

    close_handler-IsCached :
        (fd : ℤ) (s s' : State P) (u : Unit {0})
        → IsCached P s
        → close_handler P fd s ≡ returns (u, s')
        → IsCached P s'
    close_handler-IsCached fd s s' u v e =
        let (f, m) = close_handler-state fd s s' u e in
        IsCached-fs P s s' (λ p c h. rw f (K.keeps-close fd p s.fs c h)) m v

    pub happens-IsCached :
        (e : Event) (s s' : State P) → IsCached P s → happens e s ≡ returns s' → IsCached P s'
    unfolding happens seek_handler
    happens-IsCached (opens path) s s' v h =
        subst (IsCached P) (returns-injective h) (open_handler-IsCached path s v)
    happens-IsCached (reads i) s s' v h =
        let (o, e) = dropped-eq (read_handler P bulk_transfer i s) h in
        read_handler-IsCached i s s' o v e
    happens-IsCached (seeks fd offset whence) s s' v h = subst (IsCached P) (returns-injective h) (
        IsCached-fs P s (seek_handler P fd offset whence s).1
          (λ p c h. K.keeps-lseek fd offset whence p s.fs c h) refl v)
    happens-IsCached (closes fd) s s' v h =
        let (u, e) = dropped-eq (close_handler P fd s) h in close_handler-IsCached fd s s' u v e
    happens-IsCached drains s s' v h =
        subst (IsCached P) (returns-injective h) (drain-IsCached P K nvmepath s v)

    -- In any order of requests and copying, as long as the server runs, every entry of
    -- `path_cache_map` leads from a file that is there to a file with the same content.
    pub history-IsCached :
        (es : List Event) (s s' : State P)
        → IsCached P s
        → history es s ≡ returns s'
        → IsCached P s'
    unfolding history
    history-IsCached [] s s' v h = subst (IsCached P) (returns-injective h) v
    history-IsCached (e ∷ es) s s' v h =
        let (t, first, rest) = after-eq (happens e s) (history es) h in
        history-IsCached es t s' (happens-IsCached e s t v first) rest

    -- If every entry of `path_cache_map` leads to a file with the same content, an open of a file that
    -- is there, if it succeeds, redirected or not, gives a descriptor on the content of the file that
    -- was asked for, at its start.
    pub open_handler-content :
        (L : IsPosix P) (path : Text) (s : State P) (c : List ℕ)
        → IsCached P s
        → P.content path s.fs ≡ some c
        → is_negative (open_handler P path s).0 ≡ false
        → P.file (open_handler P path s).0 (open_handler P path s).1.fs
          ≡ some (record { content = c; offset = 0 })
    unfolding open_handler
    open_handler-content L path s c v there opened =
        L.open_read-file (redirect P path s) s.fs c (redirect-content path s c v there) opened

-- ===== src/Mover/Pending.antt =====
-- The queue of closed files, and what a round of the data mover makes of it: src/mthvac_data_mover.cpp
-- together with the close handler of src/mthvac_comm.cpp.
use mt_hvac.Base.{
  ◌≡◌, sym, ap, subst, ◌∙◌, ◌⊎◌, inl, inr, Bool, true, false, ◌||◌, some, none, List, [], ◌∷◌, ◌++◌,
  arith, Text, text, ℤ, text_key, ◌=?◌, Option-cases, returns,
}
use mt_hvac.Posix.{Posix}
use mt_hvac.Server.{State, close_handler, path_of, enqueue, forget}
use mt_hvac.Mover.{filename, enter, copy_one, copy_all, drain}

abbrev pub is_queued : Text → List Text → Bool
is_queued path [] = false
is_queued path (p ∷ queue) = p =? path || is_queued path queue

is_queued-append :
    (path p : Text) (queue : List Text)
    → is_queued path (queue ++ p ∷ []) ≡ (is_queued path queue || (p =? path))
is_queued-append path p [] = ground arith
is_queued-append path p (q ∷ queue) = ground (arith, is_queued-append path p queue)

module _ (P : Posix) where
  abbrev pub IsCopied : Text → State P → Type 0
  IsCopied path s = (copy : Text) × (s.path_cache_map path ≡ some copy)

  -- The file has been copied or is to be copied.
  abbrev pub IsPending : Text → State P → Type 0
  IsPending path s = (is_queued path s.data_queue ≡ true) ⊎ IsCopied path s

  -- Whether the copy of a file in the round that comes next returns.
  abbrev pub copy_returns : (nvmepath path : Text) → State P → Bool
  copy_returns nvmepath path s =
      let (made, dirpath, fs₁) = P.mkdtemp nvmepath s.fs in
      (P.copy path (dirpath ++ (text "/" ++ filename path)) fs₁).0

  -- Every copy of a round returns.
  abbrev pub AllCopied : (nvmepath : Text) → List Text → State P → Type 0
  AllCopied nvmepath [] s = Unit {0}
  AllCopied nvmepath (path ∷ rest) s =
      (copy_returns nvmepath path s ≡ true) × AllCopied nvmepath rest (copy_one P nvmepath path s)

  enter-keeps :
      (copied : Bool) (path target p : Text) (fs : P.Fs) (s : State P)
      → IsCopied p s
      → IsCopied p (enter P copied path target fs s)
  unfolding enter
  enter-keeps false path target p fs s v = v
  enter-keeps true path target p fs s (copy, e) = elim (text_key.dec path p) [
    | yes same ↦ (target, ground arith)
    | no other ↦ (copy, ground arith)
  ]

  copy_one-keeps :
      (nvmepath path p : Text) (s : State P)
      → IsCopied p s
      → IsCopied p (copy_one P nvmepath path s)
  unfolding copy_one
  copy_one-keeps nvmepath path p s v = enter-keeps _ path _ p _ s v

  enter-IsCopied :
      (copied : Bool) (path target : Text) (fs : P.Fs) (s : State P)
      → copied ≡ true
      → IsCopied path (enter P copied path target fs s)
  unfolding enter
  enter-IsCopied true path target fs s h = (target, ground arith)
  enter-IsCopied false path target fs s h = cc

  copy_one-IsCopied :
      (nvmepath path : Text) (s : State P)
      → copy_returns nvmepath path s ≡ true
      → IsCopied path (copy_one P nvmepath path s)
  unfolding copy_one
  copy_one-IsCopied nvmepath path s h = enter-IsCopied _ path _ _ s h

  pub copy_all-keeps :
      (nvmepath p : Text) (paths : List Text) (s : State P)
      → IsCopied p s
      → IsCopied p (copy_all P nvmepath paths s)
  unfolding copy_all
  copy_all-keeps nvmepath p [] s v = v
  copy_all-keeps nvmepath p (path ∷ rest) s v =
      copy_all-keeps nvmepath p rest _ (copy_one-keeps nvmepath path p s v)

  copy_all-IsCopied :
      (nvmepath p : Text) (paths : List Text) (s : State P)
      → is_queued p paths ≡ true
      → AllCopied nvmepath paths s
      → IsCopied p (copy_all P nvmepath paths s)
  unfolding copy_all
  copy_all-IsCopied nvmepath p [] s h v = cc
  copy_all-IsCopied nvmepath p (path ∷ rest) s h (now, later) = elim (text_key.dec path p) [
    | yes same ↦
        let here = copy_one-IsCopied nvmepath path s now in
        copy_all-keeps nvmepath p rest _
          (subst (λ q. IsCopied q (copy_one P nvmepath path s)) same here)
    | no other ↦ copy_all-IsCopied nvmepath p rest _ (ground arith) later
  ]

  pub drain-IsCopied :
      (nvmepath p : Text) (s : State P)
      → IsPending p s
      → AllCopied nvmepath s.data_queue (record s { data_queue = [] })
      → IsCopied p (drain P nvmepath s)
  unfolding drain
  drain-IsCopied nvmepath p s (inl queued) v = copy_all-IsCopied nvmepath p s.data_queue _ queued v
  drain-IsCopied nvmepath p s (inr copied) v = copy_all-keeps nvmepath p s.data_queue _ copied

  enqueue-new :
      (path : Text) (s : State P)
      → s.path_cache_map path ≡ none
      → enqueue P path s ≡ record s { data_queue = s.data_queue ++ path ∷ [] }
  unfolding enqueue
  enqueue-new path s e = ground arith

  -- A file that has been copied is not queued again.
  pub enqueue-copied : (path : Text) (s : State P) → IsCopied path s → enqueue P path s ≡ s
  unfolding enqueue
  enqueue-copied path s (copy, e) = ground arith

  enqueue-IsPending : (path : Text) (s : State P) → IsPending path (enqueue P path s)
  enqueue-IsPending path s = elim (Option-cases (s.path_cache_map path)) [
    | inl e ↦
        subst (IsPending path) (sym (enqueue-new path s e))
          (inl (ground (arith, is_queued-append path path s.data_queue)))
    | inr (copy, e) ↦ subst (IsPending path) (sym (enqueue-copied path s (copy, e))) (inr (copy, e))
  ]

  append-IsPending :
      (path p : Text) (s : State P)
      → IsPending p s
      → IsPending p (record s { data_queue = s.data_queue ++ path ∷ [] })
  append-IsPending path p s (inl queued) =
      inl (ground (arith, is_queued-append p path s.data_queue))
  append-IsPending path p s (inr copied) = inr copied

  enqueue-keeps : (path p : Text) (s : State P) → IsPending p s → IsPending p (enqueue P path s)
  enqueue-keeps path p s v = elim (Option-cases (s.path_cache_map path)) [
    | inl e ↦ subst (IsPending p) (sym (enqueue-new path s e)) (append-IsPending path p s v)
    | inr (copy, e) ↦ subst (IsPending p) (sym (enqueue-copied path s (copy, e))) v
  ]

  -- What a close that returns leaves.
  close_handler-state :
      (fd : ℤ) (s s' : State P) (u : Unit {0})
      → close_handler P fd s ≡ returns (u, s')
      → s' ≡ forget P fd (enqueue P (path_of P fd s) (record s { fs = (P.close fd s.fs).1 }))
  unfolding close_handler
  close_handler-state fd s s' u e = ground arith

  path_of-entered :
      (fd : ℤ) (path : Text) (s : State P) → s.fd_to_path fd ≡ some path → path_of P fd s ≡ path
  unfolding path_of
  path_of-entered fd path s e = ground arith

  -- A file that is closed waits to be copied, if it has not been.
  pub close_handler-IsPending :
      (fd : ℤ) (path : Text) (s s' : State P) (u : Unit {0})
      → s.fd_to_path fd ≡ some path
      → close_handler P fd s ≡ returns (u, s')
      → IsPending path s'
  unfolding forget
  close_handler-IsPending fd path s s' u entered e =
      let t : State P = record s { fs = (P.close fd s.fs).1 } in
      subst (IsPending path)
        (sym (
          close_handler-state fd s s' u e
          ∙ ap (λ p. forget P fd (enqueue P p t)) (path_of-entered fd path s entered)))
        (enqueue-IsPending path t)

  pub close_handler-keeps :
      (fd : ℤ) (p : Text) (s s' : State P) (u : Unit {0})
      → IsPending p s
      → close_handler P fd s ≡ returns (u, s')
      → IsPending p s'
  unfolding forget
  close_handler-keeps fd p s s' u v e =
      subst (IsPending p) (sym (close_handler-state fd s s' u e))
        (enqueue-keeps (path_of P fd s) p (record s { fs = (P.close fd s.fs).1 }) v)

  -- Copies are kept by a close, too.
  pub close_handler-map :
      (fd : ℤ) (s s' : State P) (u : Unit {0})
      → close_handler P fd s ≡ returns (u, s')
      → s'.path_cache_map ≡ s.path_cache_map
  unfolding close_handler enqueue forget
  close_handler-map fd s s' u e = ground arith

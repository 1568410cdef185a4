-- ===== src/Mover/Hits.antt =====
-- A closed file is served from its copy from the next round of the data mover on:
-- src/mthvac_data_mover.cpp together with the handlers of src/mthvac_comm.cpp.
use mt_hvac.Base.{
  ℕ, ◌≡◌, refl, ap, subst, ◌∙◌, inl, inr, Bool, true, false, some, List, [], ◌∷◌, arith, Text, ℤ,
  text_key, returns, returns-injective, int_key,
}
use mt_hvac.Posix.{Posix}
use mt_hvac.Server.{
  State, ReadIn, ReadOut, open_handler, close_handler, seek_handler, read_handler, perform, push,
  redirect, enqueue,
}
use mt_hvac.Mover.{drain}
use mt_hvac.Mover.Copies.{
  Event, opens, reads, seeks, closes, drains, happens, history, dropped-eq, after-eq,
}
use mt_hvac.Mover.Pending.{
  IsCopied, IsPending, AllCopied, copy_all-keeps, drain-IsCopied, enqueue-copied,
  close_handler-IsPending, close_handler-keeps, close_handler-map,
}

-- No round of the mover is among the events.
abbrev pub no_drains : List Event → Bool
no_drains [] = true
no_drains (drains ∷ es) = false
no_drains (opens path ∷ es) = no_drains es
no_drains (reads i ∷ es) = no_drains es
no_drains (seeks fd offset whence ∷ es) = no_drains es
no_drains (closes fd ∷ es) = no_drains es

module _ (P : Posix) (bulk_transfer : ℕ → ℕ → Bool) (nvmepath : Text) where
  -- A read leaves the map and the queue.
  read_handler-same :
      (i : ReadIn) (s s' : State P) (o : ReadOut)
      → read_handler P bulk_transfer i s ≡ returns (o, s')
      → (s'.path_cache_map ≡ s.path_cache_map) × (s'.data_queue ≡ s.data_queue)
  unfolding read_handler perform push
  read_handler-same i s s' o e = ground arith

  IsPending-same :
      (p : Text) (s s' : State P)
      → s'.path_cache_map ≡ s.path_cache_map
      → s'.data_queue ≡ s.data_queue
      → IsPending P p s
      → IsPending P p s'
  IsPending-same p s s' m q (inl queued) = inl (ground arith)
  IsPending-same p s s' m q (inr (copy, e)) = inr (copy, ap (λ f. f p) m ∙ e)

  history-IsPending :
      (p : Text) (es : List Event) (s s' : State P)
      → no_drains es ≡ true
      → IsPending P p s
      → history P bulk_transfer nvmepath es s ≡ returns s'
      → IsPending P p s'
  unfolding history happens open_handler seek_handler
  history-IsPending p [] s s' n v h = subst (IsPending P p) (returns-injective h) v
  history-IsPending p (opens path ∷ es) s s' n v h =
      history-IsPending p es _ s' n (IsPending-same p s (open_handler P path s).1 refl refl v) h
  history-IsPending p (reads i ∷ es) s s' n v h =
      let (t, first, rest) =
        after-eq P bulk_transfer nvmepath _ (history P bulk_transfer nvmepath es) h in
      let (o, e) = dropped-eq P bulk_transfer nvmepath (read_handler P bulk_transfer i s) first in
      let (m, q) = read_handler-same i s t o e in
      history-IsPending p es t s' n (IsPending-same p s t m q v) rest
  history-IsPending p (seeks fd offset whence ∷ es) s s' n v h =
      history-IsPending p es _ s' n
        (IsPending-same p s (seek_handler P fd offset whence s).1 refl refl v) h
  history-IsPending p (closes fd ∷ es) s s' n v h =
      let (t, first, rest) =
        after-eq P bulk_transfer nvmepath _ (history P bulk_transfer nvmepath es) h in
      let (u, e) = dropped-eq P bulk_transfer nvmepath (close_handler P fd s) first in
      history-IsPending p es t s' n (close_handler-keeps P fd p s t u v e) rest
  history-IsPending p (drains ∷ es) s s' n v h = cc

  IsCopied-map :
      (p : Text) (s s' : State P)
      → s'.path_cache_map ≡ s.path_cache_map
      → IsCopied P p s
      → IsCopied P p s'
  IsCopied-map p s s' m (copy, e) = (copy, ap (λ f. f p) m ∙ e)

  happens-IsCopied :
      (p : Text) (e : Event) (s s' : State P)
      → IsCopied P p s
      → happens P bulk_transfer nvmepath e s ≡ returns s'
      → IsCopied P p s'
  unfolding happens open_handler seek_handler drain
  happens-IsCopied p (opens path) s s' v h = subst (IsCopied P p) (returns-injective h) v
  happens-IsCopied p (reads i) s s' v h =
      let (o, e) = dropped-eq P bulk_transfer nvmepath (read_handler P bulk_transfer i s) h in
      IsCopied-map p s s' (read_handler-same i s s' o e).0 v
  happens-IsCopied p (seeks fd offset whence) s s' v h =
      subst (IsCopied P p) (returns-injective h) v
  happens-IsCopied p (closes fd) s s' v h =
      let (u, e) = dropped-eq P bulk_transfer nvmepath (close_handler P fd s) h in
      IsCopied-map p s s' (close_handler-map P fd s s' u e) v
  happens-IsCopied p drains s s' v h =
      subst (IsCopied P p) (returns-injective h) (copy_all-keeps P nvmepath p s.data_queue _ v)

  history-IsCopied :
      (p : Text) (es : List Event) (s s' : State P)
      → IsCopied P p s
      → history P bulk_transfer nvmepath es s ≡ returns s'
      → IsCopied P p s'
  unfolding history
  history-IsCopied p [] s s' v h = subst (IsCopied P p) (returns-injective h) v
  history-IsCopied p (e ∷ es) s s' v h =
      let (t, first, rest) =
        after-eq P bulk_transfer nvmepath _ (history P bulk_transfer nvmepath es) h in
      history-IsCopied p es t s' (happens-IsCopied p e s t v first) rest

  redirect-copied :
      (path copy : Text) (s : State P)
      → s.path_cache_map path ≡ some copy
      → redirect P path s ≡ copy
  unfolding redirect
  redirect-copied path copy s e = rw (e, redirect) refl

  -- A file is closed, other requests follow, the mover makes a round in which every copy returns, and
  -- then anything happens for as long as the server runs: the file has a copy, an open of it is
  -- redirected to the copy, and it is not queued again.
  pub closed-copied :
      (fd : ℤ) (path : Text) (es later : List Event) (s t u v : State P)
      → s.fd_to_path fd ≡ some path
      → close_handler P fd s ≡ returns (tt, t)
      → no_drains es ≡ true
      → history P bulk_transfer nvmepath es t ≡ returns u
      → AllCopied P nvmepath u.data_queue (record u { data_queue = [] })
      → history P bulk_transfer nvmepath later (drain P nvmepath u) ≡ returns v
      → (copy : Text) × (v.path_cache_map path ≡ some copy)
        × (redirect P path v ≡ copy)
        × (enqueue P path v ≡ v)
  closed-copied fd path es later s t u v entered closed quiet first all second =
      let pending =
        history-IsPending path es t u quiet
          (close_handler-IsPending P fd path s t tt entered closed) first in
      let (copy, e) =
        history-IsCopied path later _ v (drain-IsCopied P nvmepath path u pending all) second in
      (copy, e, redirect-copied path copy v e, enqueue-copied P path v (copy, e))

-- ===== src/Mover/Wakeups.antt =====
-- The data mover's thread and the close handler, interleaved: the loop of `hvac_data_mover_fn` in
-- src/mthvac_data_mover.cpp, and what `hvac_close_rpc_handler` in src/mthvac_comm.cpp does under
-- `data_mutex`. A section under the mutex is one step.
use mathlib.Core.List.{append_assoc, append-nil}
use mt_hvac.Base.{◌≡◌, refl, sym, subst, ◌∙◌, List, [], ◌∷◌, ◌++◌, arith, Text}

-- Where the mover is: in `pthread_cond_wait`, woken from it, or in the inner loop with the files of
-- its local list that it has still to copy.
pub data Phase : Type 0 where
  sleeping awake : Phase
  copying : List Text → Phase

-- `taken` lists the files that the inner loop has gone through, in order.
pub record Shared : Type 0 where
  pub queue : List Text
  pub phase : Phase
  pub taken : List Text

-- `pthread_cond_signal` wakes the mover if it waits, and is forgotten if it does not.
unfoldable pub signal : Phase → Phase
signal sleeping = awake
signal awake = awake
signal (copying local) = copying local

-- Only the close handler and the mover step here; `spurious` is a wake-up that nobody signalled,
-- which POSIX allows. A step is labelled with the files that it closes.
pub data Step (s : Shared) : List Text → Shared → Type 0 where
  close :
      (path : Text)
      → Step s (path ∷ []) (record s { queue = s.queue ++ path ∷ []; phase = signal s.phase })
  spurious : s.phase ≡ sleeping → Step s [] (record s { phase = awake })
  wake : s.phase ≡ awake → Step s [] (record s { queue = []; phase = copying s.queue })
  copy :
      (path : Text) (rest : List Text)
      → s.phase ≡ copying (path ∷ rest)
      → Step s [] (record s { phase = copying rest; taken = s.taken ++ path ∷ [] })
  wait : s.phase ≡ copying [] → Step s [] (record s { phase = sleeping })

-- A run, with the files that were closed in it, in order.
pub data Run (s : Shared) : List Text → Shared → Type 0 where
  here : Run s [] s
  next :
      {t u : Shared} {paths more : List Text}
      → Run s paths t
      → Step t more u
      → Run s (paths ++ more) u

abbrev pub local : Phase → List Text
local sleeping = []
local awake = []
local (copying paths) = paths

-- The files that the mover has gone through, has taken, and has still to take.
abbrev pub accepted : Shared → List Text
accepted s = s.taken ++ (local s.phase ++ s.queue)

local-signal : (p : Phase) → local (signal p) ≡ local p
unfolding signal
local-signal sleeping = refl
local-signal awake = refl
local-signal (copying paths) = refl

Step-accepted : {s t : Shared} {more : List Text} → Step s more t → accepted t ≡ accepted s ++ more
Step-accepted {s} (close path) = rw (local-signal s.phase) (simp append_assoc)
Step-accepted (spurious e) = rw e (simp append-nil)
Step-accepted (wake e) = rw e (simp append-nil)
Step-accepted (copy path rest e) = rw e (simp (append-nil, append_assoc))
Step-accepted (wait e) = rw e (simp append-nil)

-- However the threads interleave, no closed file is lost or reordered: the files that the mover has
-- gone through, has taken and has still to take are, in order, those of the start and then those
-- closed since.
pub Run-accepted :
    {s t : Shared} {paths : List Text} → Run s paths t → accepted t ≡ accepted s ++ paths
Run-accepted here = simp append-nil
Run-accepted {s} (next {paths = paths} {more = more} r st) =
    Step-accepted st ∙ rw (Run-accepted r) (append_assoc (accepted s) paths more)

next_quiet : {s t u : Shared} {paths : List Text} → Run s paths t → Step t [] u → Run s paths u
next_quiet {s} {u = u} {paths = paths} r st = subst (λ p. Run s p u) (append-nil paths) (next r st)

-- The mover goes through its local list and falls asleep, with the queue as it is.
finish :
    (local : List Text) {s t : Shared} {paths : List Text}
    → Run s paths t
    → t.phase ≡ copying local
    → (u : Shared) × Run s paths u
      × (u.phase ≡ sleeping)
      × (u.queue ≡ t.queue)
      × (u.taken ≡ t.taken ++ local)
finish [] {t = t} r e =
    (record t { phase = sleeping }, next_quiet r (wait e), refl, refl, sym (append-nil t.taken))
finish (path ∷ rest) {t = t} r e =
    let (u, r', asleep, left, gone) = finish rest (next_quiet r (copy path rest e)) refl in
    (u, r', asleep, left, gone ∙ append_assoc t.taken (path ∷ []) rest)

-- A file that is closed while the mover sleeps can be gone through, and every file that was left in
-- the queue before it: the close wakes the mover, which empties the queue and falls asleep again.
close_while_sleeping :
    (s : Shared) (path : Text)
    → s.phase ≡ sleeping
    → (t : Shared) × Run s (path ∷ []) t
      × (t.phase ≡ sleeping)
      × (t.queue ≡ [])
      × (t.taken ≡ s.taken ++ (s.queue ++ path ∷ []))
unfolding signal
close_while_sleeping s path e =
    finish (s.queue ++ path ∷ []) (next_quiet (next here (close path)) (wake (ground arith))) refl

sleeping-Step : {t u : Shared} → t.phase ≡ sleeping → Step t [] u → u ≡ record t { phase = awake }
sleeping-Step e (spurious h) = refl
sleeping-Step e (wake h) = cc
sleeping-Step e (copy path rest h) = cc
sleeping-Step e (wait h) = cc

-- A file that is closed while the mover copies can be left in the queue: the mover goes to sleep
-- without looking, and then nothing but a spurious wake-up moves it until the next close.
pub lost_wakeup :
    (s : Shared) (paths : List Text) (path : Text)
    → s.phase ≡ copying paths
    → (t : Shared) × Run s (path ∷ []) t
      × (t.phase ≡ sleeping)
      × (t.queue ≡ s.queue ++ path ∷ [])
      × ((u : Shared) → Step t [] u → u ≡ record t { phase = awake })
unfolding signal
lost_wakeup s paths path e =
    let (t, r, asleep, left, gone) = finish paths (next here (close path)) (ground arith) in
    (t, r, asleep, left, λ u st. sleeping-Step asleep st)

-- ===== src/Fd/Waiting.antt =====
-- Who is woken, and with what: `hvac_wait_fd_ready` against the functions that set a state.
use mt_hvac.Base.{
  ℕ, zero, suc, ◌<◌, ◌≡◌, refl, ◌∙◌, ◌≢◌, inl, inr, true, false, Option, none, some, List, [], ◌∷◌,
  arith, ℤ, Option-cases,
}
use mt_hvac.Fd.{
  FdState, opening, ready, error, FdTable, set_fd_opening, set_fd_ready, set_fd_error,
  cleanup_fd_state, state_of, wait_fd_ready,
}

-- Every pointer in the map has been given out before, and no two descriptors share one.
pub record IsOwned (t : FdTable) : Type 0 where
  pub below : (fd : ℤ) (p : ℕ) → t.entry fd ≡ some p → p < t.next
  pub apart : (a b : ℤ) (p : ℕ) → t.entry a ≡ some p → t.entry b ≡ some p → a ≡ b

pub data Call : Type 0 where
  opens readies fails cleans : ℤ → Call

unfoldable pub call : Call → FdTable → FdTable
unfolding set_fd_opening set_fd_ready set_fd_error cleanup_fd_state
call (opens fd) = set_fd_opening fd
call (readies fd) = set_fd_ready fd
call (fails fd) = set_fd_error fd
call (cleans fd) = cleanup_fd_state fd

unfoldable pub run : FdTable → List Call → FdTable
run t [] = t
run t (c ∷ cs) = run (call c t) cs

opens-IsOwned : (fd : ℤ) (t : FdTable) → IsOwned t → IsOwned (call (opens fd) t)
unfolding call
opens-IsOwned fd t v = record {
  below = λ a p h. ground (arith, v.below a p);
  apart = λ a b p h k. ground (arith, v.below a p, v.below b p, v.apart a b p);
}

cleans-IsOwned : (fd : ℤ) (t : FdTable) → IsOwned t → IsOwned (call (cleans fd) t)
unfolding call
cleans-IsOwned fd t v = record {
  below = λ a p h. ground (arith, v.below a p);
  apart = λ a b p h k. ground (arith, v.apart a b p);
}

pub call-IsOwned : (c : Call) (t : FdTable) → IsOwned t → IsOwned (call c t)
unfolding call
call-IsOwned (opens fd) t v = opens-IsOwned fd t v
call-IsOwned (cleans fd) t v = cleans-IsOwned fd t v
call-IsOwned (readies fd) t v = record {
  below = λ a p h. ground (arith, v.below a p);
  apart = λ a b p h k. ground (arith, v.apart a b p);
}
call-IsOwned (fails fd) t v = record {
  below = λ a p h. ground (arith, v.below a p);
  apart = λ a b p h k. ground (arith, v.apart a b p);
}

pub run-IsOwned : (t : FdTable) (cs : List Call) → IsOwned t → IsOwned (run t cs)
unfolding run
run-IsOwned t [] v = v
run-IsOwned t (c ∷ cs) v = run-IsOwned (call c t) cs (call-IsOwned c t v)

abbrev pub subject : Call → ℤ
subject (opens fd) = fd
subject (readies fd) = fd
subject (fails fd) = fd
subject (cleans fd) = fd

-- A call for one descriptor leaves the state of every other as it is.
pub call-apart :
    (t : FdTable) (c : Call) (fd : ℤ)
    → IsOwned t
    → subject c ≢ fd
    → state_of fd (call c t) ≡ state_of fd t
unfolding call
call-apart t (opens a) fd v h = elim (Option-cases (t.entry fd)) [
  | inl e ↦ ground arith
  | inr (p, e) ↦ ground (arith, v.below fd p)
]
call-apart t (cleans a) fd v h = ground arith
call-apart t (readies a) fd v h = elim (Option-cases (t.entry fd)) [
  | inl e ↦ ground arith
  | inr (p, e) ↦ ground (arith, v.apart a fd p)
]
call-apart t (fails a) fd v h = elim (Option-cases (t.entry fd)) [
  | inl e ↦ ground arith
  | inr (p, e) ↦ ground (arith, v.apart a fd p)
]

-- A status object that no descriptor leads to.
record IsOrphan (p : ℕ) (t : FdTable) : Type 0 where
  old : p < t.next
  unreachable : (a : ℤ) → t.entry a ≢ some p

call-IsOrphan :
    (p : ℕ) (t : FdTable) (c : Call)
    → IsOrphan p t
    → IsOrphan p (call c t) × ((call c t).status p ≡ t.status p)
unfolding call
call-IsOrphan p t (opens fd) o = (
  record {
    old = ground (arith, o.old);
    unreachable = λ a e. ground (arith, o.old, o.unreachable a);
  },
  ground (arith, o.old),
)
call-IsOrphan p t (readies fd) o = (
  record { old = ground (arith, o.old); unreachable = λ a e. ground (arith, o.unreachable a) },
  ground (arith, o.unreachable fd),
)
call-IsOrphan p t (fails fd) o = (
  record { old = ground (arith, o.old); unreachable = λ a e. ground (arith, o.unreachable a) },
  ground (arith, o.unreachable fd),
)
call-IsOrphan p t (cleans fd) o =
    (record { old = o.old; unreachable = λ a e. ground (arith, o.unreachable a) }, refl)

run-IsOrphan :
    (p : ℕ) (t : FdTable) (cs : List Call) → IsOrphan p t → (run t cs).status p ≡ t.status p
unfolding run
run-IsOrphan p t [] o = refl
run-IsOrphan p t (c ∷ cs) o =
    let (o', e) = call-IsOrphan p t c o in run-IsOrphan p (call c t) cs o' ∙ e

-- When a descriptor is opened again, what a thread sees that still waits on the status object of
-- the earlier open never changes, whatever is called afterwards.
pub reopen_strands_waiter :
    (t : FdTable) (fd : ℤ) (p : ℕ) (cs : List Call)
    → IsOwned t
    → t.entry fd ≡ some p
    → (run (call (opens fd) t) cs).status p ≡ t.status p
unfolding call
reopen_strands_waiter t fd p cs v e =
    run-IsOrphan p (call (opens fd) t) cs stranded ∙ ground (arith, v.below fd p e)
  where
    stranded : IsOrphan p (call (opens fd) t)
    stranded = record {
      old = ground (arith, v.below fd p e);
      unreachable = λ a h. ground (arith, v.below fd p e, v.apart a fd p);
    }

abbrev IsSettled : Option FdState → Type 0
IsSettled none = ⊥
IsSettled (some opening) = ⊥
IsSettled (some ready) = Unit
IsSettled (some error) = Unit

call-IsSettled :
    (t : FdTable) (c : Call) (p : ℕ)
    → p < t.next
    → IsSettled (t.status p)
    → (p < (call c t).next) × IsSettled ((call c t).status p)
unfolding call
call-IsSettled t (opens fd) p h s = ground arith
call-IsSettled t (cleans fd) p h s = (h, s)
call-IsSettled t (readies fd) p h s = ground arith
call-IsSettled t (fails fd) p h s = ground arith

-- Once the open of a descriptor has succeeded or failed, a thread that waits on its status object
-- never sees it as opening again, whatever is called afterwards.
run-IsSettled :
    (t : FdTable) (cs : List Call) (p : ℕ)
    → p < t.next
    → IsSettled (t.status p)
    → IsSettled ((run t cs).status p)
unfolding run
run-IsSettled t [] p h s = s
run-IsSettled t (c ∷ cs) p h s =
    let (h', s') = call-IsSettled t c p h s in run-IsSettled (call c t) cs p h' s'

-- The states seen after any number of wake-ups in the state OPENING.
abbrev pub after_opening : ℕ → List FdState → List FdState
after_opening zero rest = rest
after_opening (suc n) rest = opening ∷ after_opening n rest

-- A wait on a descriptor that is being opened ends with the first other state that it sees: it
-- succeeds on READY and fails on ERROR, however many wake-ups come before, and fails if none comes.
pub wait_fd_ready_first :
    (t : FdTable) (fd : ℤ) (n : ℕ) (rest : List FdState)
    → state_of fd t ≡ some opening
    → (wait_fd_ready fd (after_opening n (ready ∷ rest)) t ≡ true)
      × (wait_fd_ready fd (after_opening n (error ∷ rest)) t ≡ false)
      × (wait_fd_ready fd (after_opening n []) t ≡ false)
unfolding wait_fd_ready
wait_fd_ready_first t fd zero rest e = rw e (refl, refl, refl)
wait_fd_ready_first t fd (suc n) rest e = ground (arith, wait_fd_ready_first t fd n rest e)

-- ===== src/Fd/Init.antt =====
-- The first use of the locks of `fd_state_map`: init_fd_state_rwlocks of src/mthvac_comm_client.cpp,
-- which get_fd_rwlock calls each time, in any number of threads and with no lock of its own. A read
-- or a write of the flag, and the initialisation of one lock, are one step each.
use native.Mathlib.Nat.{add-zero}
use mt_hvac.Base.{
  ℕ, ◌+◌, ◌<◌, ◌≤◌, ◌==◌, ◌≡◌, refl, Bool, true, false, arith, if◌then◌else◌, Bool-cases, inl, inr,
  subst, zero, suc, sym, ap, ◌∙◌, ◌≢◌,
}
use mt_hvac.Fd.Locks.{shards}

-- Where a thread is: outside, in the loop with the next lock to initialise, or behind the call.
pub data Place : Type 0 where
  outside inside : Place
  filling : ℕ → Place

-- The flag, how often each lock has been initialised, and the threads.
pub record Locks : Type 0 where
  pub initialized : Bool
  pub inits : ℕ → ℕ
  pub place : ℕ → Place

abbrev pub at : (ℕ → Place) → ℕ → Place → ℕ → Place
at places i p j = if i == j then p else places j

abbrev pub once_more : (ℕ → ℕ) → ℕ → ℕ → ℕ
once_more inits k j = if k == j then inits j + 1 else inits j

pub data Step (s : Locks) : Locks → Type 0 where
  finds_set :
      (i : ℕ)
      → s.place i ≡ outside
      → s.initialized ≡ true
      → Step s (record s { place = at s.place i inside })
  finds_clear :
      (i : ℕ)
      → s.place i ≡ outside
      → s.initialized ≡ false
      → Step s (record s { place = at s.place i (filling 0) })
  init :
      (i k : ℕ)
      → s.place i ≡ filling k
      → k < shards
      → Step s (record s { inits = once_more s.inits k; place = at s.place i (filling (k + 1)) })
  sets :
      (i : ℕ)
      → s.place i ≡ filling shards
      → Step s (record s { initialized = true; place = at s.place i inside })
  leaves : (i : ℕ) → s.place i ≡ inside → Step s (record s { place = at s.place i outside })

abbrev pub untouched : Locks
untouched = record { initialized = false; inits = λ k. 0; place = λ i. outside }

pub data Reach : Locks → Type 0 where
  start : Reach untouched
  next : {s t : Locks} → Reach s → Step s t → Reach t

-- How many locks a thread knows to be initialised.
abbrev filled : Place → ℕ
filled outside = 0
filled inside = shards
filled (filling k) = k

-- The locks below a number have been initialised.
abbrev pub AreInitialized : ℕ → (ℕ → ℕ) → Type 0
AreInitialized n inits = (k : ℕ) → k < n → 0 < inits k

abbrev IsKept : Locks → Type 0
IsKept s =
    (s.initialized ≡ true → AreInitialized shards s.inits)
    × ((i : ℕ) → AreInitialized (filled (s.place i)) s.inits)

-- One thread has moved, and knows of its locks.
at-filled :
    (places : ℕ → Place) (i : ℕ) (p : Place) (inits : ℕ → ℕ)
    → AreInitialized (filled p) inits
    → ((j : ℕ) → AreInitialized (filled (places j)) inits)
    → (j : ℕ) → AreInitialized (filled (at places i p j)) inits
at-filled places i p inits mine all j = elim (Bool-cases (i == j)) [
  | inl same ↦ rw same mine
  | inr other ↦ rw other (all j)
]

none_filled : (inits : ℕ → ℕ) → AreInitialized 0 inits
none_filled inits k h = omega arith

once_more-keeps :
    (n m : ℕ) (inits : ℕ → ℕ) → AreInitialized n inits → AreInitialized n (once_more inits m)
once_more-keeps n m inits v k h = ground (arith, v k h)

once_more-AreInitialized :
    (m : ℕ) (inits : ℕ → ℕ) → AreInitialized m inits → AreInitialized (m + 1) (once_more inits m)
once_more-AreInitialized m inits v k h = elim (Bool-cases (m == k)) [
  | inl same ↦ ground arith
  | inr other ↦ ground (arith, v k (ground arith))
]

Step-IsKept : {s t : Locks} → Step s t → IsKept s → IsKept t
Step-IsKept {s} (finds_set i p e) (flag, threads) =
    (flag, at-filled s.place i inside s.inits (flag e) threads)
Step-IsKept {s} (finds_clear i p e) (flag, threads) =
    (flag, at-filled s.place i (filling 0) s.inits (none_filled s.inits) threads)
Step-IsKept {s} (init i m p h) (flag, threads) = (
  λ e. once_more-keeps shards m s.inits (flag e),
  at-filled s.place i (filling (m + 1)) (once_more s.inits m)
      (once_more-AreInitialized m s.inits
        (subst (λ x. AreInitialized (filled x) s.inits) p (threads i)))
      (λ j. once_more-keeps (filled (s.place j)) m s.inits (threads j)),
)
Step-IsKept {s} (sets i p) (flag, threads) =
    let all = subst (λ x. AreInitialized (filled x) s.inits) p (threads i) in
    (λ e. all, at-filled s.place i inside s.inits all threads)
Step-IsKept {s} (leaves i p) (flag, threads) =
    (flag, at-filled s.place i outside s.inits (none_filled s.inits) threads)

Reach-IsKept : {s : Locks} → Reach s → IsKept s
Reach-IsKept start = (λ e. cc, λ i. none_filled (λ k. 0))
Reach-IsKept (next r st) = Step-IsKept st (Reach-IsKept r)

-- However many threads call and however they interleave, a thread that is behind the call finds every
-- lock initialised.
pub inside-AreInitialized :
    {s : Locks} (i : ℕ) → Reach s → s.place i ≡ inside → AreInitialized shards s.inits
inside-AreInitialized {s} i r p =
    subst (λ x. AreInitialized (filled x) s.inits) p ((Reach-IsKept r).1 i)

at_self : (places : ℕ → Place) (i : ℕ) (p : Place) → at places i p i ≡ p
at_self places i p = ground arith

at_other : (places : ℕ → Place) (i j : ℕ) (p : Place) → i ≢ j → at places i p j ≡ places j
at_other places i j p h = ground (arith, h)

zero_one : ◌≢◌ {A = ℕ} 0 1
zero_one e = omega (arith, e)

-- A thread goes through some of the locks, while the others wait.
fill :
    (n : ℕ) (i k : ℕ) {s : Locks}
    → Reach s
    → s.place i ≡ filling k
    → k + n ≤ shards
    → (t : Locks) × Reach t
      × (t.place i ≡ filling (k + n))
      × ((j : ℕ) → i ≢ j → t.place j ≡ s.place j)
fill zero i k {s} r p h = (s, r, p ∙ ap filling (sym (add-zero k)), λ j ne. refl)
fill (suc n) i k {s} r p h =
    let (t, r', p', same) =
      fill n i (k + 1) (next r (init i k p (omega arith))) (at_self s.place i (filling (k + 1)))
        (omega arith) in
    (
      t,
      r',
      p' ∙ ap filling (omega arith),
      λ j ne. same j ne ∙ at_other s.place i j (filling (k + 1)) ne,
    )

-- Two threads that both find the flag clear both initialise: any of the locks can be initialised
-- again when one of them is behind the call, where it may hold it.
pub init_again :
    (k : ℕ)
    → k < shards
    → (s : Locks) × Reach s
      × (s.place 0 ≡ inside)
      × (0 < s.inits k)
      × Step s (record s { inits = once_more s.inits k; place = at s.place 1 (filling (k + 1)) })
init_again k h =
    let r : Reach _ = next (next start (finds_clear 0 refl refl)) (finds_clear 1 refl refl) in
    let (t, r₁, p₁, same₁) = fill shards 0 0 r refl (omega arith) in
    let r₂ = next r₁ (sets 0 (p₁ ∙ ap filling (omega arith))) in
    let (u, r₃, p₃, same₃) =
      fill k 1 0 r₂ (at_other t.place 0 1 inside zero_one ∙ same₁ 1 zero_one) (omega arith) in
    let zero_inside : u.place 0 ≡ inside =
      same₃ 0 (λ e. zero_one (sym e)) ∙ at_self t.place 0 inside in
    (
      u,
      r₃,
      zero_inside,
      inside-AreInitialized 0 r₃ zero_inside k h,
      init 1 k (p₃ ∙ ap filling (omega arith)) h,
    )

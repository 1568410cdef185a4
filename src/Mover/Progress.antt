-- ===== src/Mover/Progress.antt =====
-- A data mover that has been woken goes through everything that is in the queue: the loop of
-- src/mthvac_data_mover.cpp.
use mathlib.Core.List.{append_assoc, append-nil}
use mt_hvac.Base.{
  ℕ, ◌+◌, ◌≤◌, ◌≡◌, refl, sym, ap, ◌∙◌, ◌⊎◌, inl, inr, List, [], ◌∷◌, ◌++◌, arith, length, Text,
}
use mt_hvac.Mover.Wakeups.{
  Shared, Phase, sleeping, awake, copying, Step, close, spurious, wake, copy, wait, Run, here, next,
  local,
}

-- How many steps a run has.
abbrev pub steps : {s t : Shared} {paths : List Text} → Run s paths t → ℕ
steps here = 0
steps (next r st) = steps r + 1

-- Every file that was in the queue has been gone through, in order, and the queue is empty.
abbrev pub IsDrained : Shared → Shared → Type 0
IsDrained s t = (t.queue ≡ []) × (t.taken ≡ s.taken ++ s.queue)

-- The mover has taken the queue and goes through it, one file a step, or is done.
abbrev IsUnderway : Shared → ℕ → Shared → Type 0
IsUnderway s n t =
    (t.queue ≡ [])
    × (t.taken ++ local t.phase ≡ s.taken ++ s.queue)
    × ((local t.phase ≡ []) ⊎ (n + length (local t.phase) ≡ length s.queue + 1))

-- It is at the start, or underway.
abbrev HasGone : Shared → ℕ → Shared → Type 0
HasGone s n t = ((t ≡ s) × (n ≡ 0)) ⊎ IsUnderway s n t

append-eq-nil : (xs ys : List Text) → xs ++ ys ≡ [] → (xs ≡ []) × (ys ≡ [])
append-eq-nil [] ys h = (refl, h)
append-eq-nil (x ∷ xs) ys h = cc

first-IsUnderway :
    (s : Shared) {t u : Shared} {more : List Text} (n : ℕ)
    → t ≡ s
    → n ≡ 0
    → t.phase ≡ awake
    → more ≡ []
    → Step t more u
    → IsUnderway s (n + 1) u
first-IsUnderway s n same zero_steps a e (close path) = cc
first-IsUnderway s n same zero_steps a e (spurious h) = cc
first-IsUnderway s n same zero_steps a e (wake h) = (
  refl,
  ap (λ x. x.taken ++ x.queue) same,
  inr (omega (arith, zero_steps, ap (λ x. length x.queue) same)),
)
first-IsUnderway s n same zero_steps a e (copy path rest h) = cc
first-IsUnderway s n same zero_steps a e (wait h) = cc

one_less :
    (n m : ℕ) (phase : Phase) (path : Text) (rest : List Text)
    → phase ≡ copying (path ∷ rest)
    → (local phase ≡ []) ⊎ (n + length (local phase) ≡ m + 1)
    → n + 1 + length rest ≡ m + 1
one_less n m phase path rest h (inl none_left) = cc
one_less n m phase path rest h (inr k) = omega (arith, k, ap (λ p. length (local p)) h)

Step-IsUnderway :
    (s : Shared) {t u : Shared} {more : List Text} (n : ℕ)
    → IsUnderway s n t
    → more ≡ []
    → Step t more u
    → IsUnderway s (n + 1) u
Step-IsUnderway s n v e (close path) = cc
Step-IsUnderway s {t = t} n (empty, gone, left) e (spurious h) =
    (empty, ap (λ p. t.taken ++ local p) (sym h) ∙ gone, inl refl)
Step-IsUnderway s {t = t} n (empty, gone, left) e (wake h) =
    (refl, ap (λ q. t.taken ++ q) empty ∙ ap (λ p. t.taken ++ local p) (sym h) ∙ gone, inl empty)
Step-IsUnderway s {t = t} n (empty, gone, left) e (copy path rest h) = (
  empty,
  append_assoc t.taken (path ∷ []) rest ∙ ap (λ p. t.taken ++ local p) (sym h) ∙ gone,
  inr (one_less n (length s.queue) t.phase path rest h left),
)
Step-IsUnderway s {t = t} n (empty, gone, left) e (wait h) =
    (empty, ap (λ p. t.taken ++ local p) (sym h) ∙ gone, inl refl)

Run-HasGone :
    {s t : Shared} {paths : List Text} (r : Run s paths t)
    → s.phase ≡ awake
    → paths ≡ []
    → HasGone s (steps r) t
Run-HasGone here a e = inl (refl, refl)
Run-HasGone {s} (next {paths = paths} {more = more} r st) a e =
    let (none_before, none_now) = append-eq-nil paths more e in
    elim (Run-HasGone r a none_before) [
      | inl (at_start, n) ↦
          inr (first-IsUnderway s (steps r) at_start n (ap (λ x. x.phase) at_start ∙ a) none_now st)
      | inr v ↦ inr (Step-IsUnderway s (steps r) v none_now st)
    ]

copying-local :
    (p : Phase) (path : Text) (rest : List Text) → local p ≡ path ∷ rest → p ≡ copying (path ∷ rest)
copying-local sleeping path rest h = cc
copying-local awake path rest h = cc
copying-local (copying paths) path rest h = ap copying h

IsUnderway-progress :
    (s t : Shared) (n : ℕ) (left : List Text)
    → local t.phase ≡ left
    → IsUnderway s n t
    → IsDrained s t ⊎ ((n ≤ length s.queue) × (u : Shared) × Step t [] u)
IsUnderway-progress s t n [] h (empty, gone, v) =
    inl (empty, sym (append-nil t.taken) ∙ ap (λ l. t.taken ++ l) (sym h) ∙ gone)
IsUnderway-progress s t n (path ∷ rest) h (empty, gone, inl none_left) = cc
IsUnderway-progress s t n (path ∷ rest) h (empty, gone, inr k) =
    inr (omega (arith, k, ap length h), _, copy path rest (copying-local t.phase path rest h))

-- As long as no file is closed, a mover that has been woken is bound to empty the queue: after any of
-- its steps, spurious wake-ups included, either it has gone through every file of the queue, in
-- order, or it has made no more steps than there were files and can make another.
pub Run-IsDrained :
    {s t : Shared} (r : Run s [] t)
    → s.phase ≡ awake
    → IsDrained s t ⊎ ((steps r ≤ length s.queue) × (u : Shared) × Step t [] u)
Run-IsDrained {s} {t} r a = elim (Run-HasGone r a refl) [
  | inl (at_start, n) ↦ inr (omega arith, _, wake (ap (λ x. x.phase) at_start ∙ a))
  | inr v ↦ IsUnderway-progress s t (steps r) (local t.phase) refl v
]

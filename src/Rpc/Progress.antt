-- ===== src/Rpc/Progress.antt =====
-- The thread that drives Mercury and its end: `hvac_progress_fn` and `hvac_shutdown_comm` of
-- src/mthvac_comm.cpp. What a call of HG_Trigger finds is left open.
use mt_hvac.Base.{
  ℕ, suc, ◌+◌, ◌≤◌, ◌<◌, ◌≡◌, refl, ◌⊎◌, inl, inr, Bool, true, false, not, ◌&&◌, Bool-cases, arith,
}

-- Where the thread stands: at the test of the outer loop, at HG_Trigger, after it with whether it has
-- succeeded and run a callback, at the `if`, at HG_Progress, and returned.
pub data Place : Type 0 where
  looping triggering : Place
  triggered : Bool → Place
  choosing progressing returned : Place

pub record Progress : Type 0 where
  pub place : Place
  pub shutdown_flag : Bool

abbrev pub new_progress : Progress
new_progress = record { place = looping; shutdown_flag = false }

-- One action of the thread.
pub data Action (s : Progress) : Progress → Type 0 where
  enter_loop :
      s.place ≡ looping → s.shutdown_flag ≡ false → Action s (record s { place = triggering })
  leave_loop : s.place ≡ looping → s.shutdown_flag ≡ true → Action s (record s { place = returned })
  trigger : (found : Bool) → s.place ≡ triggering → Action s (record s { place = triggered found })
  trigger_again :
      {found : Bool}
      → s.place ≡ triggered found
      → (found && not s.shutdown_flag) ≡ true
      → Action s (record s { place = triggering })
  stop_triggering :
      {found : Bool}
      → s.place ≡ triggered found
      → (found && not s.shutdown_flag) ≡ false
      → Action s (record s { place = choosing })
  choose :
      s.place ≡ choosing → s.shutdown_flag ≡ false → Action s (record s { place = progressing })
  skip : s.place ≡ choosing → s.shutdown_flag ≡ true → Action s (record s { place = looping })
  progress : s.place ≡ progressing → Action s (record s { place = looping })

-- hvac_shutdown_comm
abbrev pub shutdown_comm : Progress → Progress
shutdown_comm s = record s { shutdown_flag = true }

-- So many actions of the thread, with shutdowns in between.
pub data Run : ℕ → Progress → Progress → Type 0 where
  rest : {s : Progress} → Run 0 s s
  act : {n : ℕ} {s t u : Progress} → Action s t → Run n t u → Run (suc n) s u
  shut : {n : ℕ} {s u : Progress} → Run n (shutdown_comm s) u → Run n s u

-- How many actions there are at most after a shutdown.
abbrev pub left : Place → ℕ
left returned = 0
left looping = 1
left choosing = 2
left progressing = 2
left (triggered found) = 3
left triggering = 4

left-le : (p : Place) → left p ≤ 4
left-le p = ground arith

Action-left :
    {s t : Progress}
    → s.shutdown_flag ≡ true
    → Action s t
    → (t.shutdown_flag ≡ true) × (left t.place < left s.place)
Action-left h (enter_loop e f) = cc
Action-left h (leave_loop e f) = ground arith
Action-left h (trigger found e) = ground arith
Action-left h (trigger_again {found} e f) = ground arith
Action-left h (stop_triggering e f) = ground arith
Action-left h (choose e f) = cc
Action-left h (skip e f) = ground arith
Action-left h (progress e) = ground arith

Run-left :
    {n : ℕ} {s t : Progress}
    → s.shutdown_flag ≡ true
    → Run n s t
    → (t.shutdown_flag ≡ true) × (n + left t.place ≤ left s.place)
Run-left h rest = (h, omega arith)
Run-left h (act a r) =
    let (h', less) = Action-left h a in let (h'', more) = Run-left h' r in (h'', omega arith)
Run-left h (shut r) = Run-left refl r

goes_on :
    (s : Progress) (p : Place) → s.place ≡ p → (s.place ≡ returned) ⊎ ((t : Progress) × Action s t)
goes_on s looping e = elim (Bool-cases s.shutdown_flag) [
  | inl h ↦ inr (_, leave_loop e h)
  | inr h ↦ inr (_, enter_loop e h)
]
goes_on s triggering e = inr (_, trigger true e)
goes_on s (triggered found) e = elim (Bool-cases (found && not s.shutdown_flag)) [
  | inl h ↦ inr (_, trigger_again e h)
  | inr h ↦ inr (_, stop_triggering e h)
]
goes_on s choosing e = elim (Bool-cases s.shutdown_flag) [
  | inl h ↦ inr (_, skip e h)
  | inr h ↦ inr (_, choose e h)
]
goes_on s progressing e = inr (_, progress e)
goes_on s returned e = inl e

-- After a shutdown the thread acts at most four times more, and as long as it has not returned it
-- can act: it returns, wherever it stood and whatever its calls of Mercury find.
pub shutdown_returns :
    (n : ℕ) (s t : Progress)
    → Run n (shutdown_comm s) t
    → (n + left t.place ≤ 4) × ((t.place ≡ returned) ⊎ ((u : Progress) × Action t u))
shutdown_returns n s t r =
    let (h, more) = Run-left refl r in (omega (arith, left-le s.place), goes_on t t.place refl)

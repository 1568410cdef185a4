-- ===== src/Fd/States.antt =====
-- The map of shared status objects of src/mthvac_comm_client.cpp against a plain map from descriptors
-- to states.
use mathlib.Core.Path.{fun_ext}
use mathlib.Core.Logic.{if_pos, if_neg}
use mt_hvac.Base.{
  ℕ, ◌≡◌, refl, ◌∙◌, ap, ◌≢◌, sym, subst, Option, none, some, List, [], ◌∷◌, arith, ℤ, int_key,
  Option-cases, ite, inl, inr,
}
use mt_hvac.Fd.{FdState, opening, ready, error, FdTable, state_of}
use mt_hvac.Fd.Waiting.{
  IsOwned, Call, opens, readies, fails, cleans, call, run, subject, call-IsOwned, call-apart,
}

-- Moreover every pointer in the map leads to a status object that exists.
pub record IsBacked (t : FdTable) : Type 0 where
  pub owned : IsOwned t
  pub exists : (fd : ℤ) (p : ℕ) → t.entry fd ≡ some p → (st : FdState) × (t.status p ≡ some st)

-- What a call for a descriptor makes of its state, where `none` is a descriptor without one.
abbrev pub becomes : Call → Option FdState → Option FdState
becomes (opens fd) st = some opening
becomes (readies fd) none = none
becomes (readies fd) (some st) = some ready
becomes (fails fd) none = none
becomes (fails fd) (some st) = some error
becomes (cleans fd) st = none

-- A plain map: a call changes the state of its own descriptor only.
unfoldable pub states : List Call → (ℤ → Option FdState) → ℤ → Option FdState
states [] s = s
states (c ∷ cs) s = states cs (λ fd. ite (int_key.dec (subject c) fd) (becomes c (s fd)) (s fd))

call-exists :
    (c : Call) (t : FdTable) (fd : ℤ) (p : ℕ)
    → IsBacked t
    → (call c t).entry fd ≡ some p
    → (st : FdState) × ((call c t).status p ≡ some st)
unfolding call
call-exists c t fd p v h = elim (Option-cases ((call c t).status p)) [
  | inl e ↦ absurd (lost c e h)
  | inr found ↦ found
]
  where
    lost : (c : Call) → (call c t).status p ≡ none → (call c t).entry fd ≢ some p
    lost (opens a) e h = elim (Option-cases (t.entry fd)) [
      | inl n ↦ ground arith
      | inr (q, k) ↦
          let (st, found) = v.exists fd q k in let low = v.owned.below fd q k in ground arith
    ]
    lost (readies a) e h = let (st, found) = v.exists fd p (ground arith) in ground arith
    lost (fails a) e h = let (st, found) = v.exists fd p (ground arith) in ground arith
    lost (cleans a) e h = let (st, found) = v.exists fd p (ground arith) in ground arith

call-IsBacked : (c : Call) (t : FdTable) → IsBacked t → IsBacked (call c t)
call-IsBacked c t v = record {
  owned = call-IsOwned c t v.owned;
  exists = λ fd p h. call-exists c t fd p v h;
}

state_of-call_self :
    (c : Call) (t : FdTable)
    → IsBacked t
    → state_of (subject c) (call c t) ≡ becomes c (state_of (subject c) t)
unfolding call
state_of-call_self (opens fd) t v = ground arith
state_of-call_self (cleans fd) t v = ground arith
state_of-call_self (readies fd) t v = elim (Option-cases (t.entry fd)) [
  | inl e ↦ ground arith
  | inr (p, e) ↦ let (st, found) = v.exists fd p e in ground arith
]
state_of-call_self (fails fd) t v = elim (Option-cases (t.entry fd)) [
  | inl e ↦ ground arith
  | inr (p, e) ↦ let (st, found) = v.exists fd p e in ground arith
]

state_of-call :
    (c : Call) (t : FdTable) (fd : ℤ)
    → IsBacked t
    → state_of fd (call c t)
      ≡ ite (int_key.dec (subject c) fd) (becomes c (state_of fd t)) (state_of fd t)
state_of-call c t fd v = elim (int_key.dec (subject c) fd) [
  | yes e ↦
      subst (λ d. state_of d (call c t) ≡ becomes c (state_of d t)) e (state_of-call_self c t v)
      ∙ sym (if_pos (int_key.dec (subject c) fd) e _ _)
  | no ne ↦ call-apart t c fd v.owned ne ∙ sym (if_neg (int_key.dec (subject c) fd) ne _ _)
]

-- After any calls, every pointer in the map leads to a status object that exists, no two descriptors
-- share one, and the state of every descriptor is what a plain map from descriptors to states would
-- have, if at the start the pointers lead to objects that exist, are not shared and are none that a
-- later open would make.
pub run-states :
    (t : FdTable) (cs : List Call)
    → IsBacked t
    → IsBacked (run t cs) × ((fd : ℤ) → state_of fd (run t cs) ≡ states cs (λ d. state_of d t) fd)
unfolding run states
run-states t [] v = (v, λ fd. refl)
run-states t (c ∷ cs) v =
    let (v', same) = run-states (call c t) cs (call-IsBacked c t v) in
    (v', λ fd. same fd ∙ ap (λ s. states cs s fd) (fun_ext (λ d. state_of-call c t d v)))

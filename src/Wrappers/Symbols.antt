-- ===== src/Wrappers/Symbols.antt =====
-- The C library's functions behind the wrappers: the macro MAP_OR_FAIL of src/mthvac_internal.h, with
-- which each wrapper of src/wrappers.c begins when it is preloaded.
use mt_hvac.Base.{
  ◌≡◌, ◌≢◌, refl, Option, none, some, Text, text_key, update, update_self, update_ne, M, subst, ap,
  ◌∙◌, returns, stops, exited,
}

-- The pointers `__real_open`, `__real_read` and so on by the names of their functions, and what
-- `dlsym(RTLD_NEXT, ...)` finds, a parameter.
module _ (Pointer : Type 0) (dlsym : Text → Option Pointer) where
  abbrev pub Symbols : Type 0
  Symbols = Text → Option Pointer

  found_or_fail : Text → Option Pointer → M Symbols Pointer
  found_or_fail func none s = stops exited
  found_or_fail func (some f) s = returns (f, update s func f)

  mapped_or : Text → Option Pointer → M Symbols Pointer
  unfolding found_or_fail
  mapped_or func none s = found_or_fail func (dlsym func) s
  mapped_or func (some f) s = returns (f, s)

  -- MAP_OR_FAIL: a function that is not found ends the process.
  pub map_or_fail : Text → M Symbols Pointer
  unfolding mapped_or
  map_or_fail func s = mapped_or func (s func) s

  -- A function that has been found is not looked up again.
  map_or_fail-mapped :
      (func : Text) (f : Pointer) (s : Symbols)
      → s func ≡ some f
      → map_or_fail func s ≡ returns (f, s)
  unfolding map_or_fail
  map_or_fail-mapped func f s e = rw (e, mapped_or)

  -- The pointer is entered, and every other stays.
  abbrev IsMapped : Text → Pointer → Symbols → Symbols → Type 0
  IsMapped func f s s' = (s' func ≡ some f) × ((other : Text) → func ≢ other → s' other ≡ s other)

  found_or_fail-IsMapped :
      (func : Text) (found : Option Pointer) (f : Pointer) (s s' : Symbols)
      → found_or_fail func found s ≡ returns (f, s')
      → IsMapped func f s s'
  unfolding found_or_fail
  found_or_fail-IsMapped func none f s s' h = cc
  found_or_fail-IsMapped func (some g) f s s' h =
      let e : update s func g ≡ s' = cc in
      let k : g ≡ f = cc in
      subst (IsMapped func f s) e (
        subst (λ x. update s func g func ≡ some x) k (update_self s func g),
        λ other ne. update_ne s func other g ne,
      )

  mapped_or-IsMapped :
      (func : Text) (o : Option Pointer) (f : Pointer) (s s' : Symbols)
      → s func ≡ o
      → mapped_or func o s ≡ returns (f, s')
      → IsMapped func f s s'
  unfolding mapped_or
  mapped_or-IsMapped func none f s s' e h = found_or_fail-IsMapped func (dlsym func) f s s' h
  mapped_or-IsMapped func (some g) f s s' e h =
      let k : s ≡ s' = cc in
      let l : g ≡ f = cc in subst (IsMapped func f s) k (e ∙ ap some l, λ other ne. refl)

  -- What a call returns, every later call returns, and it leaves the pointers as they are; those of
  -- other functions have not changed.
  map_or_fail-again :
      (func : Text) (f : Pointer) (s s' : Symbols)
      → map_or_fail func s ≡ returns (f, s')
      → (map_or_fail func s' ≡ returns (f, s'))
        × ((other : Text) → func ≢ other → s' other ≡ s other)
  unfolding map_or_fail
  map_or_fail-again func f s s' h =
      let (mapped, others) = mapped_or-IsMapped func (s func) f s s' refl h in
      (map_or_fail-mapped func f s' mapped, others)

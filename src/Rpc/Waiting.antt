-- ===== src/Rpc/Waiting.antt =====
-- The wait for an answer and the callback that brings it, interleaved: `hvac_sync_context` and
-- `hvac_wait_for_operation` of src/mthvac_comm_client.cpp, and the end of `hvac_open_cb`,
-- `hvac_read_cb` and `hvac_seek_cb` there. The context lies on the caller's stack.
use mt_hvac.Base.{ℕ, ◌<◌, ◌≡◌, ◌≢◌, refl, ◌⊎◌, inl, inr, Bool, true, false, arith, ℤ, minus_one}

-- Where the caller stands: before its lock, under it at the loop's test, in `pthread_cond_wait`,
-- woken there, under the lock with the result, and returned, with the context destroyed.
pub data Caller : Type 0 where
  arriving testing waiting woken : Caller
  leaving : ℤ → Caller
  gone : ℤ → Caller

-- Where the callback stands: before its lock, and then after each of its five actions on the context.
pub data Callback : Type 0 where
  before holding marked filled signalled finished : Callback

pub record Context : Type 0 where
  pub done : Bool
  pub result : ℤ
  pub caller : Caller
  pub callback : Callback

-- hvac_sync_context()
abbrev pub new_context : Context
new_context = record { done = false; result = minus_one; caller = arriving; callback = before }

-- Who holds `done_mutex`.
abbrev pub caller_holds : Caller → Bool
caller_holds testing = true
caller_holds (leaving r) = true
caller_holds _ = false

abbrev pub callback_holds : Callback → Bool
callback_holds before = false
callback_holds finished = false
callback_holds _ = true

-- `pthread_cond_broadcast`
abbrev pub broadcast : Caller → Caller
broadcast waiting = woken
broadcast arriving = arriving
broadcast testing = testing
broadcast woken = woken
broadcast (leaving r) = leaving r
broadcast (gone r) = gone r

-- One action of either thread on the context, where the server's answer is `answer`.
pub data Step (answer : ℤ) (s : Context) : Context → Type 0 where
  lock :
      s.caller ≡ arriving
      → callback_holds s.callback ≡ false
      → Step answer s (record s { caller = testing })
  wait : s.caller ≡ testing → s.done ≡ false → Step answer s (record s { caller = waiting })
  spurious : s.caller ≡ waiting → Step answer s (record s { caller = woken })
  relock :
      s.caller ≡ woken
      → callback_holds s.callback ≡ false
      → Step answer s (record s { caller = testing })
  take : s.caller ≡ testing → s.done ≡ true → Step answer s (record s { caller = leaving s.result })
  leave : {r : ℤ} → s.caller ≡ leaving r → Step answer s (record s { caller = gone r })
  call_back :
      s.callback ≡ before
      → caller_holds s.caller ≡ false
      → Step answer s (record s { callback = holding })
  mark : s.callback ≡ holding → Step answer s (record s { done = true; callback = marked })
  fill : s.callback ≡ marked → Step answer s (record s { result = answer; callback = filled })
  broadcasts :
      s.callback ≡ filled
      → Step answer s (record s { caller = broadcast s.caller; callback = signalled })
  unlock : s.callback ≡ signalled → Step answer s (record s { callback = finished })

pub data Reach (answer : ℤ) : Context → Type 0 where
  start : Reach answer new_context
  next : {s t : Context} → Reach answer s → Step answer s t → Reach answer t

abbrev has_marked : Callback → Bool
has_marked before = false
has_marked holding = false
has_marked _ = true

abbrev has_filled : Callback → Bool
has_filled before = false
has_filled holding = false
has_filled marked = false
has_filled _ = true

abbrev has_signalled : Callback → Bool
has_signalled signalled = true
has_signalled finished = true
has_signalled _ = false

-- What the caller's place says about the rest.
abbrev Fits : ℤ → Callback → Caller → Type 0
Fits answer c arriving = Unit {0}
Fits answer c testing = callback_holds c ≡ false
Fits answer c waiting = has_signalled c ≡ false
Fits answer c woken = Unit {0}
Fits answer c (leaving r) = (c ≡ finished) × (r ≡ answer)
Fits answer c (gone r) = (c ≡ finished) × (r ≡ answer)

record IsValid (answer : ℤ) (s : Context) : Type 0 where
  marks : s.done ≡ has_marked s.callback
  fills : has_filled s.callback ≡ true → s.result ≡ answer
  fits : Fits answer s.callback s.caller

Step-IsValid : {answer : ℤ} {s t : Context} → IsValid answer s → Step answer s t → IsValid answer t
Step-IsValid v (lock e h) = record { marks = v.marks; fills = v.fills; fits = h }
Step-IsValid v (wait e h) = ground (arith, v.fills)
Step-IsValid v (spurious e) = ground (arith, v.fills)
Step-IsValid v (relock e h) = ground (arith, v.fills)
Step-IsValid v (take e h) = ground (arith, v.fills)
Step-IsValid v (leave e) = ground (arith, v.fills)
Step-IsValid v (call_back e h) = ground (arith, v.fills)
Step-IsValid v (mark e) = ground (arith, v.fills)
Step-IsValid v (fill e) = ground (arith, v.fills)
Step-IsValid v (broadcasts e) = ground (arith, v.fills)
Step-IsValid v (unlock e) = ground (arith, v.fills)

Reach-IsValid : {answer : ℤ} {s : Context} → Reach answer s → IsValid answer s
Reach-IsValid start = ground arith
Reach-IsValid (next r st) = Step-IsValid (Reach-IsValid r) st

gone_stops :
    {answer r : ℤ} {s t : Context} → s.caller ≡ gone r → s.callback ≡ finished → Step answer s t → ⊥
gone_stops g f (lock e h) = cc
gone_stops g f (wait e h) = cc
gone_stops g f (spurious e) = cc
gone_stops g f (relock e h) = cc
gone_stops g f (take e h) = cc
gone_stops g f (leave e) = cc
gone_stops g f (call_back e h) = cc
gone_stops g f (mark e) = cc
gone_stops g f (fill e) = cc
gone_stops g f (broadcasts e) = cc
gone_stops g f (unlock e) = cc

-- However the two threads interleave, with any spurious wake-ups: a caller that has returned has
-- returned the server's answer, and nobody acts on the destroyed context after that.
pub wait_returns :
    {answer : ℤ} {s : Context} (r : ℤ)
    → Reach answer s
    → s.caller ≡ gone r
    → (r ≡ answer) × ((t : Context) → Step answer s t → ⊥)
wait_returns {answer} {s} r reached g =
    let v = Reach-IsValid reached in
    let f : s.callback ≡ finished = ground arith in (ground arith, λ t st. gone_stops g f st)

-- A wake-up that no broadcast has caused.
abbrev pub IsSpurious : {answer : ℤ} {s t : Context} → Step answer s t → Type 0
IsSpurious (lock e h) = ⊥
IsSpurious (wait e h) = ⊥
IsSpurious (spurious e) = Unit
IsSpurious (relock e h) = ⊥
IsSpurious (take e h) = ⊥
IsSpurious (leave e) = ⊥
IsSpurious (call_back e h) = ⊥
IsSpurious (mark e) = ⊥
IsSpurious (fill e) = ⊥
IsSpurious (broadcasts e) = ⊥
IsSpurious (unlock e) = ⊥

-- How many actions the caller still has before it at most, once the callback has ended.
abbrev pub rank : Caller → ℕ
rank (gone r) = 0
rank (leaving r) = 1
rank testing = 2
rank arriving = 3
rank woken = 3
rank waiting = 4

-- The caller does not wait once the callback has ended: the broadcast has woken it.
awake : {answer : ℤ} (s : Context) → IsValid answer s → s.callback ≡ finished → s.caller ≢ waiting
awake s v f e = ground (arith, v.fits)

goes_on :
    {answer : ℤ} (s : Context) (c : Caller)
    → s.caller ≡ c
    → IsValid answer s
    → s.callback ≡ finished
    → (s.caller ≡ gone answer) ⊎ ((t : Context) × (st : Step answer s t) × ¬ IsSpurious st)
goes_on s arriving e v f = inr (record s { caller = testing }, lock e (ground arith), λ x. x)
goes_on s testing e v f =
    inr (record s { caller = leaving s.result }, take e (ground arith), λ x. x)
goes_on s waiting e v f = absurd (awake s v f e)
goes_on s woken e v f = inr (record s { caller = testing }, relock e (ground arith), λ x. x)
goes_on s (leaving r) e v f = inr (record s { caller = gone r }, leave e, λ x. x)
goes_on s (gone r) e v f = inl (ground arith)

falls :
    {answer : ℤ} {s t : Context}
    → IsValid answer s
    → s.callback ≡ finished
    → (st : Step answer s t)
    → (t.callback ≡ finished) × (rank t.caller < rank s.caller) × ¬ IsSpurious st
falls v f (lock e h) = (f, ground arith, λ x. x)
falls v f (wait e h) = ground arith
falls {s} v f (spurious e) = absurd (awake s v f e)
falls v f (relock e h) = (f, ground arith, λ x. x)
falls v f (take e h) = (f, ground arith, λ x. x)
falls v f (leave e) = (f, ground arith, λ x. x)
falls v f (call_back e h) = cc
falls v f (mark e) = cc
falls v f (fill e) = cc
falls v f (broadcasts e) = cc
falls v f (unlock e) = cc

near : (answer : ℤ) (s : Context) → s.caller ≢ waiting → rank s.caller < 4
near answer s h = close s.caller refl
  where
    close : (c : Caller) → s.caller ≡ c → rank c < 4
    close arriving e = ground arith
    close testing e = ground arith
    close waiting e = absurd (h e)
    close woken e = ground arith
    close (leaving r) e = ground arith
    close (gone r) e = ground arith

-- Once the callback has ended, the wait ends without any spurious wake-up, in three actions of the
-- caller at most: while the caller has not returned the answer, there is an action that is no
-- spurious wake-up, and every possible action is none and takes the caller closer, by a measure
-- that is at most three.
pub wait_terminates :
    {answer : ℤ} {s : Context}
    → Reach answer s
    → s.callback ≡ finished
    → (rank s.caller < 4)
      × ((s.caller ≡ gone answer) ⊎ ((t : Context) × (st : Step answer s t) × ¬ IsSpurious st))
      × ((t : Context) (st : Step answer s t)
          → (t.callback ≡ finished) × (rank t.caller < rank s.caller) × ¬ IsSpurious st)
wait_terminates {answer} {s} reached f =
    let v = Reach-IsValid reached in
    (near answer s (awake s v f), goes_on s s.caller refl v f, λ t st. falls v f st)

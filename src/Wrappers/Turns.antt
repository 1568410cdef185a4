-- ===== src/Wrappers/Turns.antt =====
-- Several processes that read through the wrappers of src/wrappers.c, each with its own client
-- library, over the same servers, in turns: a call runs to its end before another process makes one.
use native.Mathlib.Nat.{zero-add}
use mt_hvac.Base.{
  ℕ, ◌+◌, ◌<◌, ◌^◌, ◌==◌, ◌≡◌, sym, ap, subst, ◌∙◌, inl, inr, Bool-cases, true, List, [], ◌∷◌, ◌++◌,
  arith, ℤ, nat_key, M, ◌>>=◌, returns, stops, Outcome, pure, if◌then◌else◌, Bool,
}
use mt_hvac.Posix.{OpenFile, Reading, slice}
use mt_hvac.Platform.{Platform}
use mt_hvac.Rpc.State.{Client, World}
use mt_hvac.Client.Reads.{advance}
use mt_hvac.Wrappers.{wrap_read}
use mt_hvac.Wrappers.Reads.{ReadCall, slice-append}

-- The client libraries of the processes, and everything outside them.
pub record Processes (Sys : Type 0) : Type 0 where
  pub clients : ℕ → Client
  pub sys : Sys

-- A process reads from its file.
pub record Turn : Type 0 where
  pub who : ℕ
  pub call : ReadCall

-- The bytes that a process asks for.
abbrev pub total_of : ℕ → List Turn → ℕ
total_of i [] = 0
total_of i (t ∷ ts) = (if t.who == i then t.call.count else 0) + total_of i ts

-- Every turn is of one of the first `n` processes, and asks for fewer than 2 ^ 31 bytes.
abbrev pub AreTurns : ℕ → List Turn → Type 0
AreTurns n [] = Unit {0}
AreTurns n (t ∷ ts) = (t.who < n) × (t.call.count < 2 ^ 31) × AreTurns n ts

abbrev pub set_client : (ℕ → Client) → ℕ → Client → ℕ → Client
set_client clients i c j = if i == j then c else clients j

module _ (P : Platform) where
  abbrev pub world_of : Processes P.Sys → ℕ → World P.Sys
  world_of s i = record { client = s.clients i; sys = s.sys }

  -- What one call leaves for all processes.
  abbrev pub put_back :
      ℕ → Processes P.Sys → Outcome (Reading × World P.Sys) → Outcome (List ℕ × Processes P.Sys)
  put_back i s (returns (r, w)) =
      returns (r.bytes, record { clients = set_client s.clients i w.client; sys = w.sys })
  put_back i s (stops e) = stops e

  -- `fds` gives each process's descriptor.
  unfoldable pub take_turn : (fds : ℕ → ℤ) → Turn → M (Processes P.Sys) (List ℕ)
  take_turn fds t s =
      put_back t.who s
        (wrap_read P t.call.start t.call.end (fds t.who) true t.call.count (world_of s t.who))

  -- One turn after the other, and what each process has read in all.
  unfoldable pub take_turns : (fds : ℕ → ℤ) → List Turn → M (Processes P.Sys) (ℕ → List ℕ)
  take_turns fds [] = pure (λ i. [])
  take_turns fds (t ∷ ts) = do
    bytes ← take_turn fds t
    rest ← take_turns fds ts
    pure (λ i. (if t.who == i then bytes else []) ++ rest i)

-- What stands behind the processes' descriptors after a turn.
abbrev pub files_after : Turn → (ℕ → OpenFile) → ℕ → OpenFile
files_after t files i = if t.who == i then advance (files i) t.call.count else files i

-- The bytes of a turn and those of the turns after it are what its process's file has next.
pub first-rest :
    (t : Turn) (ts : List Turn) (files : ℕ → OpenFile) (i : ℕ) (rest : List ℕ)
    → rest ≡ slice (files_after t files i).offset (total_of i ts) (files_after t files i).content
    → (if t.who == i then slice (files t.who).offset t.call.count (files t.who).content else [])
        ++ rest
      ≡ slice (files i).offset (total_of i (t ∷ ts)) (files i).content
first-rest t ts files i rest h =
    let f = files i in
    let g = advance f t.call.count in
    let was : Bool → Type 0 =
      λ b. rest ≡ slice (if b then g else f).offset (total_of i ts) (if b then g else f).content in
    elim (Bool-cases (t.who == i)) [
      | inl same ↦
          let e : t.who ≡ i = ground arith in
          rw same (
            rw (e, subst was same h) (slice-append f.offset t.call.count (total_of i ts) f.content))
      | inr other ↦ rw other (
          subst was other h ∙ ap (λ k. slice f.offset k f.content) (sym (zero-add (total_of i ts))))
    ]

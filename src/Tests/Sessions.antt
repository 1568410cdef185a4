-- ===== src/Tests/Sessions.antt =====
-- Two processes that open, read and close a file of one server, at a concrete input.
use mt_hvac.Base.{
  ℤ, ℕ, ◌≡◌, refl, ◌∙◌, Option, none, some, List, arith, Text, text, pos, text_key, nat_key, update,
  update_self, nothing, returns, ite,
}
use mathlib.Core.Logic.{if_pos}
use mt_hvac.Posix.{OpenFile, Reading, reading, slice}
use mt_hvac.Fd.{ready, no_fds}
use mt_hvac.Fd.Deadline.{Timespec}
use mt_hvac.Client.Reads.{advance}
use mt_hvac.Fd.Waiting.{IsOwned}
use mt_hvac.Rpc.State.{Client, Settings, new_client, settings}
use mt_hvac.Wrappers.Turns.{Processes}
use mt_hvac.Wrappers.Tables.{put, put_at, put_ne}
use mt_hvac.Wrappers.Sessions.{
  Call, opens, reads, Table, act, IsAllowed, may_open, may_read, may_close, closes, Gives, after,
  Session, begins,
}
use mt_hvac.System.Honest.{remote_file}
use mt_hvac.System.Serving.{AreStocked, Change}
use mt_hvac.System.Sessions.{IsServedAll, new-Matches, session-local}
use mt_hvac.Tests.Node.{
  memory, memory-IsPosix, memory-IsStable, memory-IsFdTable, bulk, bulk-IsBulk,
}
use mt_hvac.Tests.Servers.{server, letters, letters_there}
use mt_hvac.Tests.Clients.{base, net, base-IsUp, client}
use mt_hvac.Tests.Epochs.{letters-IsConfigured, memory-IsAmple}

-- Both processes have just started.
abbrev fresh : Client
fresh = record (new_client 1 (some (text "/d")) none (some (text "0"))) {
  address_cache = λ rank. some (text "n0");
}

abbrev outset : Processes net.Sys
outset = record {
  clients = λ i. fresh;
  sys = record { rest = tt; servers = update nothing 0 server };
}

abbrev nothing_open : Table
nothing_open i fd = none

-- The server at address 0 has one file.
abbrev files : Text → ℕ → Option (List ℕ)
files full a =
    ite (text_key.dec full (text "/d/x")) (ite (nat_key.dec a 0) (some letters) none) none

letters_have : files (text "/d/x") 0 ≡ some letters
letters_have =
    if_pos (text_key.dec (text "/d/x") (text "/d/x")) refl _ none
    ∙ if_pos (nat_key.dec 0 0) refl (some letters) none

files-letters :
    (full : Text) (c : List ℕ) (a : ℕ)
    → files full a ≡ some c
    → (full ≡ text "/d/x") × (a ≡ 0) × (c ≡ letters)
files-letters full c a h = elim (text_key.dec full (text "/d/x")) [
  | yes e ↦ elim (nat_key.dec a 0) [
    | yes e' ↦ (e, e', ground arith)
    | no ne ↦ absurd (ground arith)
  ]
  | no ne ↦ absurd (ground arith)
]

stocked : AreStocked base memory bulk files outset.sys
stocked full c a h =
    let (e, e', e'') = files-letters full c a h in
    (
      server,
      rw e' (update_self {K = ℕ} nothing 0 server),
      ((λ p d k. cc), rw (e, e'') letters_there),
    )

no_fds-IsOwned : IsOwned no_fds
no_fds-IsOwned = record { below = λ fd p h. cc; apart = λ a b p h k. cc }

abbrev σs : ℕ → Settings
σs i = settings (client ready)

abbrev nvmepath : Text
nvmepath = text "/bb/XXXXXX"

abbrev Changes : net.Sys → net.Sys → Type 0
Changes = Change base memory bulk nvmepath

abbrev Old : ℕ → ℤ → Type 0
Old b d = (g : OpenFile) × (remote_file base memory bulk b d outset.sys ≡ some g)

begun :
    IsServedAll base memory bulk base-IsUp memory-IsStable memory-IsPosix memory-IsAmple
      memory-IsFdTable bulk-IsBulk nvmepath files
      (λ name s s'. refl)
      σs
      Old
      nothing_open
      outset
begun =
    new-Matches base memory bulk base-IsUp memory-IsStable memory-IsPosix memory-IsAmple
      memory-IsFdTable bulk-IsBulk nvmepath files (λ name s s'. refl) σs outset 0 (λ i. refl)
      (λ i. no_fds-IsOwned) (λ i fd. refl) stocked

abbrev clock : Timespec
clock = record { tv_sec = 1; tv_nsec = 0 }

abbrev open_letters : Call
open_letters = opens clock clock (text "/d/x") 0 0

abbrev may_open_letters :
    (u : Processes net.Sys) (v : Table) (i : ℕ)
    → v i (pos 5) ≡ none
    → IsAllowed net files σs u v i open_letters
may_open_letters u v i new =
    may_open clock clock (text "/d/x") (text "/d/x") 0 0 0 letters letters-IsConfigured letters_have
      new

-- A process makes a call.
abbrev Next :
    (u : Processes net.Sys) (v : Table) (i : ℕ) (c : Call) → IsAllowed net files σs u v i c → Type 0
Next u v i c allowed =
    (r : Reading) × (u' : Processes net.Sys) × (act net i c u ≡ returns (r, u'))
    × Gives net files σs u v i c allowed r
    × Session net files σs Changes outset nothing_open u' (after net files σs u v i c allowed)

next :
    {u : Processes net.Sys} {v : Table} (i : ℕ) (c : Call)
    (allowed : IsAllowed net files σs u v i c)
    → Session net files σs Changes outset nothing_open u v
    → Next u v i c allowed
next i c allowed l =
    session-local base memory bulk base-IsUp memory-IsStable memory-IsPosix memory-IsAmple
      memory-IsFdTable bulk-IsBulk nvmepath files (λ name s s'. refl) σs Old i c allowed begun l

abbrev start_of : List ℕ → OpenFile
start_of c = record { content = c; offset = 0 }

-- Process 0 opens the file, and then process 1 does.
first : Next outset nothing_open 0 open_letters (may_open_letters outset nothing_open 0 refl)
first = next 0 open_letters (may_open_letters outset nothing_open 0 refl) begins

abbrev one_open : Table
one_open = put nothing_open 0 (pos 5) (some (start_of letters))

free : one_open 1 (pos 5) ≡ none
free = put_ne nothing_open 0 1 (pos 5) (pos 5) (some (start_of letters)) (λ e. absurd (omega arith))

second : Next first.1 one_open 1 open_letters (may_open_letters first.1 one_open 1 free)
second = next 1 open_letters (may_open_letters first.1 one_open 1 free) first.4

abbrev both_open : Table
both_open = put one_open 1 (pos 5) (some (start_of letters))

open_at_0 : both_open 0 (pos 5) ≡ some (start_of letters)
open_at_0 =
    put_ne one_open 1 0 (pos 5) (pos 5) (some (start_of letters)) (λ e. absurd (omega arith))
    ∙ put_at nothing_open 0 0 (pos 5) (pos 5) (some (start_of letters)) refl refl

-- Process 0 reads three bytes.
abbrev may_read_three : IsAllowed net files σs second.1 both_open 0 (reads clock clock (pos 5) 3)
may_read_three = may_read clock clock (pos 5) 3 (start_of letters) open_at_0 (omega arith)

third : Next second.1 both_open 0 (reads clock clock (pos 5) 3) may_read_three
third = next 0 (reads clock clock (pos 5) 3) may_read_three second.4

abbrev read_three : Table
read_three = put both_open 0 (pos 5) (some (advance (start_of letters) 3))

open_at_1 : read_three 1 (pos 5) ≡ some (start_of letters)
open_at_1 =
    put_ne both_open 0 1 (pos 5) (pos 5) (some (advance (start_of letters) 3))
      (λ e. absurd (omega arith))
    ∙ put_at one_open 1 1 (pos 5) (pos 5) (some (start_of letters)) refl refl

-- Process 1 still reads from the start.
abbrev may_read_four : IsAllowed net files σs third.1 read_three 1 (reads clock clock (pos 5) 4)
may_read_four = may_read clock clock (pos 5) 4 (start_of letters) open_at_1 (omega arith)

session-local_example :
    (r : Reading) × (u' : Processes net.Sys) × (act net 1 (reads clock clock (pos 5) 4) third.1
      ≡ returns (r, u'))
    × (r ≡ reading (slice 0 4 letters))
    × Session net files σs Changes outset nothing_open u'
        (put read_three 1 (pos 5) (some (advance (start_of letters) 4)))
session-local_example =
    session-local base memory bulk base-IsUp memory-IsStable memory-IsPosix memory-IsAmple
      memory-IsFdTable bulk-IsBulk nvmepath files (λ name s s'. refl) σs Old 1
      (reads clock clock (pos 5) 4) may_read_four begun third.4

-- Process 0 closes the file.
first_open : one_open 0 (pos 5) ≡ some (start_of letters)
first_open = put_at nothing_open 0 0 (pos 5) (pos 5) (some (start_of letters)) refl refl

abbrev may_close_first : IsAllowed net files σs first.1 one_open 0 (closes clock clock (pos 5))
may_close_first = may_close clock clock (pos 5) (start_of letters) first_open

released : Next first.1 one_open 0 (closes clock clock (pos 5)) may_close_first
released = next 0 (closes clock clock (pos 5)) may_close_first first.4

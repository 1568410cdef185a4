-- ===== src/Tests/Servers.antt =====
-- The theorems on the server and its data mover, at concrete inputs.
use mt_hvac.Base.{
  ℕ, ◌≡◌, refl, false, some, List, [], ◌∷◌, ◌++◌, arith, text, pos, int_key, text_key, update,
  update_self, nothing, is_negative, returns,
}
use mt_hvac.Posix.{OpenFile}
use mt_hvac.Server.{
  State, fresh_server, open_handler, close_handler, enqueue, forget, path_of, redirect,
}
use mt_hvac.Mover.{drain}
use mt_hvac.Mover.Copies.{
  IsCached, Event, opens, closes, drains, happens, history, history-IsCached, open_handler-content,
}
use mt_hvac.Mover.Wakeups.{
  sleeping, awake, copying, Shared, Step, Run, here, next, close, wake, signal, accepted,
  Run-accepted, lost_wakeup,
}
use mt_hvac.Tests.Node.{Disk, memory, memory-IsPosix, memory-IsStable, bulk}

abbrev pub letters : List ℕ
letters = text "abcdefghij"

abbrev pub letters_file : OpenFile
letters_file = record { content = letters; offset = 2 }

-- Descriptor 3 is open on a file, two bytes in.
abbrev pub disk : Disk
disk = record {
  files = update nothing (text "/d/x") letters;
  open_files = update nothing (pos 3) letters_file;
  last_fd = 3;
}

abbrev pub server : State memory
server = fresh_server memory disk

letters_open : memory.file (pos 3) disk ≡ some letters_file
letters_open = ground arith

-- A file is closed, copied, and opened again.
abbrev events : List Event
events = closes (pos 3) ∷ drains ∷ opens (text "/d/x") ∷ []

abbrev pub entered : State memory
entered = record server { fd_to_path = update nothing (pos 3) (text "/d/x") }

abbrev pub closed : State memory
closed = forget memory (pos 3) (
    enqueue memory (path_of memory (pos 3) entered)
      (record entered { fs = (memory.close (pos 3) disk).1 }))

abbrev drained : State memory
drained = drain memory (text "/bb/XXXXXX") closed

abbrev reopened : State memory
reopened = (open_handler memory (text "/d/x") drained).1

events-run : history memory bulk (text "/bb/XXXXXX") events entered ≡ returns reopened
unfolding history happens close_handler
events-run = ground arith

history-IsCached_example : IsCached memory reopened
history-IsCached_example =
    history-IsCached memory bulk (text "/bb/XXXXXX") memory-IsStable events entered reopened
      (λ p c h. cc) events-run

pub letters_there : disk.files (text "/d/x") ≡ some letters
letters_there = update_self nothing (text "/d/x") letters

reopens : is_negative (open_handler memory (text "/d/x") server).0 ≡ false
unfolding open_handler redirect
reopens = rw letters_there refl

open_handler-content_example :
    memory.file
      (open_handler memory (text "/d/x") server).0
      (open_handler memory (text "/d/x") server).1.fs
    ≡ some (record { content = letters; offset = 0 })
open_handler-content_example =
    open_handler-content memory bulk (text "/bb/XXXXXX") memory-IsStable memory-IsPosix
      (text "/d/x") server letters (λ p c h. cc) letters_there reopens

abbrev idle : Shared
idle = record { queue = []; phase = sleeping; taken = [] }

-- A file is closed, the mover wakes up, and another file is closed while it copies.
abbrev second_closed : Shared
second_closed = record { queue = text "/d/y" ∷ []; phase = copying (text "/d/x" ∷ []); taken = [] }

two_closes : Run idle (text "/d/x" ∷ (text "/d/y" ∷ [])) second_closed
unfolding signal
two_closes = next (next (next here (close (text "/d/x"))) (wake refl)) (close (text "/d/y"))

Run-accepted_example : accepted second_closed ≡ accepted idle ++ (text "/d/x" ∷ (text "/d/y" ∷ []))
Run-accepted_example = Run-accepted two_closes

abbrev busy : Shared
busy = record { queue = []; phase = copying (text "/d/x" ∷ []); taken = [] }

lost_wakeup_example :
    (t : Shared) × Run busy (text "/d/y" ∷ []) t
    × (t.phase ≡ sleeping)
    × (t.queue ≡ text "/d/y" ∷ [])
    × ((u : Shared) → Step t [] u → u ≡ record t { phase = awake })
lost_wakeup_example = lost_wakeup busy (text "/d/x" ∷ []) (text "/d/y") refl

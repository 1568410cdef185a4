-- ===== src/Tests/Sharing.antt =====
-- Two processes that read files of one server, at a concrete input.
use mt_hvac.Base.{
  ℕ, ◌≡◌, ◌<◌, refl, some, List, [], ◌∷◌, arith, text, ℤ, pos, int_key, nat_key, update,
  update_self, nothing, returns, Bool-cases, sym, ◌∙◌, ◌==◌, if◌then◌else◌, inl, inr, ◌⊎◌,
}
use mt_hvac.Posix.{OpenFile, slice}
use mt_hvac.Fd.{ready}
use mt_hvac.Wrappers.Turns.{Processes, Turn, AreTurns, take_turns, total_of}
use mt_hvac.Wrappers.Sharing.{ArePlaced, AreApart}
use mt_hvac.System.Honest.{remote_file}
use mt_hvac.System.Sharing.{shared_reads-content}
use mt_hvac.Tests.Node.{Disk, memory, memory-IsPosix, bulk, bulk-IsBulk}
use mt_hvac.Tests.Servers.{server, letters_file}
use mt_hvac.Tests.Clients.{net, base, base-IsUp, client, in_state-state_of}

abbrev digits_file : OpenFile
digits_file = record { content = text "0123456789"; offset = 0 }

-- Descriptor 3 of the server is of process 0, descriptor 4 of process 1.
abbrev remote_fds : ℕ → ℤ
remote_fds i = if i == 0 then pos 3 else pos 4

abbrev files : ℕ → OpenFile
files i = if i == 0 then letters_file else digits_file

abbrev disk : Disk
disk = record {
  files = nothing;
  open_files = update (update nothing (pos 4) digits_file) (pos 3) letters_file;
  last_fd = 4;
}

abbrev processes : Processes net.Sys
processes = record {
  clients = λ i. record (client ready) { fd_redir_map = update nothing (pos 5) (remote_fds i) };
  sys = record { rest = tt; servers = update nothing 0 (record server { fs = disk }) };
}

abbrev turn : ℕ → ℕ → Turn
turn i n = record {
  who = i;
  call = record {
    count = n;
    start = record { tv_sec = 1; tv_nsec = 0 };
    end = record { tv_sec = 2; tv_nsec = 0 };
  };
}

abbrev turns : List Turn
turns = turn 0 3 ∷ turn 1 4 ∷ turn 1 2 ∷ turn 0 100 ∷ []

turns-AreTurns : AreTurns 2 turns
turns-AreTurns = (
  omega arith,
  omega arith,
  (omega arith, omega arith, (omega arith, omega arith, (omega arith, omega arith, tt))),
)

below_two : (i : ℕ) → i < 2 → (i ≡ 0) ⊎ (i ≡ 1)
below_two i h = omega arith

apart : AreApart net (remote_file base memory bulk) 2 (λ i. pos 5) (λ i. 0) remote_fds
apart i j hi hj differ same = elim (below_two i hi) [
  | inl e ↦ elim (below_two j hj) [
    | inl e' ↦ λ h. differ (e ∙ sym e')
    | inr e' ↦ λ h. ground (arith, h, e, e')
  ]
  | inr e ↦ elim (below_two j hj) [
    | inl e' ↦ λ h. ground (arith, h, e, e')
    | inr e' ↦ λ h. differ (e ∙ sym e')
  ]
]

served : (i : ℕ) → remote_file base memory bulk 0 (remote_fds i) processes.sys ≡ some (files i)
served i = elim (Bool-cases (i == 0)) [ inl e ↦ rw e (ground arith) | inr e ↦ rw e (ground arith) ]

placed :
    ArePlaced net (remote_file base memory bulk) 2 (λ i. pos 5) (λ i. 0) remote_fds files processes
placed i h = (
  record {
    path = text "/d/x";
    name = text "n0";
    addr = 0;
    remote_fd = remote_fds i;
    tracked = update_self nothing (pos 5) (text "/d/x");
    is_ready = in_state-state_of ready;
    mapped = update_self nothing (pos 5) (remote_fds i);
    nonzero = ground arith;
    counted = refl;
    cached = refl;
    resolved = refl;
    served = served i;
  },
  refl,
  refl,
)

shared_reads-content_example :
    (bytes : ℕ → List ℕ) × (s' : Processes net.Sys) × (take_turns net (λ i. pos 5) turns processes
      ≡ returns (bytes, s'))
    × ((i : ℕ) → bytes i ≡ slice (files i).offset (total_of i turns) (files i).content)
shared_reads-content_example =
    shared_reads-content base memory bulk base-IsUp memory-IsPosix bulk-IsBulk 2 (λ i. pos 5)
      (λ i. 0) remote_fds turns files processes turns-AreTurns apart placed

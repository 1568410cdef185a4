-- ===== src/Fd.antt =====
-- The state of file descriptors at the client: src/mthvac_comm_client.cpp, `fd_state_map` and the
-- functions on it. A status object is shared by pointers, so it lives in a store of its own.
pub mod Deadline
pub mod Waiting
pub mod States
pub mod Locks
pub mod Init
use mt_hvac.Base.{
  ℕ, suc, ◌+◌, ◌≡◌, ite, Bool, true, false, Option, none, some, List, [], ◌∷◌, ℤ, int_key, nat_key,
  update, erase, nothing,
}

-- enum hvac_fd_state
pub data FdState : Type 0 where
  opening ready error : FdState

-- `fd_state_map` holds pointers, here numbers, to the status objects.
pub record FdTable : Type 0 where
  pub entry : ℤ → Option ℕ
  pub status : ℕ → Option FdState
  pub next : ℕ

abbrev pub no_fds : FdTable
no_fds = record { entry = nothing; status = nothing; next = 0 }

pub get_fd_status : ℤ → FdTable → Option ℕ
get_fd_status fd t = t.entry fd

unfoldable pub set_fd_opening : ℤ → FdTable → FdTable
set_fd_opening fd t = record {
  entry = update t.entry fd t.next;
  status = update t.status t.next opening;
  next = suc t.next;
}

-- The common part of the next two: a descriptor with no status object is left alone.
set_state : FdState → ℤ → FdTable → FdTable
unfolding get_fd_status
set_state st fd t = elim (get_fd_status fd t) [
  | none ↦ t
  | some p ↦ record t { status = update t.status p st }
]

unfoldable pub set_fd_ready : ℤ → FdTable → FdTable
unfolding set_state
set_fd_ready fd t = set_state ready fd t

unfoldable pub set_fd_error : ℤ → FdTable → FdTable
unfolding set_state
set_fd_error fd t = set_state error fd t

unfoldable pub cleanup_fd_state : ℤ → FdTable → FdTable
cleanup_fd_state fd t = record t { entry = erase t.entry fd }

-- What the pointer of a descriptor leads to.
abbrev deref : Option ℕ → FdTable → Option FdState
deref none t = none
deref (some p) t = t.status p

abbrev pub state_of : ℤ → FdTable → Option FdState
state_of fd t = deref (t.entry fd) t

-- The loop of `hvac_wait_fd_ready`, with the states that a waiter sees each time that it wakes up
-- before its deadline, spurious wake-ups included. When they are used up the deadline has passed.
unfoldable pub wait_loop : FdState → List FdState → Bool
wait_loop ready wakes = true
wait_loop error wakes = false
wait_loop opening [] = false
wait_loop opening (seen ∷ wakes) = wait_loop seen wakes

wait_on : Option FdState → List FdState → Bool
wait_on none wakes = false
wait_on (some st) wakes = wait_loop st wakes

unfoldable pub wait_fd_ready : ℤ → List FdState → FdTable → Bool
unfolding wait_on wait_loop
wait_fd_ready fd wakes t = wait_on (state_of fd t) wakes

-- ===== src/Platform.antt =====
-- What the client library calls and does not implement: the operating system of its node, Mercury
-- with the servers behind it, and `std::hash`. The client's definitions take it as a parameter.
use mt_hvac.Base.{ℕ, Bool, Option, Text, ℤ}
use mt_hvac.Posix.{Reading}
use mt_hvac.Server.{ReadIn, ReadOut}

-- What becomes of an RPC: `HG_Forward` fails; the callback runs with an error, or with the server's
-- answer; or it never runs.
pub data Sent (A : Type 0) : Type 0 where
  refused failed unanswered : Sent A
  answered : A → Sent A

pub record Platform : Type 1 where
  pub Sys : Type 0
  -- hg_addr_t, where `none` stands for HG_ADDR_NULL
  pub Addr : Type 0
  -- The C library's functions behind `__real_open` and so on.
  pub real_open : Text → (flags mode : ℕ) → Sys → ℤ × Sys
  pub real_close : ℤ → Sys → ℤ × Sys
  pub real_read : ℤ → ℕ → Sys → Reading × Sys
  pub real_pread : ℤ → ℕ → ℤ → Sys → Reading × Sys
  -- `std::filesystem`, where `none` stands for an exception
  pub canonical : Text → Sys → Option Text
  pub current_path : Sys → Option Text
  -- The content of a file, if it can be opened.
  pub read_file : Text → Sys → Option Text
  pub hash : Text → ℕ
  -- Mercury
  pub resolve : Text → Sys → Option Addr
  pub creates : Option Addr → Sys → Bool
  pub frees : Option Addr → Sys → Bool
  pub bulk_creates : ℕ → Sys → Bool
  pub send_open : Option Addr → Text → Sys → Sent ℤ × Sys
  pub send_read : Option Addr → ReadIn → Sys → Sent ReadOut × Sys
  pub send_seek : Option Addr → (fd offset whence : ℤ) → Sys → Sent ℤ × Sys
  pub send_close : Option Addr → ℤ → Sys → Bool × Sys
  pub send_stats : Option Addr → Sys → Bool × Sys

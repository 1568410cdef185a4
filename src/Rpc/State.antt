-- ===== src/Rpc/State.antt =====
-- The globals of the client library: src/mthvac_client.cpp and src/mthvac_comm_client.cpp.
use mt_hvac.Base.{ℕ, Bool, false, ◌||◌, Option, Text, ℤ, nothing, M, returns}
use mt_hvac.Fd.{FdTable, no_fds}

-- How many Mercury objects the client holds: handles, addresses and registered buffers.
pub record Live : Type 0 where
  pub handles : ℕ
  pub addrs : ℕ
  pub bulks : ℕ

-- A `double` of src/wrappers.c, as the sum by which the code computes it: 0.0, the time s + n / 1e9
-- or s - 1 + n / 1e9 of one call, or one double added to another. The rounding is left open.
pub data Seconds : Type 0 where
  no_seconds : Seconds
  interval : (s n : ℕ) → Seconds
  borrowed : (s n : ℕ) → Seconds
  plus : Seconds → Seconds → Seconds

-- struct Stats of src/wrappers.c
pub record Stats : Type 0 where
  pub count : ℕ
  pub total_time : Seconds

pub record IoStats : Type 0 where
  pub open_stats : Stats
  pub open_data_stats : Stats
  pub open_system_stats : Stats
  pub close_stats : Stats
  pub read_stats : Stats
  pub pread_stats : Stats

abbrev pub no_stats : IoStats
no_stats = record {
  open_stats = record { count = 0; total_time = no_seconds };
  open_data_stats = record { count = 0; total_time = no_seconds };
  open_system_stats = record { count = 0; total_time = no_seconds };
  close_stats = record { count = 0; total_time = no_seconds };
  read_stats = record { count = 0; total_time = no_seconds };
  pread_stats = record { count = 0; total_time = no_seconds };
}

pub record Client : Type 0 where
  pub fd_map : ℤ → Option Text
  pub fd_redir_map : ℤ → Option ℤ
  pub fds : FdTable
  pub address_cache : ℤ → Option Text
  pub mercury_init : Bool
  pub server_count : ℕ
  pub data_dir : Option Text
  -- The environment variables SLURM_JOBID and SLURM_PROCID.
  pub job_id : Option Text
  pub proc_id : Option Text
  pub live : Live
  pub g_disable_redirect : Bool
  -- that of the one thread that calls
  pub tl_disable_redirect : Bool
  pub stats : IoStats

-- What the wrappers of `open` and `close` test.
abbrev pub redirect_off : Client → Bool
redirect_off c = c.g_disable_redirect || c.tl_disable_redirect

abbrev pub new_client : ℕ → (data_dir job_id proc_id : Option Text) → Client
new_client count dir job proc = record {
  fd_map = nothing;
  fd_redir_map = nothing;
  fds = no_fds;
  address_cache = nothing;
  mercury_init = false;
  server_count = count;
  data_dir = dir;
  job_id = job;
  proc_id = proc;
  live = record { handles = 0; addrs = 0; bulks = 0 };
  g_disable_redirect = false;
  tl_disable_redirect = false;
  stats = no_stats;
}

-- What the calls of a program that reads do not change: the settings, and the addresses known.
pub record Settings : Type 0 where
  pub address_cache : ℤ → Option Text
  pub server_count : ℕ
  pub data_dir : Option Text
  pub proc_id : Option Text
  pub off : Bool

abbrev pub settings : Client → Settings
settings c = record {
  address_cache = c.address_cache;
  server_count = c.server_count;
  data_dir = c.data_dir;
  proc_id = c.proc_id;
  off = redirect_off c;
}

-- The client together with everything outside it.
pub record World (Sys : Type 0) : Type 0 where
  pub client : Client
  pub sys : Sys

module _ {Sys : Type 0} where
  abbrev pub gets : {A : Type 0} → (World Sys → A) → M (World Sys) A
  gets f w = returns (f w, w)

  abbrev pub modify : (Client → Client) → M (World Sys) (Unit {0})
  modify f w = returns (tt, record w { client = f w.client })

  -- A call to the outside, which returns a result.
  abbrev pub outside : {A : Type 0} → (Sys → A × Sys) → M (World Sys) A
  outside f w = let (a, sys') = f w.sys in returns (a, record w { sys = sys' })

abbrev pub map_live : (Live → Live) → Client → Client
map_live f c = record c { live = f c.live }

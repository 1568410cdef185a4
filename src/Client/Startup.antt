-- ===== src/Client/Startup.antt =====
-- The start of the client library: `hvac_client_init` and `hvac_setup_detailed_logging` of
-- src/mthvac_client.cpp, and the triggers that it exports for the timing tables.
use mt_hvac.Base.{
  ℕ, ◌≤◌, ◌<◌, ◌^◌, ◌≡◌, refl, ap, ◌∙◌, Bool, true, false, Option, none, some, [], arith, Text,
  text, ℤ, pos, to_unsigned, if◌then◌else◌, or_else, Outcome, returns, stops, exited, undefined,
}
use mt_hvac.Decimal.{atoi, print_int}
use mt_hvac.Decimal.RoundTrip.{atoi-print_int}
use mt_hvac.Logging.{LogEnv, LogConfig, config, init_logging}
use mt_hvac.Logging.Names.{init_logging-small, init_logging-large}
use mt_hvac.Timer.{Timer, new_timer, enable_detailed, end_call, reset_all_stats}
use mt_hvac.Timer.Report.{print_all_stats}
use mt_hvac.Rpc.State.{Client, new_client}

-- What the library reads from the environment.
pub record Env : Type 0 where
  pub data_dir : Option Text
  pub server_count : Option Text
  pub job_id : Option Text
  pub proc_id : Option Text
  pub logs : LogEnv

-- The process into which the library is loaded.
pub record Process : Type 0 where
  pub initialized : Bool
  pub client : Client
  pub timer : Timer
  pub logging : Option LogConfig

abbrev pub unstarted : Env → Process
unstarted env = record {
  initialized = false;
  client = record (new_client 0 none env.job_id env.proc_id) { g_disable_redirect = true };
  timer = new_timer;
  logging = none;
}

-- hvac_setup_detailed_logging
abbrev pub setup_detailed_logging : Timer → Timer
setup_detailed_logging t = enable_detailed (text "CLIENT_hvac_open_rpc_wait_data") t

abbrev pub new_data_dir : Option Text → Option Text → Option Text
new_data_dir none dir = dir
new_data_dir (some dir) old = some dir

-- Initialize_function, whose loop takes `us`
abbrev pub initialize_function : (us : ℕ) → Timer → Timer
initialize_function us t = end_call (text "Initialize_timer") us t

-- What the next function leaves.
abbrev pub started_by : Env → (us : ℕ) → Option LogConfig → Process → (count : Text) → Process
started_by env us log p count = record {
  initialized = true;
  client = record p.client {
    server_count = to_unsigned 32 (atoi count);
    data_dir = new_data_dir env.data_dir p.client.data_dir;
    g_disable_redirect = false;
  };
  timer = initialize_function us (setup_detailed_logging p.timer);
  logging = log;
}

-- The part of `hvac_client_init` after the logging has started: without HVAC_SERVER_COUNT the
-- process ends.
unfoldable pub start_client :
    Env → (us : ℕ) → (server_count : Option Text) → Option LogConfig → Process → Outcome Process
start_client env us none log p = stops exited
start_client env us (some count) log p = returns (started_by env us log p count)

unfoldable pub after_logging : Env → ℕ → Process → Outcome (Option LogConfig) → Outcome Process
after_logging env us p (stops e) = stops e
after_logging env us p (returns log) = start_client env us env.server_count log p

-- L4C_LOG_NAME_PREFIX for the client
abbrev pub intercept_log : Text
intercept_log = text "hvac_intercept_log"

-- hvac_client_init
unfoldable pub client_init :
    (notice : ℤ) → Env → (pid rc : ℤ) → (us : ℕ) → Process → Outcome Process
client_init notice env pid rc us p =
    if p.initialized
    then returns p
    else after_logging env us p (init_logging notice intercept_log env.logs pid rc)

-- hvac_trigger_print_all_stats: what it prints
abbrev pub trigger_print_all_stats : (fixed2 : ℕ → ℕ → Text) → (epoch_num : ℤ) → Process → Text
trigger_print_all_stats fixed2 epoch_num p = print_all_stats fixed2 epoch_num p.timer

-- hvac_trigger_reset_all_stats
abbrev pub trigger_reset_all_stats : Process → Process
trigger_reset_all_stats p = record p { timer = reset_all_stats p.timer }

client_init_again :
    (notice : ℤ) (env : Env) (pid rc : ℤ) (us : ℕ) (p : Process)
    → p.initialized ≡ true
    → client_init notice env pid rc us p ≡ returns p
unfolding client_init
client_init_again notice env pid rc us p h = rw h

abbrev client_log : ℤ → Env → ℕ → LogConfig
client_log notice env pid =
    config notice env.logs (or_else intercept_log env.logs.log_prefix) (pos pid)

new_data_dir-none : (dir : Option Text) → new_data_dir dir none ≡ dir
new_data_dir-none none = refl
new_data_dir-none (some dir) = refl

unsigned_small : (n : ℕ) → n < 2 ^ 31 → to_unsigned 32 (pos n) ≡ n
unsigned_small n h = omega arith

-- What the start leaves.
abbrev pub IsStarted : Env → ℕ → Process → Type 0
IsStarted env n q =
    (q.initialized ≡ true) × (q.client ≡ new_client n env.data_dir env.job_id env.proc_id)

start_client-IsStarted :
    (env : Env) (us n : ℕ) (log : Option LogConfig)
    → n < 2 ^ 31
    → env.server_count ≡ some (print_int (pos n) [])
    → (q : Process) × (start_client env us env.server_count log (unstarted env) ≡ returns q)
      × IsStarted env n q
unfolding start_client
start_client-IsStarted env us n log small e =
    let c = ap (to_unsigned 32) (atoi-print_int n small) ∙ unsigned_small n small in
    (
      started_by env us log (unstarted env) (print_int (pos n) []),
      ap (λ o. start_client env us o log (unstarted env)) e,
      (refl, ground (arith, c, new_data_dir-none env.data_dir)),
    )

-- The start of the library in a new process where HVAC_SERVER_COUNT is a number that an `int` holds
-- and log4c starts. If the process id has five digits at most, it returns: the client has that
-- number of servers and the other variables of the environment, it redirects, and starting it again
-- changes nothing. If the process id is longer, the start overruns a buffer.
pub client_init_lem :
    (notice : ℤ) (env : Env) (pid us n : ℕ)
    → n < 2 ^ 31
    → env.server_count ≡ some (print_int (pos n) [])
    → (pid < 100_000
        → (q : Process) × (client_init notice env (pos pid) (pos 0) us (unstarted env) ≡ returns q)
          × IsStarted env n q
          × (client_init notice env (pos pid) (pos 0) us q ≡ returns q))
      × (100_000 ≤ pid
          → client_init notice env (pos pid) (pos 0) us (unstarted env) ≡ stops undefined)
unfolding client_init after_logging
client_init_lem notice env pid us n small e = (
  λ short.
      let (q, runs, started) =
        start_client-IsStarted env us n (some (client_log notice env pid)) small e in
      (
        q,
        ap (after_logging env us (unstarted env))
              (init_logging-small notice intercept_log env.logs pid short)
            ∙ runs,
        started,
        client_init_again notice env (pos pid) (pos 0) us q started.0,
      ),
  λ long.
      ap (after_logging env us (unstarted env))
        (init_logging-large notice intercept_log env.logs pid long),
)

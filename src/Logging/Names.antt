-- ===== src/Logging/Names.antt =====
-- The name of the log files and the buffer that it is made in: `hvac_init_logging` of
-- src/hvac_logging.c.
use mt_hvac.Base.{
  ℕ, suc, ◌+◌, ◌≤◌, ◌<◌, ◌≡◌, true, false, some, ◌∷◌, [], arith, Text, length, length-append, ℤ,
  pos, int_key, or_else, returns, stops, undefined,
}
use mt_hvac.Decimal.{print_int, digits}
use mt_hvac.Decimal.Width.{length-digits-le, length-digits-ge}
use mt_hvac.Logging.{LogEnv, prefix_and_pid, fits, config, init_logging}

-- The buffer has room for the name exactly if the process id has five digits at most.
fits-small :
    (prefix : Text) (pid : ℕ)
    → pid < 100_000
    → fits (length prefix + 7) (prefix_and_pid prefix (pos pid)) ≡ true
unfolding fits prefix_and_pid print_int
fits-small prefix pid h = ground (
  arith,
  length-append prefix (b'.' ∷ digits (suc pid) pid []),
  length-digits-le (suc pid) pid 4 [],
)

fits-large :
    (prefix : Text) (pid : ℕ)
    → 100_000 ≤ pid
    → fits (length prefix + 7) (prefix_and_pid prefix (pos pid)) ≡ false
unfolding fits prefix_and_pid print_int
fits-large prefix pid h = ground (
  arith,
  length-append prefix (b'.' ∷ digits (suc pid) pid []),
  length-digits-ge (suc pid) pid 5 [],
)

-- With a process id of five digits at most the logging is configured, whatever the environment.
pub init_logging-small :
    (notice : ℤ) (default : Text) (env : LogEnv) (pid : ℕ)
    → pid < 100_000
    → init_logging notice default env (pos pid) (pos 0)
      ≡ returns (some (config notice env (or_else default env.log_prefix) (pos pid)))
unfolding init_logging
init_logging-small notice default env pid h =
    ground (arith, fits-small (or_else default env.log_prefix) pid h)

-- With a longer one the name of the log files is written past the end of its buffer.
pub init_logging-large :
    (notice : ℤ) (default : Text) (env : LogEnv) (pid : ℕ)
    → 100_000 ≤ pid
    → init_logging notice default env (pos pid) (pos 0) ≡ stops undefined
unfolding init_logging
init_logging-large notice default env pid h =
    ground (arith, fits-large (or_else default env.log_prefix) pid h)

-- ===== src/Logging.antt =====
-- The start of the logging system and the formatting of a message: src/hvac_logging.c. What is
-- configured goes to log4c, whose priority NOTICE is a parameter; the source gives its priorities
-- FATAL and TRACE as 0 and 800.
pub mod Names
use mt_hvac.Base.{
  ℕ, suc, ◌+◌, ◌*◌, ◌-◌, ◌==◌, Bool, true, false, not, Option, none, some, List, [], ◌∷◌, ◌++◌,
  Text, text, length, take, leb, ltb, ℤ, pos, negsuc, int_key, ◌=?◌, if◌then◌else◌, or_else,
  Outcome, returns, stops, undefined,
}
use mt_hvac.Decimal.{print_int, atoi}

-- The environment variables HVAC_LOG_LEVEL, HVAC_LOG_DIR and HVAC_LOG_PREFIX.
pub record LogEnv : Type 0 where
  pub log_level : Option Text
  pub log_dir : Option Text
  pub log_prefix : Option Text

-- What log4c is given: the priority of the root category, and the parameters of the rolling files.
pub record LogConfig : Type 0 where
  pub priority : ℤ
  pub logdir : Text
  pub files_prefix : Text
  pub file_maxsize : ℕ
  pub max_num_files : ℕ
  pub layout : Text

unfoldable pub clamp : ℤ → ℤ
clamp (pos n) = if ltb 800 n then pos 800 else pos n
clamp (negsuc n) = pos 0

unfoldable pub level_of : (notice : ℤ) → Option Text → ℤ
level_of notice none = notice
level_of notice (some level) = clamp (atoi level)

-- sprintf(prefix_and_pid, "%s.%d", param_log_prefix, getpid())
unfoldable pub prefix_and_pid : Text → ℤ → Text
prefix_and_pid prefix pid = prefix ++ b'.' ∷ print_int pid []

-- The characters of a text and a null fit into what is allocated.
unfoldable pub fits : ℕ → Text → Bool
fits size t = leb (suc (length t)) size

unfoldable pub config : (notice : ℤ) → LogEnv → (prefix : Text) → (pid : ℤ) → LogConfig
config notice env prefix pid = record {
  priority = level_of notice env.log_level;
  logdir = or_else (text ".") env.log_dir;
  files_prefix = prefix_and_pid prefix pid;
  file_maxsize = 100 * 1024 * 1024;
  max_num_files = 10;
  layout = text "dated";
}

-- hvac_init_logging, where `rc` is what log4c_init returns and `default` the macro
-- L4C_LOG_NAME_PREFIX: the logging is not configured if log4c does not start.
unfoldable pub init_logging :
    (notice : ℤ) (default : Text) → LogEnv → (pid rc : ℤ) → Outcome (Option LogConfig)
init_logging notice default env pid rc =
    let prefix = or_else default env.log_prefix in
    if not (rc =? pos 0)
    then returns none
    else if fits (length prefix + 7) (prefix_and_pid prefix pid)
    then returns (some (config notice env prefix pid))
    else stops undefined

-- GNU `basename`: what stands after the last slash.
unfoldable pub basename_from : Text → Text → Text
basename_from name [] = name
basename_from name (c ∷ path) =
    if c == b'/' then basename_from path path else basename_from name path

unfoldable pub basename : Text → Text
basename path = basename_from path path

-- The text that log_preformatter_internal gives to log4c, where `expanded` is the message before
-- vsnprintf cuts it to 1023 characters and a null. "%d" shows the line number as an `int`.
unfoldable pub log_text : (filename : Text) (linenum : ℤ) (expanded : Text) → Text
log_text filename linenum expanded =
    text "["
    ++ (basename filename ++ (text ":" ++ print_int linenum (text "] " ++ take 1023 expanded)))

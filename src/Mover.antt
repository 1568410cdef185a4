-- ===== src/Mover.antt =====
-- The data mover: src/mthvac_data_mover.cpp. It copies files that clients have closed to the burst
-- buffer, and enters the copies into `path_cache_map`.
pub mod Copies
pub mod Stock
pub mod Wakeups
pub mod Progress
pub mod Pending
pub mod Hits
pub mod Open
use mt_hvac.Base.{
  ℕ, ◌==◌, Bool, true, false, Option, none, some, List, [], ◌∷◌, ◌++◌, Text, text, text_key, update,
  M, ◌>>=◌, Outcome, returns, stops, undefined, if◌then◌else◌,
}
use mt_hvac.Posix.{Posix}
use mt_hvac.Server.{Server, State}

-- What follows the last slash: `fs::path(...).filename()`.
filename_from : Text → Text → Text
filename_from acc [] = acc
filename_from acc (c ∷ path) = filename_from (if c == b'/' then [] else acc ++ c ∷ []) path

unfoldable pub filename : Text → Text
unfolding filename_from
filename path = filename_from [] path

-- `string(getenv("BBPATH")) + "/XXXXXX"`, which is undefined without the variable.
unfoldable pub nvmepath_of : Option Text → Outcome Text
nvmepath_of none = stops undefined
nvmepath_of (some bbpath) = returns (bbpath ++ text "/XXXXXX")

module _ (P : Posix) where
  -- A copy that throws leaves no entry.
  pub enter : (copied : Bool) (path target : Text) → P.Fs → State P → State P
  enter true path target fs s = record s {
    fs = fs;
    path_cache_map = update s.path_cache_map path target;
  }
  enter false path target fs s = record s { fs = fs }

  -- One round of the inner loop. The name of the directory is used whether or not `mkdtemp` made it.
  unfoldable pub copy_one : (nvmepath path : Text) → State P → State P
  copy_one nvmepath path s =
      let (made, dirpath, fs₁) = P.mkdtemp nvmepath s.fs in
      let target = dirpath ++ (text "/" ++ filename path) in
      let (copied, fs₂) = P.copy path target fs₁ in enter copied path target fs₂ s

  unfoldable pub copy_all : (nvmepath : Text) → List Text → State P → State P
  copy_all nvmepath [] s = s
  copy_all nvmepath (path ∷ rest) s = copy_all nvmepath rest (copy_one nvmepath path s)

  -- What the mover does each time that it is woken: it empties the queue under the lock, in order,
  -- and then copies.
  unfoldable pub drain : (nvmepath : Text) → State P → State P
  drain nvmepath s = copy_all nvmepath s.data_queue (record s { data_queue = [] })

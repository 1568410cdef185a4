-- ===== src/Wrappers/Programs.antt =====
-- Programs whose calls the wrappers of src/wrappers.c intercept, with and without them.
use mt_hvac.Base.{
  ℕ, ◌≡◌, Bool, true, ◌⊎◌, Option, none, List, Text, ℤ, minus_one, to_int32, int_key, ◌=?◌, ◌>>=◌,
  ◌>>◌, pure,
}
use mt_hvac.Posix.{Reading}
use mt_hvac.Platform.{Platform}
use mt_hvac.Fd.Deadline.{Timespec}
use mt_hvac.Rpc.State.{outside}
use mt_hvac.Rpc.{Action}
use mt_hvac.Client.{to_track}
use mt_hvac.Wrappers.{wrap_open, wrap_close, wrap_read, wrap_pread}
use mt_hvac.Client.Tracking.{is_excluded}

-- A program and what it comes to: its calls that are intercepted, each between two readings of the
-- clock, and what it goes on with by their results; what else it does is not intercepted.
pub data Program (Sys : Type 0) : Type 0 where
  finished : List ℕ → Program Sys
  opens : (start end : Timespec) → Text → (flags mode : ℕ) → (ℤ → Program Sys) → Program Sys
  reads :
      (start end : Timespec) → ℤ → (has_buffer : Bool) → ℕ → (Reading → Program Sys) → Program Sys
  preads :
      (start end : Timespec)
      → ℤ
      → (has_buffer : Bool) → ℕ
      → (offset : ℤ) → (Reading → Program Sys)
      → Program Sys
  closes : (start end : Timespec) → ℤ → (ℤ → Program Sys) → Program Sys
  other : (Sys → Sys) → Program Sys → Program Sys

module _ (P : Platform) where
  -- Through the wrappers.
  unfoldable pub intercepted : Program P.Sys → Action P (List ℕ)
  intercepted (finished bytes) = pure bytes
  intercepted (opens start end path flags mode rest) = do
    fd ← wrap_open P start end path flags mode
    intercepted (rest fd)
  intercepted (reads start end fd has_buffer n rest) = do
    r ← wrap_read P start end fd has_buffer n
    intercepted (rest r)
  intercepted (preads start end fd has_buffer n offset rest) = do
    r ← wrap_pread P start end fd has_buffer n offset
    intercepted (rest r)
  intercepted (closes start end fd rest) = do
    ret ← wrap_close P start end fd
    intercepted (rest ret)
  intercepted (other f rest) = do outside (λ s. (tt {0}, f s)); intercepted rest

  -- Without the library.
  unfoldable pub direct : Program P.Sys → P.Sys → List ℕ × P.Sys
  direct (finished bytes) s = (bytes, s)
  direct (opens start end path flags mode rest) s =
      let (fd, s') = P.real_open path flags mode s in direct (rest fd) s'
  direct (reads start end fd has_buffer n rest) s =
      let (r, s') = P.real_read fd n s in direct (rest r) s'
  direct (preads start end fd has_buffer n offset rest) s =
      let (r, s') = P.real_pread fd n offset s in direct (rest r) s'
  direct (closes start end fd rest) s = let (ret, s') = P.real_close fd s in direct (rest ret) s'
  direct (other f rest) s = direct rest (f s)

  -- The open of a file that is not tracked: it fails, or it is of a kind that is not, or the file lies
  -- elsewhere.
  abbrev pub IsPassed : Text → (flags : ℕ) → ℤ → Option Text → P.Sys → Type 0
  IsPassed path flags fd dir s =
      ((fd =? minus_one) ≡ true)
      ⊎ (is_excluded P path flags ≡ true)
      ⊎ (to_track P path dir s ≡ none)

  -- In a run without the library, no file that is opened is one to be tracked, and the result of every
  -- read is one that an `int` holds, as the limit of the system on a read has it.
  unfoldable pub IsPlain : Program P.Sys → (dir : Option Text) → P.Sys → Type 0
  IsPlain (finished bytes) dir s = Unit {0}
  IsPlain (opens start end path flags mode rest) dir s =
      let (fd, s') = P.real_open path flags mode s in
      IsPassed path flags fd dir s' × IsPlain (rest fd) dir s'
  IsPlain (reads start end fd has_buffer n rest) dir s =
      let (r, s') = P.real_read fd n s in (to_int32 r.result ≡ r.result) × IsPlain (rest r) dir s'
  IsPlain (preads start end fd has_buffer n offset rest) dir s =
      let (r, s') = P.real_pread fd n offset s in IsPlain (rest r) dir s'
  IsPlain (closes start end fd rest) dir s =
      let (ret, s') = P.real_close fd s in IsPlain (rest ret) dir s'
  IsPlain (other f rest) dir s = IsPlain rest dir (f s)

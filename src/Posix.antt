-- ===== src/Posix.antt =====
-- The operating system of a node, which the program calls and does not implement: file descriptors
-- and files. The program's definitions take it as a parameter.
use mt_hvac.Base.{
  ℕ, ◌+◌, ◌≡◌, ◌≢◌, Bool, Option, none, some, List, Text, length, take, drop, ℤ, pos, is_negative,
  true, false,
}

-- What `read` and `pread` return, and the bytes that they put at the start of the buffer.
pub record Reading : Type 0 where
  pub result : ℤ
  pub bytes : List ℕ

-- An open file: its content, and the offset that `read` starts from.
pub record OpenFile : Type 0 where
  pub content : List ℕ
  pub offset : ℕ

pub record Posix : Type 1 where
  pub Fs : Type 0
  -- `open(path, O_RDONLY)`
  pub open_read : Text → Fs → ℤ × Fs
  pub close : ℤ → Fs → ℤ × Fs
  pub read : ℤ → ℕ → Fs → Reading × Fs
  pub pread : ℤ → ℕ → ℤ → Fs → Reading
  pub lseek : ℤ → ℤ → ℤ → Fs → ℤ × Fs
  -- `calloc(1, size)` gives a buffer, and Mercury registers it.
  pub allocates : ℕ → Fs → Bool
  -- `std::filesystem::copy`, which returns or throws
  pub copy : Text → Text → Fs → Bool × Fs
  -- `mkdtemp`: whether it succeeds, and what it leaves in the template
  pub mkdtemp : Text → Fs → Bool × Text × Fs
  -- What stands behind an open descriptor, and the content of a file: the view that the laws speak of.
  pub file : ℤ → Fs → Option OpenFile
  pub content : Text → Fs → Option (List ℕ)

-- The bytes of a file from an offset on, at most so many.
abbrev pub slice : ℕ → ℕ → List ℕ → List ℕ
slice offset count content = take count (drop offset content)

abbrev pub reading : List ℕ → Reading
reading bytes = record { result = pos (length bytes); bytes = bytes }

-- The documented behaviour of descriptors of regular files on a node without I/O errors.
pub record IsPosix (P : Posix) : Type 0 where
  pub read-file :
      (fd : ℤ) (n : ℕ) (s : P.Fs) (f : OpenFile)
      → P.file fd s ≡ some f
      → (P.read fd n s).0 ≡ reading (slice f.offset n f.content)
  pub file-read :
      (fd : ℤ) (n : ℕ) (s : P.Fs) (f : OpenFile)
      → P.file fd s ≡ some f
      → P.file fd (P.read fd n s).1
        ≡ some (record f { offset = f.offset + length (slice f.offset n f.content) })
  pub file-read_ne :
      (fd other : ℤ) (n : ℕ) (s : P.Fs)
      → fd ≢ other
      → P.file other (P.read fd n s).1 ≡ P.file other s
  pub pread-file :
      (fd : ℤ) (n offset : ℕ) (s : P.Fs) (f : OpenFile)
      → P.file fd s ≡ some f
      → P.pread fd n (pos offset) s ≡ reading (slice offset n f.content)
  -- A file that opens is read from its start.
  pub open_read-file :
      (path : Text) (s : P.Fs) (c : List ℕ)
      → P.content path s ≡ some c
      → is_negative (P.open_read path s).0 ≡ false
      → P.file (P.open_read path s).0 (P.open_read path s).1
        ≡ some (record { content = c; offset = 0 })

-- Descriptors are new when they open, and calls leave the other open ones as they were, as long as
-- no other thread of the server's process reads or closes them.
pub record IsFdTable (P : Posix) : Type 0 where
  pub open_read-new :
      (path : Text) (s : P.Fs)
      → is_negative (P.open_read path s).0 ≡ false
      → P.file (P.open_read path s).0 s ≡ none
  pub file-open_read_ne :
      (path : Text) (fd : ℤ) (s : P.Fs)
      → (P.open_read path s).0 ≢ fd
      → P.file fd (P.open_read path s).1 ≡ P.file fd s
  pub file-close :
      (fd : ℤ) (s : P.Fs) (f : OpenFile) → P.file fd s ≡ some f → P.file fd (P.close fd s).1 ≡ none
  pub file-close_ne :
      (fd other : ℤ) (s : P.Fs) → fd ≢ other → P.file other (P.close fd s).1 ≡ P.file other s
  pub file-mkdtemp :
      (template : Text) (fd : ℤ) (s : P.Fs) → P.file fd (P.mkdtemp template s).2 ≡ P.file fd s
  pub file-copy :
      (from to : Text) (fd : ℤ) (s : P.Fs) → P.file fd (P.copy from to s).1 ≡ P.file fd s

-- The files that are there stay there unchanged under the calls that the server makes: none of
-- them writes to an existing file (`copy` refuses one), and no other process does.
pub record IsStable (P : Posix) : Type 0 where
  pub keeps-open :
      (path p : Text) (s : P.Fs) (c : List ℕ)
      → P.content p s ≡ some c
      → P.content p (P.open_read path s).1 ≡ some c
  pub keeps-close :
      (fd : ℤ) (p : Text) (s : P.Fs) (c : List ℕ)
      → P.content p s ≡ some c
      → P.content p (P.close fd s).1 ≡ some c
  pub keeps-read :
      (fd : ℤ) (n : ℕ) (p : Text) (s : P.Fs) (c : List ℕ)
      → P.content p s ≡ some c
      → P.content p (P.read fd n s).1 ≡ some c
  pub keeps-lseek :
      (fd offset whence : ℤ) (p : Text) (s : P.Fs) (c : List ℕ)
      → P.content p s ≡ some c
      → P.content p (P.lseek fd offset whence s).1 ≡ some c
  pub keeps-mkdtemp :
      (template p : Text) (s : P.Fs) (c : List ℕ)
      → P.content p s ≡ some c
      → P.content p (P.mkdtemp template s).2 ≡ some c
  pub keeps-copy :
      (from to p : Text) (s : P.Fs) (c : List ℕ)
      → P.content p s ≡ some c
      → P.content p (P.copy from to s).1 ≡ some c
  -- A copy that returns has the content of its source.
  pub copy-content :
      (from to : Text) (s : P.Fs)
      → (P.copy from to s).0 ≡ true
      → (c : List ℕ) × (P.content from s ≡ some c) × (P.content to (P.copy from to s).1 ≡ some c)

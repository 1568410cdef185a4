-- ===== src/Tests/Node.antt =====
-- A node in memory, with the documented behaviour that the servers rely on.
use mt_hvac.Base.{
  ℕ, ◌+◌, ◌≡◌, ◌≢◌, refl, inl, inr, Bool, true, false, Option, none, some, List, [], arith, Text,
  length, leb, ℤ, pos, negsuc, minus_one, int_key, text_key, update, erase, Option-cases,
  if◌then◌else◌,
}
use mt_hvac.Posix.{Posix, IsPosix, IsStable, IsFdTable, OpenFile, Reading, reading, slice}
use mt_hvac.Server.Reads.{IsBulk}

pub record Disk : Type 0 where
  pub files : Text → Option (List ℕ)
  pub open_files : ℤ → Option OpenFile
  pub last_fd : ℕ

abbrev pub no_data : Reading
no_data = record { result = minus_one; bytes = [] }

abbrev pub opened_on : Option (List ℕ) → Disk → ℤ × Disk
opened_on none s = (minus_one, s)
opened_on (some c) s = (
  pos (s.last_fd + 1),
  record s {
    open_files = update s.open_files (pos (s.last_fd + 1)) (record { content = c; offset = 0 });
    last_fd = s.last_fd + 1;
  },
)

abbrev pub read_of : Option OpenFile → ℤ → ℕ → Disk → Reading × Disk
read_of none fd n s = (no_data, s)
read_of (some f) fd n s = (
  reading (slice f.offset n f.content),
  record s {
    open_files =
        update s.open_files fd
          (record f { offset = f.offset + length (slice f.offset n f.content) });
  },
)

abbrev pub pread_of : Option OpenFile → ℤ → ℕ → Reading
pread_of none offset n = no_data
pread_of (some f) (pos offset) n = reading (slice offset n f.content)
pread_of (some f) (negsuc offset) n = no_data

abbrev pub copied : Option (List ℕ) → Option (List ℕ) → Text → Disk → Bool × Disk
copied none there to s = (false, s)
copied (some c) (some d) to s = (false, s)
copied (some c) none to s = (true, record s { files = update s.files to c })

-- What is open: a descriptor that has not been given out yet is not.
abbrev pub live : ℤ → Disk → Option OpenFile
live (pos n) s = if leb n s.last_fd then s.open_files (pos n) else none
live (negsuc n) s = s.open_files (negsuc n)

abbrev pub memory : Posix
memory = record {
  Fs = Disk;
  open_read = λ path s. opened_on (s.files path) s;
  close = λ fd s. (pos 0, record s { open_files = erase s.open_files fd });
  read = λ fd n s. read_of (live fd s) fd n s;
  pread = λ fd n offset s. pread_of (live fd s) offset n;
  lseek = λ fd offset whence s. (minus_one, s);
  allocates = λ n s. true;
  copy = λ from to s. copied (s.files from) (s.files to) to s;
  mkdtemp = λ template s. (true, template, s);
  file = live;
  content = λ path s. s.files path;
}

file-read :
    (fd : ℤ) (n : ℕ) (s : Disk) (f : OpenFile)
    → live fd s ≡ some f
    → live fd (read_of (live fd s) fd n s).1
      ≡ some (record f { offset = f.offset + length (slice f.offset n f.content) })
file-read (pos m) n s f e = ground arith
file-read (negsuc m) n s f e = ground arith

file-read_ne :
    (fd other : ℤ) (n : ℕ) (s : Disk)
    → fd ≢ other
    → live other (read_of (live fd s) fd n s).1 ≡ live other s
file-read_ne fd (pos m) n s h = ground arith
file-read_ne fd (negsuc m) n s h = ground arith

pub memory-IsPosix : IsPosix memory
memory-IsPosix = record {
  read-file = λ fd n s f e. rw (e, read_of);
  file-read = file-read;
  file-read_ne = file-read_ne;
  pread-file = λ fd n offset s f e. rw (e, pread_of);
  open_read-file = λ path s c e opened. ground arith;
}

file-open_read_ne :
    (path : Text) (fd : ℤ) (s : Disk)
    → (opened_on (s.files path) s).0 ≢ fd
    → live fd (opened_on (s.files path) s).1 ≡ live fd s
file-open_read_ne path (pos m) s h = ground arith
file-open_read_ne path (negsuc m) s h = ground arith

file-close :
    (fd : ℤ) (s : Disk) (f : OpenFile)
    → live fd s ≡ some f
    → live fd (record s { open_files = erase s.open_files fd }) ≡ none
file-close (pos m) s f h = ground arith
file-close (negsuc m) s f h = ground arith

file-close_ne :
    (fd other : ℤ) (s : Disk)
    → fd ≢ other
    → live other (record s { open_files = erase s.open_files fd }) ≡ live other s
file-close_ne fd (pos m) s h = ground arith
file-close_ne fd (negsuc m) s h = ground arith

file-copy :
    (from to : Text) (fd : ℤ) (s : Disk)
    → live fd (copied (s.files from) (s.files to) to s).1 ≡ live fd s
file-copy from to (pos m) s = ground arith
file-copy from to (negsuc m) s = ground arith

pub memory-IsFdTable : IsFdTable memory
memory-IsFdTable = record {
  open_read-new = λ path s opened. ground arith;
  file-open_read_ne = file-open_read_ne;
  file-close = file-close;
  file-close_ne = file-close_ne;
  file-mkdtemp = λ template fd s. refl;
  file-copy = file-copy;
}

keeps :
    (from to p : Text) (s : Disk) (c : List ℕ)
    → s.files p ≡ some c
    → (copied (s.files from) (s.files to) to s).1.files p ≡ some c
keeps from to p s c h = ground arith

copy-content :
    (from to : Text) (s : Disk)
    → (copied (s.files from) (s.files to) to s).0 ≡ true
    → (c : List ℕ) × (s.files from ≡ some c)
      × ((copied (s.files from) (s.files to) to s).1.files to ≡ some c)
copy-content from to s h = elim (Option-cases (s.files from)) [
  | inl e ↦ ground arith
  | inr (c, e) ↦ (c, e, ground arith)
]

pub memory-IsStable : IsStable memory
memory-IsStable = record {
  keeps-open = λ path p s c h. ground arith;
  keeps-close = λ fd p s c h. h;
  keeps-read = λ fd n p s c h. ground arith;
  keeps-lseek = λ fd offset whence p s c h. h;
  keeps-mkdtemp = λ template p s c h. h;
  keeps-copy = keeps;
  copy-content = copy-content;
}

-- A transfer starts if it fits the registered buffer.
abbrev pub bulk : ℕ → ℕ → Bool
bulk registered size = leb size registered

pub bulk-IsBulk : IsBulk bulk
bulk-IsBulk = record {
  fits = λ registered size h. ground arith;
  exceeds = λ registered size h. ground arith;
}

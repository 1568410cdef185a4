-- ===== src/Server/Reads.antt =====
-- What a read request comes to at the server: `hvac_rpc_handler` in src/mthvac_comm.cpp over a
-- node that behaves as documented.
use mt_hvac.Base.{
  ℕ, ◌+◌, ◌-◌, ◌≤◌, ◌<◌, ◌^◌, ◌≡◌, refl, Bool, true, false, some, List, arith, length, replicate,
  length-take, take-length-append, ℤ, pos, minus_one, to_uint64, to_int32_small, to_uint64_small,
  to_uint64-minus_one, drop, returns, stops, aborted,
}
use mt_hvac.Posix.{Posix, IsPosix, OpenFile, reading, slice}
use mt_hvac.Server.{State, ReadIn, perform, push, read_handler}

-- Mercury starts a transfer exactly when it fits the registered buffer.
pub record IsBulk (bulk_transfer : ℕ → ℕ → Bool) : Type 0 where
  pub fits : (registered size : ℕ) → size ≤ registered → bulk_transfer registered size ≡ true
  pub exceeds : (registered size : ℕ) → registered < size → bulk_transfer registered size ≡ false

module _ (P : Posix) (bulk_transfer : ℕ → ℕ → Bool) (B : IsBulk bulk_transfer) where
  push-reading :
      (n : ℕ) (bytes : List ℕ) (s : State P)
      → n < 2 ^ 31
      → length bytes ≤ n
      → push P bulk_transfer n (reading bytes) s
        ≡ returns (record { ret = pos (length bytes); pushed = bytes }, s)
  unfolding push
  push-reading n bytes s h k =
      rw
        (
          to_uint64_small (length bytes) (omega arith),
          B.fits n (length bytes) k,
          to_int32_small (length bytes) (omega arith),
          take-length-append bytes (replicate n 0),
        )
        refl

  perform-read :
      (n fd : ℤ) (size : ℕ) (s : State P)
      → perform P (record { input_val = n; accessfd = fd; offset = minus_one }) size s
        ≡ ((P.read fd size s.fs).0, record s { fs = (P.read fd size s.fs).1 })
  unfolding perform
  perform-read n fd size s = ground arith

  perform-pread :
      (n fd : ℤ) (size offset : ℕ) (s : State P)
      → perform P (record { input_val = n; accessfd = fd; offset = pos offset }) size s
        ≡ (P.pread fd size (pos offset) s.fs, s)
  unfolding perform
  perform-pread n fd size offset s = ground arith

  -- An operation that fails with -1 ends the server process: the transfer is asked for 2 ^ 64 - 1
  -- bytes, and the assertion on its start fails. The client gets no answer.
  pub read_handler-failed :
      (i : ReadIn) (s : State P)
      → to_uint64 i.input_val < 2 ^ 64 - 1
      → P.allocates (to_uint64 i.input_val) s.fs ≡ true
      → (perform P i (to_uint64 i.input_val) s).0.result ≡ minus_one
      → read_handler P bulk_transfer i s ≡ stops aborted
  unfolding read_handler push
  read_handler-failed i s h a e =
      rw (a, e)
        (rw (
          B.exceeds (to_uint64 i.input_val) (to_uint64 minus_one)
            (omega (arith, to_uint64-minus_one))))

  module _ (L : IsPosix P) where
    -- The answer to a read at the current offset, and the state that it leaves.
    pub read_handler-sent :
        (fd : ℤ) (n : ℕ) (s : State P) (f : OpenFile)
        → n < 2 ^ 31
        → P.file fd s.fs ≡ some f
        → P.allocates n s.fs ≡ true
        → let bytes = slice f.offset n f.content in
          read_handler P bulk_transfer
            (record { input_val = pos n; accessfd = fd; offset = minus_one })
            s
          ≡ returns (
            record { ret = pos (length bytes); pushed = bytes },
            record s { fs = (P.read fd n s.fs).1 },
          )
    unfolding read_handler
    read_handler-sent fd n s f h e a =
        rw (to_uint64_small n h, a, perform-read (pos n) fd n s, L.read-file fd n s.fs f e)
          (push-reading n (slice f.offset n f.content) _ h
            (omega (arith, length-take n (drop f.offset f.content))))

    -- A read of at most 2 ^ 31 - 1 bytes at the current offset of an open descriptor answers with
    -- the bytes of the file from that offset on and their number, and advances the offset by it.
    pub read_handler-read :
        (fd : ℤ) (n : ℕ) (s : State P) (f : OpenFile)
        → n < 2 ^ 31
        → P.file fd s.fs ≡ some f
        → P.allocates n s.fs ≡ true
        → let bytes = slice f.offset n f.content in
          (fs' : P.Fs) × (read_handler P bulk_transfer
              (record { input_val = pos n; accessfd = fd; offset = minus_one })
              s
            ≡ returns (record { ret = pos (length bytes); pushed = bytes }, record s { fs = fs' }))
          × (P.file fd fs' ≡ some (record f { offset = f.offset + length bytes }))
    read_handler-read fd n s f h e a =
        ((P.read fd n s.fs).1, read_handler-sent fd n s f h e a, L.file-read fd n s.fs f e)

    -- A read of at most 2 ^ 31 - 1 bytes of an open descriptor at an offset of its own answers with
    -- the bytes there and their number, and leaves the server as it is.
    pub read_handler-pread :
        (fd : ℤ) (n offset : ℕ) (s : State P) (f : OpenFile)
        → n < 2 ^ 31
        → P.file fd s.fs ≡ some f
        → P.allocates n s.fs ≡ true
        → let bytes = slice offset n f.content in
          read_handler P bulk_transfer
            (record { input_val = pos n; accessfd = fd; offset = pos offset })
            s
          ≡ returns (record { ret = pos (length bytes); pushed = bytes }, s)
    unfolding read_handler
    read_handler-pread fd n offset s f h e a =
        rw
          (
            to_uint64_small n h,
            a,
            perform-pread (pos n) fd n offset s,
            L.pread-file fd n offset s.fs f e,
          )
          (push-reading n (slice offset n f.content) _ h
            (omega (arith, length-take n (drop offset f.content))))

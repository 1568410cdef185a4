-- ===== src/Server.antt =====
-- The server's RPC handlers: src/mthvac_comm.cpp. A handler is run by the progress thread, to its
-- end; `P` is the operating system of the server's node, and `bulk_transfer registered size` says
-- whether Mercury starts a transfer of `size` bytes out of a buffer of `registered` bytes, carries
-- it out and sends the answer.
pub mod Reads
pub mod Start
use mt_hvac.Base.{
  ℕ, Bool, Option, none, some, List, [], ◌∷◌, ◌++◌, Text, take, replicate, ℤ, pos, minus_one,
  to_int32, to_uint64, int_key, text_key, update, erase, nothing, ◌=?◌, Outcome, returns, stops,
  aborted, M, ◌>>=◌, if◌then◌else◌,
}
use mt_hvac.Posix.{Posix, Reading}

-- The globals of the server process that the handlers share with the data mover.
pub record Server (Fs : Type 0) : Type 0 where
  pub fs : Fs
  pub fd_to_path : ℤ → Option Text
  pub path_cache_map : Text → Option Text
  pub data_queue : List Text

-- hvac_rpc_in_t, less the bulk handle
pub record ReadIn : Type 0 where
  pub input_val : ℤ
  pub accessfd : ℤ
  pub offset : ℤ

-- hvac_rpc_out_t, with the bytes that the bulk transfer has put into the client's buffer
pub record ReadOut : Type 0 where
  pub ret : ℤ
  pub pushed : List ℕ

module _ (P : Posix) where
  abbrev pub State : Type 0
  State = Server P.Fs

  abbrev pub fresh_server : P.Fs → State
  fresh_server fs = record {
    fs = fs;
    fd_to_path = nothing;
    path_cache_map = nothing;
    data_queue = [];
  }

  -- `path_cache_map[redir_path]` if the file has been copied, the path itself if not
  unfoldable pub redirect : Text → State → Text
  redirect path s = elim (s.path_cache_map path) [ none ↦ path | some copy ↦ copy ]

  -- hvac_open_rpc_handler
  unfoldable pub open_handler : Text → State → ℤ × State
  open_handler path s =
      let (fd, fs') = P.open_read (redirect path s) s.fs in
      (fd, record s { fs = fs'; fd_to_path = update s.fd_to_path fd path })

  -- `fd_to_path[fd]`, which for a key that is absent is the empty string
  unfoldable pub path_of : ℤ → State → Text
  path_of fd s = elim (s.fd_to_path fd) [ none ↦ [] | some path ↦ path ]

  -- The file of a closed descriptor goes to the data mover, unless it has been copied already.
  unfoldable pub enqueue : Text → State → State
  enqueue path s = elim (s.path_cache_map path) [
    | none ↦ record s { data_queue = s.data_queue ++ path ∷ [] }
    | some copy ↦ s
  ]

  unfoldable pub forget : ℤ → State → State
  forget fd s = record s { fd_to_path = erase s.fd_to_path fd }

  -- hvac_close_rpc_handler. An unknown descriptor that closes stands for the empty path.
  unfoldable pub close_handler : ℤ → M State (Unit {0})
  close_handler fd s =
      let (ret, fs') = P.close fd s.fs in
      if ret =? pos 0
      then returns (tt, forget fd (enqueue (path_of fd s) (record s { fs = fs' })))
      else stops aborted

  -- hvac_seek_rpc_handler: the result goes back in 32 bits.
  unfoldable pub seek_handler : (fd offset whence : ℤ) → State → ℤ × State
  seek_handler fd offset whence s =
      let (result, fs') = P.lseek fd offset whence s.fs in (to_int32 result, record s { fs = fs' })

  -- An offset of -1 asks for `read`, any other for `pread`. The log message reads `fd_to_path[fd]`:
  -- it may enter the empty path for an unknown descriptor, which `path_of` gives for it anyway.
  unfoldable pub perform : ReadIn → ℕ → State → Reading × State
  perform i size s =
      if i.offset =? minus_one
      then (let (r, fs') = P.read i.accessfd size s.fs in (r, record s { fs = fs' }))
      else (P.pread i.accessfd size i.offset s.fs, s)

  module _ (bulk_transfer : ℕ → ℕ → Bool) where
    -- The rest of hvac_rpc_handler and hvac_rpc_handler_bulk_cb: a result of -1 is a size of
    -- 2 ^ 64 - 1 here.
    unfoldable pub push : ℕ → Reading → State → Outcome (ReadOut × State)
    push registered r s =
        let size = to_uint64 r.result in
        if bulk_transfer registered size
        then returns (
          record {
            ret = to_int32 (pos size);
            pushed = take size (r.bytes ++ replicate registered 0);
          },
          s,
        )
        else stops aborted

    -- hvac_rpc_handler
    unfoldable pub read_handler : ReadIn → M State ReadOut
    unfolding perform push
    read_handler i s =
        let size = to_uint64 i.input_val in
        if P.allocates size s.fs
        then (let (r, s') = perform i size s in push size r s')
        else stops aborted

-- ===== src/Client/Reads.antt =====
-- Reads of a tracked file: `hvac_remote_read` and `hvac_remote_pread` of src/mthvac_client.cpp down
-- to the call, when the descriptor is ready and the server answers as it should.
use mt_hvac.Base.{
  ℕ, ◌+◌, ◌-◌, ◌<◌, ◌^◌, ◌%◌, ◌==◌, ◌≡◌, refl, ◌∙◌, true, false, Option, some, arith, Text, length,
  ℤ, pos, minus_one, to_int32, to_int32_small, int_key, >>=-returns, returns, ◌=?◌,
}
use mt_hvac.Posix.{OpenFile, reading, slice}
use mt_hvac.Server.{ReadIn, ReadOut}
use mt_hvac.Platform.{Platform, Sent, answered}
use mt_hvac.Fd.{ready, state_of, wait_fd_ready}
use mt_hvac.Rpc.State.{IoStats, World}
use mt_hvac.Rpc.{
  assert, lookup_addr, create_handle, destroy_handle, free_addr, read_remote, read_mapped, read_rpc,
  read_done,
}
use mt_hvac.Client.{host_of, read_tracked, remote_read}

-- The file after a read at its offset.
abbrev pub advance : OpenFile → ℕ → OpenFile
advance f n = record f { offset = f.offset + length (slice f.offset n f.content) }

abbrev pub request : ℕ → ℤ → ℤ → ReadIn
request n fd offset = record { input_val = pos n; accessfd = fd; offset = offset }

abbrev pub reply : OpenFile → ℕ → ℕ → Sent ReadOut
reply f offset n =
    answered
      (record { ret = pos (length (slice offset n f.content)); pushed = slice offset n f.content })

-- The host of a path, with servers.
pub host_of-counted :
    (P : Platform) (path : Text) (w : World P.Sys)
    → (w.client.server_count == 0) ≡ false
    → host_of P path w ≡ returns (to_int32 (pos (P.hash path % w.client.server_count)), w)
unfolding host_of
host_of-counted P path w e = rw e

-- Servers that answer every read of a descriptor that they have open, over a Mercury that has what
-- it needs. `remote a fd s` is what stands behind the descriptor `fd` at the server of address `a`.
pub record IsHonest (P : Platform) (remote : P.Addr → ℤ → P.Sys → Option OpenFile) : Type 0 where
  pub creates_all : (a : P.Addr) (s : P.Sys) → P.creates (some a) s ≡ true
  pub frees_all : (a : P.Addr) (s : P.Sys) → P.frees (some a) s ≡ true
  pub registers_all : (n : ℕ) (s : P.Sys) → P.bulk_creates n s ≡ true
  pub resolve-send_read :
      (name : Text) (a : P.Addr) (i : ReadIn) (s : P.Sys)
      → P.resolve name (P.send_read (some a) i s).1 ≡ P.resolve name s
  pub send_read-read :
      (a : P.Addr) (fd : ℤ) (n : ℕ) (s : P.Sys) (f : OpenFile)
      → n < 2 ^ 31
      → remote a fd s ≡ some f
      → ((P.send_read (some a) (request n fd minus_one) s).0 ≡ reply f f.offset n)
        × (remote a fd (P.send_read (some a) (request n fd minus_one) s).1 ≡ some (advance f n))
  pub send_read-pread :
      (a : P.Addr) (fd : ℤ) (n offset : ℕ) (s : P.Sys) (f : OpenFile)
      → n < 2 ^ 31
      → remote a fd s ≡ some f
      → ((P.send_read (some a) (request n fd (pos offset)) s).0 ≡ reply f offset n)
        × (remote a fd (P.send_read (some a) (request n fd (pos offset)) s).1 ≡ some f)

module _ (P : Platform) (remote : P.Addr → ℤ → P.Sys → Option OpenFile) where
  -- The descriptor `fd` is tracked and ready, and stands for an open file at a server whose address
  -- is known.
  pub record IsServed (fd : ℤ) (f : OpenFile) (w : World P.Sys) : Type 0 where
    pub path : Text
    pub name : Text
    pub addr : P.Addr
    pub remote_fd : ℤ
    pub tracked : w.client.fd_map fd ≡ some path
    pub is_ready : state_of fd w.client.fds ≡ some ready
    pub mapped : w.client.fd_redir_map fd ≡ some remote_fd
    pub nonzero : (remote_fd =? pos 0) ≡ false
    pub counted : (w.client.server_count == 0) ≡ false
    pub cached :
        w.client.address_cache (to_int32 (pos (P.hash path % w.client.server_count))) ≡ some name
    pub resolved : P.resolve name w.sys ≡ some addr
    pub served : remote addr remote_fd w.sys ≡ some f

  -- A served descriptor, with where it is served.
  abbrev pub IsPlaced : ℤ → OpenFile → P.Addr → ℤ → World P.Sys → Type 0
  IsPlaced fd f a remote_fd w = (v : IsServed fd f w) × (v.addr ≡ a) × (v.remote_fd ≡ remote_fd)

  -- A served descriptor stays served, and where it is, when the world outside the client changes, if
  -- its server can still be found and has an open file for it, whatever the counters say.
  pub IsPlaced-move :
      (fd : ℤ) (f f' : OpenFile) (w : World P.Sys) (g : IoStats → IoStats) (s : P.Sys)
      (v : IsServed fd f w)
      → P.resolve v.name s ≡ P.resolve v.name w.sys
      → remote v.addr v.remote_fd s ≡ some f'
      → IsPlaced fd f' v.addr v.remote_fd
          (record { client = record w.client { stats = g w.client.stats }; sys = s })
  IsPlaced-move fd f f' w g s v r e = (
    record {
      path = v.path;
      name = v.name;
      addr = v.addr;
      remote_fd = v.remote_fd;
      tracked = v.tracked;
      is_ready = v.is_ready;
      mapped = v.mapped;
      nonzero = v.nonzero;
      counted = v.counted;
      cached = v.cached;
      resolved = r ∙ v.resolved;
      served = e;
    },
    refl,
    refl,
  )

  pub IsServed-move :
      (fd : ℤ) (f f' : OpenFile) (w : World P.Sys) (g : IoStats → IoStats) (s : P.Sys)
      (v : IsServed fd f w)
      → P.resolve v.name s ≡ P.resolve v.name w.sys
      → remote v.addr v.remote_fd s ≡ some f'
      → IsServed fd f' (record { client = record w.client { stats = g w.client.stats }; sys = s })
  IsServed-move fd f f' w g s v r e = (IsPlaced-move fd f f' w g s v r e).0

  pub lookup_addr-cached :
      (host : ℤ) (w : World P.Sys) (name : Text) (a : P.Addr)
      → w.client.address_cache host ≡ some name
      → P.resolve name w.sys ≡ some a
      → lookup_addr P host w
        ≡ returns (
          some a,
          record w {
            client = record w.client {
              live = record w.client.live { addrs = w.client.live.addrs + 1 };
            };
          },
        )
  unfolding lookup_addr
  lookup_addr-cached host w name a c r = rw (c, lookup_addr) (rw r)

  -- The world after a call that has changed nothing at the client.
  abbrev pub at_sys : World P.Sys → P.Sys → World P.Sys
  at_sys w s = record w { sys = s }

  pub create_handle-some :
      (a : P.Addr) (w : World P.Sys)
      → P.creates (some a) w.sys ≡ true
      → create_handle P (some a) w
        ≡ returns (
          tt,
          record w {
            client = record w.client {
              live = record w.client.live { handles = w.client.live.handles + 1 };
            };
          },
        )
  unfolding create_handle
  create_handle-some a w e = rw (e, assert)

  pub free_addr-some :
      (a : P.Addr) (w : World P.Sys)
      → P.frees (some a) w.sys ≡ true
      → free_addr P (some a) w
        ≡ returns (
          tt,
          record w {
            client = record w.client {
              live = record w.client.live { addrs = w.client.live.addrs - 1 };
            };
          },
        )
  unfolding free_addr
  free_addr-some a w e = rw (e, assert)

  read_done-answered :
      (a : P.Addr) (out : ReadOut) (w w₀ : World P.Sys)
      → P.frees (some a) w.sys ≡ true
      → w.client ≡ record w₀.client {
        live = record {
          handles = w₀.client.live.handles + 1;
          addrs = w₀.client.live.addrs + 1;
          bulks = w₀.client.live.bulks + 1;
        };
      }
      → read_done P (some a) (answered out) w
        ≡ returns (record { result = out.ret; bytes = out.pushed }, at_sys w₀ w.sys)
  unfolding read_done destroy_handle
  read_done-answered a out w w₀ e c =
      >>=-returns (free_addr P (some a)) _ w (free_addr-some a w e) ∙ ground arith

  module _ (H : IsHonest P remote) where
    -- The request that the client sends comes back with the answer, and leaves the client as it was.
    read_remote-answered :
        (host fd offset : ℤ) (n : ℕ) (w : World P.Sys) (name : Text) (a : P.Addr) (out : ReadOut)
        → n < 2 ^ 31
        → w.client.address_cache host ≡ some name
        → P.resolve name w.sys ≡ some a
        → (P.send_read (some a) (request n fd offset) w.sys).0 ≡ answered out
        → read_remote P host fd true n offset w
          ≡ returns (
            record { result = out.ret; bytes = out.pushed },
            at_sys w (P.send_read (some a) (request n fd offset) w.sys).1,
          )
    unfolding read_remote
    read_remote-answered host fd offset n w name a out small c r sent =
        >>=-returns (lookup_addr P host) _ w (lookup_addr-cached host w name a c r)
        ∙ >>=-returns (create_handle P (some a)) _ _
            (create_handle-some a _ (H.creates_all a w.sys))
        ∙ rw (H.registers_all n w.sys, to_int32_small n small)
            (rw sent (read_done-answered a out _ w (H.frees_all a _) refl))

    pub read_rpc-answered :
        (host fd remote_fd offset : ℤ) (n : ℕ) (w : World P.Sys) (name : Text) (a : P.Addr)
        (out : ReadOut)
        → n < 2 ^ 31
        → state_of fd w.client.fds ≡ some ready
        → w.client.fd_redir_map fd ≡ some remote_fd
        → (remote_fd =? pos 0) ≡ false
        → w.client.address_cache host ≡ some name
        → P.resolve name w.sys ≡ some a
        → (P.send_read (some a) (request n remote_fd offset) w.sys).0 ≡ answered out
        → read_rpc P host fd true n offset w
          ≡ returns (
            record { result = out.ret; bytes = out.pushed },
            at_sys w (P.send_read (some a) (request n remote_fd offset) w.sys).1,
          )
    unfolding read_rpc read_mapped wait_fd_ready
    read_rpc-answered host fd remote_fd offset n w name a out small st m z c r sent =
        rw (st, m) (rw z (read_remote-answered host remote_fd offset n w name a out small c r sent))

    -- What the server of a served descriptor answers, and what stands behind the descriptor then.
    pub remote_read-sent :
        (fd : ℤ) (n : ℕ) (f : OpenFile) (w : World P.Sys) (v : IsServed fd f w)
        → n < 2 ^ 31
        → let s = (P.send_read (some v.addr) (request n v.remote_fd minus_one) w.sys).1 in
          (remote_read P fd true n w ≡ returns (reading (slice f.offset n f.content), at_sys w s))
          × (remote v.addr v.remote_fd s ≡ some (advance f n))
    unfolding remote_read read_tracked
    remote_read-sent fd n f w v small =
        let (sent, served') = H.send_read-read v.addr v.remote_fd n w.sys f small v.served in
        (
          rw v.tracked (
              >>=-returns (host_of P v.path) _ w (host_of-counted P v.path w v.counted)
              ∙ read_rpc-answered _ fd v.remote_fd minus_one n w v.name v.addr _ small v.is_ready
                  v.mapped v.nonzero v.cached v.resolved sent),
          served',
        )

    pub IsServed-send_read :
        (fd : ℤ) (f f' : OpenFile) (w : World P.Sys) (i : ReadIn) (v : IsServed fd f w)
        → remote v.addr v.remote_fd (P.send_read (some v.addr) i w.sys).1 ≡ some f'
        → IsServed fd f' (at_sys w (P.send_read (some v.addr) i w.sys).1)
    IsServed-send_read fd f f' w i v e =
        IsServed-move fd f f' w (λ c. c) (P.send_read (some v.addr) i w.sys).1 v
          (H.resolve-send_read v.name v.addr i w.sys) e

    -- A read of a served descriptor returns the bytes of the server's file from its offset on and
    -- their number, and leaves the client as it was and the descriptor served, with the offset
    -- behind those bytes.
    pub remote_read-IsServed :
        (fd : ℤ) (n : ℕ) (f : OpenFile) (w : World P.Sys)
        → n < 2 ^ 31
        → IsServed fd f w
        → (s : P.Sys) × (remote_read P fd true n w
            ≡ returns (reading (slice f.offset n f.content), at_sys w s))
          × IsServed fd (advance f n) (at_sys w s)
    remote_read-IsServed fd n f w small v =
        let (e, served') = remote_read-sent fd n f w v small in
        (
          (P.send_read (some v.addr) (request n v.remote_fd minus_one) w.sys).1,
          e,
          IsServed-send_read fd f (advance f n) w (request n v.remote_fd minus_one) v served',
        )

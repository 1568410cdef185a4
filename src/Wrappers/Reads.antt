-- ===== src/Wrappers/Reads.antt =====
-- What a program that reads through the wrappers gets: src/wrappers.c over src/mthvac_client.cpp.
use native.Mathlib.Nat.{add-zero}
use mt_hvac.Base.{
  ℕ, ◌+◌, ◌<◌, ◌^◌, ◌≡◌, refl, ◌∙◌, ap, true, false, Option, some, List, [], ◌∷◌, ◌++◌, arith,
  length, length-take, take, drop, sym, subst, take-append-take, drop-drop, length-append, ℤ, pos,
  minus_one, to_int32, to_int32_small, int_key, ◌>>=◌, >>=-returns, returns, pure, ◌=?◌,
}
use mt_hvac.Posix.{OpenFile, reading, slice}
use mt_hvac.Platform.{Platform}
use mt_hvac.Fd.Deadline.{Timespec}
use mt_hvac.Rpc.State.{IoStats, World, settings}
use mt_hvac.Client.{remote_read, remote_pread}
use mt_hvac.Client.Reads.{IsHonest, IsServed, IsServed-move, advance, request, remote_read-sent}
use mt_hvac.Client.Preads.{remote_pread-sent, remote_pread_sequential-IsServed}
use mt_hvac.Wrappers.{wrap_read, wrap_pread, map_stats, timed}
use mt_hvac.Rpc.{Action}
use mt_hvac.Wrappers.Elapsed.{elapsed}

-- A `read` of a number of bytes between two readings of the clock.
pub record ReadCall : Type 0 where
  pub count : ℕ
  pub start : Timespec
  pub end : Timespec

abbrev pub AreSmall : List ReadCall → Type 0
AreSmall [] = Unit {0}
AreSmall (c ∷ cs) = (c.count < 2 ^ 31) × AreSmall cs

abbrev pub total : List ReadCall → ℕ
total [] = 0
total (c ∷ cs) = c.count + total cs

module _ (P : Platform) where
  -- A program that reads again and again, and puts the bytes together.
  abbrev pub read_all : ℤ → List ReadCall → Action P (List ℕ)
  read_all fd [] = pure []
  read_all fd (c ∷ cs) = do
    r ← wrap_read P c.start c.end fd true c.count
    rest ← read_all fd cs
    pure (r.bytes ++ rest)

-- Two reads in a row are one.
pub slice-append :
    (offset n m : ℕ) (content : List ℕ)
    → slice offset n content ++ slice (offset + length (slice offset n content)) m content
      ≡ slice offset (n + m) content
slice-append offset n m content =
    ap (λ r. slice offset n content ++ take m r)
      (sym (drop-drop offset (length (slice offset n content)) content))
    ∙ take-append-take n m (drop offset content)

offset-append :
    (offset n m : ℕ) (content : List ℕ)
    → offset
        + length (slice offset n content)
        + length (slice (offset + length (slice offset n content)) m content)
      ≡ offset + length (slice offset (n + m) content)
offset-append offset n m content = omega (
  arith,
  ap length (slice-append offset n m content),
  length-append (slice offset n content)
      (slice (offset + length (slice offset n content)) m content),
)

module _ (P : Platform) (remote : P.Addr → ℤ → P.Sys → Option OpenFile)
    (H : IsHonest P remote) where
  -- Counting a call leaves the descriptor served.
  IsServed-stats :
      (fd : ℤ) (f : OpenFile) (w : World P.Sys) (g : IoStats → IoStats)
      → IsServed P remote fd f w
      → IsServed P remote fd f (record w { client = map_stats g w.client })
  IsServed-stats fd f w g v = IsServed-move P remote fd f f w g w.sys v refl v.served

  pos-ne-minus_one : (m : ℕ) → (pos m =? minus_one) ≡ false
  pos-ne-minus_one m = ground arith

  length-slice-lt :
      (offset n : ℕ) (content : List ℕ) → n < 2 ^ 31 → length (slice offset n content) < 2 ^ 31
  length-slice-lt offset n content h = omega (arith, length-take n (drop offset content))

  module _ (start end : Timespec) where
    abbrev pub count_read : IoStats → IoStats
    count_read c = record c { read_stats = timed (elapsed start end) c.read_stats }

    abbrev pub count_pread : IoStats → IoStats
    count_pread c = record c { pread_stats = timed (elapsed start end) c.pread_stats }

    -- An intercepted `read` of a served descriptor, with the request that goes to the server.
    pub wrap_read-sent :
        (fd : ℤ) (n : ℕ) (f : OpenFile) (w : World P.Sys) (v : IsServed P remote fd f w)
        → n < 2 ^ 31
        → let s = (P.send_read (some v.addr) (request n v.remote_fd minus_one) w.sys).1 in
          (wrap_read P start end fd true n w
            ≡ returns (
              reading (slice f.offset n f.content),
              record { client = map_stats count_read w.client; sys = s },
            ))
          × (remote v.addr v.remote_fd s ≡ some (advance f n))
    unfolding wrap_read
    wrap_read-sent fd n f w v small =
        let (e, served) = remote_read-sent P remote H fd n f w v small in
        let k : to_int32 (pos (length (slice f.offset n f.content)))
            ≡ pos (length (slice f.offset n f.content)) =
          to_int32_small _ (length-slice-lt f.offset n f.content small) in
        (
          >>=-returns (remote_read P fd true n) _ w e
              ∙ rw k (rw (pos-ne-minus_one (length (slice f.offset n f.content))) (rw k)),
          served,
        )

    -- Where the servers keep their promise, an intercepted `read` of fewer than 2 ^ 31 bytes of a
    -- served descriptor returns what `read` would of the file: the bytes from the offset on and
    -- their number. It leaves the descriptor served, with the offset behind those bytes.
    pub wrap_read-IsServed :
        (fd : ℤ) (n : ℕ) (f : OpenFile) (w : World P.Sys)
        → n < 2 ^ 31
        → IsServed P remote fd f w
        → (w' : World P.Sys) × (wrap_read P start end fd true n w
            ≡ returns (reading (slice f.offset n f.content), w'))
          × IsServed P remote fd (advance f n) w'
    wrap_read-IsServed fd n f w small v =
        let s = (P.send_read (some v.addr) (request n v.remote_fd minus_one) w.sys).1 in
        let (e, served) = wrap_read-sent fd n f w v small in
        (
          record { client = map_stats count_read w.client; sys = s },
          e,
          IsServed-move P remote fd f (advance f n) w count_read s v
              (H.resolve-send_read v.name v.addr (request n v.remote_fd minus_one) w.sys) served,
        )

    -- An intercepted `pread` of a served descriptor, with the request that goes to the server.
    pub wrap_pread-sent :
        (fd : ℤ) (n offset : ℕ) (f : OpenFile) (w : World P.Sys) (v : IsServed P remote fd f w)
        → n < 2 ^ 31
        → let s = (P.send_read (some v.addr) (request n v.remote_fd (pos offset)) w.sys).1 in
          (wrap_pread P start end fd true n (pos offset) w
            ≡ returns (
              reading (slice offset n f.content),
              record { client = map_stats count_pread w.client; sys = s },
            ))
          × (remote v.addr v.remote_fd s ≡ some f)
    unfolding wrap_pread
    wrap_pread-sent fd n offset f w v small =
        let (e, served) = remote_pread-sent P remote H fd n offset f w v small in
        (
          rw v.tracked (
              >>=-returns (remote_pread P fd true n (pos offset)) _ w e
              ∙ rw (pos-ne-minus_one (length (slice offset n f.content)))),
          served,
        )

    -- Where the servers keep their promise, an intercepted `pread` of fewer than 2 ^ 31 bytes of
    -- a served descriptor returns what `pread` would of the file, and leaves the descriptor
    -- served, with its offset where it was.
    pub wrap_pread-IsServed :
        (fd : ℤ) (n offset : ℕ) (f : OpenFile) (w : World P.Sys)
        → n < 2 ^ 31
        → IsServed P remote fd f w
        → (w' : World P.Sys) × (wrap_pread P start end fd true n (pos offset) w
            ≡ returns (reading (slice offset n f.content), w'))
          × IsServed P remote fd f w'
    wrap_pread-IsServed fd n offset f w small v =
        let s = (P.send_read (some v.addr) (request n v.remote_fd (pos offset)) w.sys).1 in
        let (e, served) = wrap_pread-sent fd n offset f w v small in
        (
          record { client = map_stats count_pread w.client; sys = s },
          e,
          IsServed-move P remote fd f f w count_pread s v
              (H.resolve-send_read v.name v.addr (request n v.remote_fd (pos offset)) w.sys) served,
        )

    -- Where the servers keep their promise, an intercepted `pread` of fewer than 2 ^ 31 bytes of
    -- a served descriptor at the offset -1 does not fail: it returns what `read` would, and moves
    -- the offset behind those bytes.
    pub wrap_pread_sequential-IsServed :
        (fd : ℤ) (n : ℕ) (f : OpenFile) (w : World P.Sys)
        → n < 2 ^ 31
        → IsServed P remote fd f w
        → (w' : World P.Sys) × (wrap_pread P start end fd true n minus_one w
            ≡ returns (reading (slice f.offset n f.content), w'))
          × IsServed P remote fd (advance f n) w'
    unfolding wrap_pread
    wrap_pread_sequential-IsServed fd n f w small v =
        let (s, e, v') = remote_pread_sequential-IsServed P remote H fd n f w small v in
        (
          record w { client = map_stats count_pread w.client; sys = s },
          rw v.tracked (
              >>=-returns (remote_pread P fd true n minus_one) _ w e
              ∙ rw (pos-ne-minus_one (length (slice f.offset n f.content)))),
          IsServed-stats fd (advance f n) (record w { sys = s }) count_pread v',
        )

  -- Such reads in a row, with the settings as they were, and with whatever the sending of a read
  -- keeps outside the client.
  pub read_all-kept :
      (Φ : P.Sys → Type 0)
      (keeps : (a : P.Addr) (fd : ℤ) (n : ℕ) (s : P.Sys) (f : OpenFile)
        → n < 2 ^ 31
        → remote a fd s ≡ some f
        → Φ s
        → Φ (P.send_read (some a) (request n fd minus_one) s).1)
      (fd : ℤ) (cs : List ReadCall) (f : OpenFile) (w : World P.Sys)
      → AreSmall cs
      → IsServed P remote fd f w
      → Φ w.sys
      → (w' : World P.Sys) × (read_all P fd cs w
          ≡ returns (slice f.offset (total cs) f.content, w'))
        × IsServed P remote fd
            (record f { offset = f.offset + length (slice f.offset (total cs) f.content) })
            w'
        × (settings w'.client ≡ settings w.client)
        × Φ w'.sys
  read_all-kept Φ keeps fd [] f w small v h = (
    w,
    refl,
    subst (λ o. IsServed P remote fd (record f { offset = o }) w) (sym (add-zero f.offset)) v,
    refl,
    h,
  )
  read_all-kept Φ keeps fd (c ∷ cs) f w small v h =
      let (first, served) = wrap_read-sent c.start c.end fd c.count f w v small.0 in
      let s = (P.send_read (some v.addr) (request c.count v.remote_fd minus_one) w.sys).1 in
      let w₁ : World P.Sys = record {
        client = map_stats (count_read c.start c.end) w.client;
        sys = s;
      } in
      let v₁ =
        IsServed-move P remote fd f (advance f c.count) w (count_read c.start c.end) s v
          (H.resolve-send_read v.name v.addr (request c.count v.remote_fd minus_one) w.sys)
          served in
      let (w₂, rest, v₂, same, h₂) =
        read_all-kept Φ keeps fd cs (advance f c.count) w₁ small.1 v₁
          (keeps v.addr v.remote_fd c.count w.sys f small.0 v.served h) in
      (
        w₂,
        >>=-returns (wrap_read P c.start c.end fd true c.count) _ w first
            ∙ >>=-returns (read_all P fd cs) _ w₁ rest
            ∙ ap (λ b. returns (b, w₂)) (slice-append f.offset c.count (total cs) f.content),
        subst (λ o. IsServed P remote fd (record f { offset = o }) w₂)
            (offset-append f.offset c.count (total cs) f.content) v₂,
        same,
        h₂,
      )

  -- Where the servers keep their promise, reads of a served descriptor, however many, each of
  -- fewer than 2 ^ 31 bytes, together yield the bytes of the file from its offset on, none twice
  -- and none left out, up to the sum of the sizes.
  pub read_all-content :
      (fd : ℤ) (cs : List ReadCall) (f : OpenFile) (w : World P.Sys)
      → AreSmall cs
      → IsServed P remote fd f w
      → (w' : World P.Sys) × (read_all P fd cs w
          ≡ returns (slice f.offset (total cs) f.content, w'))
        × IsServed P remote fd
            (record f { offset = f.offset + length (slice f.offset (total cs) f.content) })
            w'
  read_all-content fd cs f w small v =
      let (w', e, v', same, u) =
        read_all-kept (λ s. Unit {0}) (λ a b n s g small there u. tt) fd cs f w small v tt in
      (w', e, v')

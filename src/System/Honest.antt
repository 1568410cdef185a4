-- ===== src/System/Honest.antt =====
-- The servers keep the promise that the client's proofs take as `IsHonest`: src/mthvac_comm.cpp
-- behind src/mthvac_comm_client.cpp.
use mt_hvac.Base.{
  ℕ, ◌<◌, ◌^◌, ◌≡◌, refl, ◌∙◌, ap, inl, inr, Bool, true, Option, none, some, Text, ℤ, pos,
  minus_one, Key, update_self, Option-cases, Outcome, returns, stops,
}
use mt_hvac.Posix.{Posix, IsPosix, OpenFile}
use mt_hvac.Server.{Server, State, ReadIn, read_handler}
use mt_hvac.Server.Reads.{IsBulk, read_handler-read, read_handler-pread}
use mt_hvac.Platform.{Platform}
use mt_hvac.Client.Reads.{IsHonest, request, reply, advance}
use mt_hvac.System.{Nodes, clustered, respond, read_at}

module _ (B : Platform) ⦃k : Key B.Addr⦄ (Q : Posix) (bulk_transfer : ℕ → ℕ → Bool) where
  abbrev pub file_of : Option (Server Q.Fs) → ℤ → Option OpenFile
  file_of none fd = none
  file_of (some t) fd = Q.file fd t.fs

  -- What stands behind a descriptor at a server.
  abbrev pub remote_file : B.Addr → ℤ → Nodes B Q bulk_transfer → Option OpenFile
  remote_file a fd s = file_of (s.servers a) fd

  pub file_of-some :
      (o : Option (Server Q.Fs)) (fd : ℤ) (f : OpenFile)
      → file_of o fd ≡ some f
      → (t : Server Q.Fs) × (o ≡ some t) × (Q.file fd t.fs ≡ some f)
  file_of-some none fd f h = cc
  file_of-some (some t) fd f h = (t, refl, h)

  -- The parts of Mercury that no server runs work.
  pub record IsUp : Type 0 where
    pub creates : (a : B.Addr) (s : B.Sys) → B.creates (some a) s ≡ true
    pub frees : (a : B.Addr) (s : B.Sys) → B.frees (some a) s ≡ true
    pub registers : (n : ℕ) (s : B.Sys) → B.bulk_creates n s ≡ true
    pub resolves :
        (name : Text) (a : B.Addr) (i : ReadIn) (s : B.Sys)
        → B.resolve name (B.send_read (some a) i s).1 ≡ B.resolve name s
    pub allocates : (n : ℕ) (s : Q.Fs) → n < 2 ^ 31 → Q.allocates n s ≡ true

  module _ (U : IsUp) (L : IsPosix Q) (bulk : IsBulk bulk_transfer) where
    read-honest :
        (a : B.Addr) (fd : ℤ) (n : ℕ) (s : Nodes B Q bulk_transfer) (f : OpenFile)
        → n < 2 ^ 31
        → remote_file a fd s ≡ some f
        → let sent = read_at B Q bulk_transfer (some a) (s.servers a) (request n fd minus_one) s in
          (sent.0 ≡ reply f f.offset n) × (remote_file a fd sent.1 ≡ some (advance f n))
    unfolding read_at
    read-honest a fd n s f small h =
        let (t, e, h') = file_of-some (s.servers a) fd f h in
        let (fs', r, after) =
          read_handler-read Q bulk_transfer bulk L fd n t f small h' (U.allocates n t.fs small) in
        (
          rw (e, read_at) (rw r),
          rw (e, read_at)
              (rw r
                (ap (λ o. file_of o fd) (update_self s.servers a (record t { fs = fs' })) ∙ after)),
        )

    pread-honest :
        (a : B.Addr) (fd : ℤ) (n offset : ℕ) (s : Nodes B Q bulk_transfer) (f : OpenFile)
        → n < 2 ^ 31
        → remote_file a fd s ≡ some f
        → let sent =
            read_at B Q bulk_transfer (some a) (s.servers a) (request n fd (pos offset)) s in
          (sent.0 ≡ reply f offset n) × (remote_file a fd sent.1 ≡ some f)
    unfolding read_at
    pread-honest a fd n offset s f small h =
        let (t, e, h') = file_of-some (s.servers a) fd f h in
        let r =
          read_handler-pread Q bulk_transfer bulk L fd n offset t f small h'
            (U.allocates n t.fs small) in
        (
          rw (e, read_at) (rw r),
          rw (e, read_at) (rw r (ap (λ o. file_of o fd) (update_self s.servers a t) ∙ h')),
        )

    respond-rest :
        {A : Type 0} (a : B.Addr) (o : Outcome (A × State Q)) (s : Nodes B Q bulk_transfer)
        → (respond B Q bulk_transfer (some a) o s).1.rest ≡ s.rest
    respond-rest a (returns r) s = refl
    respond-rest a (stops e) s = refl

    resolve-honest :
        (name : Text) (a : B.Addr) (i : ReadIn) (s : Nodes B Q bulk_transfer)
        → B.resolve name (read_at B Q bulk_transfer (some a) (s.servers a) i s).1.rest
          ≡ B.resolve name s.rest
    unfolding read_at
    resolve-honest name a i s = elim (Option-cases (s.servers a)) [
      | inl e ↦ rw (e, read_at) (U.resolves name a i s.rest)
      | inr (t, e) ↦
          rw (e, read_at)
            (ap (B.resolve name) (respond-rest a (read_handler Q bulk_transfer i t) s))
    ]

    -- Where the servers' nodes, Mercury and the memory behave as documented, the servers' handlers
    -- keep the promise on which the client's reads rest.
    pub clustered-IsHonest : IsHonest (clustered B Q bulk_transfer) remote_file
    clustered-IsHonest = record {
      creates_all = λ a s. U.creates a s.rest;
      frees_all = λ a s. U.frees a s.rest;
      registers_all = λ n s. U.registers n s.rest;
      resolve-send_read = resolve-honest;
      send_read-read = read-honest;
      send_read-pread = pread-honest;
    }

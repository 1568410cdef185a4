-- ===== src/Wrappers/Serving.antt =====
-- What the sessions of src/wrappers.c need of the servers and of the C library, and the match between
-- the client libraries with the servers behind them and the local files that they stand for.
use mt_hvac.Base.{
  ◌⊎◌, ℕ, ◌<◌, ◌^◌, ◌≡◌, ◌≢◌, refl, sym, ap, subst, ◌∙◌, true, false, Option, none, some, List,
  arith, Text, ℤ, pos, minus_one, is_positive, nat_key,
}
use mt_hvac.Posix.{OpenFile}
use mt_hvac.Platform.{Platform, answered}
use mt_hvac.Rpc.State.{IoStats, Client, Settings, settings}
use mt_hvac.Fd.Waiting.{IsOwned}
use mt_hvac.Client.Reads.{IsPlaced, request}
use mt_hvac.Client.Frames.{IsSameFor, IsFramed}
use mt_hvac.Wrappers.{map_stats}
use mt_hvac.Wrappers.Turns.{Processes, set_client, world_of}
use mt_hvac.Wrappers.Sessions.{Table}

module _ (P : Platform) (remote : P.Addr → ℤ → P.Sys → Option OpenFile)
    (Sound : P.Sys → Type 0) where
  -- The servers stay sound, and what is open there stays as it is, with the exceptions.
  abbrev pub IsCalm : (P.Addr → ℤ → Type 0) → P.Sys → P.Sys → Type 0
  IsCalm Away s s' =
      (Sound s → Sound s') × ((b : P.Addr) (d : ℤ) → Away b d → remote b d s' ≡ remote b d s)

  abbrev pub Everywhere : P.Addr → ℤ → Type 0
  Everywhere b d = Unit {0}

  abbrev pub AwayFrom : P.Addr → ℤ → P.Addr → ℤ → Type 0
  AwayFrom a fd b d = a ≡ b → fd ≢ d

  -- The servers as sound servers behave: they open the files that they have as new descriptors, and
  -- requests, the calls of the C library and the changes of the rest leave all other descriptors
  -- alone. A name always resolves to the same address.
  pub record IsServing (files : Text → P.Addr → Option (List ℕ)) (Change : P.Sys → P.Sys → Type 0)
      : Type 0 where
    pub same_addr : (a b : P.Addr) → Dec (a ≡ b)
    pub fixed : (name : Text) (s s' : P.Sys) → P.resolve name s ≡ P.resolve name s'
    pub local_opens :
        (path : Text) (flags mode : ℕ) (s : P.Sys)
        → IsCalm Everywhere s (P.real_open path flags mode s).1
    pub local_closes : (fd : ℤ) (s : P.Sys) → IsCalm Everywhere s (P.real_close fd s).1
    pub local_reads : (fd : ℤ) (n : ℕ) (s : P.Sys) → IsCalm Everywhere s (P.real_read fd n s).1
    pub local_preads :
        (fd : ℤ) (n : ℕ) (offset : ℤ) (s : P.Sys)
        → IsCalm Everywhere s (P.real_pread fd n offset s).1
    pub changed : (s s' : P.Sys) → Change s s' → IsCalm Everywhere s s'
    pub answers_open :
        (a : P.Addr) (full : Text) (c : List ℕ) (s : P.Sys)
        → Sound s
        → files full a ≡ some c
        → let sent = P.send_open (some a) full s in
          (status : ℤ) × (sent.0 ≡ answered status)
          × (is_positive status ≡ true)
          × (remote a status s ≡ none)
          × (remote a status sent.1 ≡ some (record { content = c; offset = 0 }))
          × IsCalm (AwayFrom a status) s sent.1
    pub calm_read :
        (a : P.Addr) (fd : ℤ) (n : ℕ) (s : P.Sys) (f : OpenFile)
        → n < 2 ^ 31
        → remote a fd s ≡ some f
        → IsCalm (AwayFrom a fd) s (P.send_read (some a) (request n fd minus_one) s).1
    pub calm_pread :
        (a : P.Addr) (fd : ℤ) (n offset : ℕ) (s : P.Sys) (f : OpenFile)
        → n < 2 ^ 31
        → remote a fd s ≡ some f
        → IsCalm (AwayFrom a fd) s (P.send_read (some a) (request n fd (pos offset)) s).1
    pub calm_close :
        (a : P.Addr) (fd : ℤ) (s : P.Sys) (f : OpenFile)
        → remote a fd s ≡ some f
        → IsCalm (AwayFrom a fd) s (P.send_close (some a) fd s).1
    pub closes_open :
        (a : P.Addr) (fd : ℤ) (s : P.Sys) (f : OpenFile)
        → remote a fd s ≡ some f
        → remote a fd (P.send_close (some a) fd s).1 ≡ none

  -- What a descriptor of a server is for.
  abbrev pub IsFor : Table → (ℕ → ℤ → P.Addr) → (ℕ → ℤ → ℤ) → P.Addr → ℤ → Type 0
  IsFor t addrs remote_fds b d =
      (i : ℕ) × (fd : ℤ) × (f : OpenFile) × (t i fd ≡ some f)
      × (addrs i fd ≡ b)
      × (remote_fds i fd ≡ d)

  module _ (σs : ℕ → Settings) (Old : P.Addr → ℤ → Type 0) where
    -- Every open file of the table is served to its process, no two by one descriptor of one server,
    -- no other descriptor is tracked, and the servers have nothing else open but what is old.
    pub record IsMatched (t : Table) (addrs : ℕ → ℤ → P.Addr) (remote_fds : ℕ → ℤ → ℤ)
        (s : Processes P.Sys) : Type 0 where
      pub same : (i : ℕ) → settings (s.clients i) ≡ σs i
      pub owned : (i : ℕ) → IsOwned (s.clients i).fds
      pub sound : Sound s.sys
      pub placed :
          (i : ℕ) (fd : ℤ) (f : OpenFile)
          → t i fd ≡ some f
          → IsPlaced P remote fd f (addrs i fd) (remote_fds i fd) (world_of P s i)
      pub apart :
          (i j : ℕ) (fd d : ℤ) (f g : OpenFile)
          → t i fd ≡ some f
          → t j d ≡ some g
          → (i ≡ j → fd ≢ d)
          → addrs i fd ≡ addrs j d
          → remote_fds i fd ≢ remote_fds j d
      pub on : (i : ℕ) (fd : ℤ) (f : OpenFile) → t i fd ≡ some f → (σs i).off ≡ false
      pub untracked : (i : ℕ) (fd : ℤ) → t i fd ≡ none → (s.clients i).fd_map fd ≡ none
      pub origin :
          (b : P.Addr) (d : ℤ) (g : OpenFile)
          → remote b d s.sys ≡ some g
          → IsFor t addrs remote_fds b d ⊎ Old b d

pub set_client_at : (cs : ℕ → Client) (i j : ℕ) (c : Client) → i ≡ j → set_client cs i c j ≡ c
set_client_at cs i j c e = ground arith

set_client_ne : (cs : ℕ → Client) (i j : ℕ) (c : Client) → i ≢ j → set_client cs i c j ≡ cs j
set_client_ne cs i j c e = ground arith

-- What a call of one process leaves of the other descriptors, of its own and of other processes.
module _ (cs : ℕ → Client) (i : ℕ) (fd : ℤ) (c : Client) (framed : IsFramed fd (cs i) c)
    (owned : (j : ℕ) → IsOwned (cs j).fds) where
  pub set_client-IsSameFor :
      (j : ℕ) (d : ℤ) → (i ≡ j → fd ≢ d) → IsSameFor d (cs j) (set_client cs i c j)
  set_client-IsSameFor j d apart = elim (nat_key.dec i j) [
    | yes e ↦
        subst (IsSameFor d (cs j)) (sym (set_client_at cs i j c e))
          (subst (λ k. IsSameFor d (cs k) c) e ((framed (owned i)).1 d (apart e)))
    | no ne ↦ subst (IsSameFor d (cs j)) (sym (set_client_ne cs i j c ne)) (refl, refl, refl)
  ]

  pub set_client-IsOwned : (j : ℕ) → IsOwned (set_client cs i c j).fds
  set_client-IsOwned j = elim (nat_key.dec i j) [
    | yes e ↦ subst (λ x. IsOwned x.fds) (sym (set_client_at cs i j c e)) (framed (owned i)).0
    | no ne ↦ subst (λ x. IsOwned x.fds) (sym (set_client_ne cs i j c ne)) (owned j)
  ]

  pub set_client-settings :
      (j : ℕ) → settings c ≡ settings (cs i) → settings (set_client cs i c j) ≡ settings (cs j)
  set_client-settings j same = elim (nat_key.dec i j) [
    | yes e ↦ ap settings (set_client_at cs i j c e) ∙ same ∙ ap (λ k. settings (cs k)) e
    | no ne ↦ ap settings (set_client_ne cs i j c ne)
  ]

-- Counting a call leaves all descriptors as they are.
module _ (cs : ℕ → Client) (i : ℕ) (g : IoStats → IoStats) where
  pub counted-IsSameFor :
      (j : ℕ) (d : ℤ) → IsSameFor d (cs j) (set_client cs i (map_stats g (cs i)) j)
  counted-IsSameFor j d = elim (nat_key.dec i j) [
    | yes e ↦
        subst (IsSameFor d (cs j)) (sym (set_client_at cs i j (map_stats g (cs i)) e))
          (subst (λ k. IsSameFor d (cs k) (map_stats g (cs i))) e (refl, refl, refl))
    | no ne ↦
        subst (IsSameFor d (cs j)) (sym (set_client_ne cs i j (map_stats g (cs i)) ne))
          (refl, refl, refl)
  ]

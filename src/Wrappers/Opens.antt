-- ===== src/Wrappers/Opens.antt =====
-- The open of a file that may be tracked through the wrapper of src/wrappers.c, over the client
-- library of src/mthvac_client.cpp.
use mt_hvac.Base.{
  ℕ, ◌%◌, ◌==◌, ◌≡◌, refl, ap, sym, subst, ◌∙◌, Bool, true, false, ◌||◌, Option, some, arith, Text,
  text, ℤ, pos, minus_one, int_key, to_int32, is_positive, ◌=?◌, ◌>>=◌, ◌>>◌, >>=-returns, pure,
  returns, branch,
}
use mt_hvac.Posix.{OpenFile}
use mt_hvac.Platform.{Platform, answered}
use mt_hvac.Fd.Deadline.{Timespec}
use mt_hvac.Rpc.State.{redirect_off, World, Settings, modify, settings}
use mt_hvac.Rpc.{Action}
use mt_hvac.Client.{track_file, contains, is_write_only, is_append}
use mt_hvac.Client.Frames.{IsFramed}
use mt_hvac.Client.Reads.{IsHonest, IsPlaced, IsPlaced-move}
use mt_hvac.Client.Served.{track-placed}
use mt_hvac.Client.Tracking.{IsLocated, IsTrackable, track_file-track}
use mt_hvac.Wrappers.{wrap_open, count_open, map_stats}
use mt_hvac.Wrappers.Elapsed.{elapsed}

module _ (P : Platform) where
  -- The state after the C library's open, and what that gives.
  abbrev pub after_open : Text → (flags mode : ℕ) → World P.Sys → World P.Sys
  after_open path flags mode w = record w { sys = (P.real_open path flags mode w.sys).1 }

  abbrev pub opened_fd : Text → (flags mode : ℕ) → World P.Sys → ℤ
  opened_fd path flags mode w = (P.real_open path flags mode w.sys).0

  -- An intercepted open that the C library grants, with what tracking the file comes to.
  pub wrap_open-returns :
      (start end : Timespec) (path : Text) (flags mode : ℕ) (tracked : Bool) (w w' : World P.Sys)
      → redirect_off w.client ≡ false
      → (opened_fd path flags mode w =? minus_one) ≡ false
      → track_file P path flags (opened_fd path flags mode w) (after_open path flags mode w)
        ≡ returns (tracked, w')
      → wrap_open P start end path flags mode w
        ≡ returns (
          opened_fd path flags mode w,
          record w' { client = map_stats (count_open tracked path (elapsed start end)) w'.client },
        )
  unfolding wrap_open
  wrap_open-returns start end path flags mode tracked w w' on granted e =
      let fd = opened_fd path flags mode w in
      let next : Bool → Action P ℤ =
        λ b. modify (map_stats (count_open b path (elapsed start end))) >> pure fd in
      let goes_on : (redirect_off w.client || (fd =? minus_one)) ≡ false =
        ground (arith, on, granted) in
      ap
        (λ b.
          branch b (pure fd) (track_file P path flags fd >>= next) (after_open path flags mode w))
        goes_on
      ∙ >>=-returns (track_file P path flags fd) next (after_open path flags mode w) e

  -- The node of a program and the settings of its client: the C library always grants the file a
  -- descriptor, the file may be tracked, and the client knows the server of the file at `a`.
  pub record IsConfigured (path : Text) (flags mode : ℕ) (full : Text) (a : P.Addr) (σ : Settings)
      : Type 0 where
    pub rank : Text
    pub name : Text
    pub redirects : σ.off ≡ false
    pub ranked : σ.proc_id ≡ some rank
    pub counted : (σ.server_count == 0) ≡ false
    pub known : σ.address_cache (to_int32 (pos (P.hash full % σ.server_count))) ≡ some name
    pub resolved : (s : P.Sys) → P.resolve name s ≡ some a
    pub granted : (s : P.Sys) → ((P.real_open path flags mode s).0 =? minus_one) ≡ false
    pub not_ports : contains path (text ".ports.cfg.") ≡ false
    pub not_write_only : is_write_only flags ≡ false
    pub not_append : is_append flags ≡ false
    pub is_canonical : (s : P.Sys) → P.canonical path s ≡ some full
    pub located : (s : P.Sys) → IsLocated P σ.data_dir full s

  pub IsConfigured-IsTrackable :
      (path full : Text) (flags mode : ℕ) (a : P.Addr) (σ : Settings) (w : World P.Sys)
      → IsConfigured path flags mode full a σ
      → settings w.client ≡ σ
      → IsTrackable P path flags full w
  IsConfigured-IsTrackable path full flags mode a σ w S same = record {
    not_ports = S.not_ports;
    not_write_only = S.not_write_only;
    not_append = S.not_append;
    is_canonical = S.is_canonical w.sys;
    located = subst (λ x. IsLocated P x.data_dir full w.sys) (sym same) (S.located w.sys);
  }

module _ (P : Platform) (remote : P.Addr → ℤ → P.Sys → Option OpenFile) (H : IsHonest P remote)
    (start end : Timespec) (path full : Text) (flags mode : ℕ) (a : P.Addr) (σ : Settings)
    (S : IsConfigured P path flags mode full a σ) where
  -- The intercepted open of such a file, with the request that goes to its server: when the server
  -- opens it as a positive descriptor, the C library's descriptor is served by that one. The settings
  -- and the other descriptors stay.
  pub wrap_open-placed :
      (status : ℤ) (f : OpenFile) (w : World P.Sys)
      → settings w.client ≡ σ
      → let sent = P.send_open (some a) full (after_open P path flags mode w).sys in
        sent.0 ≡ answered status
        → is_positive status ≡ true
        → remote a status sent.1 ≡ some f
        → (w' : World P.Sys) × (wrap_open P start end path flags mode w
            ≡ returns (opened_fd P path flags mode w, w'))
          × IsPlaced P remote (opened_fd P path flags mode w) f a status w'
          × (settings w'.client ≡ settings w.client)
          × (w'.sys ≡ sent.1)
          × IsFramed (opened_fd P path flags mode w) w.client w'.client
  wrap_open-placed status f w same sent positive there =
      let fd = opened_fd P path flags mode w in
      let w₀ = after_open P path flags mode w in
      let (w₁, e, (v, at, as_fd), same₁, sys, framed) =
        track-placed P remote H fd status full S.rank S.name a f w₀
          (ap (λ x. x.proc_id) same ∙ S.ranked) (ap (λ x. x.server_count == 0) same ∙ S.counted)
          (ap (λ x. x.address_cache (to_int32 (pos (P.hash full % x.server_count)))) same ∙ S.known)
          (S.resolved _) sent positive (S.resolved _) there in
      let count = count_open true path (elapsed start end) in
      let (v', at', as_fd') = IsPlaced-move P remote fd f f w₁ count w₁.sys v refl v.served in
      (
        record w₁ { client = map_stats count w₁.client },
        wrap_open-returns P start end path flags mode true w w₁ (ap (λ x. x.off) same ∙ S.redirects)
            (S.granted w.sys)
            (track_file-track P path full flags fd w₀
                (IsConfigured-IsTrackable P path full flags mode a σ w₀ S same)
              ∙ e),
        (v', at' ∙ at, as_fd' ∙ as_fd),
        same₁,
        sys,
        framed,
      )

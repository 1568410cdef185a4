-- ===== src/Client/Frames.antt =====
-- What an open and a close of one descriptor leave of the others, in the maps of
-- src/mthvac_client.cpp and src/mthvac_comm_client.cpp.
use mt_hvac.Base.{
  ◌%◌, ◌==◌, ◌≡◌, ◌≢◌, ap, subst, ◌∙◌, Option, some, Text, ℤ, pos, to_int32, int_key,
}
use mt_hvac.Posix.{OpenFile}
use mt_hvac.Platform.{Platform}
use mt_hvac.Fd.{FdTable, state_of, set_fd_opening, set_fd_ready, cleanup_fd_state}
use mt_hvac.Fd.Waiting.{IsOwned, call, call-IsOwned, call-apart, opens, readies, cleans}
use mt_hvac.Rpc.State.{Client, World, settings}
use mt_hvac.Client.Reads.{IsPlaced}

-- A descriptor has in two clients the same path, server's descriptor and state.
abbrev pub IsSameFor : ℤ → Client → Client → Type 0
IsSameFor fd c c' =
    (c'.fd_map fd ≡ c.fd_map fd)
    × (c'.fd_redir_map fd ≡ c.fd_redir_map fd)
    × (state_of fd c'.fds ≡ state_of fd c.fds)

-- Only one descriptor has changed, and the status objects are still nobody else's.
abbrev pub IsFramed : ℤ → Client → Client → Type 0
IsFramed fd c c' =
    IsOwned c.fds → IsOwned c'.fds × ((other : ℤ) → fd ≢ other → IsSameFor other c c')

pub opening-ready-IsOwned :
    (fd : ℤ) (t : FdTable) → IsOwned t → IsOwned (set_fd_ready fd (set_fd_opening fd t))
unfolding call
opening-ready-IsOwned fd t v =
    call-IsOwned (readies fd) (call (opens fd) t) (call-IsOwned (opens fd) t v)

pub opening-ready-apart :
    (fd other : ℤ) (t : FdTable)
    → IsOwned t
    → fd ≢ other
    → state_of other (set_fd_ready fd (set_fd_opening fd t)) ≡ state_of other t
unfolding call
opening-ready-apart fd other t v ne =
    call-apart (call (opens fd) t) (readies fd) other (call-IsOwned (opens fd) t v) ne
    ∙ call-apart t (opens fd) other v ne

pub cleanup-IsOwned : (fd : ℤ) (t : FdTable) → IsOwned t → IsOwned (cleanup_fd_state fd t)
unfolding call
cleanup-IsOwned fd t v = call-IsOwned (cleans fd) t v

pub cleanup-apart :
    (fd other : ℤ) (t : FdTable)
    → IsOwned t
    → fd ≢ other
    → state_of other (cleanup_fd_state fd t) ≡ state_of other t
unfolding call
cleanup-apart fd other t v ne = call-apart t (cleans fd) other v ne

module _ (P : Platform) (remote : P.Addr → ℤ → P.Sys → Option OpenFile) where
  -- What stands behind a served descriptor, by its place.
  pub IsPlaced-remote :
      (fd : ℤ) (f : OpenFile) (a : P.Addr) (remote_fd : ℤ) (w : World P.Sys)
      → IsPlaced P remote fd f a remote_fd w
      → remote a remote_fd w.sys ≡ some f
  IsPlaced-remote fd f a remote_fd w (v, at, as_fd) =
      subst (λ b. remote b remote_fd w.sys ≡ some f) at
        (subst (λ d. remote v.addr d w.sys ≡ some f) as_fd v.served)

  -- A served descriptor stays served, and where it is, when what the client has of it and its
  -- settings are as they were, its server can still be found, and the file there is the same.
  pub IsPlaced-frame :
      (fd : ℤ) (f : OpenFile) (a : P.Addr) (remote_fd : ℤ) (w w' : World P.Sys)
      → IsSameFor fd w.client w'.client
      → settings w'.client ≡ settings w.client
      → ((name : Text) → P.resolve name w'.sys ≡ P.resolve name w.sys)
      → remote a remote_fd w'.sys ≡ some f
      → IsPlaced P remote fd f a remote_fd w
      → IsPlaced P remote fd f a remote_fd w'
  IsPlaced-frame fd f a remote_fd w w' (path, redir, state) same resolves there (v, at, as_fd) = (
    record {
      path = v.path;
      name = v.name;
      addr = v.addr;
      remote_fd = v.remote_fd;
      tracked = path ∙ v.tracked;
      is_ready = state ∙ v.is_ready;
      mapped = redir ∙ v.mapped;
      nonzero = v.nonzero;
      counted = ap (λ x. x.server_count == 0) same ∙ v.counted;
      cached =
          ap (λ x. x.address_cache (to_int32 (pos (P.hash v.path % x.server_count)))) same
          ∙ v.cached;
      resolved = resolves v.name ∙ v.resolved;
      served = ap (λ b. remote b v.remote_fd w'.sys) at ∙ ap (λ d. remote a d w'.sys) as_fd ∙ there;
    },
    at,
    as_fd,
  )

-- ===== src/Client/Served.antt =====
-- From the open of a tracked file to a descriptor that is served: `hvac_track_file` of
-- src/mthvac_client.cpp over `hvac_client_comm_gen_open_rpc` of src/mthvac_comm_client.cpp.
use mt_hvac.Base.{
  ◌+◌, ◌-◌, ◌%◌, ◌==◌, ◌≡◌, refl, ◌∙◌, ap, true, false, Option, some, arith, Text, ℤ, pos, to_int32,
  is_positive, is_negative, not, int_key, update, update_self, update_ne, >>=-returns, returns,
  ◌=?◌,
}
use mt_hvac.Posix.{OpenFile}
use mt_hvac.Platform.{Platform, answered}
use mt_hvac.Fd.{ready, state_of, set_fd_opening, set_fd_ready}
use mt_hvac.Rpc.State.{Live, Client, World, settings}
use mt_hvac.Rpc.{lookup_addr, create_handle, free_addr, destroy_handle, open_cb, opened, open_rpc}
use mt_hvac.Client.{host_of, init_once, track}
use mt_hvac.Client.Frames.{IsFramed, opening-ready-IsOwned, opening-ready-apart}
use mt_hvac.Client.Reads.{
  IsHonest, IsServed, IsPlaced, lookup_addr-cached, create_handle-some, free_addr-some,
  host_of-counted,
}

abbrev opened_client : ℤ → ℤ → Live → Client → Client
opened_client fd status live c = record c {
  fd_redir_map = update c.fd_redir_map fd status;
  fds = set_fd_ready fd (set_fd_opening fd c.fds);
  live = live;
}

opened_client-state_of :
    (fd status : ℤ) (live : Live) (c : Client)
    → state_of fd (opened_client fd status live c).fds ≡ some ready
unfolding set_fd_opening set_fd_ready
opened_client-state_of fd status live c = ground arith

-- The client that an open enters a path for.
abbrev entered_client : ℤ → Text → Client → Client
entered_client fd full c = record c { fd_map = update c.fd_map fd full; mercury_init = true }

opened-IsFramed :
    (fd status : ℤ) (full : Text) (c : Client) (live : Live)
    → IsFramed fd c (opened_client fd status live (entered_client fd full c))
opened-IsFramed fd status full c live v = (
  opening-ready-IsOwned fd c.fds v,
  λ other ne. (
    update_ne c.fd_map fd other full ne,
    update_ne c.fd_redir_map fd other status ne,
    opening-ready-apart fd other c.fds v ne,
  ),
)

positive_nonzero : (x : ℤ) → is_positive x ≡ true → (x =? pos 0) ≡ false
positive_nonzero x h = ground arith

positive_not_negative : (x : ℤ) → is_positive x ≡ true → not (is_negative x) ≡ true
positive_not_negative x h = ground arith

pub init_once-returns :
    (P : Platform) (w : World P.Sys) (rank : Text)
    → w.client.proc_id ≡ some rank
    → init_once P w ≡ returns (tt, record w { client = record w.client { mercury_init = true } })
unfolding init_once
init_once-returns P w rank h = ground arith

module _ (P : Platform) (remote : P.Addr → ℤ → P.Sys → Option OpenFile)
    (H : IsHonest P remote) where
  open_rpc-answered :
      (host fd status : ℤ) (path : Text) (w : World P.Sys) (name : Text) (a : P.Addr)
      → is_positive status ≡ true
      → w.client.address_cache host ≡ some name
      → P.resolve name w.sys ≡ some a
      → (P.send_open (some a) path w.sys).0 ≡ answered status
      → (live : Live) × (open_rpc P host path fd w
          ≡ returns (
            status,
            record {
              client = opened_client fd status live w.client;
              sys = (P.send_open (some a) path w.sys).1;
            },
          ))
  unfolding open_rpc opened open_cb destroy_handle
  open_rpc-answered host fd status path w name a p c r sent = (
    record {
      handles = w.client.live.handles + 1 - 1;
      addrs = w.client.live.addrs + 1 - 1;
      bulks = w.client.live.bulks;
    },
    >>=-returns (lookup_addr P host) _ _ (lookup_addr-cached P remote host _ name a c r)
        ∙ >>=-returns (create_handle P (some a)) _ _
            (create_handle-some P remote a _ (H.creates_all a w.sys))
        ∙ rw sent (
            >>=-returns (free_addr P (some a)) _ _ (free_addr-some P remote a _ (H.frees_all a _))
            ∙ rw p refl),
  )

  -- When the server of a tracked file opens it as a positive descriptor, the file is tracked, and its
  -- descriptor is served by that server's. The settings and the other descriptors stay, and only the
  -- server has moved on.
  pub track-placed :
      (fd status : ℤ) (full rank name : Text) (a : P.Addr) (f : OpenFile) (w : World P.Sys)
      → w.client.proc_id ≡ some rank
      → (w.client.server_count == 0) ≡ false
      → w.client.address_cache (to_int32 (pos (P.hash full % w.client.server_count))) ≡ some name
      → P.resolve name w.sys ≡ some a
      → (P.send_open (some a) full w.sys).0 ≡ answered status
      → is_positive status ≡ true
      → P.resolve name (P.send_open (some a) full w.sys).1 ≡ some a
      → remote a status (P.send_open (some a) full w.sys).1 ≡ some f
      → (w' : World P.Sys) × (track P fd (some full) w ≡ returns (true, w'))
        × IsPlaced P remote fd f a status w'
        × (settings w'.client ≡ settings w.client)
        × (w'.sys ≡ (P.send_open (some a) full w.sys).1)
        × IsFramed fd w.client w'.client
  unfolding track
  track-placed fd status full rank name a f w proc n c r sent p r' there =
      let host = to_int32 (pos (P.hash full % w.client.server_count)) in
      let entered = entered_client fd full w.client in
      let (live, o) =
        open_rpc-answered host fd status full (record w { client = entered }) name a p c r sent in
      let w' : World P.Sys = record {
        client = opened_client fd status live entered;
        sys = (P.send_open (some a) full w.sys).1;
      } in
      (
        w',
        >>=-returns (init_once P) _ _ (init_once-returns P _ rank proc)
            ∙ >>=-returns (host_of P full) _ _ (host_of-counted P full _ n)
            ∙ >>=-returns (open_rpc P host full fd) _ _ o
            ∙ ap (λ b. returns (b, w')) (positive_not_negative status p),
        (
          record {
            path = full;
            name = name;
            addr = a;
            remote_fd = status;
            tracked = update_self w.client.fd_map fd full;
            is_ready = opened_client-state_of fd status live entered;
            mapped = update_self w.client.fd_redir_map fd status;
            nonzero = positive_nonzero status p;
            counted = n;
            cached = c;
            resolved = r';
            served = there;
          },
          refl,
          refl,
        ),
        refl,
        refl,
        opened-IsFramed fd status full w.client live,
      )

  pub track-sent :
      (fd status : ℤ) (full rank name : Text) (a : P.Addr) (f : OpenFile) (w : World P.Sys)
      → w.client.proc_id ≡ some rank
      → (w.client.server_count == 0) ≡ false
      → w.client.address_cache (to_int32 (pos (P.hash full % w.client.server_count))) ≡ some name
      → P.resolve name w.sys ≡ some a
      → (P.send_open (some a) full w.sys).0 ≡ answered status
      → is_positive status ≡ true
      → P.resolve name (P.send_open (some a) full w.sys).1 ≡ some a
      → remote a status (P.send_open (some a) full w.sys).1 ≡ some f
      → (w' : World P.Sys) × (track P fd (some full) w ≡ returns (true, w'))
        × IsServed P remote fd f w'
        × (settings w'.client ≡ settings w.client)
        × (w'.sys ≡ (P.send_open (some a) full w.sys).1)
  track-sent fd status full rank name a f w proc n c r sent p r' there =
      let (w', e, placed, same, sys, framed) =
        track-placed fd status full rank name a f w proc n c r sent p r' there in
      (w', e, placed.0, same, sys)

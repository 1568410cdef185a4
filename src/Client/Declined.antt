-- ===== src/Client/Declined.antt =====
-- An open that the server declines: `hvac_track_file` of src/mthvac_client.cpp over
-- `hvac_client_comm_gen_open_rpc` of src/mthvac_comm_client.cpp.
use mt_hvac.Base.{
  ◌+◌, ◌-◌, ◌%◌, ◌==◌, ◌≡◌, refl, ◌∙◌, ◌⊎◌, inl, inr, Bool, true, false, not, some, none, Text, ℤ,
  pos, arith, minus_one, to_int32, int_key, is_positive, is_negative, update, update_self,
  >>=-returns, returns,
}
use mt_hvac.Platform.{Platform, Sent, refused, answered}
use mt_hvac.Fd.{error, state_of, set_fd_opening, set_fd_error}
use mt_hvac.Rpc.State.{Live, Client, World}
use mt_hvac.Rpc.{lookup_addr, create_handle, free_addr, destroy_handle, open_cb, opened, open_rpc}
use mt_hvac.Client.{track, init_once, host_of}
use mt_hvac.Client.Reads.{lookup_addr-cached, create_handle-some, free_addr-some, host_of-counted}
use mt_hvac.Client.Served.{init_once-returns}

-- A descriptor that is tracked, and whose open at the server has failed.
pub record IsFailed (fd : ℤ) (c : Client) : Type 0 where
  pub path : Text
  pub tracked : c.fd_map fd ≡ some path
  pub counted : (c.server_count == 0) ≡ false
  pub is_error : state_of fd c.fds ≡ some error

-- The request is not sent, or the server does not answer with a positive descriptor.
abbrev pub IsDeclined : Sent ℤ → Type 0
IsDeclined sent =
    (sent ≡ refused) ⊎ ((status : ℤ) × (sent ≡ answered status) × (is_positive status ≡ false))

abbrev declined_client : ℤ → Live → Client → Client
declined_client fd live c = record c {
  fds = set_fd_error fd (set_fd_opening fd c.fds);
  live = live;
}

declined_client-state_of :
    (fd : ℤ) (live : Live) (c : Client) → state_of fd (declined_client fd live c).fds ≡ some error
unfolding set_fd_opening set_fd_error
declined_client-state_of fd live c = ground arith

module _ (P : Platform) where
  -- Mercury makes and frees what a request to an address needs.
  pub record IsUsable (a : P.Addr) : Type 0 where
    pub creates_all : (s : P.Sys) → P.creates (some a) s ≡ true
    pub frees_all : (s : P.Sys) → P.frees (some a) s ≡ true

  module _ (host fd : ℤ) (path : Text) (w : World P.Sys) (name : Text) (a : P.Addr) (U : IsUsable a)
      (cached : w.client.address_cache host ≡ some name)
      (resolved : P.resolve name w.sys ≡ some a) where
    open_rpc-declined :
        IsDeclined (P.send_open (some a) path w.sys).0
        → (live : Live) × (status : ℤ) × (open_rpc P host path fd w
            ≡ returns (
              status,
              record {
                client = declined_client fd live w.client;
                sys = (P.send_open (some a) path w.sys).1;
              },
            ))
    unfolding open_rpc opened open_cb destroy_handle
    open_rpc-declined (inl none_sent) = (
      record {
        handles = w.client.live.handles + 1;
        addrs = w.client.live.addrs + 1 - 1;
        bulks = w.client.live.bulks;
      },
      minus_one,
      >>=-returns (lookup_addr P host) _ _
            (lookup_addr-cached P (λ b g s. none) host _ name a cached resolved)
          ∙ >>=-returns (create_handle P (some a)) _ _
              (create_handle-some P (λ b g s. none) a _ (U.creates_all w.sys))
          ∙ rw none_sent (
              >>=-returns (free_addr P (some a)) _ _
                (free_addr-some P (λ b g s. none) a _ (U.frees_all _))),
    )
    open_rpc-declined (inr (status, sent, p)) = (
      record {
        handles = w.client.live.handles + 1 - 1;
        addrs = w.client.live.addrs + 1 - 1;
        bulks = w.client.live.bulks;
      },
      status,
      >>=-returns (lookup_addr P host) _ _
            (lookup_addr-cached P (λ b g s. none) host _ name a cached resolved)
          ∙ >>=-returns (create_handle P (some a)) _ _
              (create_handle-some P (λ b g s. none) a _ (U.creates_all w.sys))
          ∙ rw sent (
              >>=-returns (free_addr P (some a)) _ _
                (free_addr-some P (λ b g s. none) a _ (U.frees_all _))
              ∙ rw p refl),
    )

  -- When the server does not open a file that is to be tracked, the tracking returns, and leaves the
  -- descriptor tracked and failed.
  pub track-declined :
      (fd : ℤ) (full rank name : Text) (a : P.Addr) (w : World P.Sys)
      → IsUsable a
      → w.client.proc_id ≡ some rank
      → (w.client.server_count == 0) ≡ false
      → w.client.address_cache (to_int32 (pos (P.hash full % w.client.server_count))) ≡ some name
      → P.resolve name w.sys ≡ some a
      → IsDeclined (P.send_open (some a) full w.sys).0
      → (tracked : Bool) × (w' : World P.Sys) × (track P fd (some full) w ≡ returns (tracked, w'))
        × IsFailed fd w'.client
        × (w'.sys ≡ (P.send_open (some a) full w.sys).1)
  unfolding track
  track-declined fd full rank name a w U proc counted cached resolved declined =
      let host = to_int32 (pos (P.hash full % w.client.server_count)) in
      let entered : Client = record w.client {
        fd_map = update w.client.fd_map fd full;
        mercury_init = true;
      } in
      let (live, status, o) =
        open_rpc-declined host fd full (record w { client = entered }) name a U cached resolved
          declined in
      (
        not (is_negative status),
        record {
          client = declined_client fd live entered;
          sys = (P.send_open (some a) full w.sys).1;
        },
        >>=-returns (init_once P) _ _ (init_once-returns P _ rank proc)
            ∙ >>=-returns (host_of P full) _ _ (host_of-counted P full _ counted)
            ∙ >>=-returns (open_rpc P host full fd) _ _ o,
        record {
          path = full;
          tracked = update_self w.client.fd_map fd full;
          counted = counted;
          is_error = declined_client-state_of fd live entered;
        },
        refl,
      )

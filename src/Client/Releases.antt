-- ===== src/Client/Releases.antt =====
-- The close of a served descriptor: `hvac_remove_fd` of src/mthvac_client.cpp over
-- `hvac_client_comm_gen_close_rpc` of src/mthvac_comm_client.cpp.
use mt_hvac.Base.{
  ◌+◌, ◌-◌, ◌%◌, ◌≡◌, ◌∙◌, Option, some, ℤ, pos, to_int32, int_key, erase, erase_ne, >>=-returns,
  returns,
}
use mt_hvac.Posix.{OpenFile}
use mt_hvac.Platform.{Platform}
use mt_hvac.Fd.{cleanup_fd_state}
use mt_hvac.Rpc.State.{Live, Client, World}
use mt_hvac.Rpc.{lookup_addr, create_handle, destroy_handle, close_mapped, close_rpc}
use mt_hvac.Client.Frames.{IsFramed, cleanup-IsOwned, cleanup-apart}
use mt_hvac.Client.{host_of, close_tracked, remote_close, remove_fd}
use mt_hvac.Client.Reads.{
  IsHonest, IsServed, lookup_addr-cached, create_handle-some, free_addr-some, host_of-counted,
}

-- The client without a descriptor.
abbrev pub released_client : ℤ → Live → Client → Client
released_client fd live c = record c {
  fd_map = erase c.fd_map fd;
  fd_redir_map = erase c.fd_redir_map fd;
  fds = cleanup_fd_state fd c.fds;
  live = live;
}

-- Only that descriptor has changed.
pub released-IsFramed :
    (fd : ℤ) (live : Live) (c : Client) → IsFramed fd c (released_client fd live c)
released-IsFramed fd live c v = (
  cleanup-IsOwned fd c.fds v,
  λ other ne. (
    erase_ne c.fd_map fd other ne,
    erase_ne c.fd_redir_map fd other ne,
    cleanup-apart fd other c.fds v ne,
  ),
)

module _ (P : Platform) (remote : P.Addr → ℤ → P.Sys → Option OpenFile) (H : IsHonest P remote)
    (fd : ℤ) (f : OpenFile) (w : World P.Sys) (v : IsServed P remote fd f w) where
  abbrev sys_after : P.Sys
  sys_after = (P.send_close (some v.addr) v.remote_fd w.sys).1

  abbrev pub live_after : Live
  live_after = record {
    handles = w.client.live.handles + 1 - 1;
    addrs = w.client.live.addrs + 1 - 1;
    bulks = w.client.live.bulks;
  }

  close_rpc-served :
      close_rpc P (to_int32 (pos (P.hash v.path % w.client.server_count))) fd w
      ≡ returns (
        tt,
        record {
          client = record w.client {
            fd_redir_map = erase w.client.fd_redir_map fd;
            fds = cleanup_fd_state fd w.client.fds;
            live = live_after;
          };
          sys = sys_after;
        },
      )
  unfolding close_rpc close_mapped destroy_handle
  close_rpc-served =
      >>=-returns (lookup_addr P _) _ w
        (lookup_addr-cached P remote _ w v.name v.addr v.cached v.resolved)
      ∙ >>=-returns (create_handle P (some v.addr)) _ _
          (create_handle-some P remote v.addr _ (H.creates_all v.addr w.sys))
      ∙ rw v.mapped (rw v.nonzero (free_addr-some P remote v.addr _ (H.frees_all v.addr sys_after)))

  remote_close-sent :
      remote_close P fd w
      ≡ returns (
        tt,
        record {
          client = record w.client {
            fd_redir_map = erase w.client.fd_redir_map fd;
            fds = cleanup_fd_state fd w.client.fds;
            live = live_after;
          };
          sys = sys_after;
        },
      )
  unfolding remote_close close_tracked
  remote_close-sent =
      rw v.tracked (
        >>=-returns (host_of P v.path) _ w (host_of-counted P v.path w v.counted)
        ∙ close_rpc-served)

  -- The close of a served descriptor is sent to its server, and takes it out of the client's maps.
  pub remove_fd-sent :
      remove_fd P fd w
      ≡ returns (tt, record { client = released_client fd live_after w.client; sys = sys_after })
  unfolding remove_fd
  remove_fd-sent = >>=-returns (remote_close P fd) _ w remote_close-sent

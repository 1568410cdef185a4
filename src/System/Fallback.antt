-- ===== src/System/Fallback.antt =====
-- A program whose file is to be tracked and whose server does not open it: src/wrappers.c over
-- src/mthvac_client.cpp.
use mt_hvac.Base.{
  ℕ, ◌%◌, ◌==◌, ◌≡◌, subst, ◌∙◌, false, some, List, Text, pos, minus_one, to_int32, int_key, ◌=?◌,
  >>=-returns, returns,
}
use mt_hvac.Platform.{Platform}
use mt_hvac.Fd.Deadline.{Timespec}
use mt_hvac.Rpc.State.{World, redirect_off}
use mt_hvac.Client.Tracking.{IsTrackable, track_file-track}
use mt_hvac.Client.Declined.{IsDeclined, IsUsable, track-declined}
use mt_hvac.Wrappers.{wrap_open, map_stats, count_open}
use mt_hvac.Wrappers.Elapsed.{elapsed}
use mt_hvac.Wrappers.Reads.{ReadCall}
use mt_hvac.Wrappers.Fallback.{read_locally, read_all-IsFailed, IsFailed-stats}
use mt_hvac.Wrappers.Opens.{after_open, opened_fd, wrap_open-returns}
use mt_hvac.System.Programs.{opened_and_read}

module _ (P : Platform) where
  -- The file is to be tracked, its server is known, and declines the open.
  pub record IsTurnedDown (path : Text) (flags mode : ℕ) (full : Text) (a : P.Addr)
      (w : World P.Sys) : Type 0 where
    pub rank : Text
    pub name : Text
    pub redirects : redirect_off w.client ≡ false
    pub granted : (opened_fd P path flags mode w =? minus_one) ≡ false
    pub trackable : IsTrackable P path flags full (after_open P path flags mode w)
    pub usable : IsUsable P a
    pub ranked : w.client.proc_id ≡ some rank
    pub counted : (w.client.server_count == 0) ≡ false
    pub known :
        w.client.address_cache (to_int32 (pos (P.hash full % w.client.server_count))) ≡ some name
    pub resolved : P.resolve name (after_open P path flags mode w).sys ≡ some a
    pub declined : IsDeclined (P.send_open (some a) full (after_open P path flags mode w).sys).0

  -- When the request to open a file that is to be tracked cannot be sent, or its server does not
  -- answer with a positive descriptor, a program that opens the file and reads it returns, and
  -- gets, with any reads, exactly the bytes that the C library's reads of the opened descriptor
  -- give: if redirection is on, the C library's open grants a descriptor, and the server is known
  -- and Mercury makes and frees what a request to it needs.
  pub opened_and_read-local :
      (start end : Timespec) (path full : Text) (flags mode : ℕ) (a : P.Addr) (cs : List ReadCall)
      (w : World P.Sys)
      → IsTurnedDown path flags mode full a w
      → let s = (P.send_open (some a) full (after_open P path flags mode w).sys).1 in
        let local = read_locally P (opened_fd P path flags mode w) cs s in
        (w' : World P.Sys) × (opened_and_read P start end path flags mode cs w
          ≡ returns (local.0, w'))
        × (w'.sys ≡ local.1)
  opened_and_read-local start end path full flags mode a cs w v =
      let fd = opened_fd P path flags mode w in
      let (tracked, w₁, e₁, failed, same₁) =
        track-declined P fd full v.rank v.name a (after_open P path flags mode w) v.usable v.ranked
          v.counted v.known v.resolved v.declined in
      let g = count_open tracked path (elapsed start end) in
      let w₂ : World P.Sys = record w₁ { client = map_stats g w₁.client } in
      let (w₃, e₃, same₃) = read_all-IsFailed P fd cs w₂ (IsFailed-stats P fd w₁.client g failed) in
      subst
        (λ s.
          (w' : World P.Sys) × (opened_and_read P start end path flags mode cs w
            ≡ returns ((read_locally P fd cs s).0, w'))
          × (w'.sys ≡ (read_locally P fd cs s).1))
        same₁
        (
          w₃,
          >>=-returns (wrap_open P start end path flags mode) _ w (
                wrap_open-returns P start end path flags mode tracked w w₁ v.redirects v.granted (
                  track_file-track P path full flags fd (after_open P path flags mode w) v.trackable
                  ∙ e₁))
              ∙ e₃,
          same₃,
        )

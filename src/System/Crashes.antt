-- ===== src/System/Crashes.antt =====
-- A read that fails at a server: src/wrappers.c down to `hvac_rpc_handler` of src/mthvac_comm.cpp.
use mt_hvac.Base.{
  ℕ, ◌<◌, ◌^◌, ◌≡◌, ◌≢◌, ◌∙◌, ap, Bool, true, none, some, arith, ℤ, pos, minus_one, Key, erase,
  erase_self, erase_ne, to_uint64, to_uint64_small, M, ◌>>=◌, stops, blocked, Stop,
}
use mt_hvac.Posix.{Posix}
use mt_hvac.Server.{State, perform}
use mt_hvac.Server.Reads.{IsBulk, read_handler-failed}
use mt_hvac.Platform.{Platform, unanswered}
use mt_hvac.Fd.Deadline.{Timespec}
use mt_hvac.Rpc.State.{World}
use mt_hvac.Client.{remote_read}
use mt_hvac.Client.Reads.{request}
use mt_hvac.Client.Unanswered.{IsMapped, remote_read-unanswered}
use mt_hvac.Wrappers.{wrap_read}
use mt_hvac.System.{Nodes, clustered, read_at}

>>=-stops :
    {S A B : Type 0} (m : M S A) (f : A → M S B) (s : S) {e : Stop}
    → m s ≡ stops e
    → (m >>= f) s ≡ stops e
>>=-stops m f s h = rw (h, ◌>>=◌)

module _ (B : Platform) ⦃k : Key B.Addr⦄ (Q : Posix) (bulk_transfer : ℕ → ℕ → Bool)
    (bulk : IsBulk bulk_transfer) where
  abbrev P : Platform
  P = clustered B Q bulk_transfer

  perform-read-failed :
      (remote_fd : ℤ) (n size : ℕ) (t : State Q)
      → (Q.read remote_fd size t.fs).0.result ≡ minus_one
      → (perform Q (request n remote_fd minus_one) size t).0.result ≡ minus_one
  unfolding perform
  perform-read-failed remote_fd n size t h = ground arith

  -- A handler that fails gives no answer, and its server is gone.
  read_at-failed :
      (a : B.Addr) (remote_fd : ℤ) (n : ℕ) (t : State Q) (s : Nodes B Q bulk_transfer)
      → n < 2 ^ 31
      → s.servers a ≡ some t
      → Q.allocates n t.fs ≡ true
      → (Q.read remote_fd n t.fs).0.result ≡ minus_one
      → let sent =
          read_at B Q bulk_transfer (some a) (s.servers a) (request n remote_fd minus_one) s in
        (sent.0 ≡ unanswered) × (sent.1 ≡ record s { servers = erase s.servers a })
  unfolding read_at
  read_at-failed a remote_fd n t s small runs room failed =
      let size : to_uint64 (pos n) ≡ n = to_uint64_small n (omega arith) in
      let r =
        read_handler-failed Q bulk_transfer bulk (request n remote_fd minus_one) t
          (rw size (omega arith)) (rw size room)
          (perform-read-failed remote_fd n (to_uint64 (pos n)) t (rw size failed)) in
      (rw (runs, read_at) (rw r), rw (runs, read_at) (rw r))

  -- When the read of a server's node fails, the program that asked for it waits for ever, where the
  -- call without the library would have returned -1; the server is gone, for every client, and the
  -- other servers go on.
  pub failed_read-crash :
      (start end : Timespec) (fd remote_fd : ℤ) (n : ℕ) (a : B.Addr) (t : State Q)
      (w : World (Nodes B Q bulk_transfer))
      → n < 2 ^ 31
      → IsMapped P fd remote_fd a w
      → w.sys.servers a ≡ some t
      → Q.allocates n t.fs ≡ true
      → (Q.read remote_fd n t.fs).0.result ≡ minus_one
      → let left = (P.send_read (some a) (request n remote_fd minus_one) w.sys).1 in
        (wrap_read P start end fd true n w ≡ stops blocked)
        × (left.servers a ≡ none)
        × ((b : B.Addr) → a ≢ b → left.servers b ≡ w.sys.servers b)
  unfolding wrap_read
  failed_read-crash start end fd remote_fd n a t w small v runs room failed =
      let (sent, left) = read_at-failed a remote_fd n t w.sys small runs room failed in
      (
        >>=-stops (remote_read P fd true n) _ w
            (remote_read-unanswered P fd remote_fd a n w v small sent),
        ap (λ s. s.servers a) left ∙ erase_self w.sys.servers a,
        λ b ne. ap (λ s. s.servers b) left ∙ erase_ne w.sys.servers a b ne,
      )

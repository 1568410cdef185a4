-- ===== src/Rpc/Stats.antt =====
-- The RPC by which a client makes a server print its timings: both sides of it, in
-- src/mthvac_comm_client.cpp and src/mthvac_comm.cpp.
use mt_hvac.Base.{
  ℕ, Bool, Option, none, some, Text, ℤ, pos, negsuc, minus_one, int_key, ◌>>=◌, ◌>>◌, pure, branch,
  ◌=?◌, if◌then◌else◌,
}
use mt_hvac.Decimal.{atoi}
use mt_hvac.Platform.{Platform, Sent, answered}
use mt_hvac.Rpc.State.{outside}
use mt_hvac.Rpc.{Action, lookup_addr, create_handle, destroy_handle, free_addr}
use mt_hvac.Timer.{Timer}
use mt_hvac.Timer.Report.{print_all_stats}

-- hvac_trigger_srv_print_stats_handler: the status that it answers with, and what it prints, where
-- `decoded` says whether the input could be decoded.
unfoldable pub print_stats_handler :
    (fixed2 : ℕ → ℕ → Text) → (decoded : Bool) → Timer → ℤ × Option Text
print_stats_handler fixed2 decoded t =
    if decoded then (pos 0, some (print_all_stats fixed2 minus_one t)) else (minus_one, none)

-- hvac_client_srv_print_stats_cb: what it puts into the caller's flag. No call passes it on.
unfoldable pub srv_print_stats_cb : Sent ℤ → ℤ
srv_print_stats_cb (answered status) = if status =? pos 0 then pos 0 else minus_one
srv_print_stats_cb _ = negsuc 1

module _ (P : Platform) where
  -- The part of the next function that has an address: the request is sent, and no answer waited for.
  unfoldable pub send_request : Option P.Addr → Action P ℤ
  send_request none = pure (negsuc 3)
  send_request (some addr) = do
    create_handle P (some addr)
    sent ← outside (P.send_stats (some addr))
    destroy_handle P
    free_addr P (some addr)
    branch sent (pure (pos 0)) (pure (negsuc 4))

  -- hvac_client_request_server_to_print_stats, where `none` is a null pointer
  unfoldable pub request_print_stats : Option Text → Action P ℤ
  request_print_stats none = pure (negsuc 2)
  request_print_stats (some rank) = do addr ← lookup_addr P (atoi rank); send_request addr

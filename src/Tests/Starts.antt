-- ===== src/Tests/Starts.antt =====
-- The theorems on the start of both programs and the end of the progress thread, at concrete inputs.
use mathlib.Core.List.{Perm, map}
use mt_hvac.Base.{
  ℕ, ◌+◌, ◌≤◌, ◌≡◌, ◌≢◌, ◌⊎◌, refl, true, false, some, none, List, [], ◌∷◌, ◌++◌, arith, text, pos,
  returns, stops, undefined, ◌<◌,
}
use mt_hvac.Decimal.{print_int, is_space}
use mt_hvac.Logging.{LogEnv}
use mt_hvac.Ports.{ports_filename, found, missing, scan_ports}
use mt_hvac.Ports.Posted.{Post, ArePosts, posted, first_post}
use mt_hvac.Server.Start.{
  ServerEnv, ServerNode, new_node, server_main, IsReady, server_main-scan_ports,
}
use mt_hvac.Rpc.Services.{
  base_service, open_service, close_service, seek_service, print_stats_service, service_name,
  client_comm_register_rpc,
}
use mt_hvac.Client.Startup.{Env, Process, unstarted, client_init, IsStarted, client_init_lem}
use mt_hvac.Rpc.Progress.{
  Progress, triggered, returned, Action, stop_triggering, skip, leave_loop, shutdown_comm, Run,
  rest, act, left, shutdown_returns,
}

abbrev logs : LogEnv
logs = record { log_level = some (text "900"); log_dir = none; log_prefix = none }

-- The server of rank 3.
abbrev third : ServerEnv
third = record {
  server_count = some (text "2");
  job_id = some (text "77");
  proc_id = some (print_int (pos 3) []);
  logs = logs;
  pid = pos 4242;
  log4c_rc = pos 0;
  pid_file_opens = true;
  bbpath = some (text "/bb");
  threads_start = true;
  address = text "tcp://n3";
  ports_file_opens = true;
}

abbrev earlier : List Post
earlier = record { rank = 0; address = text "tcp://n0" } ∷ []

earlier-ArePosts : ArePosts earlier
unfolding is_space
earlier-ArePosts = ground arith

third-IsReady : IsReady (text "77") (text "tcp://n3") 3 third
unfolding is_space ports_filename
third-IsReady = record {
  counted = (text "2", refl);
  short_pid = (4242, refl, omega arith);
  logs_start = refl;
  has_job = refl;
  job_fits = ground arith;
  has_rank = refl;
  rank_fits = omega arith;
  has_address = refl;
  is_address = ground arith;
  posts = refl;
  has_bbpath = (text "/bb", refl);
  threads = refl;
}

server_main-scan_ports_example :
    (q : ServerNode) × (server_main (pos 500) third third.server_count (new_node (posted earlier))
      ≡ returns (tt, q))
    × (q.server_rank ≡ pos 3)
    × (q.mover_runs ≡ true)
    × (q.progress_runs ≡ true)
    × (q.ports_file ≡ posted (earlier ++ record { rank = 3; address = text "tcp://n3" } ∷ []))
    × (q.registered
        ≡ base_service ∷ open_service ∷ close_service ∷ seek_service ∷ print_stats_service ∷ [])
    × Perm (map service_name client_comm_register_rpc) (map service_name q.registered)
    × (first_post 3 earlier ≡ missing
        → scan_ports q.server_rank q.ports_file ≡ found (text "tcp://n3"))
    × ((r : ℕ) → r ≢ 3 → scan_ports (pos r) q.ports_file ≡ scan_ports (pos r) (posted earlier))
server_main-scan_ports_example =
    server_main-scan_ports (pos 500) (text "77") (text "tcp://n3") 3 third earlier earlier-ArePosts
      third-IsReady

abbrev env : Env
env = record {
  data_dir = some (text "/d");
  server_count = some (print_int (pos 4) []);
  job_id = some (text "77");
  proc_id = some (text "0");
  logs = logs;
}

client_init_lem_example :
    (4242 < 100_000
      → (q : Process) × (client_init (pos 500) env (pos 4242) (pos 0) 12 (unstarted env)
          ≡ returns q)
        × IsStarted env 4 q
        × (client_init (pos 500) env (pos 4242) (pos 0) 12 q ≡ returns q))
    × (100_000 ≤ 4242
        → client_init (pos 500) env (pos 4242) (pos 0) 12 (unstarted env) ≡ stops undefined)
client_init_lem_example = client_init_lem (pos 500) env 4242 12 4 (omega arith) refl

-- The thread has just run a callback.
abbrev busy : Progress
busy = record { place = triggered true; shutdown_flag = false }

abbrev ended : Progress
ended = record { place = returned; shutdown_flag = true }

busy_ends : Run 3 (shutdown_comm busy) ended
busy_ends = act (stop_triggering refl refl) (act (skip refl refl) (act (leave_loop refl refl) rest))

shutdown_returns_example :
    (3 + left returned ≤ 4) × ((ended.place ≡ returned) ⊎ ((u : Progress) × Action ended u))
shutdown_returns_example = shutdown_returns 3 busy ended busy_ends

-- ===== src/Server/Start.antt =====
-- The start of the server program: `main` and `hvac_start_comm_server` of src/mthvac_server.cpp,
-- with `hvac_init_comm`, `hvac_comm_list_addr` and the registrations of src/mthvac_comm.cpp.
use mathlib.Core.List.{append-nil, Perm, map}
use mathlib.Core.List.Perm
use mt_hvac.Base.{
  ℕ, ◌<◌, ◌^◌, ◌≡◌, refl, sym, ap, ◌∙◌, ◌≢◌, Bool, true, false, Option, none, some, List, [], ◌∷◌,
  ◌++◌, arith, Text, text, length, ℤ, pos, minus_one, leb, int_key, if◌then◌else◌, Outcome, returns,
  stops, exited, undefined, M, ◌>>◌, pure, Stop,
}
use mt_hvac.Decimal.{print_int, atoi}
use mt_hvac.Decimal.RoundTrip.{atoi-print_int}
use mt_hvac.Logging.{LogEnv, LogConfig, init_logging}
use mt_hvac.Logging.Names.{init_logging-small}
use mt_hvac.Mover.{nvmepath_of}
use mt_hvac.Rpc.Services.{
  Service, base_service, open_service, close_service, seek_service, print_stats_service,
  service_name, client_comm_register_rpc,
}
use mt_hvac.Ports.{ports_filename, print_entry, path_max, found, missing, scan_ports}
use mt_hvac.Ports.Posted.{
  Post, posted, posted-append, IsAddress, ArePosts, first_post, scan_ports-posted,
}

-- What the program is given: its argument, its environment and process id, the text that Mercury
-- gives for its address, and what the calls of libraries answer.
pub record ServerEnv : Type 0 where
  pub server_count : Option Text
  pub job_id : Option Text
  pub proc_id : Option Text
  pub logs : LogEnv
  pub pid : ℤ
  pub log4c_rc : ℤ
  pub pid_file_opens : Bool
  pub bbpath : Option Text
  pub threads_start : Bool
  pub address : Text
  pub ports_file_opens : Bool

-- The process, and the two files that it writes.
pub record ServerNode : Type 0 where
  pub pid_file : Option Text
  pub ports_file : Text
  pub mover_runs : Bool
  pub server_rank : ℤ
  pub progress_runs : Bool
  pub registered : List Service

-- A process that has not started, where the file of its job has some content.
abbrev pub new_node : Text → ServerNode
new_node ports = record {
  pid_file = none;
  ports_file = ports;
  mover_runs = false;
  server_rank = minus_one;
  progress_runs = false;
  registered = [];
}

abbrev change : (ServerNode → ServerNode) → M ServerNode (Unit {0})
change f s = returns (tt, f s)

abbrev stop : {A : Type 0} → Stop → M ServerNode A
stop e s = stops e

-- The file /tmp/hvac_server.pid. That it cannot be written is logged only.
write_pid : ServerEnv → M ServerNode (Unit {0})
write_pid env =
    if env.pid_file_opens
    then change (λ s. record s { pid_file = some (print_int env.pid (10 ∷ [])) })
    else pure tt

-- What hvac_data_mover_fn does first, in its own thread: without BBPATH it ends the process.
begin_mover : Outcome Text → M ServerNode (Unit {0})
begin_mover (stops e) = stop e
begin_mover (returns nvmepath) = change (λ s. record s { mover_runs = true })

-- The thread of the data mover, taken to begin when it is created. That it cannot be created is
-- logged only.
start_mover : ServerEnv → M ServerNode (Unit {0})
unfolding begin_mover nvmepath_of
start_mover env = if env.threads_start then begin_mover (nvmepath_of env.bbpath) else pure tt

-- hvac_init_comm for a listener: SLURM_PROCID is read through a pointer that is not tested.
unfoldable pub init_listener : ServerEnv → Option Text → M ServerNode (Unit {0})
init_listener env none = stop undefined
init_listener env (some proc) =
    change (λ s. record s { server_rank = atoi proc; progress_runs = env.threads_start })

-- hvac_comm_list_addr, where SLURM_JOBID and its name for the file are not tested either
unfoldable pub list_addr : ServerEnv → Option Text → M ServerNode (Unit {0})
list_addr env none = stop undefined
list_addr env (some job) =
    if leb path_max (length (ports_filename job))
    then stop undefined
    else if env.ports_file_opens
    then change
        (λ s. record s { ports_file = s.ports_file ++ print_entry s.server_rank env.address })
    else stop exited

register : Service → M ServerNode (Unit {0})
register service = change (λ s. record s { registered = s.registered ++ service ∷ [] })

-- hvac_start_comm_server, up to the loop in which it sleeps for ever
unfoldable pub start_comm_server : ServerEnv → M ServerNode (Unit {0})
unfolding write_pid start_mover register
start_comm_server env = do
  write_pid env
  start_mover env
  init_listener env env.proc_id
  list_addr env env.job_id
  register base_service
  register open_service
  register close_service
  register seek_service
  register print_stats_service

abbrev pub server_log : Text
server_log = text "hvac_server_log"

unfoldable pub after_logging : ServerEnv → Outcome (Option LogConfig) → M ServerNode (Unit {0})
after_logging env (stops e) = stop e
after_logging env (returns log) = start_comm_server env

-- main: without an argument the program ends. The server count is not used after it is read.
unfoldable pub server_main : (notice : ℤ) → ServerEnv → Option Text → M ServerNode (Unit {0})
server_main notice env none = stop exited
server_main notice env (some count) =
    after_logging env (init_logging notice server_log env.logs env.pid env.log4c_rc)

-- A server of job `job` and rank `n` that is given what it needs.
pub record IsReady (job address : Text) (n : ℕ) (env : ServerEnv) : Type 0 where
  pub counted : (count : Text) × (env.server_count ≡ some count)
  pub short_pid : (pid : ℕ) × (env.pid ≡ pos pid) × (pid < 100_000)
  pub logs_start : env.log4c_rc ≡ pos 0
  pub has_job : env.job_id ≡ some job
  pub job_fits : length (ports_filename job) < path_max
  pub has_rank : env.proc_id ≡ some (print_int (pos n) [])
  pub rank_fits : n < 2 ^ 31
  pub has_address : env.address ≡ address
  pub is_address : IsAddress address
  pub posts : env.ports_file_opens ≡ true
  pub has_bbpath : (bbpath : Text) × (env.bbpath ≡ some bbpath)
  pub threads : env.threads_start ≡ true

ArePosts-last :
    (p : Post) (ps : List Post)
    → p.rank < 2 ^ 31
    → IsAddress p.address
    → ArePosts ps
    → ArePosts (ps ++ p ∷ [])
ArePosts-last p [] h a v = (h, a, tt)
ArePosts-last p (q ∷ ps) h a v = (v.0, v.1, ArePosts-last p ps h a v.2)

first_post-last :
    (p : Post) (ps : List Post)
    → first_post p.rank ps ≡ missing
    → first_post p.rank (ps ++ p ∷ []) ≡ found p.address
first_post-last p [] h = ground arith
first_post-last p (q ∷ ps) h = ground (arith, first_post-last p ps)

first_post-other :
    (r : ℕ) (p : Post) (ps : List Post) → r ≢ p.rank → first_post r (ps ++ p ∷ []) ≡ first_post r ps
first_post-other r p [] h = ground arith
first_post-other r p (q ∷ ps) h = ground (arith, first_post-other r p ps h)

-- What such a server leaves before it sleeps.
abbrev pub serving : ServerEnv → Text → Text → ℕ → ServerNode
serving env address ports n = record {
  pid_file = if env.pid_file_opens then some (print_int env.pid (10 ∷ [])) else none;
  ports_file = ports ++ print_entry (pos n) address;
  mover_runs = true;
  server_rank = pos n;
  progress_runs = true;
  registered =
      base_service ∷ open_service ∷ close_service ∷ seek_service ∷ print_stats_service ∷ [];
}

start_comm_server-serving :
    (job address ports : Text) (n : ℕ) (env : ServerEnv)
    → IsReady job address n env
    → start_comm_server env (new_node ports) ≡ returns (tt, serving env address ports n)
unfolding start_comm_server init_listener list_addr
start_comm_server-serving job address ports n env v =
    let (bbpath, has_bbpath) = v.has_bbpath in
    ground (
      arith,
      has_bbpath,
      v.threads,
      v.has_job,
      v.job_fits,
      v.has_rank,
      v.has_address,
      v.posts,
      atoi-print_int n v.rank_fits,
    )

server_main-serving :
    (notice : ℤ) (job address ports : Text) (n : ℕ) (env : ServerEnv)
    → IsReady job address n env
    → server_main notice env env.server_count (new_node ports)
      ≡ returns (tt, serving env address ports n)
unfolding server_main after_logging
server_main-serving notice job address ports n env v =
    let (count, counted) = v.counted in
    let (pid, is_pid, short) = v.short_pid in
    ground (
      arith,
      init_logging-small notice server_log env.logs pid short,
      v.logs_start,
      start_comm_server-serving job address ports n env v,
    )

-- The client and the server register the same names.
register-perm : Perm (map service_name client_comm_register_rpc) (
    map service_name
      (base_service ∷ open_service ∷ close_service ∷ seek_service ∷ print_stats_service ∷ []))
unfolding client_comm_register_rpc
register-perm = Perm.swap _ _ _

-- A server reaches the loop in which it sleeps if it is given a count, a job whose ports file has
-- a name that fits and can be opened, a rank below 2 ^ 31, a process id below 100000 and BBPATH,
-- if its address is not empty, has no white space and fits the scan, if log4c starts, and if both
-- threads can be created. Its two threads then run, all five RPCs are registered, under the names
-- for which clients register them, and where the ports file held lines that such servers have
-- posted, it holds these and behind them one line more, with its rank and address. A client's
-- scan finds this address for the rank if no line before was of the rank, and what it finds for
-- every other rank is as before.
pub server_main-scan_ports :
    (notice : ℤ) (job address : Text) (n : ℕ) (env : ServerEnv) (ps : List Post)
    → ArePosts ps
    → IsReady job address n env
    → (q : ServerNode) × (server_main notice env env.server_count (new_node (posted ps))
        ≡ returns (tt, q))
      × (q.server_rank ≡ pos n)
      × (q.mover_runs ≡ true)
      × (q.progress_runs ≡ true)
      × (q.ports_file ≡ posted (ps ++ record { rank = n; address = address } ∷ []))
      × (q.registered
          ≡ base_service ∷ open_service ∷ close_service ∷ seek_service ∷ print_stats_service ∷ [])
      × Perm (map service_name client_comm_register_rpc) (map service_name q.registered)
      × (first_post n ps ≡ missing → scan_ports q.server_rank q.ports_file ≡ found address)
      × ((r : ℕ) → r ≢ n → scan_ports (pos r) q.ports_file ≡ scan_ports (pos r) (posted ps))
server_main-scan_ports notice job address n env ps are v =
    let p : Post = record { rank = n; address = address } in
    let e : posted (ps ++ p ∷ []) ≡ posted ps ++ print_entry (pos n) address =
      posted-append ps (p ∷ [])
      ∙ ap (◌++◌ (posted ps)) (append-nil (print_entry (pos n) address)) in
    let all : (r : ℕ)
        → scan_ports (pos r) (posted ps ++ print_entry (pos n) address)
          ≡ first_post r (ps ++ p ∷ []) =
      λ r.
        ap (scan_ports (pos r)) (sym e)
        ∙ scan_ports-posted r (ps ++ p ∷ []) (ArePosts-last p ps v.rank_fits v.is_address are) in
    (
      serving env address (posted ps) n,
      server_main-serving notice job address (posted ps) n env v,
      refl,
      refl,
      refl,
      sym e,
      refl,
      register-perm,
      λ h. all n ∙ first_post-last p ps h,
      λ r h. all r ∙ first_post-other r p ps h ∙ sym (scan_ports-posted r ps are),
    )

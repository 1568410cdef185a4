-- ===== src/Lib.antt =====
-- MT-HVAC, a distributed read cache for deep-learning jobs. A program's open, read, pread and close
-- are intercepted (src/wrappers.c). The client library (src/mthvac_client.cpp) decides which files
-- are tracked and picks a server by the hash of the path; the RPCs (src/mthvac_comm_client.cpp) go
-- through Mercury to the servers' handlers (src/mthvac_comm.cpp). Servers publish their addresses
-- in a file. After a close, a server's data mover (src/mthvac_data_mover.cpp) copies the file to
-- local storage, and later opens are redirected to the copy. Where the remote way gives -1, the
-- wrapper calls the C library.
--
-- Files:
--   Base      numbers with the C conversions, lists of bytes, C++ maps as functions from keys, and
--             the state monad whose calls return or stop (assertion, exit, endless wait, undefined
--             behaviour)
--   Posix     the operating system of a node, a parameter, with its documented behaviour as laws
--   Fd        src/mthvac_comm_client.cpp: hvac_get_fd_status, hvac_set_fd_opening, hvac_set_fd_ready,
--             hvac_set_fd_error, hvac_wait_fd_ready and hvac_cleanup_fd_state, over a store of the
--             status objects that the map and the waiting threads share; Fd/States has a plain map
--             from descriptors to states beside it, Fd/Deadline the deadline of the wait, Fd/Locks
--             the reader-writer locks of the shards as a step relation, and Fd/Init their first
--             use, init_fd_state_rwlocks, as another
--   Server    src/mthvac_comm.cpp: the handlers of the open, read, seek and close RPCs; Server/Start
--             has the start of the program (src/mthvac_server.cpp) with hvac_comm_list_addr
--   Mover     src/mthvac_data_mover.cpp: one batch of copying as a function (drain), and in
--             Mover/Wakeups the thread and the close handler as a step relation, which
--             Mover/Progress follows to an empty queue; Mover/Pending and Mover/Hits follow a file
--             from its close to its copy, and Mover/Stock the files that a server has
--   Ports     the file ./.ports.cfg.<job>: the line of hvac_comm_list_addr (src/mthvac_comm.cpp) and
--             the scan of hvac_client_comm_lookup_addr (src/mthvac_comm_client.cpp)
--   Decimal   numbers in text, as printf prints and scanf and atoi read them
--   Timer     src/mthvac_timer.h: the tables of timed calls, the detailed logs and the reset; in
--             Timer/Report what is printed and exported, in Timer/Traces and Timer/Histories the
--             tables against the trace of calls
--   Logging   src/hvac_logging.c: hvac_init_logging as what it gives to log4c, and the text of a
--             message
--   Platform  what the client calls and does not implement, a parameter: its node's C library,
--             std::filesystem, std::hash, and Mercury with what is behind it
--   Rpc       src/mthvac_comm_client.cpp: hvac_client_comm_lookup_addr and the open, read, seek and
--             close RPCs with their callbacks; Rpc/State has the client's globals, Rpc/Waiting the
--             wait for an answer and the callback as a step relation, Rpc/Progress the thread of
--             hvac_progress_fn and hvac_shutdown_comm, Rpc/Stats both sides of the RPC that prints
--             statistics, Rpc/Services the names of the RPCs that both sides register,
--             Rpc/Calls sequences of RPCs, and Rpc/Legacy waits that nothing calls
--   Client    src/mthvac_client.cpp: hvac_track_file, hvac_remote_read, hvac_remote_pread,
--             hvac_remote_lseek, hvac_remote_close and hvac_remove_fd; Client/Startup has
--             hvac_client_init and the functions exported for the timing tables, Client/Tracking the
--             guards of hvac_track_file, and Client/Frames what a call leaves of the other
--             descriptors; the other children follow the opens, the reads and the closes down
--             through the RPCs
--   Wrappers  src/wrappers.c: open, close, read, pread and their counters, which Wrappers/Counters
--             follows over any calls and Wrappers/Export writes to a file; Wrappers/Turns has
--             several processes that read, which Wrappers/Sharing follows, Wrappers/Messages the I/O
--             of log4c under the flag of log_preformatter_internal (src/hvac_logging.c),
--             Wrappers/Programs any program, Wrappers/Transparent one of which no file is tracked,
--             Wrappers/Fallback one whose server declines, and Wrappers/Symbols the macro
--             MAP_OR_FAIL (src/mthvac_internal.h); Wrappers/Sessions has processes that open, read
--             and close, and what that gives on local files, Wrappers/Serving what it needs of the
--             servers, and Wrappers/Matches, Wrappers/Local, Wrappers/Faithful and Wrappers/Refinement
--             the way from one to the other
--   System    the client's platform with the servers of Server behind it, one state for each
--             address; System/Programs has a program that opens and reads through the wrappers,
--             System/Fallback one whose server declines, System/Crashes one whose server fails,
--             System/Epochs one that opens, reads and
--             closes again and again while the servers work for others, System/Sharing several
--             that read at the same time, System/Preads a pread, and System/Sessions several that
--             open, read and close, over System/Serving, what the servers are to them
--   Tests     a node in memory, and runs at concrete inputs
--
-- Bounds and fuel: an `int` that a value passes through is written out as a conversion, so the
-- theorems on reads take counts below 2 ^ 31. The digits of a number have the number plus one as
-- fuel, and the scan of the ports file its length plus one: each round reads a character at least.
-- The reader of an exported log takes a bound on its lines and stops at the first text that is no
-- line. The wait for a descriptor takes the list of the states that the waiter sees, so it ends.
--
-- Simplifications: the handlers of one server run one after the other, as its single progress
-- thread runs them; the mover interleaves with them in Mover/Wakeups and between whole events in
-- Mover/Copies. A call through the wrappers runs to its end before another one starts, in the same
-- process or in another. A memory access is atomic, and seen by all threads in one order. A time
-- of src/wrappers.c is a double, which is kept as the sum by which the code computes it, with its
-- rounding left open; a total of the timing tables is a whole number of microseconds, which a double
-- holds exactly up to 2 ^ 53; how a double is printed is a parameter. The thread of the data mover is
-- taken to begin when it is created, and Mercury to start. The tables go in
-- the order of their first entries, which the source leaves open. What a call of log4c or of
-- Mercury answers in the start of a program is a parameter.
--
-- Not modelled: the ids that Mercury gives to RPCs and the order of the calls of log4c, which are
-- up to libraries; the wrappers that are commented out; the signal handler, which only ends
-- the server; src/tests, which holds a test program and an independent preload library.
pub mod Base
pub mod Fd
pub mod Posix
pub mod Server
pub mod Mover
pub mod Ports
pub mod Decimal
pub mod Timer
pub mod Logging
pub mod Platform
pub mod Rpc
pub mod Client
pub mod Wrappers
pub mod System
pub mod Tests

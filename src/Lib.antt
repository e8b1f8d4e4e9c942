-- ===== src/Lib.antt =====
-- distft: a Kademlia style distributed hash table (src/dht, src/utils), a store of files over it
-- (src/client/file.cpp), and the programs that keep such a store (src/client).
--
-- A session (`Session`, src/dht/session.cpp and rpc.cpp) owns a router (src/dht/router.cpp) and a map
-- of chunks. It serves five requests of its peers, and publishes and looks up chunks for its client by
-- calling them. The router is a binary tree of buckets over the bits of keys (src/utils/utils.h). The
-- client cuts files into chunks, and keeps the names of its files in an index chunk. A client runs a
-- cluster of sessions that know each other, and asks one of them at random for each call. It is a
-- program that reads lines (src/client/interactive.cpp), or a daemon (daemon.cpp), to which the
-- founder program (founder.cpp) sends commands through pipes.
--
-- Files:
--   Prelude       names and lemmas that the modules share
--   Key           utils.h and utils.cpp: keys, distances, the texts of a key, random keys
--   Tree          `Router::BinaryTree`, with the walks of `attempt_insert_peer`, `evict_peer`,
--                   `tree_closest_peers`, `tree_all_peers` and `random_per_bucket_peers_helper`
--   Router        the public methods of `Router`, and the histories of their calls
--   File          file.cpp over an interface of `Session::set` and `Session::get`
--   Session       session.h: the state of a session and the monad of its methods. Below it Network
--                   (dht.proto), Peers, Callers and Handlers (rpc.cpp), Lookup and Chunks
--                   (session.cpp), Passes (the threads of rpc.cpp) and Life (startup and teardown in
--                   session.cpp), Threads (the loops of rpc.cpp and their join), Files (a session as
--                   file.cpp uses it), and the proofs: Keeps, Traffic, Serving, Running, Acts,
--                   Lived, Update, Wire, Nearest, Near, Found, Lonely, Heard, Honest, Once, Local,
--                   Calls, Cleanup, Republish, Refreshing, Joined
--   Client        Below it Control and Boot (cmd.cpp, `CommandControl`), Pipe (the messages of
--                   daemon.cpp), Daemon (a round of its loop), Founder (the command line of
--                   founder.cpp), Handle (its handlers), Interactive (interactive.cpp), Start (what
--                   comes before the loops), Strain (the thread of the strain reliever beside
--                   `exit_cmd`), Leaving (the end of `exit_cmd`), Home (the files of a client and
--                   its daemon) and Descriptors (`setup_daemon`), and the proofs: Sessions (the
--                   sessions of src/dht as a cluster), Stored and Loaded on a client's session,
--                   Messages, Replies and Starved on the pipes, Exchange, Printed, Answered on a
--                   command and its reply, Endpoints, Commands and Typed on the command lines,
--                   Relief on the strain reliever, Housed, Cleared and Settled on the files of a daemon
--   Examples      below Key, Router, File, Session and Client, Trials, Samples and Asked below
--                   Session, and Trials, Cases, Sampled, Whole, Homes, Process, Memory and Disk below
--                   Client: concrete data
--
-- State. A method of the router is a function from a router to a router and a result. A method of a
-- session is a function on `Env`, the session and the world of the network, into a result or a fault:
-- an exception, undefined behaviour, a thread that waits for its own lock, or a loop out of rounds.
-- Pointers to peers and chunks are values, and the parent pointers of the tree are the path of a walk.
-- Clock readings and random numbers are arguments. Numbers are natural numbers; the `int32` sizes of
-- messages and the counts of arguments keep their wrap-around. The state of a client is `Client`: its
-- cluster, the messages of its last command and the files it has written.
--
-- Bounds and fuel. The `for` loops of the router have KEYBITS rounds as in the code. The loop of
-- `update_peer` has two rounds: the first may evict a peer, which makes room for the second. The
-- rounds of a lookup are those of the code, MAX_LOOKUP_ITERS. The read loop of a file has one round
-- more than the file has bytes: each round but the last takes at least one byte. A loop that reads a
-- message from a pipe has a number of rounds as an argument, and one more than the bytes of the
-- message is enough. The pings of a startup are repeated at most a number of times that is an
-- argument, since the code repeats them for ever. The loop of the strain reliever has ten rounds,
-- since it never draws more than nine chunks.
--
-- Parameters. The hash function, the stub of the service with the world behind it, the clock, and the
-- order in which the threads of a write run. The client's commands take the sessions of a cluster as
-- an interface: what each session holds itself, which it sets and gets; the sessions of src/dht fill
-- it (Client/Sessions), and one of them that of file.cpp (Session/Files). How a cluster starts up is
-- an argument, which may fail. The file system is an interface, whose laws are its documented
-- behaviour; Client/Disk fills it. So is the table of descriptors. Further arguments are the random
-- numbers and keys, the local files that can be read and written, the running sessions, and what
-- uninitialised buffers hold. A pipe is the bytes on it.
--
-- A write on the pipe for the reply does not block: it takes what there is room for.
--
-- Threads. The strain reliever beside `exit_cmd`, and the threads of a session beside its `teardown`,
-- are step relations: a step is what one thread does between two points where another may run. A
-- method of a session is one step.
--
-- Not modelled: what reaches one session of a cluster of a set through another; reads of a local file
-- that fail within `write_from_file`, but in its loop; the locks, but where a thread waits for its
-- own; interleavings of two methods of one session, or of the threads of a pass with them; the server
-- and the processes; all logs. Where `write_cmd` or `read_err` returns `false`, the code first calls a
-- logger of another name than the one that `setup_client` registers.
pub mod Prelude
pub mod Key
pub mod Tree
pub mod Router
pub mod File
pub mod Session
pub mod Client

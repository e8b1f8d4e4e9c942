-- ===== src/Client/Daemon.antt =====
-- src/client/daemon.cpp, `run_founder_session_daemon`: what the daemon does with a command that it has
-- read, and the reply that it writes.
use distft.Prelude.{ℕ, Bool, not, List, [], ◌∷◌, Option, none, some, if◌then◌else◌, ◌==◌}
use distft.Key.{Text}
use distft.Client.Pipe.{Pipe, running, failed, done, Request, read_cmd, Reply, Sink, write_err}
use distft.Client.Control.{Cluster, Client, clear_cmd, list_cmd, store_cmd, load_cmd}

-- `enum CMD`
abbrev pub cmd_exit : ℕ
cmd_exit = 2

abbrev pub cmd_list : ℕ
cmd_list = 3

abbrev pub cmd_store : ℕ
cmd_store = 4

abbrev pub cmd_load : ℕ
cmd_load = 5

-- `args.back()` and `args.pop_back()`: `none` is their undefined behaviour at an empty vector.
unfoldable pub take_back : List Text → Option (List Text × Text)
take_back [] = none
take_back (arg ∷ args) = elim (take_back args) [
  | none ↦ some ([], arg)
  | some (first, last) ↦ some (arg ∷ first, last)
]

-- A round of the daemon's loop ends with the daemon's exit, with a crash, without a reply, or with one.
pub data Round (S : Type 0) : Type 0 where
  exits : Client S → Round S
  crashes : Round S
  skips : Client S → Round S
  replies : Reply → Client S → Round S

-- `write_err(client_id, !success, get_cmd_err(), get_cmd_out())`
abbrev pub reply : {S : Type 0} → Bool × Client S → Round S
reply (success, d) =
    replies
      (record { err = if not success then 1 else 0; err_msg = d.cmd_err; succ_msg = d.cmd_out }) d

abbrev pub reply_or_crash : {S : Type 0} → Option Bool × Client S → Round S
reply_or_crash (none, d) = crashes
reply_or_crash (some success, d) = reply (success, d)

module _ (c : Cluster) (sha1 : Text → List ℕ) (rand : ℕ → ℕ) (local : Text → Option Text)
    (order : List Text → List Text) (opens : Text → Bool) where
  open c use {State}

  -- The body of the loop after a command was read. `exit_cmd` is the end of the sessions.
  unfoldable pub run_cmd : Request → Client State → Round State
  unfolding clear_cmd
  run_cmd r old =
      let d = clear_cmd old in
      if r.cmd == cmd_exit
      then exits d
      else if r.cmd == cmd_list
      then reply (list_cmd c sha1 rand local order opens d)
      else if r.cmd == cmd_store
      then reply (store_cmd c sha1 rand local order opens r.args d)
      else if r.cmd == cmd_load
      then (elim (take_back r.args) [
        | none ↦ crashes
        | some (files, output) ↦
            reply_or_crash (load_cmd c sha1 rand local order opens files output d)
      ])
      else skips d

-- How a round of the loop goes on from the pipes: it still reads, could not read a command, ends the
-- daemon, or leaves the pipes behind.
pub data Turn (S : Type 0) : Type 0 where
  reads dies : Turn S
  exited unread : Client S → Turn S
  turned : Client S → Pipe → Sink → Turn S

module _ (c : Cluster) (sha1 : Text → List ℕ) (rand : ℕ → ℕ) (local : Text → Option Text)
    (order : List Text → List Text) (opens : Text → Bool) where
  open c use {State, ended}

  -- What the loop does with what `run_cmd` comes to, unless an exception has ended the program. The error
  -- pipe may fail to open.
  unfoldable pub turn : Bool → Pipe → Sink → Round State → Turn State
  turn opens_err p s (exits d) = exited d
  turn opens_err p s crashes = dies
  turn opens_err p s (skips d) = turned d p s
  turn opens_err p s (replies r d) =
      if ended d.cluster then dies else turned d p (write_err opens_err r s).1

  -- One round of the loop of `run_founder_session_daemon`, over what the buffers of `read_cmd` hold.
  unfoldable pub daemon_round : Bool → ℕ → Request → ℕ → Pipe → Sink → Client State → Turn State
  unfolding read_cmd run_cmd turn clear_cmd
  daemon_round opens_err rounds old buff p s d = elim (read_cmd rounds old buff p) [
    | running ↦ reads
    | failed ↦ unread (clear_cmd d)
    | done (r, p') ↦ turn opens_err p' s (run_cmd c sha1 rand local order opens r d)
  ]

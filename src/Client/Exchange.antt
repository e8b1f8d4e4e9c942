-- ===== src/Client/Exchange.antt =====
-- A command that goes from the client to the daemon, and its reply.
use mathlib.Core.List.{append-nil}
use distft.Prelude.{
  ℕ, ◌+◌, ◌≤◌, ◌<◌, ◌≡◌, refl, Bool, true, false, not, List, [], Option, length, ◌==◌, All,
}
use distft.Key.{Text}
use distft.File.Names.{NulFree, terminated}
use distft.Client.Pipe.{
  Pipe, done, Request, read_cmd, Reply, read_err, Sink, write_cmd, write_err, pipe_capacity,
}
use distft.Client.Messages.{Plain, piped, message, write_cmd-message, read_cmd-write_cmd}
use distft.Client.Replies.{answer, write_err-answer, read_err-answer}
use distft.Client.Control.{Cluster, Client}
use distft.Client.Daemon.{replies, run_cmd, turn, turned, daemon_round}
use distft.Client.Handle.{printed, print_result, received, exchange}

-- An empty pipe.
abbrev pub empty : Sink
empty = record { written = []; outcomes = []; room = pipe_capacity }

-- A message is read as it was written, also with nothing behind it.
pub command_read :
    (r old : Request) (buff rounds : ℕ)
    → All Plain r.args
    → length r.args ≡ r.argc
    → r.argc < 256
    → length old.client_id ≡ length r.client_id
    → 0 < length r.client_id
    → length (terminated r.args) < rounds
    → read_cmd rounds old buff (piped (message r) false) ≡ done (r, piped [] false)
command_read r old buff rounds h l c o i n =
    let (wrote, read) = read_cmd-write_cmd r old buff rounds pipe_capacity [] false h l c o i n in
    rw (write_cmd-message r [] pipe_capacity, append-nil) at read

pub reply_read :
    (r : Reply) (err buff rounds : ℕ)
    → NulFree r.err_msg
    → NulFree r.succ_msg
    → length r.err_msg < rounds
    → length r.succ_msg < rounds
    → read_err rounds
        (record { err = err; err_msg = []; succ_msg = [] })
        buff
        (piped (answer r) false)
      ≡ done (r, piped [] false)
reply_read r err buff rounds h g n m =
    let read = read_err-answer r err buff rounds [] false h g n m in rw append-nil at read

-- The client's side, once the daemon has put its reply on the pipe.
pub exchange-answer :
    (respond : Text → Pipe) (q : Request) (r : Reply) (err buff rounds : ℕ)
    → respond (message q) ≡ piped (answer r) false
    → NulFree r.err_msg
    → NulFree r.succ_msg
    → length r.err_msg < rounds
    → length r.succ_msg < rounds
    → exchange true respond rounds err buff q empty
      ≡ printed (print_result (not (r.err == 0)) r.err_msg r.succ_msg)
unfolding exchange received
exchange-answer respond q r err buff rounds e h g n m =
    rw (write_cmd-message q [] pipe_capacity, exchange)
      (rw (e, reply_read r err buff rounds h g n m) refl)

module _ (c : Cluster) (sha1 : Text → List ℕ) (rand : ℕ → ℕ) (local : Text → Option Text)
    (order : List Text → List Text) (opens : Text → Bool) where
  open c use {State, ended}

  pub exchange-daemon_round :
      (q old : Request) (r : Reply) (d d' : Client State) (rounds buff rounds' err buff' : ℕ)
      → All Plain q.args
      → length q.args ≡ q.argc
      → q.argc < 256
      → length old.client_id ≡ length q.client_id
      → 0 < length q.client_id
      → length (terminated q.args) < rounds
      → run_cmd c sha1 rand local order opens q d ≡ replies r d'
      → ended d'.cluster ≡ false
      → NulFree r.err_msg
      → NulFree r.succ_msg
      → length r.err_msg < rounds'
      → length r.succ_msg < rounds'
      → length r.err_msg + length r.succ_msg + 3 ≤ pipe_capacity
      → let (sent, commands) = write_cmd true q empty in
        let (replied, errors) = write_err true r empty in
        (sent ≡ true)
        × (daemon_round c sha1 rand local order opens true rounds old buff
              (piped commands.written false)
              empty
              d
            ≡ turned d' (piped [] false) errors)
        × (exchange true (λ bytes. piped errors.written false) rounds' err buff' q empty
            ≡ printed (print_result (not (r.err == 0)) r.err_msg r.succ_msg))
  unfolding daemon_round turn
  exchange-daemon_round q old r d d' rounds buff rounds' err buff' h l k o i n e x f g s t b =
      let (left, w) = write_err-answer r [] pipe_capacity b in
      rw (write_cmd-message q [] pipe_capacity, w)
        (
          refl,
          rw (command_read q old buff rounds h l k o i n, daemon_round)
              (rw (e, daemon_round) (rw (x, daemon_round) (rw w refl))),
          exchange-answer (λ bytes. piped (answer r) false) q r err buff' rounds' refl f g s t,
        )

-- ===== src/Client/Handle.antt =====
-- src/client/founder.cpp: the handlers of the commands, which send a command to a daemon and print its
-- reply. What the daemon puts on its error pipe, after the bytes on the command pipe, is an argument.
use distft.Prelude.{ℕ, ◌%◌, Bool, not, List, [], ◌∷◌, ◌++◌, if◌then◌else◌, ◌==◌}
use distft.Key.{Text}
use distft.Client.Pipe.{
  Pipe, Read, running, failed, done, Request, Reply, read_err, Sink, write_cmd,
}
use distft.Client.Control.{ascii}
use distft.Client.Daemon.{cmd_exit, cmd_list, cmd_store, cmd_load}

-- What a handler comes to: `INTERNAL_ERROR` before or after the daemon took the command, unless the log
-- line of that branch crashes first, a wait that goes on, or `SUCCESS` with the lines that it prints.
pub data Handled : Type 0 where
  unsent waits unreceived : Handled
  printed : List Text → Handled

-- `if (!msg.empty())`
unfoldable pub print_line : Text → List Text
print_line [] = []
print_line (c ∷ cs) = (c ∷ cs) ∷ []

-- `print_result`: the lines.
unfoldable pub print_result : Bool → Text → Text → List Text
unfolding print_line
print_result err err_msg succ_msg =
    (if err then ascii "Error occurred in daemon while processing command. :(" ∷ [] else [])
    ++ print_line err_msg
    ++ print_line succ_msg

-- What `read_err` leaves to print.
unfoldable pub received : Read (Reply × Pipe) → Handled
unfolding print_result
received running = waits
received failed = unreceived
received (done (r, p)) = printed (print_result (not (r.err == 0)) r.err_msg r.succ_msg)

-- Whether the command pipe opens, the rounds for the loops of `read_err`, and what its buffers hold.
module _ (opens : Bool) (respond : Text → Pipe) (rounds err buff : ℕ) where
  -- The body that `handle_list`, `handle_store` and `handle_load` share.
  unfoldable pub exchange : Request → Sink → Handled
  unfolding write_cmd read_err received
  exchange r s =
      let (sent, s') = write_cmd opens r s in
      if sent
      then received (
          read_err rounds (record { err = err; err_msg = []; succ_msg = [] }) buff
            (respond s'.written))
      else unsent

  -- The handlers, with the bytes of the process id of the client. The counts are characters.
  unfoldable pub handle_list : Text → Sink → Handled
  unfolding exchange
  handle_list client_id =
      exchange (record { client_id = client_id; cmd = cmd_list; argc = 0; args = [] })

  unfoldable pub handle_store : Text → ℕ → List Text → Sink → Handled
  unfolding exchange
  handle_store client_id file_cnt files =
      exchange
        (record { client_id = client_id; cmd = cmd_store; argc = file_cnt % 256; args = files })

  unfoldable pub handle_load : Text → ℕ → List Text → Sink → Handled
  unfolding exchange
  handle_load client_id file_cnt files =
      exchange
        (record { client_id = client_id; cmd = cmd_load; argc = file_cnt % 256; args = files })

-- What `handle_start` prints in the parent process, with the decimal digits of the process id of the
-- daemon, after `read_err`.
unfoldable pub started : Text → Read (Reply × Pipe) → Handled
unfolding print_result
started session_id running = waits
started session_id failed = unreceived
started session_id (done (r, p)) =
    printed
      ((ascii "SESSION ID: " ++ session_id) ∷ print_result (not (r.err == 0)) r.err_msg r.succ_msg)

-- `handle_start` in the parent process, once the daemon is forked.
unfoldable pub handle_start : ℕ → ℕ → ℕ → Text → Pipe → Handled
unfolding read_err started
handle_start rounds err buff session_id errors =
    started session_id
      (read_err rounds (record { err = err; err_msg = []; succ_msg = [] }) buff errors)

-- `handle_exit`, up to the removal of the daemon's files: whether the command is sent.
unfoldable pub handle_exit : Bool → Text → Sink → Bool × Sink
unfolding write_cmd
handle_exit opens client_id s =
    write_cmd opens (record { client_id = client_id; cmd = cmd_exit; argc = 0; args = [] }) s

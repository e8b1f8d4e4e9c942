-- ===== src/Client/Printed.antt =====
-- What the client prints in the end: a command goes to the daemon, is carried out on the cluster, and its
-- result comes back.
use distft.Prelude.{
  ℕ, ◌+◌, ◌≤◌, ◌<◌, ◌≡◌, ◌≢◌, refl, ap, ◌∙◌, Bool, true, false, List, [], ◌∷◌, ◌++◌, Option, arith,
  length, ◌==◌, All, All-append, Bool-cases, inl, inr,
}
use distft.Key.{Text}
use distft.File.Names.{NulFree, terminated, non_empty}
use distft.Client.Pipe.{Request, Reply, Sink, write_cmd, write_err, pipe_capacity}
use distft.Client.Messages.{piped}
use distft.Client.Control.{alone, Client, ascii, file_name, append_lines, clear_cmd, list_cmd}
use distft.File.{Store}
use distft.Client.Stored.{Indexed, list_cmd-Indexed}
use distft.Client.Daemon.{cmd_list, replies, run_cmd, turned, daemon_round}
use distft.Client.Handle.{printed, print_line, print_result, handle_list}
use distft.Client.Exchange.{empty, exchange-daemon_round}

pub append_lines-NulFree :
    (out : Text) (files : List Text)
    → NulFree out
    → All NulFree files
    → NulFree (append_lines out files)
unfolding append_lines
append_lines-NulFree out [] h g = h
append_lines-NulFree out (file ∷ files) h g =
    append_lines-NulFree ((out ++ file) ++ b'\n' ∷ []) files
      (All-append (λ c. c ≢ 0) (out ++ file) (b'\n' ∷ []) (All-append (λ c. c ≢ 0) out file h g.0)
        (ground arith, tt))
      g.1

append_lines-line :
    (out : Text) (files : List Text)
    → out ≢ []
    → print_line (append_lines out files) ≡ append_lines out files ∷ []
unfolding append_lines print_line
append_lines-line [] files h = absurd (h refl)
append_lines-line (c ∷ cs) [] h = refl
append_lines-line (c ∷ cs) (file ∷ files) h =
    append_lines-line (((c ∷ cs) ++ file) ++ b'\n' ∷ []) files (λ e. ground arith)

non_empty-NulFree : (files : List Text) → All NulFree files → All NulFree (non_empty files)
unfolding non_empty
non_empty-NulFree [] h = tt
non_empty-NulFree ([] ∷ files) h = non_empty-NulFree files h.1
non_empty-NulFree ((c ∷ cs) ∷ files) h = (h.0, non_empty-NulFree files h.1)

pub file_name-NulFree :
    (path name : Text) → NulFree path → NulFree name → NulFree (file_name path name)
unfolding file_name
file_name-NulFree [] name h g = g
file_name-NulFree (c ∷ path) name h g = elim (Bool-cases (c == b'/')) [
  | inl e ↦ rw (e, file_name) (file_name-NulFree path [] h.1 tt)
  | inr e ↦
      rw (e, file_name)
        (file_name-NulFree path (name ++ c ∷ []) h.1
          (All-append (λ c. c ≢ 0) name (c ∷ []) g (h.0, tt)))
]

module _ (one : Store) (ended : one.State → Bool) (sha1 : Text → List ℕ) (rand : ℕ → ℕ)
    (local : Text → Option Text) (order : List Text → List Text) (opens : Text → Bool) where
  open one use {State}

  -- What the daemon replies to `founder list`.
  pub list_replies :
      (d : Client State) (names : List Text) (client_id : Text)
      → All NulFree names
      → Indexed one ended sha1 rand local order opens d names
      → run_cmd
          (alone one ended)
          sha1
          rand
          local
          order
          opens
          (record { client_id = client_id; cmd = cmd_list; argc = 0; args = [] })
          d
        ≡ replies
            (record {
              err = 0;
              err_msg = [];
              succ_msg = append_lines (ascii "INDEX\n") (non_empty names);
            })
            (list_cmd (alone one ended) sha1 rand local order opens (clear_cmd d)).1
  unfolding run_cmd clear_cmd
  list_replies d names client_id f h =
      let (done, out, quiet) =
        list_cmd-Indexed one ended sha1 rand local order opens (clear_cmd d) names f h in
      rw (done, out, quiet) refl

  -- `founder list` to a daemon with one session, whose index at hand lists names, none with a zero byte: the daemon takes the
  -- command and replies, and the client prints the names that are not empty under a heading, and
  -- nothing else. The rounds of the client's loops are more than the bytes of that text.
  pub handle_list-index :
      (d : Client State) (names : List Text) (client_id : Text) (old : Request)
      (rounds buff rounds' err buff' : ℕ)
      → All NulFree names
      → Indexed one ended sha1 rand local order opens d names
      → length old.client_id ≡ length client_id
      → 0 < length client_id
      → 0 < rounds
      → length (append_lines (ascii "INDEX\n") (non_empty names)) < rounds'
      → ended (list_cmd (alone one ended) sha1 rand local order opens (clear_cmd d)).1.cluster
        ≡ false
      → length (append_lines (ascii "INDEX\n") (non_empty names)) + 3 ≤ pipe_capacity
      → let (sent, commands) =
          write_cmd true
            (record { client_id = client_id; cmd = cmd_list; argc = 0; args = [] })
            empty in
        (d' : Client State) × (errors : Sink) × (daemon_round
            (alone one ended)
            sha1
            rand
            local
            order
            opens
            true
            rounds
            old
            buff
            (piped commands.written false)
            empty
            d
          ≡ turned d' (piped [] false) errors)
        × (handle_list true (λ bytes. piped errors.written false) rounds' err buff' client_id empty
            ≡ printed (append_lines (ascii "INDEX\n") (non_empty names) ∷ []))
  unfolding handle_list print_result print_line terminated ascii
  handle_list-index d names client_id old rounds buff rounds' err buff' f h l o n m x b =
      let text : Text = append_lines (ascii "INDEX\n") (non_empty names) in
      let r : Reply = record { err = 0; err_msg = []; succ_msg = text } in
      let d' = (list_cmd (alone one ended) sha1 rand local order opens (clear_cmd d)).1 in
      let (sent, taken, shown) =
        exchange-daemon_round (alone one ended) sha1 rand local order opens
          (record { client_id = client_id; cmd = cmd_list; argc = 0; args = [] }) old r d d' rounds
          buff rounds' err buff' tt refl (omega arith) l o n (list_replies d names client_id f h) x
          tt
          (append_lines-NulFree (ascii "INDEX\n") (non_empty names) (ground arith)
            (non_empty-NulFree names f))
          (omega arith) m (omega arith) in
      (
        d',
        (write_err true r empty).1,
        taken,
        shown
            ∙ ap printed
                (append_lines-line (ascii "INDEX\n") (non_empty names) (λ e. ground arith)),
      )

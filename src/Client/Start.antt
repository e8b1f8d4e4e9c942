-- ===== src/Client/Start.antt =====
-- What src/client/daemon.cpp and interactive.cpp do before their loops.
use distft.Prelude.{ℕ, Bool, not, List, [], ◌∷◌, Option, none, some, if◌then◌else◌, length, ltb}
use distft.Key.{Text}
use distft.Client.Pipe.{Reply, Sink, write_err}
use distft.Client.Control.{Cluster, Client, ascii}
use distft.Client.Boot.{bootstrap_cmd}
use distft.Client.Interactive.{tokens}

module _ (c : Cluster) (sha1 : Text → List ℕ) (rand : ℕ → ℕ) (local : Text → Option Text)
    (order : List Text → List Text) (opens : Text → Bool) where
  open c use {State, ended}

  -- The start of `run_founder_session_daemon`: the client, if the loop is reached, and the error pipe. The
  -- strain reliever always starts.
  unfoldable pub daemon_start :
      (List (Text × Text) → Option State)
      → Bool
      → List Text
      → Client State
      → Sink
      → Option (Client State) × Sink
  unfolding bootstrap_cmd write_err
  daemon_start start opens_err endpoints d s =
      elim (bootstrap_cmd c sha1 rand local order opens start endpoints d) [
        | none ↦ (none, s)
        | some (booted, d') ↦
            let r : Reply = record {
              err = if not booted then 1 else 0;
              err_msg = d'.cmd_err;
              succ_msg = d'.cmd_out;
            } in
            if ended d'.cluster
            then (none, s)
            else (if booted then some d' else none, (write_err opens_err r s).1)
      ]

  -- The start of `run_founder_session_interactive` on its first line: the lines that it prints, and the
  -- client, if the loop is reached.
  unfoldable pub interactive_start :
      (List (Text × Text) → Option State) → Text → Client State → List Text × Option (Client State)
  unfolding bootstrap_cmd tokens
  interactive_start start line d =
      let endpoints = tokens [] line in
      if ltb (length endpoints) 2
      then (ascii "Enter >= 2 endpoints" ∷ [], none)
      else (elim (bootstrap_cmd c sha1 rand local order opens start endpoints d) [
        | none ↦ ([], none)
        | some (booted, d') ↦ if booted then ([], some d') else (
          ascii "Error occurred in daemon while processing command. :(" ∷ d'.cmd_err ∷ [],
          none,
        )
      ])

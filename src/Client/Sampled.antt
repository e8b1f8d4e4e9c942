-- ===== src/Client/Sampled.antt =====
-- `founder list` at sessions of src/dht/session.cpp, one of which holds an index.
use distft.Prelude.{ℕ, true, false, [], ◌∷◌}
use distft.Key.{key_from_data}
use distft.Key.Examples.{toy_hash}
use distft.File.{index_name}
use distft.Session.{Session}
use distft.Session.Examples.{garbled, one_peer, chunk}
use distft.Client.Control.{Client, ascii, list_cmd, clear_cmd}
use distft.Client.Daemon.{cmd_list}
use distft.Client.Pipe.{Request, Reply}
use distft.Client.Sessions.{Sessions, up, sessions_cluster}
use distft.Client.Examples.{toy_rand, toy_local, toy_order, toy_opens, id}

-- The index lists the name "a".
abbrev holder : Session
holder = record {
  dying = false;
  router = one_peer 100 [];
  chunks =
      (key_from_data toy_hash index_name, record (chunk true 100) { content = b'a' ∷ 0 ∷ [] }) ∷ [];
  dead_peers = 0;
}

abbrev indexed : Client (Sessions ℕ)
indexed = record {
  cluster = up (λ i. holder) 100;
  sessions = 2;
  draws = 0;
  cmd_err = [];
  cmd_out = [];
  saved = [];
}

abbrev asks : Request
asks = record { client_id = id; cmd = cmd_list; argc = 0; args = [] }

abbrev stale : Request
stale = record { client_id = 9 ∷ 9 ∷ 9 ∷ 9 ∷ []; cmd = 0; argc = 7; args = [] }

abbrev listed : Client (Sessions ℕ)
listed =
    (list_cmd (sessions_cluster garbled (λ w i s. s)) toy_hash toy_rand toy_local toy_order
      toy_opens (clear_cmd indexed)).1

abbrev listing : Reply
listing = record { err = 0; err_msg = []; succ_msg = ascii "INDEX\na\n" }

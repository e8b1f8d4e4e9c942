-- ===== src/Client/Examples.antt =====
-- A cluster that keeps what is set, and the theorems on commands and the pipes at it.
use mathlib.Core.Path.{subst}
use mathlib.Core.Option.{some-injective}
use distft.Prelude.{
  ℕ, ◌<◌, ◌≡◌, ◌≢◌, refl, List, [], ◌∷◌, ite, Bool, true, false, Option, none, some, arith, length,
}
use distft.Key.{Key, Key-discrete, Text, key_from_data, digest_bits, byte_bits}
use distft.Key.Examples.{toy_hash}
use distft.File.{Store, index_name, read_loop}
use distft.File.Names.{NulFree, non_empty, terminated}
use distft.File.Content.{pieces, Apart}
use distft.Client.Pipe.{Request, pipe_capacity, write_cmd, read_cmd, running}
use distft.Client.Messages.{piped}
use distft.Client.Starved.{read_cmd-starved}
use distft.Client.Control.{Cluster, alone, Client, file_name}
use distft.Client.Stored.{Elsewhere, Clear}
use distft.Client.Daemon.{cmd_store}

abbrev pub toy_store : Store
toy_store = record {
  State = Key → Option Text;
  set = λ s k d force j. ite (Key-discrete k j) (some d) (s j);
  get = λ s k. (s k, s);
  at_hand = λ s k. s k;
  at_hand-set = λ s k d force j. refl;
  get-at_hand = λ s k d e. e;
  at_hand-get = λ s k j. refl;
}

abbrev pub lasting : (Key → Option Text) → Bool
lasting s = false

abbrev pub toy_cluster : Cluster
toy_cluster = alone toy_store lasting

abbrev pub toy_rand : ℕ → ℕ
toy_rand n = n

-- The content "hi!", which every local file has.
abbrev pub content : Text
content = b'h' ∷ b'i' ∷ b'!' ∷ []

abbrev pub toy_local : Text → Option Text
toy_local name = some content

abbrev pub toy_order : List Text → List Text
toy_order ds = ds

abbrev pub toy_opens : Text → Bool
toy_opens name = true

-- The path "/a", whose name is "a".
abbrev pub path : Text
path = b'/' ∷ b'a' ∷ []

-- A client with one session, which has an empty index.
abbrev pub fresh : Client (Key → Option Text)
fresh = record {
  cluster = λ k. ite (Key-discrete (key_from_data toy_hash index_name) k) (some []) none;
  sessions = 1;
  draws = 0;
  cmd_err = [];
  cmd_out = [];
  saved = [];
}

pieces-content : pieces content ≡ content ∷ []
unfolding pieces read_loop
pieces-content = refl

keys-differ :
    (key_from_data toy_hash (b'a' ∷ []) ≢ key_from_data toy_hash content)
    × (key_from_data toy_hash (b'a' ∷ []) ≢ key_from_data toy_hash index_name)
    × (key_from_data toy_hash content ≢ key_from_data toy_hash index_name)
unfolding key_from_data digest_bits byte_bits
keys-differ = ((λ e. cc), (λ e. cc), (λ e. cc))

content-Elsewhere :
    (d : Text) → content ≡ d → Elsewhere toy_hash (key_from_data toy_hash index_name) (pieces d)
content-Elsewhere d e =
    subst (λ t. Elsewhere toy_hash (key_from_data toy_hash index_name) (pieces t)) e
      (rw pieces-content (keys-differ.2, tt))

pub path-Clear : Clear toy_store lasting toy_hash toy_rand toy_local toy_order toy_opens path
unfolding file_name
path-Clear =
    (((λ e. cc), tt), keys-differ.1, λ d e. content-Elsewhere d (some-injective content d e))

name-path : file_name path [] ≡ b'a' ∷ []
unfolding file_name
name-path = refl

pub content-Apart : Apart toy_store toy_hash (file_name path []) (pieces content)
content-Apart = rw (pieces-content, name-path) (tt, keys-differ.0, tt)

-- A command with one argument, from a process whose id takes 4 bytes.
abbrev pub id : Text
id = 1 ∷ 2 ∷ 0 ∷ 0 ∷ []

abbrev pub request : Request
request = record { client_id = id; cmd = cmd_store; argc = 1; args = path ∷ [] }

abbrev pub stale : Request
stale = record { client_id = 9 ∷ 9 ∷ 9 ∷ 9 ∷ []; cmd = 0; argc = 7; args = [] }

pub path-NulFree : NulFree path
path-NulFree = ((λ e. cc), ((λ e. cc), tt))

pub path-length : length (terminated (path ∷ [])) < 9
unfolding terminated
path-length = omega arith

-- The same with an empty argument.
abbrev hungry : Request
hungry = record request { args = [] ∷ [] }

read_cmd-starved_example :
    let (wrote, s) =
      write_cmd true hungry (record { written = []; outcomes = []; room = pipe_capacity }) in
    (wrote ≡ true) × (read_cmd 1000 stale 8 (piped s.written false) ≡ running)
unfolding non_empty
read_cmd-starved_example =
    read_cmd-starved hungry stale 8 1000 pipe_capacity (tt, tt) (omega arith) refl (omega arith)

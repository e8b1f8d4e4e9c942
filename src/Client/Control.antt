-- ===== src/Client/Control.antt =====
-- src/client/cmd.cpp: `CommandControl`. The sessions of a cluster are an interface: the
-- chunks that each holds, which it sets and gets.
use Prim.Native.Char.{code}
use Prim.Native.String.{String}
use distft.Prelude.{
  ℕ, ◌+◌, ◌%◌, ◌≡◌, Bool, true, false, List, [], ◌∷◌, ◌++◌, Option, none, some, ite, ◌==◌,
}
use distft.Key.{Key, Key-discrete, Text, Text-discrete}
use distft.File.{
  Store, add_files_to_index_file, get_index_files, file_exists, write_from_file, read_in_files,
}

-- The sessions of a client by their number, with what each holds itself: what it was set, it gets. What a
-- call of one session does to the others is left open. `ended` tells that an exception or another
-- fault has ended the program.
pub record Cluster : Type 1 where
  pub State : Type 0
  pub ended : State → Bool
  pub set : ℕ → State → Key → Text → Bool → State
  pub get : ℕ → State → Key → Option Text × State
  pub at_hand : ℕ → State → Key → Option Text
  pub at_hand-set :
      (i : ℕ) (s : State) (k : Key) (d : Text) (force : Bool) (j : Key)
      → at_hand i (set i s k d force) j ≡ ite (Key-discrete k j) (some d) (at_hand i s j)
  pub get-at_hand :
      (i : ℕ) (s : State) (k : Key) (d : Text) → at_hand i s k ≡ some d → (get i s k).0 ≡ some d
  pub at_hand-get : (i : ℕ) (s : State) (k j : Key) → at_hand i (get i s k).1 j ≡ at_hand i s j

-- One session as `file.cpp` uses it.
abbrev pub session : Cluster → ℕ → Store
session c i = record {
  State = c.State;
  set = c.set i;
  get = c.get i;
  at_hand = c.at_hand i;
  at_hand-set = c.at_hand-set i;
  get-at_hand = c.get-at_hand i;
  at_hand-get = c.at_hand-get i;
}

-- The cluster of a client with one session, which every call goes to.
abbrev pub alone : (one : Store) → (one.State → Bool) → Cluster
alone one ended = record {
  State = one.State;
  ended = ended;
  set = λ i. one.set;
  get = λ i. one.get;
  at_hand = λ i. one.at_hand;
  at_hand-set = λ i. one.at_hand-set;
  get-at_hand = λ i. one.get-at_hand;
  at_hand-get = λ i. one.at_hand-get;
}

-- `client_state_data`: the cluster with the number of its sessions, how often `rand` was called, the
-- results of the last command, and the local files that were written.
pub record Client (S : Type 0) : Type 0 where
  pub cluster : S
  pub sessions : ℕ
  pub draws : ℕ
  pub cmd_err : Text
  pub cmd_out : Text
  pub saved : List (Text × Text)

-- A text of ASCII characters as its bytes.
unfoldable pub ascii : String → Text
ascii String.[] = []
ascii (String.◌∷◌ c s) = code c ∷ ascii s

-- `path.filename().string()`: what stands behind the last slash.
unfoldable pub file_name : Text → Text → Text
file_name [] name = name
file_name (c ∷ path) name = elim (c == b'/') [
  | true ↦ file_name path []
  | false ↦ file_name path (name ++ c ∷ [])
]

-- `std::find(added.begin(), added.end(), name) != added.end()`
unfoldable pub has_name : Text → List Text → Bool
has_name name [] = false
has_name name (file ∷ files) = ite (Text-discrete file name) true (has_name name files)

-- The loops that append each name and a newline.
unfoldable pub append_lines : Text → List Text → Text
append_lines out [] = out
append_lines out (file ∷ files) = append_lines ((out ++ file) ++ b'\n' ∷ []) files

unfoldable pub clear_cmd : {S : Type 0} → Client S → Client S
clear_cmd d = record d { cmd_err = []; cmd_out = [] }

-- The random numbers, the local files that can be read, the order of the threads that write a file, and
-- whether an output file can be opened.
module _ (c : Cluster) (sha1 : Text → List ℕ) (rand : ℕ → ℕ) (local : Text → Option Text)
    (order : List Text → List Text) (opens : Text → Bool) where
  open c use {State}

  -- `sessions[std::rand() % sessions.size()]`
  abbrev pub chosen : Client State → Store
  chosen d = session c (rand d.draws % d.sessions)

  -- What a call of the chosen session leaves.
  abbrev pub called : {A : Type 0} → Client State → A × State → A × Client State
  called d r = (r.0, record d { cluster = r.1; draws = d.draws + 1 })

  -- `list_cmd`
  unfoldable pub list_cmd : Client State → Bool × Client State
  unfolding append_lines
  list_cmd d =
      let (found, d') = called d (get_index_files (chosen d) sha1 d.cluster) in
      elim found [
        | none ↦ (false, record d' { cmd_err = ascii "Failed to access index file" })
        | some files ↦
            (true, record d' { cmd_out = append_lines (d'.cmd_out ++ ascii "INDEX\n") files })
      ]

  -- The test in the loop of `store_cmd`, which asks a session only for a name that is not yet added.
  unfoldable pub is_stored : Text → List Text → Client State → Bool × Client State
  is_stored name added d = elim (has_name name added) [
    | true ↦ (true, d)
    | false ↦ called d (file_exists (chosen d) sha1 d.cluster name)
  ]

  -- The loop of `store_cmd`: the names that it adds.
  unfoldable pub store_loop : List Text → List Text → Client State → List Text × Client State
  unfolding is_stored file_name
  store_loop [] added d = (added, d)
  store_loop (file ∷ files) added d =
      let name = file_name file [] in
      let (stored, d1) = is_stored name added d in
      elim stored [
        | true ↦ store_loop files added (record d1 {
          cmd_err =
              d1.cmd_err
              ++ ascii "File"
              ++ file
              ++ ascii " already exists in the current session. Skipping.";
        })
        | false ↦
            let (wrote, d2) =
              called d1 (write_from_file (chosen d1) sha1 d1.cluster (local file) name order) in
            elim wrote [
              | true ↦ store_loop files (added ++ name ∷ []) d2
              | false ↦ store_loop files added (record d2 {
                cmd_err =
                    d2.cmd_err
                    ++ ascii "File "
                    ++ file
                    ++ ascii " does not exist or read failed. Skipping.";
              })
            ]
      ]

  -- `store_cmd`
  unfoldable pub store_cmd : List Text → Client State → Bool × Client State
  unfolding store_loop append_lines
  store_cmd files d =
      let (added, d1) = store_loop files [] d in
      let (done, d2) = called d1 (add_files_to_index_file (chosen d1) sha1 d1.cluster added) in
      elim done [
        | false ↦
            (false, record d2 { cmd_err = d2.cmd_err ++ ascii "Failed to write to index file." })
        | true ↦ (
          true,
          record d2 {
            cmd_out = append_lines (ascii "Successfully stored the following files\n") added;
          },
        )
      ]

  -- `load_cmd`: `none` is the exception of a malformed key.
  unfoldable pub load_cmd : List Text → Text → Client State → Option Bool × Client State
  load_cmd files output d =
      let (found, d') = called d (read_in_files (chosen d) sha1 d.cluster files) in
      elim found [
        | none ↦ (none, d')
        | some none ↦ (some false, record d' { cmd_err = ascii "Failed to read from files" })
        | some (some buffer) ↦ elim (opens output) [
          | false ↦
              (some false, record d' { cmd_err = ascii "Failed to open output file " ++ output })
          | true ↦ (
            some true,
            record d' {
              saved = d'.saved ++ (output, buffer) ∷ [];
              cmd_out = ascii "Successfully loaded all files into output file " ++ output;
            },
          )
        ]
      ]

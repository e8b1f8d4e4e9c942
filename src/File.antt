-- ===== src/File.antt =====
-- src/client/file.h and file.cpp: files and the index of file names over the chunks of a session.
-- A session is the interface `Store`: `Session.set` and `Session.get`, each with the state that it
-- leaves. The threads that a call starts are the schedule of its sets; a failed `get` leaves the
-- data pointer NULL. The hash function of keys is a parameter.
pub mod Names
pub mod Index
pub mod Pieces
pub mod Content
pub mod Reading
pub mod Quiet
pub mod Examples
use distft.Prelude.{
  ℕ, zero, suc, ◌+◌, ◌-◌, ◌≡◌, Bool, true, false, List, [], ◌∷◌, ◌++◌, length, take, drop, ite,
  if◌then◌else◌, Option, none, some, ltb, ◌==◌,
}
use distft.Key.{
  Key, Key-discrete, Text, Text-discrete, keybits, key_from_data, to_string, key_of_string,
}

-- What `file.cpp` calls of a session, and what it relies on: some chunks are at hand, a chunk that is
-- set is at hand from then on, and to get one that is at hand returns it. No get loses one.
pub record Store : Type 1 where
  pub State : Type 0
  pub set : State → Key → Text → Bool → State
  pub get : State → Key → Option Text × State
  pub at_hand : State → Key → Option Text
  pub at_hand-set :
      (s : State) (k : Key) (d : Text) (force : Bool) (j : Key)
      → at_hand (set s k d force) j ≡ ite (Key-discrete k j) (some d) (at_hand s j)
  pub get-at_hand : (s : State) (k : Key) (d : Text) → at_hand s k ≡ some d → (get s k).0 ≡ some d
  pub at_hand-get : (s : State) (k j : Key) → at_hand (get s k).1 j ≡ at_hand s j

-- "index"
abbrev pub index_name : Text
index_name = b'i' ∷ b'n' ∷ b'd' ∷ b'e' ∷ b'x' ∷ []

-- The loop of `get_index_files` over the bytes of the index.
unfoldable pub push_name : Text → List Text → List Text
push_name [] files = files
push_name (c ∷ cs) files = files ++ (c ∷ cs) ∷ []

unfoldable pub names_loop : Text → Text → List Text → List Text
names_loop [] curr files = files
names_loop (c ∷ cs) curr files = elim (c == 0) [
  | true ↦ names_loop cs [] (push_name curr files)
  | false ↦ names_loop cs (curr ++ c ∷ []) files
]

-- The loop of `file_exists`.
unfoldable pub exists_loop : Text → Text → Text → Bool
exists_loop name [] curr = false
exists_loop name (c ∷ cs) curr = elim (c == 0) [
  | true ↦ ite (Text-discrete curr name) true (exists_loop name cs [])
  | false ↦ exists_loop name cs (curr ++ c ∷ [])
]

-- The loop of `add_files_to_index_file`, and that of the metadata over the texts of the keys.
unfoldable pub append_names : Text → List Text → Text
append_names bytes [] = bytes
append_names bytes (file ∷ files) = append_names ((bytes ++ file) ++ 0 ∷ []) files

-- The loop over the bytes of a metadata chunk: a key of another length is passed over, and `none` is
-- the exception of `Key(curr_key)` at a character that is no digit.
unfoldable pub push_key : Text → List Key → Option (List Key)
push_key curr keys =
    if length curr == keybits
    then (elim (key_of_string curr) [ none ↦ none | some k ↦ some (keys ++ k ∷ []) ])
    else some keys

unfoldable pub keys_loop : Text → Text → List Key → Option (List Key)
keys_loop [] curr keys = some keys
keys_loop (c ∷ cs) curr keys = elim (c == 0) [
  | true ↦ (elim (push_key curr keys) [ none ↦ none | some keys' ↦ keys_loop cs [] keys' ])
  | false ↦ keys_loop cs (curr ++ c ∷ []) keys
]

-- The read loop of `write_from_file`, by whether reads fail, as those of a directory do. It ends with the
-- read that meets the end of the file, and a read that fails takes no byte and meets no end. `none` means
-- that the fuel ran out.
unfoldable pub read_loop : Bool → ℕ → ℕ → Text → Option (List Text)
read_loop fails zero n content = none
read_loop true (suc f) n content = elim (read_loop true f n content) [
  | none ↦ none
  | some chunks ↦ some ([] ∷ chunks)
]
read_loop false (suc f) n content =
    let rest = read_loop false f n (drop n content) in
    if ltb (length content) n
    then some (content ∷ [])
    else (elim rest [ none ↦ none | some chunks ↦ some (take n content ∷ chunks) ])

abbrev pub max_chunk_size : ℕ
max_chunk_size = 1048576

-- The texts of the keys, for the metadata.
unfoldable pub key_texts : (Text → List ℕ) → List Text → List Text
key_texts sha1 [] = []
key_texts sha1 (piece ∷ pieces) = to_string (key_from_data sha1 piece) ∷ key_texts sha1 pieces

-- The concatenation of the chunks, unless one is missing.
unfoldable pub join : List (Option Text) → Option Text
join [] = some []
join (none ∷ chunks) = none
join (some d ∷ chunks) = elim (join chunks) [ none ↦ none | some e ↦ some (d ++ e) ]

module _ (store : Store) (sha1 : Text → List ℕ) where
  open store use {State, set, get}

  unfoldable pub index_key : Key
  index_key = key_from_data sha1 index_name

  unfoldable pub init_index_file : State → State
  init_index_file s = set s index_key [] true

  unfoldable pub add_files_to_index_file : State → List Text → Bool × State
  add_files_to_index_file s files =
      let (found, s') = get s index_key in
      elim found [
        | none ↦ (false, s')
        | some bytes ↦ (true, set s' index_key (append_names bytes files) true)
      ]

  -- `none` is the result `false`.
  unfoldable pub get_index_files : State → Option (List Text) × State
  get_index_files s =
      let (found, s') = get s index_key in
      elim found [ none ↦ (none, s') | some bytes ↦ (some (names_loop bytes [] []), s') ]

  unfoldable pub file_exists : State → Text → Bool × State
  file_exists s name =
      let (found, s') = get s index_key in
      elim found [ none ↦ (false, s') | some bytes ↦ (exists_loop name bytes [], s') ]

  -- The sets of the threads, in the order in which they take effect.
  unfoldable pub set_chunks : State → List Text → State
  set_chunks s [] = s
  set_chunks s (piece ∷ pieces) = set_chunks (set s (key_from_data sha1 piece) piece false) pieces

  -- `write_from_file`, for the bytes of the local file, or `none` if it cannot be opened, and the
  -- order of the threads. Its reads succeed: otherwise the loop would not end.
  unfoldable pub write_from_file :
      State → Option Text → Text → (List Text → List Text) → Bool × State
  write_from_file s none dht_filename order = (false, s)
  write_from_file s (some content) dht_filename order =
      elim (read_loop false (suc (length content)) max_chunk_size content) [
        | none ↦ (false, s)
        | some pieces ↦ (
          true,
          set (set_chunks s (order pieces)) (key_from_data sha1 dht_filename)
              (append_names [] (key_texts sha1 pieces)) true,
        )
      ]

  -- How `read_in_files` ends: by its result, or by the exception of a malformed key.
  unfoldable pub read_keys : State → List Text → List Key → Option (Option (List Key)) × State
  read_keys s [] keys = (some (some keys), s)
  read_keys s (file ∷ files) keys =
      let (found, s') = get s (key_from_data sha1 file) in
      elim found [
        | none ↦ (some none, s')
        | some bytes ↦ (elim (keys_loop bytes [] keys) [
          | none ↦ (none, s')
          | some keys' ↦ read_keys s' files keys'
        ])
      ]

  unfoldable pub get_chunks : State → List Key → List (Option Text) × State
  get_chunks s [] = ([], s)
  get_chunks s (k ∷ keys) =
      let (d, s') = get s k in let (ds, s'') = get_chunks s' keys in (d ∷ ds, s'')

  unfoldable pub read_in_files : State → List Text → Option (Option Text) × State
  read_in_files s files =
      let (outcome, s') = read_keys s files [] in
      elim outcome [
        | none ↦ (none, s')
        | some none ↦ (some none, s')
        | some (some keys) ↦ let (ds, s'') = get_chunks s' keys in (some (join ds), s'')
      ]

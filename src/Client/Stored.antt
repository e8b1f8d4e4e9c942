-- ===== src/Client/Stored.antt =====
-- What `store_cmd` does to the index of a cluster, and what `list_cmd` and `load_cmd` then show.
use distft.Prelude.{
  ℕ, ◌≡◌, ◌≢◌, refl, sym, ◌∙◌, Bool, true, false, List, [], ◌∷◌, ◌++◌, Option, none, some, arith,
  All, All-append, inl, inr, Bool-cases,
}
use distft.Key.{Key, Text, key_from_data}
use distft.File.{
  Store, index_name, index_key, set_chunks, key_texts, append_names, write_from_file, file_exists,
}
use distft.File.Names.{NulFree, terminated, non_empty, member}
use distft.File.Index.{add_files-Lists, index_reads}
use distft.File.Content.{pieces, pieces-read_loop}
use distft.Client.Control.{
  alone, Client, ascii, file_name, has_name, append_lines, clear_cmd, chosen, list_cmd, is_stored,
  store_loop, store_cmd,
}

-- A key that no piece of a file has.
abbrev pub Elsewhere : (Text → List ℕ) → Key → List Text → Type 0
Elsewhere sha1 k = All (λ d. key_from_data sha1 d ≢ k)

-- No name stands twice.
abbrev pub Unrepeated : List Text → Type 0
Unrepeated [] = Unit {0}
Unrepeated (n ∷ ns) = All (λ m. m ≢ n) ns × Unrepeated ns

-- Names that are new beside old ones, and may be listed.
abbrev pub New : List Text → List Text → Type 0
New old names = All (λ n. member n old ≡ false) names × All NulFree names × Unrepeated names

has_name-false :
    (name : Text) (names : List Text) → has_name name names ≡ false → All (λ m. m ≢ name) names
unfolding has_name
has_name-false name [] h = tt
has_name-false name (n ∷ ns) h = ground (arith, has_name-false name ns)

Unrepeated-snoc :
    (name : Text) (names : List Text)
    → All (λ m. m ≢ name) names
    → Unrepeated names
    → Unrepeated (names ++ name ∷ [])
Unrepeated-snoc name [] h u = (tt, tt)
Unrepeated-snoc name (n ∷ ns) h u = (
  All-append (λ m. m ≢ n) ns (name ∷ []) u.0 ((λ e. h.0 (sym e)), tt),
  Unrepeated-snoc name ns h.1 u.1,
)

New-snoc :
    (old names : List Text) (name : Text)
    → New old names
    → NulFree name
    → member name old ≡ false
    → has_name name names ≡ false
    → New old (names ++ name ∷ [])
New-snoc old names name v n m h = (
  All-append (λ k. member k old ≡ false) names (name ∷ []) v.0 (m, tt),
  All-append NulFree names (name ∷ []) v.1 (n, tt),
  Unrepeated-snoc name names (has_name-false name names h) v.2,
)

module _ (store : Store) (sha1 : Text → List ℕ) where
  open store use {State, set, get, at_hand, at_hand-set, at_hand-get}

  set_chunks-at_hand :
      (s : State) (ds : List Text) (k : Key)
      → Elsewhere sha1 k ds
      → at_hand (set_chunks store sha1 s ds) k ≡ at_hand s k
  unfolding set_chunks
  set_chunks-at_hand s [] k h = refl
  set_chunks-at_hand s (d ∷ ds) k h = ground (
    arith,
    set_chunks-at_hand (set s (key_from_data sha1 d) d false) ds k h.1,
    at_hand-set s (key_from_data sha1 d) d false k,
  )

  -- `write_from_file` leaves alone what is under other keys than those of the name and the pieces.
  pub write_from_file-at_hand :
      (s : State) (content : Option Text) (name : Text) (order : List Text → List Text) (k : Key)
      → key_from_data sha1 name ≢ k
      → ((d : Text) → content ≡ some d → Elsewhere sha1 k (order (pieces d)))
      → at_hand (write_from_file store sha1 s content name order).1 k ≡ at_hand s k
  unfolding write_from_file
  write_from_file-at_hand s none name order k n h = refl
  write_from_file-at_hand s (some content) name order k n h =
      let (e, c) = pieces-read_loop content in
      rw (e, write_from_file)
        (ground (
          arith,
          at_hand-set (set_chunks store sha1 s (order (pieces content))) (key_from_data sha1 name)
              (append_names [] (key_texts sha1 (pieces content))) true k,
          set_chunks-at_hand s (order (pieces content)) k (h content refl),
        ))

  pub file_exists-at_hand :
      (s : State) (name : Text) (k : Key)
      → at_hand (file_exists store sha1 s name).1 k ≡ at_hand s k
  unfolding file_exists
  file_exists-at_hand s name k = ground (arith, at_hand-get s (index_key store sha1) k)

module _ (one : Store) (ended : one.State → Bool) (sha1 : Text → List ℕ) (rand : ℕ → ℕ)
    (local : Text → Option Text) (order : List Text → List Text) (opens : Text → Bool) where
  open one use {State, at_hand}

  abbrev index : Key
  index = key_from_data sha1 index_name

  -- The index at hand in the cluster lists these names.
  abbrev pub Indexed : Client State → List Text → Type 0
  Indexed d old = at_hand d.cluster index ≡ some (terminated old)

  -- A file whose name can be listed, and that the hash tells from the index.
  abbrev pub Clear : Text → Type 0
  Clear file =
      NulFree (file_name file [])
      × (key_from_data sha1 (file_name file []) ≢ index)
      × ((d : Text) → local file ≡ some d → Elsewhere sha1 index (order (pieces d)))

  pub is_stored-Indexed :
      (name : Text) (added : List Text) (d : Client State) (old : List Text)
      → Indexed d old
      → Indexed (is_stored (alone one ended) sha1 rand local order opens name added d).1 old
  unfolding is_stored index_key
  is_stored-Indexed name added d old h = elim (Bool-cases (has_name name added)) [
    | inl e ↦ rw (e, is_stored) h
    | inr e ↦
        rw (e, is_stored)
          (file_exists-at_hand (chosen (alone one ended) sha1 rand local order opens d) sha1
              d.cluster name index
            ∙ h)
  ]

  is_stored-false :
      (name : Text) (added : List Text) (d : Client State) (old : List Text)
      → All NulFree old
      → Indexed d old
      → (is_stored (alone one ended) sha1 rand local order opens name added d).0 ≡ false
      → (has_name name added ≡ false) × (member name old ≡ false)
  unfolding is_stored index_key
  is_stored-false name added d old f h e = elim (Bool-cases (has_name name added)) [
    | inl i ↦ (let f' : true ≡ false = rw (i, is_stored) at e in cc)
    | inr i ↦ (
      i,
      sym
            (index_reads (chosen (alone one ended) sha1 rand local order opens d) sha1 d.cluster old
              name f h).1
          ∙ (rw (i, is_stored) at e),
    )
  ]

  store_loop-New :
      (files added : List Text) (d : Client State) (old : List Text)
      → All NulFree old
      → All Clear files
      → New old added
      → Indexed d old
      → let (names, d') = store_loop (alone one ended) sha1 rand local order opens files added d in
        New old names × Indexed d' old
  unfolding store_loop
  store_loop-New [] added d old f g v h = (v, h)
  store_loop-New (file ∷ files) added d old f g v h =
      let name = file_name file [] in
      let step = is_stored (alone one ended) sha1 rand local order opens name added d in
      let kept = is_stored-Indexed name added d old h in
      elim (Bool-cases step.0) [
        | inl e ↦ rw (e, store_loop) (store_loop-New files added _ old f g.1 v kept)
        | inr e ↦
            let store = chosen (alone one ended) sha1 rand local order opens step.1 in
            let (fresh, absent) = is_stored-false name added d old f h e in
            let wrote = write_from_file store sha1 step.1.cluster (local file) name order in
            let kept' : at_hand wrote.1 index ≡ some (terminated old) =
              write_from_file-at_hand store sha1 step.1.cluster (local file) name order index g.0.1
                g.0.2
              ∙ kept in
            elim (Bool-cases wrote.0) [
              | inl i ↦
                  rw (e, store_loop)
                    (rw (i, store_loop)
                      (store_loop-New files (added ++ name ∷ []) _ old f g.1
                        (New-snoc old added name v g.0.0 absent fresh) kept'))
              | inr i ↦
                  rw (e, store_loop)
                    (rw (i, store_loop) (store_loop-New files added _ old f g.1 v kept'))
            ]
      ]

  -- After `store_cmd` the index lists the old names and then the new ones.
  pub store_cmd-Indexed :
      (files : List Text) (d : Client State) (old : List Text)
      → All NulFree old
      → All Clear files
      → Indexed d old
      → let (names, d1) = store_loop (alone one ended) sha1 rand local order opens files [] d in
        let (success, d') = store_cmd (alone one ended) sha1 rand local order opens files d in
        (success ≡ true)
        × (d'.cmd_out ≡ append_lines (ascii "Successfully stored the following files\n") names)
        × Indexed d' (old ++ names)
        × New old names
  unfolding store_cmd index_key
  store_cmd-Indexed files d old f g h =
      let looped = store_loop (alone one ended) sha1 rand local order opens files [] d in
      let (new, kept) = store_loop-New files [] d old f g (tt, tt, tt) h in
      let store = chosen (alone one ended) sha1 rand local order opens looped.1 in
      let (done, lists) = add_files-Lists store sha1 looped.1.cluster old looped.0 kept in
      (rw (done, store_cmd) refl, rw (done, store_cmd) refl, rw (done, store_cmd) lists, new)

  -- Where the index at hand lists names, `list_cmd` succeeds, prints them, but for empty ones, and reports
  -- no error.
  pub list_cmd-Indexed :
      (d : Client State) (files : List Text)
      → All NulFree files
      → Indexed d files
      → let (success, d') = list_cmd (alone one ended) sha1 rand local order opens d in
        (success ≡ true)
        × (d'.cmd_out ≡ append_lines (d.cmd_out ++ ascii "INDEX\n") (non_empty files))
        × (d'.cmd_err ≡ d.cmd_err)
  unfolding list_cmd index_key
  list_cmd-Indexed d files f h =
      let (reads, exists) =
        index_reads (chosen (alone one ended) sha1 rand local order opens d) sha1 d.cluster files []
          f h in
      rw (reads, list_cmd) (refl, refl, refl)

  -- A client with one session, which holds an index, and files whose names contain no zero byte, with a hash
  -- that tells the names and the pieces from the index: if no exception ends the program, `store_cmd`
  -- succeeds, and `list_cmd` then prints the old names and after them the names that `store_cmd` prints, the
  -- empty ones left out. None of the new names is an old one, and none stands twice.
  pub store_cmd-list_cmd :
      (files : List Text) (d : Client State) (old : List Text)
      → All NulFree old
      → All Clear files
      → Indexed d old
      → (let (stored, d') = store_cmd (alone one ended) sha1 rand local order opens files d in
          let (listed, d'') =
            list_cmd (alone one ended) sha1 rand local order opens (clear_cmd d') in
          ended d''.cluster ≡ false)
      → let (stored, d') = store_cmd (alone one ended) sha1 rand local order opens files d in
        let (listed, d'') = list_cmd (alone one ended) sha1 rand local order opens (clear_cmd d') in
        (names : List Text) × (stored ≡ true)
        × (d'.cmd_out ≡ append_lines (ascii "Successfully stored the following files\n") names)
        × (listed ≡ true)
        × (d''.cmd_out ≡ append_lines (ascii "INDEX\n") (non_empty (old ++ names)))
        × New old names
  unfolding clear_cmd
  store_cmd-list_cmd files d old f g h x =
      let names = (store_loop (alone one ended) sha1 rand local order opens files [] d).0 in
      let (done, out, lists, new) = store_cmd-Indexed files d old f g h in
      let d' = (store_cmd (alone one ended) sha1 rand local order opens files d).1 in
      let (listed, shown, quiet) =
        list_cmd-Indexed (clear_cmd d') (old ++ names) (All-append NulFree old names f new.1)
          lists in
      (names, done, out, listed, shown, new)

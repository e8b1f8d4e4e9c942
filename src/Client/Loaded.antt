-- ===== src/Client/Loaded.antt =====
-- A file goes into a cluster by `store_cmd` and comes out by `load_cmd`.
use mathlib.Core.List.{append-nil, Permᴰ}
use distft.Prelude.{
  ℕ, ◌+◌, ◌≡◌, ◌≢◌, refl, sym, ap, ◌∙◌, Bool, true, false, List, [], ◌∷◌, ◌++◌, Option, some, arith,
  inl, inr, Option-cases, length, All,
}
use distft.Key.{Key, Text, key_from_data}
use distft.File.{
  Store, append_names, index_name, index_key, write_from_file, add_files_to_index_file, file_exists,
  read_in_files,
}
use distft.File.Names.{NulFree, terminated, member}
use distft.File.Index.{add_files-Lists, index_reads}
use distft.File.Pieces.{concat}
use distft.File.Content.{All-perm, pieces, pieces-read_loop, Apart, Piece, write_from_file-StoredAs}
use distft.File.Reading.{read_in_files-stored}
use distft.Client.Control.{
  alone, Client, ascii, append_lines, file_name, has_name, chosen, is_stored, store_loop, store_cmd,
  load_cmd,
}
use distft.Client.Stored.{Elsewhere, Indexed, Clear, write_from_file-at_hand, is_stored-Indexed}

module _ (store : Store) (sha1 : Text → List ℕ) where
  open store use {State, set, get, at_hand, at_hand-set, at_hand-get}

  add_files-at_hand :
      (s : State) (files : List Text) (k : Key)
      → index_key store sha1 ≢ k
      → at_hand (add_files_to_index_file store sha1 s files).1 k ≡ at_hand s k
  unfolding add_files_to_index_file
  add_files-at_hand s files k n =
      let i = index_key store sha1 in
      elim (Option-cases (get s i).0) [
        | inl e ↦ rw (e, add_files_to_index_file) (at_hand-get s i k)
        | inr (bytes, e) ↦
            rw (e, add_files_to_index_file)
              (ground (
                arith,
                at_hand-get s i k,
                at_hand-set (get s i).1 i (append_names bytes files) true k,
              ))
      ]

  pieces-moved :
      (s s' : State) (ds : List Text) (i : Key)
      → ((k : Key) → i ≢ k → at_hand s' k ≡ at_hand s k)
      → Elsewhere sha1 i ds
      → All (Piece store sha1 s) ds
      → All (Piece store sha1 s') ds
  pieces-moved s s' [] i h n p = tt
  pieces-moved s s' (d ∷ ds) i h n p =
      (h (key_from_data sha1 d) (λ e. n.0 (sym e)) ∙ p.0, pieces-moved s s' ds i h n.1 p.1)

Apart-store :
    (st st' : Store) (sha1 : Text → List ℕ) (name : Text) (ds : List Text)
    → Apart st sha1 name ds
    → Apart st' sha1 name ds
Apart-store st st' sha1 name [] a = tt
Apart-store st st' sha1 name (d ∷ ds) a = (a.0, a.1, Apart-store st st' sha1 name ds a.2)

module _ (one : Store) (ended : one.State → Bool) (sha1 : Text → List ℕ) (rand : ℕ → ℕ)
    (local : Text → Option Text) (order : List Text → List Text) (opens : Text → Bool) where
  open one use {State, at_hand}

  looped :
      (file : Text) (d : Client State) (old : List Text)
      → All NulFree old
      → Indexed one ended sha1 rand local order opens d old
      → member (file_name file []) old ≡ false
      → let name = file_name file [] in
        let step = is_stored (alone one ended) sha1 rand local order opens name [] d in
        let store = chosen (alone one ended) sha1 rand local order opens step.1 in
        let (wrote, s) = write_from_file store sha1 step.1.cluster (local file) name order in
        wrote ≡ true
        → store_loop (alone one ended) sha1 rand local order opens (file ∷ []) [] d
          ≡ (name ∷ [], record step.1 { cluster = s; draws = step.1.draws + 1 })
  unfolding store_loop is_stored has_name index_key
  looped file d old f h m w =
      let absent : (file_exists (chosen (alone one ended) sha1 rand local order opens d) sha1
            d.cluster (file_name file [])).0
          ≡ false =
        (index_reads (chosen (alone one ended) sha1 rand local order opens d) sha1 d.cluster old
          (file_name file []) f h).1
        ∙ m in
      rw (absent, store_loop) (rw (w, store_loop) refl)

  looped_content :
      (file content : Text) (d : Client State) (old : List Text)
      → local file ≡ some content
      → All NulFree old
      → Indexed one ended sha1 rand local order opens d old
      → member (file_name file []) old ≡ false
      → let name = file_name file [] in
        let step = is_stored (alone one ended) sha1 rand local order opens name [] d in
        let store = chosen (alone one ended) sha1 rand local order opens step.1 in
        let (wrote, s) = write_from_file store sha1 step.1.cluster (some content) name order in
        wrote ≡ true
        → store_loop (alone one ended) sha1 rand local order opens (file ∷ []) [] d
          ≡ (name ∷ [], record step.1 { cluster = s; draws = step.1.draws + 1 })
  looped_content file content d old l f h m = rw l at (looped file d old f h m)

  -- What `store_cmd` makes of the result of its loop, if the names can be added to the index.
  abbrev finished : List Text × Client State → Bool × Client State
  finished (names, d1) = (
    true,
    record d1 {
      cluster =
          (add_files_to_index_file (chosen (alone one ended) sha1 rand local order opens d1) sha1
            d1.cluster names).1;
      draws = d1.draws + 1;
      cmd_out = append_lines (ascii "Successfully stored the following files\n") names;
    },
  )

  abbrev adds : List Text × Client State → Bool
  adds (names, d1) =
      (add_files_to_index_file (chosen (alone one ended) sha1 rand local order opens d1) sha1
        d1.cluster names).0

  finished_cmd :
      (files : List Text) (d : Client State)
      → adds (store_loop (alone one ended) sha1 rand local order opens files [] d) ≡ true
      → store_cmd (alone one ended) sha1 rand local order opens files d
        ≡ finished (store_loop (alone one ended) sha1 rand local order opens files [] d)
  unfolding store_cmd
  finished_cmd files d done = rw (done, store_cmd) refl

  stored_cmd :
      (files : List Text) (d : Client State) (r : List Text × Client State)
      → store_loop (alone one ended) sha1 rand local order opens files [] d ≡ r
      → adds r ≡ true
      → store_cmd (alone one ended) sha1 rand local order opens files d ≡ finished r
  stored_cmd files d r e done = finished_cmd files d (ap adds e ∙ done) ∙ ap finished e

  loaded_cmd :
      (files : List Text) (output buffer : Text) (d : Client State)
      → let (found, s) =
          read_in_files
            (chosen (alone one ended) sha1 rand local order opens d)
            sha1
            d.cluster
            files in
        found ≡ some (some buffer)
        → opens output ≡ true
        → load_cmd (alone one ended) sha1 rand local order opens files output d ≡ (
          some true,
          record d {
            cluster = s;
            draws = d.draws + 1;
            saved = d.saved ++ (output, buffer) ∷ [];
            cmd_out = ascii "Successfully loaded all files into output file " ++ output;
          },
        )
  unfolding load_cmd
  loaded_cmd files output buffer d e o = rw (e, load_cmd) (rw (o, load_cmd) refl)

  -- A client with one session, which holds an index, and a file whose name is not yet in it, and whose name
  -- and pieces the hash tells apart from each other and from the index: if no exception ends the
  -- program, `store_cmd` of the file succeeds, and then `load_cmd` of its name, into an output file that
  -- can be opened, succeeds and saves the content of the file. The digests have 20 bytes, and the
  -- threads may set the pieces in any order.
  pub store_cmd-load_cmd :
      (file content output : Text) (d : Client State) (old : List Text)
      → ((t : Text) → length (sha1 t) ≡ 20)
      → local file ≡ some content
      → opens output ≡ true
      → All NulFree old
      → Indexed one ended sha1 rand local order opens d old
      → Clear one ended sha1 rand local order opens file
      → member (file_name file []) old ≡ false
      → Permᴰ (order (pieces content)) (pieces content)
      → Apart one sha1 (file_name file []) (order (pieces content))
      → (let (stored, d') = store_cmd (alone one ended) sha1 rand local order opens (file ∷ []) d in
          let (loaded, d'') =
            load_cmd
              (alone one ended)
              sha1
              rand
              local
              order
              opens
              (file_name file [] ∷ [])
              output
              d' in
          ended d''.cluster ≡ false)
      → let (stored, d') = store_cmd (alone one ended) sha1 rand local order opens (file ∷ []) d in
        let (loaded, d'') =
          load_cmd
            (alone one ended)
            sha1
            rand
            local
            order
            opens
            (file_name file [] ∷ [])
            output
            d' in
        (stored ≡ true) × (loaded ≡ some true) × (d''.saved ≡ d.saved ++ (output, content) ∷ [])
  unfolding index_key concat is_stored has_name
  store_cmd-load_cmd file content output d old digest l o f h clear m p a x =
      let name : Text = file_name file [] in
      let d0 : Client State =
        (is_stored (alone one ended) sha1 rand local order opens name [] d).1 in
      let store = chosen (alone one ended) sha1 rand local order opens d0 in
      let (wrote, (at, all)) =
        write_from_file-StoredAs store sha1 d0.cluster content name order p
          (Apart-store one store sha1 name (order (pieces content)) a) in
      let s1 : State = (write_from_file store sha1 d0.cluster (some content) name order).1 in
      let d1 : Client State = record d0 { cluster = s1; draws = d0.draws + 1 } in
      let kept : at_hand s1 (key_from_data sha1 index_name) ≡ some (terminated old) =
        write_from_file-at_hand store sha1 d0.cluster (some content) name order
          (key_from_data sha1 index_name) clear.1 (λ t e. clear.2 t (l ∙ e))
        ∙ is_stored-Indexed one ended sha1 rand local order opens name [] d old h in
      let store' = chosen (alone one ended) sha1 rand local order opens d1 in
      let (done, lists) = add_files-Lists store' sha1 s1 old (name ∷ []) kept in
      let s2 : State = (add_files_to_index_file store' sha1 s1 (name ∷ [])).1 in
      let moved : (k : Key) → key_from_data sha1 index_name ≢ k → at_hand s2 k ≡ at_hand s1 k =
        add_files-at_hand store' sha1 s1 (name ∷ []) in
      let d2 : Client State = (finished (name ∷ [], d1)).1 in
      let read =
        read_in_files-stored sha1 digest (chosen (alone one ended) sha1 rand local order opens d2)
          s2 (name ∷ []) (content ∷ [])
          (
            (
              pieces content,
              moved (key_from_data sha1 name) (λ e. clear.1 (sym e)) ∙ at,
              pieces-moved store sha1 s1 s2 (pieces content) (key_from_data sha1 index_name) moved
                  (All-perm (λ t. key_from_data sha1 t ≢ key_from_data sha1 index_name) p
                    (clear.2 content l))
                  all,
              (pieces-read_loop content).1,
            ),
            tt,
          ) in
      let e1 =
        stored_cmd (file ∷ []) d (name ∷ [], d1) (looped_content file content d old l f h m wrote)
          done in
      let e2 =
        loaded_cmd (name ∷ []) output content d2
          (read ∙ ap (λ (t : Text). some (some t)) (append-nil content)) o in
      rw (e1, e2) (refl, refl, refl)

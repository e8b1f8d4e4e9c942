-- ===== src/File/Index.antt =====
-- The index file: what `add_files_to_index_file` writes, `get_index_files` and `file_exists` read.
use distft.Prelude.{
  ℕ, ◌≡◌, refl, sym, ◌∙◌, ap, Bool, true, List, [], ◌++◌, some, arith, All, All-append,
}
use distft.Key.{Key, Text}
use distft.File.{
  Store, index_key, init_index_file, add_files_to_index_file, get_index_files, file_exists,
}
use distft.File.Names.{
  NulFree, terminated, non_empty, member, append_names-terminated, terminated-append,
  names_loop-terminated, exists_loop-terminated,
}

module _ (store : Store) (sha1 : Text → List ℕ) where
  open store use {State, set, get, at_hand, at_hand-set, get-at_hand, at_hand-get}

  -- The index at hand lists these names.
  abbrev pub Lists : State → List Text → Type 0
  Lists s files = at_hand s (index_key store sha1) ≡ some (terminated files)

  at_hand-set_self :
      (s : State) (k : Key) (d : Text) (force : Bool) → at_hand (set s k d force) k ≡ some d
  at_hand-set_self s k d force = ground (arith, at_hand-set s k d force k)

  -- A new index lists no names.
  pub init_index_file-Lists : (s : State) → Lists (init_index_file store sha1 s) []
  unfolding init_index_file terminated
  init_index_file-Lists s = at_hand-set_self s _ [] true

  -- Names are added behind those of the index.
  pub add_files-Lists :
      (s : State) (old files : List Text)
      → Lists s old
      → ((add_files_to_index_file store sha1 s files).0 ≡ true)
        × Lists (add_files_to_index_file store sha1 s files).1 (old ++ files)
  unfolding add_files_to_index_file
  add_files-Lists s old files h =
      rw (get-at_hand s (index_key store sha1) (terminated old) h, add_files_to_index_file)
        (
          refl,
          at_hand-set_self _ _ _ true
              ∙ ap some (
                  append_names-terminated (terminated old) files
                  ∙ sym (terminated-append old files)),
        )

  -- `get_index_files` returns the names of the index in their order, but for empty ones, and
  -- `file_exists` is true exactly for the names of the index.
  pub index_reads :
      (s : State) (files : List Text) (name : Text)
      → All NulFree files
      → Lists s files
      → ((get_index_files store sha1 s).0 ≡ some (non_empty files))
        × ((file_exists store sha1 s name).0 ≡ member name files)
  unfolding get_index_files file_exists
  index_reads s files name f h = (
    rw (get-at_hand s (index_key store sha1) (terminated files) h, get_index_files)
        (ap some (names_loop-terminated files [] f)),
    rw (get-at_hand s (index_key store sha1) (terminated files) h, file_exists)
        (exists_loop-terminated name files f),
  )

  -- If an index at hand lists names, then after names are added to it, which succeeds, it reads as
  -- the old names and then the new ones, the empty ones left out, and `file_exists` is the
  -- membership in these names. No name contains a zero byte.
  pub index_round_trip :
      (s : State) (old files : List Text) (name : Text)
      → All NulFree old
      → All NulFree files
      → Lists s old
      → let (done, s') = add_files_to_index_file store sha1 s files in
        (done ≡ true)
        × ((get_index_files store sha1 s').0 ≡ some (non_empty (old ++ files)))
        × ((file_exists store sha1 s' name).0 ≡ member name (old ++ files))
  index_round_trip s old files name f g h =
      let (done, lists) = add_files-Lists s old files h in
      let (reads, exists) =
        index_reads (add_files_to_index_file store sha1 s files).1 (old ++ files) name
          (All-append NulFree old files f g) lists in
      (done, reads, exists)

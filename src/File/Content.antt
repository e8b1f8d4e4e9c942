-- ===== src/File/Content.antt =====
-- The content of a file: what `write_from_file` stores and `read_in_files` puts together.
use mathlib.Core.List.{Permᴰ}
use mathlib.Core.Path.{subst}
use distft.Prelude.{
  ℕ, suc, ◌≡◌, ◌≢◌, refl, sym, ◌∙◌, ap, true, false, List, [], ◌∷◌, none, some, arith, All, length,
}
use distft.Key.{Text, key_from_data}
use distft.File.{
  Store, set_chunks, write_from_file, read_loop, max_chunk_size, key_texts, append_names,
}
use distft.File.Names.{terminated, append_names-terminated}
use distft.File.Pieces.{concat, read_loop-total}

-- The pieces of the read loop of `write_from_file`.
unfoldable pub pieces : Text → List Text
pieces content = elim (read_loop false (suc (length content)) max_chunk_size content) [
  | none ↦ []
  | some ds ↦ ds
]

pieces-eq :
    (content : Text) (ds : List Text)
    → read_loop false (suc (length content)) max_chunk_size content ≡ some ds
    → pieces content ≡ ds
unfolding pieces
pieces-eq content ds e = rw (e, pieces)

pub pieces-read_loop :
    (content : Text)
    → (read_loop false (suc (length content)) max_chunk_size content ≡ some (pieces content))
      × (concat (pieces content) ≡ content)
pieces-read_loop content =
    let (ds, e, c, w) =
      read_loop-total (suc (length content)) max_chunk_size content (omega arith) (omega arith) in
    let same = pieces-eq content ds e in (e ∙ ap some (sym same), ap concat same ∙ c)

pub All-perm {κ} : (P : Text → Type κ) {ds es : List Text} → Permᴰ ds es → All P ds → All P es
All-perm P Permᴰ.nil h = h
All-perm P (Permᴰ.cons e p) h = (subst P e h.0, All-perm P p h.1)
All-perm P (Permᴰ.swap e f) h = (subst P f h.1.0, (subst P e h.0, h.1.1))
All-perm P (Permᴰ.trans p q) h = All-perm P q (All-perm P p h)

module _ (store : Store) (sha1 : Text → List ℕ) where
  open store use {State, set, get, at_hand, at_hand-set, get-at_hand, at_hand-get}

  -- The hash tells the pieces of a file apart from each other and from the file's name.
  abbrev pub Apart : Text → List Text → Type 0
  Apart name [] = Unit {0}
  Apart name (d ∷ ds) =
      All (λ e. key_from_data sha1 e ≡ key_from_data sha1 d → e ≡ d) ds
      × (key_from_data sha1 name ≢ key_from_data sha1 d)
      × Apart name ds

  -- A piece is at hand under its own key.
  abbrev pub Piece : State → Text → Type 0
  Piece s d = at_hand s (key_from_data sha1 d) ≡ some d

  -- The content is stored under a name: the metadata lists the keys of pieces that are at hand and make
  -- up the content.
  abbrev pub Stored : State → Text → Text → Type 0
  Stored s name content =
      (ds : List Text) × (at_hand s (key_from_data sha1 name)
        ≡ some (terminated (key_texts sha1 ds)))
      × All (Piece s) ds
      × (concat ds ≡ content)

  set_chunks-kept :
      (s : State) (ds : List Text) (d : Text)
      → All (λ e. key_from_data sha1 e ≡ key_from_data sha1 d → e ≡ d) ds
      → Piece s d
      → Piece (set_chunks store sha1 s ds) d
  unfolding set_chunks
  set_chunks-kept s [] d a h = h
  set_chunks-kept s (e ∷ ds) d a h =
      set_chunks-kept (set s (key_from_data sha1 e) e false) ds d a.1
        (ground (arith, at_hand-set s (key_from_data sha1 e) e false (key_from_data sha1 d), a.0))

  -- After the sets every piece is at hand.
  set_chunks-Piece :
      (s : State) (name : Text) (ds : List Text)
      → Apart name ds
      → All (Piece (set_chunks store sha1 s ds)) ds
  unfolding set_chunks
  set_chunks-Piece s name [] a = tt
  set_chunks-Piece s name (d ∷ ds) a = (
    set_chunks-kept (set s (key_from_data sha1 d) d false) ds d a.0
        (ground (arith, at_hand-set s (key_from_data sha1 d) d false (key_from_data sha1 d))),
    set_chunks-Piece (set s (key_from_data sha1 d) d false) name ds a.2,
  )

  metadata-Piece :
      (s : State) (name : Text) (m : Text) (ds : List Text)
      → Apart name ds
      → All (Piece s) ds
      → All (Piece (set s (key_from_data sha1 name) m true)) ds
  metadata-Piece s name m [] a h = tt
  metadata-Piece s name m (d ∷ ds) a h = (
    ground (arith, at_hand-set s (key_from_data sha1 name) m true (key_from_data sha1 d)),
    metadata-Piece s name m ds a.2 h.1,
  )

  -- These pieces are at hand, and so is their metadata under the name.
  abbrev pub StoredAs : State → Text → List Text → Type 0
  StoredAs s name ds =
      (at_hand s (key_from_data sha1 name) ≡ some (terminated (key_texts sha1 ds)))
      × All (Piece s) ds

  pub write_from_file-StoredAs :
      (s : State) (content name : Text) (order : List Text → List Text)
      → Permᴰ (order (pieces content)) (pieces content)
      → Apart name (order (pieces content))
      → ((write_from_file store sha1 s (some content) name order).0 ≡ true)
        × StoredAs (write_from_file store sha1 s (some content) name order).1 name (pieces content)
  unfolding write_from_file
  write_from_file-StoredAs s content name order p a =
      rw ((pieces-read_loop content).0, write_from_file)
        (
          refl,
          (
            ground (
              arith,
              at_hand-set (set_chunks store sha1 s (order (pieces content)))
                  (key_from_data sha1 name) (append_names [] (key_texts sha1 (pieces content))) true
                  (key_from_data sha1 name),
              append_names-terminated [] (key_texts sha1 (pieces content)),
            ),
            All-perm _ p (
                metadata-Piece _ name _ (order (pieces content)) a
                  (set_chunks-Piece s name (order (pieces content)) a)),
          ),
        )

  -- If the hash tells the pieces of the file apart from each other and from the name,
  -- `write_from_file` succeeds and stores the content under the name, in whatever order its threads
  -- run.
  pub write_from_file-Stored :
      (s : State) (content name : Text) (order : List Text → List Text)
      → Permᴰ (order (pieces content)) (pieces content)
      → Apart name (order (pieces content))
      → ((write_from_file store sha1 s (some content) name order).0 ≡ true)
        × Stored (write_from_file store sha1 s (some content) name order).1 name content
  write_from_file-Stored s content name order p a =
      let (done, (at, all)) = write_from_file-StoredAs s content name order p a in
      (done, (pieces content, at, all, (pieces-read_loop content).1))

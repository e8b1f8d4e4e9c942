-- ===== src/File/Quiet.antt =====
-- `read_in_files` on a store in which to get a chunk that is at hand changes nothing, as a session's own
-- chunks are got (src/client/file.cpp).
use distft.Prelude.{ℕ, ◌≡◌, refl, sym, ◌∙◌, ap, List, [], ◌∷◌, some, All, length, ◌++◌}
use distft.Key.{Key, Text, key_from_data}
use distft.File.{Store, read_keys, get_chunks, read_in_files, key_texts}
use distft.File.Names.{terminated}
use distft.File.Pieces.{concat}
use distft.File.Content.{Piece}
use distft.File.Reading.{
  keys_of, keys_loop-key_texts, StoredAll, read_keys-stored, get_chunks-pieces,
}
use mathlib.Core.Path.{subst}

module _ (sha1 : Text → List ℕ) (digest : (d : Text) → length (sha1 d) ≡ 20) (store : Store) where
  open store use {State, set, get, at_hand, at_hand-set, get-at_hand, at_hand-get}

  -- A get of what is at hand leaves the state as it is.
  abbrev pub Quiet : Type 0
  Quiet = (s : State) (k : Key) (d : Text) → at_hand s k ≡ some d → get s k ≡ (some d, s)

  module _ (quiet : Quiet) where
    get_chunks_quiet :
        (s : State) (ds : List Text)
        → All (Piece store sha1 s) ds
        → (get_chunks store sha1 s (keys_of sha1 digest ds)).1 ≡ s
    unfolding get_chunks keys_of
    get_chunks_quiet s [] h = refl
    get_chunks_quiet s (d ∷ ds) h =
        rw (quiet s (key_from_data sha1 d) d h.0, get_chunks) (get_chunks_quiet s ds h.1)

    read_keys_quiet :
        (s : State) (names cs : List Text) (keys : List Key)
        → StoredAll sha1 digest store s names cs
        → (read_keys store sha1 s names keys).1 ≡ s
    unfolding read_keys
    read_keys_quiet s [] cs keys h = refl
    read_keys_quiet s (n ∷ names) [] keys h = absurd h
    read_keys_quiet s (n ∷ names) (c ∷ cs) keys h =
        let (ds, m, p, q) = h.0 in
        let e = quiet s (key_from_data sha1 n) _ m in
        let found : (get s (key_from_data sha1 n)).0 ≡ some (terminated (key_texts sha1 ds)) =
          ap (λ r. r.0) e in
        let same : (get s (key_from_data sha1 n)).1 ≡ s = ap (λ r. r.1) e in
        rw (found, read_keys)
          (rw (keys_loop-key_texts sha1 digest ds keys, read_keys)
            (rw (same, read_keys)
              (read_keys_quiet s names cs (keys ++ keys_of sha1 digest ds) h.1)))

    pub read_in_files_quiet :
        (s : State) (names cs : List Text)
        → StoredAll sha1 digest store s names cs
        → read_in_files store sha1 s names ≡ (some (some (concat cs)), s)
    unfolding read_in_files
    read_in_files_quiet s names cs h =
        let (ds, s', e, same, p, q) = read_keys-stored sha1 digest store s names cs [] h in
        let e0 : (read_keys store sha1 s names []).0 ≡ some (some (keys_of sha1 digest ds)) =
          ap (λ r. r.0) e in
        let e1 : (read_keys store sha1 s names []).1 ≡ s = read_keys_quiet s names cs [] h in
        let p' : All (Piece store sha1 s) ds =
          subst (λ t. All (Piece store sha1 t) ds) (sym (ap (λ r. r.1) e) ∙ e1) p in
        rw (e0, read_in_files)
          (rw (e1, read_in_files)
            (rw (get_chunks-pieces sha1 digest store s ds p', get_chunks_quiet s ds p')
              (rw q refl)))

-- ===== src/File/Reading.antt =====
-- `read_in_files`: what it puts together from the chunks at hand.
use mathlib.Core.Path.{ap₂}
use mathlib.Core.List.{append_assoc, append-nil, Permᴰ}
use distft.Prelude.{
  ℕ, ◌≡◌, refl, sym, ◌∙◌, ap, List, [], ◌∷◌, ◌++◌, some, arith, All, All-append, length,
}
use distft.Key.{Key, Text, key_from_data}
use distft.Key.Digits.{key_from_data-IsKey}
use distft.File.{
  Store, write_from_file, read_keys, get_chunks, read_in_files, key_texts, keys_loop, join,
}
use distft.File.Names.{terminated, keys_loop-to_string}
use distft.File.Pieces.{concat}
use distft.File.Content.{pieces, Apart, Piece, Stored, write_from_file-Stored}

concat-append : (ds es : List Text) → concat (ds ++ es) ≡ concat ds ++ concat es
unfolding concat
concat-append [] es = refl
concat-append (d ∷ ds) es = rw (concat-append ds es) (sym (append_assoc d (concat ds) (concat es)))

module _ (sha1 : Text → List ℕ) (digest : (d : Text) → length (sha1 d) ≡ 20) where
  unfoldable pub keys_of : List Text → List Key
  keys_of [] = []
  keys_of (d ∷ ds) = key_from_data sha1 d ∷ keys_of ds

  keys_of-append : (ds es : List Text) → keys_of (ds ++ es) ≡ keys_of ds ++ keys_of es
  unfolding keys_of
  keys_of-append [] es = refl
  keys_of-append (d ∷ ds) es = ap (◌∷◌ (key_from_data sha1 d)) (keys_of-append ds es)

  pub keys_loop-key_texts :
      (ds : List Text) (keys : List Key)
      → keys_loop (terminated (key_texts sha1 ds)) [] keys ≡ some (keys ++ keys_of ds)
  unfolding terminated key_texts keys_of keys_loop
  keys_loop-key_texts [] keys = ap some (sym (append-nil keys))
  keys_loop-key_texts (d ∷ ds) keys =
      keys_loop-to_string (key_from_data sha1 d) (terminated (key_texts sha1 ds)) keys
        (key_from_data-IsKey sha1 d (digest d))
      ∙ keys_loop-key_texts ds (keys ++ key_from_data sha1 d ∷ [])
      ∙ ap some (append_assoc keys (key_from_data sha1 d ∷ []) (keys_of ds))

  module _ (store : Store) where
    open store use {State, set, get, at_hand, at_hand-set, get-at_hand, at_hand-get}

    -- Each content is stored under the name of its place.
    abbrev pub StoredAll : State → List Text → List Text → Type 0
    StoredAll s [] [] = Unit {0}
    StoredAll s [] (c ∷ cs) = ⊥
    StoredAll s (name ∷ names) [] = ⊥
    StoredAll s (name ∷ names) (c ∷ cs) = Stored store sha1 s name c × StoredAll s names cs

    abbrev pub Same : State → State → Type 0
    Same s s' = (k : Key) → at_hand s' k ≡ at_hand s k

    pieces-Same :
        (s s' : State) (ds : List Text)
        → Same s s'
        → All (Piece store sha1 s) ds
        → All (Piece store sha1 s') ds
    pieces-Same s s' [] e h = tt
    pieces-Same s s' (d ∷ ds) e h = (e (key_from_data sha1 d) ∙ h.0, pieces-Same s s' ds e h.1)

    StoredAll-Same :
        (s s' : State) (names cs : List Text)
        → Same s s'
        → StoredAll s names cs
        → StoredAll s' names cs
    StoredAll-Same s s' [] [] e h = tt
    StoredAll-Same s s' [] (c ∷ cs) e h = h
    StoredAll-Same s s' (n ∷ names) [] e h = h
    StoredAll-Same s s' (n ∷ names) (c ∷ cs) e h =
        let (ds, m, p, q) = h.0 in
        (
          (ds, e (key_from_data sha1 n) ∙ m, pieces-Same s s' ds e p, q),
          StoredAll-Same s s' names cs e h.1,
        )

    pub get_chunks-pieces :
        (s : State) (ds : List Text)
        → All (Piece store sha1 s) ds
        → join (get_chunks store sha1 s (keys_of ds)).0 ≡ some (concat ds)
    unfolding get_chunks keys_of join concat
    get_chunks-pieces s [] h = refl
    get_chunks-pieces s (d ∷ ds) h =
        let s' = (get s (key_from_data sha1 d)).1 in
        ground (
          arith,
          get-at_hand s (key_from_data sha1 d) d h.0,
          get_chunks-pieces s' ds (pieces-Same s s' ds (at_hand-get s (key_from_data sha1 d)) h.1),
        )

    -- The pieces of all the files are at hand when their keys have been read.
    pub read_keys-stored :
        (s : State) (names cs : List Text) (keys : List Key)
        → StoredAll s names cs
        → (ds : List Text) × (s' : State) × (read_keys store sha1 s names keys
            ≡ (some (some (keys ++ keys_of ds)), s'))
          × Same s s'
          × All (Piece store sha1 s') ds
          × (concat ds ≡ concat cs)
    unfolding read_keys concat keys_of
    read_keys-stored s [] [] keys h = ([], s, rw (append-nil keys), (λ k. refl), tt, refl)
    read_keys-stored s [] (c ∷ cs) keys h = absurd h
    read_keys-stored s (n ∷ names) [] keys h = absurd h
    read_keys-stored s (n ∷ names) (c ∷ cs) keys h =
        let k : Key = key_from_data sha1 n in
        let s1 : State = (get s k).1 in
        let (ds, m, p, q) = h.0 in
        let (es, s', e, same, p', q') =
          read_keys-stored s1 names cs (keys ++ keys_of ds)
            (StoredAll-Same s s1 names cs (at_hand-get s k) h.1) in
        let all : Same s s' = λ j. same j ∙ at_hand-get s k j in
        (
          ds ++ es,
          s',
          rw (get-at_hand s k _ m, read_keys)
              (rw (keys_loop-key_texts ds keys, read_keys)
                (e
                  ∙ ap (λ (x : List Key). (some (some x), s'))
                      (append_assoc keys (keys_of ds) (keys_of es)
                        ∙ ap (◌++◌ keys) (sym (keys_of-append ds es))))),
          all,
          All-append _ ds es (pieces-Same s s' ds all p) p',
          concat-append ds es ∙ ap₂ ◌++◌ q q',
        )

    read_in_files-keys :
        (s s' : State) (names : List Text) (keys : List Key)
        → read_keys store sha1 s names [] ≡ (some (some keys), s')
        → (read_in_files store sha1 s names).0 ≡ some (join (get_chunks store sha1 s' keys).0)
    unfolding read_in_files
    read_in_files-keys s s' names keys e = ground arith

    -- Over a hash with digests of 20 bytes, `read_in_files` returns the contents of files that are
    -- stored under their names, one behind the other.
    pub read_in_files-stored :
        (s : State) (names cs : List Text)
        → StoredAll s names cs
        → (read_in_files store sha1 s names).0 ≡ some (some (concat cs))
    unfolding read_in_files
    read_in_files-stored s names cs h =
        let (ds, s', e, same, p, q) = read_keys-stored s names cs [] h in
        read_in_files-keys s s' names (keys_of ds) e
        ∙ ap some (get_chunks-pieces s' ds p ∙ ap some q)

    -- Over a hash with digests of 20 bytes that tells the pieces of the file apart from each other
    -- and from the name, and with threads that set the pieces in any order: a file that
    -- `write_from_file` has written reads back, since `read_in_files` of its name returns its
    -- content.
    pub read-write :
        (s : State) (content name : Text) (order : List Text → List Text)
        → Permᴰ (order (pieces content)) (pieces content)
        → Apart store sha1 name (order (pieces content))
        → let s' = (write_from_file store sha1 s (some content) name order).1 in
          (read_in_files store sha1 s' (name ∷ [])).0 ≡ some (some content)
    unfolding concat
    read-write s content name order p a =
        let (done, stored) = write_from_file-Stored store sha1 s content name order p a in
        read_in_files-stored _ (name ∷ []) (content ∷ []) (stored, tt)
        ∙ ap (λ (c : Text). some (some c)) (append-nil content)

-- ===== src/File/Examples.antt =====
-- A store that keeps what is set, and the theorems on files at it.
use mathlib.Core.List.Permᴰ
use distft.Prelude.{
  ℕ, true, false, ◌≡◌, ◌≢◌, refl, List, [], ◌∷◌, ite, Option, none, some, arith, length,
}
use distft.Key.{Key, Key-discrete, Text, key_from_data, digest_bits, byte_bits}
use distft.Key.Examples.{toy_hash}
use distft.File.{Store, read_loop, write_from_file, init_index_file}
use distft.File.Pieces.{concat, WellCut, read_loop-ends}
use distft.File.Content.{pieces, Apart, Stored, write_from_file-Stored}

abbrev toy_store : Store
toy_store = record {
  State = Key → Option Text;
  set = λ s k d force j. ite (Key-discrete k j) (some d) (s j);
  get = λ s k. (s k, s);
  at_hand = λ s k. s k;
  at_hand-set = λ s k d force j. refl;
  get-at_hand = λ s k d e. e;
  at_hand-get = λ s k j. refl;
}

abbrev nothing : Key → Option Text
nothing k = none

-- The name "a" and the content "hi!".
abbrev name : Text
name = b'a' ∷ []

abbrev content : Text
content = b'h' ∷ b'i' ∷ b'!' ∷ []

read_loop-ends_example :
    ((ds : List Text) × (read_loop false 4 2 content ≡ some ds)
      × (concat ds ≡ content)
      × WellCut 2 ds)
    × ((g : ℕ) → read_loop true g 2 content ≡ none)
read_loop-ends_example = read_loop-ends 4 2 content (omega arith) (omega arith)

pieces-content : pieces content ≡ content ∷ []
unfolding pieces read_loop
pieces-content = refl

toy_digest : (d : Text) → length (toy_hash d) ≡ 20
toy_digest d = refl

name-differs : key_from_data toy_hash name ≢ key_from_data toy_hash content
unfolding key_from_data digest_bits byte_bits
name-differs e = cc

content-Apart : Apart toy_store toy_hash name (pieces content)
content-Apart = rw pieces-content (tt, name-differs, tt)

abbrev written : Key → Option Text
written = (write_from_file toy_store toy_hash nothing (some content) name (λ ds. ds)).1

written-Stored : Stored toy_store toy_hash written name content
written-Stored =
    (write_from_file-Stored toy_store toy_hash nothing content name (λ ds. ds)
      (Permᴰ.refl (pieces content)) content-Apart).1

abbrev indexed : Key → Option Text
indexed = init_index_file toy_store toy_hash nothing

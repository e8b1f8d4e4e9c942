-- ===== src/File/Names.antt =====
-- Lists of names, each ended by a zero byte, and the loops that take them apart.
use mathlib.Core.List.{append_assoc, append-nil}
use distft.Prelude.{
  ℕ, zero, suc, ◌≡◌, ◌≢◌, refl, ap, sym, ◌∙◌, Bool, true, false, List, [], ◌∷◌, ◌++◌, length, ite,
  none, some, arith, All,
}
use distft.Key.{Key, IsKey, Text, Text-discrete, keybits, to_string, digits_from}
use distft.Key.Digits.{key_of_string-to_string}
use distft.File.{push_name, names_loop, exists_loop, append_names, push_key, keys_loop}

-- A name without a zero byte.
abbrev pub NulFree : Text → Type 0
NulFree = All (λ c. c ≢ 0)

-- The names, each ended by a zero byte.
unfoldable pub terminated : List Text → Text
terminated [] = []
terminated (file ∷ files) = file ++ 0 ∷ terminated files

-- The names that are not empty.
unfoldable pub non_empty : List Text → List Text
non_empty [] = []
non_empty ([] ∷ files) = non_empty files
non_empty ((c ∷ cs) ∷ files) = (c ∷ cs) ∷ non_empty files

unfoldable pub member : Text → List Text → Bool
member name [] = false
member name (file ∷ files) = ite (Text-discrete file name) true (member name files)

pub append_names-terminated :
    (bytes : Text) (files : List Text) → append_names bytes files ≡ bytes ++ terminated files
unfolding append_names terminated
append_names-terminated bytes [] = sym (append-nil bytes)
append_names-terminated bytes (file ∷ files) =
    append_names-terminated ((bytes ++ file) ++ 0 ∷ []) files ∙ simp append_assoc

pub terminated-append : (fs gs : List Text) → terminated (fs ++ gs) ≡ terminated fs ++ terminated gs
unfolding terminated
terminated-append [] gs = refl
terminated-append (f ∷ fs) gs =
    rw (terminated-append fs gs) (sym (append_assoc f (0 ∷ terminated fs) (terminated gs)))

names_loop-name :
    (file rest curr : Text) (files : List Text)
    → NulFree file
    → names_loop (file ++ 0 ∷ rest) curr files ≡ names_loop rest [] (push_name (curr ++ file) files)
unfolding names_loop
names_loop-name [] rest curr files h = ground (arith, append-nil curr)
names_loop-name (c ∷ cs) rest curr files h =
    ground
      (arith, names_loop-name cs rest (curr ++ c ∷ []) files h.1, append_assoc curr (c ∷ []) cs)

push_name-non_empty :
    (file : Text) (acc files : List Text)
    → push_name file acc ++ non_empty files ≡ acc ++ non_empty (file ∷ files)
unfolding push_name non_empty
push_name-non_empty [] acc files = refl
push_name-non_empty (c ∷ cs) acc files = append_assoc acc ((c ∷ cs) ∷ []) (non_empty files)

-- The names that the loop of `get_index_files` finds are those that are not empty, in their order.
pub names_loop-terminated :
    (files acc : List Text)
    → All NulFree files
    → names_loop (terminated files) [] acc ≡ acc ++ non_empty files
unfolding terminated non_empty names_loop
names_loop-terminated [] acc h = sym (append-nil acc)
names_loop-terminated (file ∷ files) acc h =
    names_loop-name file (terminated files) [] acc h.0
    ∙ names_loop-terminated files (push_name file acc) h.1
    ∙ push_name-non_empty file acc files

exists_loop-name :
    (name file rest curr : Text)
    → NulFree file
    → exists_loop name (file ++ 0 ∷ rest) curr
      ≡ ite (Text-discrete (curr ++ file) name) true (exists_loop name rest [])
unfolding exists_loop
exists_loop-name name [] rest curr h = ground (arith, append-nil curr)
exists_loop-name name (c ∷ cs) rest curr h =
    ground
      (arith, exists_loop-name name cs rest (curr ++ c ∷ []) h.1, append_assoc curr (c ∷ []) cs)

-- The loop of `file_exists` finds exactly the names of the list.
pub exists_loop-terminated :
    (name : Text) (files : List Text)
    → All NulFree files
    → exists_loop name (terminated files) [] ≡ member name files
unfolding terminated member exists_loop
exists_loop-terminated name [] h = refl
exists_loop-terminated name (file ∷ files) h =
    exists_loop-name name file (terminated files) [] h.0
    ∙ ap (ite (Text-discrete file name) true) (exists_loop-terminated name files h.1)

keys_loop-key :
    (file rest curr : Text) (keys : List Key)
    → NulFree file
    → keys_loop (file ++ 0 ∷ rest) curr keys
      ≡ (elim (push_key (curr ++ file) keys) [ none ↦ none | some keys' ↦ keys_loop rest [] keys' ])
unfolding keys_loop
keys_loop-key [] rest curr keys h = ground (arith, append-nil curr)
keys_loop-key (c ∷ cs) rest curr keys h =
    ground (arith, keys_loop-key cs rest (curr ++ c ∷ []) keys h.1, append_assoc curr (c ∷ []) cs)

digits_from-NulFree : (n : ℕ) (k : Key) → NulFree (digits_from n k)
unfolding digits_from
digits_from-NulFree zero k = tt
digits_from-NulFree (suc n) k = (ground arith, digits_from-NulFree n k)

length-digits_from : (n : ℕ) (k : Key) → length (digits_from n k) ≡ n
unfolding digits_from
length-digits_from zero k = refl
length-digits_from (suc n) k = ap suc (length-digits_from n k)

to_string-NulFree : (k : Key) → NulFree (to_string k)
unfolding to_string
to_string-NulFree k = digits_from-NulFree keybits k

length-to_string : (k : Key) → length (to_string k) ≡ keybits
unfolding to_string
length-to_string k = length-digits_from keybits k

push_key-to_string :
    (k : Key) (keys : List Key) → IsKey k → push_key (to_string k) keys ≡ some (keys ++ k ∷ [])
unfolding push_key
push_key-to_string k keys h = ground (arith, length-to_string k, key_of_string-to_string k h)

-- The loop of `read_in_files` reads the text of a key back as that key.
pub keys_loop-to_string :
    (k : Key) (rest : Text) (keys : List Key)
    → IsKey k
    → keys_loop (to_string k ++ 0 ∷ rest) [] keys ≡ keys_loop rest [] (keys ++ k ∷ [])
keys_loop-to_string k rest keys h =
    keys_loop-key (to_string k) rest [] keys (to_string-NulFree k)
    ∙ rw (push_key-to_string k keys h)

-- ===== src/Client/Disk.antt =====
-- A file system in memory, as an instance of the file system that src/client/daemon.cpp calls.
use distft.Prelude.{
  ◌≡◌, ◌≢◌, refl, sym, ◌∙◌, ap, Bool, true, false, List, ◌∷◌, Option, none, some, arith, Bool-cases,
  Option-cases, inl, inr, ◌⊎◌,
}
use distft.Key.{Text}
use distft.Client.Housed.{inside}
use distft.Client.Home.{FileSystem, Kind, directory, regular, pipe}
use distft.Client.Memory.{
  Entries, same, lookup, erase, has_child, lookup-erase, has_child-false, has_child-true, Rooted,
  parent_there, ite_no, ite_yes, is_directory, Rooted-create, Rooted-erase,
}

abbrev pub Disk : Type 0
Disk = (es : Entries) × Rooted es

-- What is decided of a path.
abbrev pub Listed : Disk → List Text → Type 0
Listed d p = (lookup p d.0 ≡ none) ⊎ ((a : Kind) × (lookup p d.0 ≡ some a))

abbrev pub ParentListed : Disk → List Text → Type 0
ParentListed d p = (parent_there p d.0 ≡ true) ⊎ (parent_there p d.0 ≡ false)

abbrev pub IsDirectory : Disk → List Text → Type 0
IsDirectory d p = (lookup p d.0 ≡ some directory) ⊎ (lookup p d.0 ≢ some directory)

abbrev pub HasChild : Disk → List Text → Type 0
HasChild d p = (has_child p d.0 ≡ true) ⊎ (has_child p d.0 ≡ false)

abbrev pub at : Disk → List Text → Option Kind
at d p = lookup p d.0

-- Creates what does not exist, where its directory does.
unfoldable pub create :
    (d : Disk) (p : List Text) (k : Kind) → Listed d p → ParentListed d p → Bool × Disk
create d p k (inl n) (inl t) = (true, ((p, k) ∷ d.0, Rooted-create p k d.0 n t d.1))
create d p k (inl n) (inr t) = (false, d)
create d p k (inr h) t = (false, d)

pub create-made :
    (d : Disk) (p : List Text) (k : Kind) (n : Listed d p) (t : ParentListed d p)
    → (create d p k n t).0 ≡ true
    → (at d p ≡ none) × (at (create d p k n t).1 p ≡ some k)
unfolding create lookup
create-made d p k (inl n) (inl t) h = (n, ite_yes _ _ (same p p) refl)
create-made d p k (inl n) (inr t) h = ground arith
create-made d p k (inr e) t h = ground arith

pub create-else :
    (d : Disk) (p : List Text) (k : Kind) (n : Listed d p) (t : ParentListed d p) (q : List Text)
    → q ≢ p
    → at (create d p k n t).1 q ≡ at d q
unfolding create lookup
create-else d p k (inl n) (inl t) q h = ite_no _ _ (same p q) (λ e. h (sym e))
create-else d p k (inl n) (inr t) q h = refl
create-else d p k (inr e) t q h = refl

-- Removes what is no directory, or an empty one.
unfoldable pub take_away : (d : Disk) (p : List Text) → IsDirectory d p → HasChild d p → Option Disk
take_away d p (inl e) (inl c) = none
take_away d p (inl e) (inr c) =
    some (erase p d.0, Rooted-erase p d.0 (λ name. has_child-false p name d.0 c) d.1)
take_away d p (inr e) c = some (erase p d.0, Rooted-erase p d.0 (λ name. d.1 p name e) d.1)

pub take_away-gone :
    (d d' : Disk) (p : List Text) (f : IsDirectory d p) (c : HasChild d p)
    → take_away d p f c ≡ some d'
    → (at d' p ≡ none)
      × ((q : List Text) → q ≢ p → at d' q ≡ at d q)
      × ((name : Text) → at d p ≡ some directory → at d (name ∷ p) ≡ none)
unfolding take_away
take_away-gone d d' p (inl e) (inl c) h = ground arith
take_away-gone d d' p (inl e) (inr c) h =
    let es : erase p d.0 ≡ d'.0 = ap (λ x. x.0) (inside h) in
    (
      rw (← es) (lookup-erase p p d.0 ∙ ite_yes _ _ (same p p) refl),
      (λ q n. rw (← es) (lookup-erase p q d.0 ∙ ite_no _ _ (same p q) (λ i. n (sym i)))),
      λ name i. has_child-false p name d.0 c,
    )
take_away-gone d d' p (inr e) c h =
    let es : erase p d.0 ≡ d'.0 = ap (λ x. x.0) (inside h) in
    (
      rw (← es) (lookup-erase p p d.0 ∙ ite_yes _ _ (same p p) refl),
      (λ q n. rw (← es) (lookup-erase p q d.0 ∙ ite_no _ _ (same p q) (λ i. n (sym i)))),
      λ name i. absurd (e i),
    )

-- `std::filesystem::create_directory`
unfoldable pub make_directory :
    (d : Disk) (p : List Text) → IsDirectory d p → Bool × Disk → Option (Bool × Disk)
make_directory d p (inl e) r = some (false, d)
make_directory d p (inr e) (true, d') = some (true, d')
make_directory d p (inr e) (false, d') = none

pub make_directory-made :
    (d d' : Disk) (p : List Text) (f : IsDirectory d p) (n : Listed d p) (t : ParentListed d p)
    → make_directory d p f (create d p directory n t) ≡ some (true, d')
    → (at d p ≡ none) × (at d' p ≡ some directory) × ((q : List Text) → q ≢ p → at d' q ≡ at d q)
unfolding make_directory create lookup
make_directory-made d d' p (inl e) n t h = ground arith
make_directory-made d d' p (inr e) (inl n) (inl t) h =
    let es : (p, directory) ∷ d.0 ≡ d'.0 = ap (λ x. x.1.0) (inside h) in
    (
      n,
      rw (← es) (ite_yes _ _ (same p p) refl),
      λ q i. rw (← es) (ite_no _ _ (same p q) (λ e. i (sym e))),
    )
make_directory-made d d' p (inr e) (inl n) (inr t) h = ground arith
make_directory-made d d' p (inr e) (inr n) t h = ground arith

pub make_directory-there :
    (d d' : Disk) (p : List Text) (f : IsDirectory d p) (r : Bool × Disk)
    → make_directory d p f r ≡ some (false, d')
    → (at d p ≡ some directory) × (d' ≡ d)
unfolding make_directory
make_directory-there d d' p (inl e) r h = (e, sym (ap (λ x. x.1) (inside h)))
make_directory-there d d' p (inr e) (true, d1) h = ground arith
make_directory-there d d' p (inr e) (false, d1) h = ground arith

unfoldable pub drop_file : (d : Disk) (p : List Text) → IsDirectory d p → Bool × Disk
drop_file d p (inl e) = (false, d)
drop_file d p (inr e) = (true, (erase p d.0, Rooted-erase p d.0 (λ name. d.1 p name e) d.1))

pub drop_file-all :
    (d : Disk) (p : List Text) (f : IsDirectory d p)
    → ((drop_file d p f).0 ≡ true → at (drop_file d p f).1 p ≡ none)
      × ((drop_file d p f).0 ≡ false → (drop_file d p f).1 ≡ d)
      × ((q : List Text) → q ≢ p → at (drop_file d p f).1 q ≡ at d q)
unfolding drop_file
drop_file-all d p (inl e) = ((λ h. ground arith), (λ h. refl), λ q n. refl)
drop_file-all d p (inr e) = (
  (λ h. lookup-erase p p d.0 ∙ ite_yes _ _ (same p p) refl),
  (λ h. ground arith),
  λ q n. lookup-erase p q d.0 ∙ ite_no _ _ (same p q) (λ i. n (sym i)),
)

pub create-kept :
    (d : Disk) (p : List Text) (k j : Kind) (n : Listed d p) (t : ParentListed d p)
    → at d p ≡ some j
    → at (create d p k n t).1 p ≡ some j
unfolding create
create-kept d p k j (inl n) t h = ground arith
create-kept d p k j (inr e) t h = h

pub take_away-done :
    (d : Disk) (p : List Text) (f : IsDirectory d p) (c : HasChild d p)
    → (at d p ≡ some directory → (name : Text) → at d (name ∷ p) ≡ none)
    → (d' : Disk) × (take_away d p f c ≡ some d')
unfolding take_away
take_away-done d p (inl e) (inl c) h =
    let (name, k, l) = has_child-true p d.0 c in
    let n : at d (name ∷ p) ≡ none = h e name in absurd (ground arith)
take_away-done d p (inl e) (inr c) h = (_, refl)
take_away-done d p (inr e) c h = (_, refl)

pub drop_file-done :
    (d : Disk) (p : List Text) (f : IsDirectory d p)
    → at d p ≡ some pipe
    → (drop_file d p f).0 ≡ true
unfolding drop_file
drop_file-done d p (inl e) h = ground arith
drop_file-done d p (inr e) h = refl

pub create-new :
    (d : Disk) (p : List Text) (n : Listed d p) (t : ParentListed d p)
    → at d p ≡ none
    → at (create d p regular n t).1 p ≢ some directory
unfolding create lookup
create-new d p (inl n) (inl t) h e =
    let m = ite_yes (some regular) (lookup p d.0) (same p p) refl in ground arith
create-new d p (inl n) (inr t) h e = ground arith
create-new d p (inr n) t h e = ground arith

abbrev pub in_memory : FileSystem
in_memory = record {
  Disk = Disk;
  at = at;
  create_directory = λ d p.
      make_directory d p (is_directory (at d p))
        (create d p directory (Option-cases (at d p)) (Bool-cases (parent_there p d.0)));
  create_file =
      λ d p. (create d p regular (Option-cases (at d p)) (Bool-cases (parent_there p d.0))).1;
  mkfifo = λ d p. create d p pipe (Option-cases (at d p)) (Bool-cases (parent_there p d.0));
  remove = λ d p. take_away d p (is_directory (at d p)) (Bool-cases (has_child p d.0));
  unlink = λ d p. drop_file d p (is_directory (at d p));
  at-below = λ d p name h. d.1 p name h;
  create_directory-made = λ d d' p h.
      make_directory-made d d' p (is_directory (at d p)) (Option-cases (at d p))
        (Bool-cases (parent_there p d.0)) h;
  create_directory-there = λ d d' p h.
      make_directory-there d d' p (is_directory (at d p))
        (create d p directory (Option-cases (at d p)) (Bool-cases (parent_there p d.0))) h;
  create_file-kept = λ d p k h.
      create-kept d p regular k (Option-cases (at d p)) (Bool-cases (parent_there p d.0)) h;
  create_file-else = λ d p q h.
      create-else d p regular (Option-cases (at d p)) (Bool-cases (parent_there p d.0)) q h;
  mkfifo-made =
      λ d p h. (create-made d p pipe (Option-cases (at d p)) (Bool-cases (parent_there p d.0)) h).1;
  mkfifo-else =
      λ d p q h. create-else d p pipe (Option-cases (at d p)) (Bool-cases (parent_there p d.0)) q h;
  remove-gone =
      λ d d' p h. take_away-gone d d' p (is_directory (at d p)) (Bool-cases (has_child p d.0)) h;
  create_file-new =
      λ d p h. create-new d p (Option-cases (at d p)) (Bool-cases (parent_there p d.0)) h;
  remove-done =
      λ d p h. take_away-done d p (is_directory (at d p)) (Bool-cases (has_child p d.0)) h;
  unlink-done = λ d p h. drop_file-done d p (is_directory (at d p)) h;
  unlink-gone = λ d p h. (drop_file-all d p (is_directory (at d p))).0 h;
  unlink-kept = λ d p h. (drop_file-all d p (is_directory (at d p))).1 h;
  unlink-else = λ d p q h. (drop_file-all d p (is_directory (at d p))).2 q h;
}

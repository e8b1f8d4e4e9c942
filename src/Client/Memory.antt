-- ===== src/Client/Memory.antt =====
-- Lists of paths with what stands at each, for a file system in memory (see Client/Disk).
use distft.Prelude.{
  ◌≡◌, ◌≢◌, refl, sym, ◌∙◌, ap, Bool, true, false, List, [], ◌∷◌, Option, none, some, ite, drop,
  get_or, arith, Option-cases, inl, inr, ◌⊎◌,
}
use distft.Key.{Text, Text-discrete}
use distft.Client.Housed.{elsewhere, below}
use distft.Client.Home.{Kind, directory, regular, pipe}

abbrev pub Entries : Type 0
Entries = List (List Text × Kind)

unfoldable pub both :
    (x y : Text) (xs ys : List Text)
    → Dec (x ≡ y)
    → Dec (xs ≡ ys)
    → Dec (◌≡◌ {A = List Text} (x ∷ xs) (y ∷ ys))
both x y xs ys (yes e) (yes f) = yes (ap (λ z. z ∷ xs) e ∙ ap (◌∷◌ y) f)
both x y xs ys (yes e) (no n) = no (λ h. n (ap (λ r. drop 1 r) h))
both x y xs ys (no n) d = no (λ h. n (ap (λ r. get_or r 0 []) h))

pub empty_differs : (x : Text) (xs : List Text) → [] ≢ x ∷ xs
empty_differs x xs e = ground arith

-- Paths are compared one component after the other.
unfoldable pub same : (p q : List Text) → Dec (p ≡ q)
unfolding both
same [] [] = yes refl
same [] (y ∷ ys) = no (empty_differs y ys)
same (x ∷ xs) [] = no (λ e. empty_differs x xs (sym e))
same (x ∷ xs) (y ∷ ys) = both x y xs ys (Text-discrete x y) (same xs ys)

unfoldable pub lookup : List Text → Entries → Option Kind
lookup q [] = none
lookup q ((p, k) ∷ es) = ite (same p q) (some k) (lookup q es)

unfoldable pub erase : List Text → Entries → Entries
erase p [] = []
erase p ((q, k) ∷ es) = ite (same q p) (erase p es) ((q, k) ∷ erase p es)

unfoldable pub has_child : List Text → Entries → Bool
has_child p [] = false
has_child p (([], k) ∷ es) = has_child p es
has_child p ((n ∷ q, k) ∷ es) = ite (same q p) true (has_child p es)

pub lookup-erase :
    (p q : List Text) (es : Entries) → lookup q (erase p es) ≡ ite (same p q) none (lookup q es)
unfolding lookup erase
lookup-erase p q [] = ground arith
lookup-erase p q ((r, k) ∷ es) = ground (arith, lookup-erase p q es)

pub has_child-false :
    (p : List Text) (name : Text) (es : Entries)
    → has_child p es ≡ false
    → lookup (name ∷ p) es ≡ none
unfolding lookup has_child
has_child-false p name [] h = refl
has_child-false p name (([], k) ∷ es) h = ground (arith, has_child-false p name es)
has_child-false p name ((n ∷ q, k) ∷ es) h =
    ground (arith, has_child-false p name es, elsewhere p q n name)

-- Nothing is listed below what is not a directory.
abbrev pub Rooted : Entries → Type 0
Rooted es =
    (p : List Text) (name : Text) → lookup p es ≢ some directory → lookup (name ∷ p) es ≡ none

unfoldable pub parent_there : List Text → Entries → Bool
parent_there [] es = false
parent_there (name ∷ p) es = elim (lookup p es) [
  | some directory ↦ true
  | some regular ↦ false
  | some pipe ↦ false
  | none ↦ false
]

pub ite_no : {P C : Type 0} (a b : C) (x : Dec P) → ¬ P → ite x a b ≡ b
ite_no a b (yes e) n = absurd (n e)
ite_no a b (no e) n = refl

pub ite_yes : {P C : Type 0} (a b : C) (x : Dec P) → P → ite x a b ≡ a
ite_yes a b (yes e) n = refl
ite_yes a b (no e) n = absurd (e n)

abbrev pub names_directory : Option Kind → Bool
names_directory none = false
names_directory (some directory) = true
names_directory (some regular) = false
names_directory (some pipe) = false

pub no_directory : (o : Option Kind) → names_directory o ≡ false → o ≢ some directory
no_directory o h e = ground arith

unfoldable pub is_directory : (o : Option Kind) → (o ≡ some directory) ⊎ (o ≢ some directory)
is_directory none = inr (no_directory none refl)
is_directory (some directory) = inl refl
is_directory (some regular) = inr (no_directory (some regular) refl)
is_directory (some pipe) = inr (no_directory (some pipe) refl)

parent :
    (name : Text) (p : List Text) (es : Entries)
    → parent_there (name ∷ p) es ≡ true
    → lookup p es ≡ some directory
unfolding parent_there
parent name p es h = elim (Option-cases (lookup p es)) [
  | inl e ↦ ground arith
  | inr (directory, e) ↦ e
  | inr (regular, e) ↦ ground arith
  | inr (pipe, e) ↦ ground arith
]

pub Rooted-create :
    (p : List Text) (k : Kind) (es : Entries)
    → lookup p es ≡ none
    → parent_there p es ≡ true
    → Rooted es
    → Rooted ((p, k) ∷ es)
unfolding lookup parent_there
Rooted-create p k es n t r q name d =
    elim (same p (name ∷ q)) as (λ x. ite x (some k) (lookup (name ∷ q) es) ≡ none) [
      | yes e ↦ absurd (
          d (
            ite_no _ _ (same p q) (λ i. below q name (sym e ∙ i))
            ∙ parent name q es (ap (λ r. parent_there r es) (sym e) ∙ t)))
      | no e ↦ r q name (λ f. elim (same p q) [
        | yes i ↦
            (let g : none ≡ some directory = sym n ∙ ap (λ r. lookup r es) i ∙ f in ground arith)
        | no i ↦ d (ite_no _ _ (same p q) i ∙ f)
      ])
    ]

pub Rooted-erase :
    (p : List Text) (es : Entries)
    → ((name : Text) → lookup (name ∷ p) es ≡ none)
    → Rooted es
    → Rooted (erase p es)
Rooted-erase p es b r q name d =
    rw (lookup-erase p (name ∷ q) es)
      (elim (same p (name ∷ q)) as (λ x. ite x none (lookup (name ∷ q) es) ≡ none) [
        | yes e ↦ refl
        | no e ↦ elim (same p q) [
          | yes i ↦ ap (λ r. lookup (name ∷ r) es) (sym i) ∙ b name
          | no i ↦ r q name (λ f. d (lookup-erase p q es ∙ ite_no _ _ (same p q) i ∙ f))
        ]
      ])

-- What is below a path is listed at the first entry, or after it.
in_first :
    (p : List Text) (es : Entries) (n : Text) (q : List Text) (k : Kind) (x : Dec (q ≡ p))
    → (has_child p es ≡ true → (name : Text) × (j : Kind) × (lookup (name ∷ p) es ≡ some j))
    → ite x true (has_child p es) ≡ true
    → (name : Text) × (j : Kind) × (lookup (name ∷ p) ((n ∷ q, k) ∷ es) ≡ some j)
unfolding lookup
in_first p es n q k (yes e) rec h = (n, k, ite_yes _ _ (same (n ∷ q) (n ∷ p)) (ap (◌∷◌ n) e))
in_first p es n q k (no d) rec h =
    let (name, j, e) = rec h in
    (name, j, ite_no _ _ (same (n ∷ q) (name ∷ p)) (elsewhere p q n name d) ∙ e)

pub has_child-true :
    (p : List Text) (es : Entries)
    → has_child p es ≡ true
    → (name : Text) × (k : Kind) × (lookup (name ∷ p) es ≡ some k)
unfolding has_child lookup
has_child-true p [] h = ground arith
has_child-true p (([], k) ∷ es) h =
    let (name, j, e) = has_child-true p es h in
    (name, j, ite_no _ _ (same [] (name ∷ p)) (empty_differs name p) ∙ e)
has_child-true p ((n ∷ q, k) ∷ es) h = in_first p es n q k (same q p) (λ i. has_child-true p es i) h

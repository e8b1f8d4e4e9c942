-- ===== src/Client/Process.antt =====
-- The theorem on the descriptors of a daemon, at a table that opens a file in its first descriptor only.
use distft.Prelude.{
  ap, sym, ◌∙◌, ℕ, suc, ◌<◌, ◌≡◌, ◌⊎◌, refl, Option, none, some, ite, ℕ_discrete, dec_lt, ◌≢◌,
  arith,
}
use distft.Key.{Text}
use distft.Client.Control.{ascii}
use distft.Client.Housed.{inside}
use distft.Client.Descriptors.{Descriptors, setup_daemon, setup_daemon-closed}

abbrev Table : Type 0
Table = ℕ → Option Text

unfoldable opened : Table → Text → (t : Option Text) → Option (ℕ × Table)
opened t file none = some (0, λ j. ite (ℕ_discrete 0 j) (some file) (t j))
opened t file (some other) = none

unfoldable copied : Table → ℕ → Option Text → Table
copied t j none k = t k
copied t j (some file) k = ite (ℕ_discrete j k) (some file) (t k)

opened-at :
    (t t' : Table) (file : Text) (o : Option Text) (i : ℕ)
    → t 0 ≡ o
    → opened t file o ≡ some (i, t')
    → (t i ≡ none)
      × ((j : ℕ) → j < i → t j ≢ none)
      × ((j : ℕ) → t' j ≡ ite (ℕ_discrete i j) (some file) (t j))
unfolding opened
opened-at t t' file none i e h =
    let e' = inside h in
    let n : 0 ≡ i = ap (λ r. r.0) e' in
    let m : (λ (j : ℕ). ite (ℕ_discrete 0 j) (some file) (t j)) ≡ t' = ap (λ r. r.1) e' in
    (
      ap t (sym n) ∙ e,
      (λ j l. absurd (omega arith)),
      λ j. ap (λ f. f j) (sym m) ∙ ap (λ x. ite (ℕ_discrete x j) (some file) (t j)) n,
    )
opened-at t t' file (some other) i e h = ground arith

copied-none : (t : Table) (j : ℕ) (o : Option Text) → o ≡ none → copied t j o ≡ t
unfolding copied
copied-none t j o h = rw (h, copied) refl

copied-some :
    (t : Table) (j k : ℕ) (o : Option Text) (file : Text)
    → o ≡ some file
    → copied t j o k ≡ ite (ℕ_discrete j k) (some file) (t k)
unfolding copied
copied-some t j k o file h = rw (h, copied) refl

abbrev small : Descriptors
small = record {
  Table = Table;
  at = λ t i. t i;
  close = λ t i j. ite (ℕ_discrete i j) none (t j);
  open_file = λ t file. opened t file (t 0);
  dup2 = λ t i j. copied t j (t i);
  at-close = λ t i j. refl;
  open_file-at = λ t t' file i h. opened-at t t' file (t 0) i refl h;
  dup2-closed = λ t i j h. copied-none t j (t i) h;
  dup2-open = λ t i j k file h. copied-some t j k (t i) file h;
}

-- The three standard descriptors are those of a terminal.
abbrev terminal : Table
terminal i = ite (dec_lt i 3) (some (ascii "tty")) none

setup_daemon-closed_example :
    ((j : ℕ) → setup_daemon small 64 terminal (suc j) ≡ none)
    × ((setup_daemon small 64 terminal 0 ≡ some (ascii "/dev/null"))
        ⊎ (setup_daemon small 64 terminal 0 ≡ none))
setup_daemon-closed_example = setup_daemon-closed small 64 terminal (λ j l. ground arith)

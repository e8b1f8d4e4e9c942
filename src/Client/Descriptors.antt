-- ===== src/Client/Descriptors.antt =====
-- src/client/daemon.cpp: `setup_daemon`. The table of the process's descriptors is an interface to the
-- operating system.
use distft.Prelude.{
  ℕ, zero, suc, ◌<◌, ◌≡◌, ◌≢◌, ◌⊎◌, inl, inr, refl, ◌∙◌, Option, none, some, ite, ℕ_discrete, arith,
  Option-cases,
}
use distft.Key.{Text}
use distft.Client.Control.{ascii}

-- `at` is the file that a descriptor stands for. `none` of `open_file` is -1.
pub record Descriptors : Type 1 where
  pub Table : Type 0
  pub at : Table → ℕ → Option Text
  pub close : Table → ℕ → Table
  pub open_file : Table → Text → Option (ℕ × Table)
  pub dup2 : Table → ℕ → ℕ → Table
  pub at-close : (t : Table) (i j : ℕ) → at (close t i) j ≡ ite (ℕ_discrete i j) none (at t j)
  -- The least descriptor that is not open is taken.
  pub open_file-at :
      (t t' : Table) (file : Text) (i : ℕ)
      → open_file t file ≡ some (i, t')
      → (at t i ≡ none)
        × ((j : ℕ) → j < i → at t j ≢ none)
        × ((j : ℕ) → at t' j ≡ ite (ℕ_discrete i j) (some file) (at t j))
  -- A descriptor that is not open is not copied.
  pub dup2-closed : (t : Table) (i j : ℕ) → at t i ≡ none → dup2 t i j ≡ t
  pub dup2-open :
      (t : Table) (i j k : ℕ) (file : Text)
      → at t i ≡ some file
      → at (dup2 t i j) k ≡ ite (ℕ_discrete j k) (some file) (at t k)

module _ (os : Descriptors) where
  open os use {Table, at, close, open_file, dup2, at-close, open_file-at, dup2-closed, dup2-open}

  -- The loop of `setup_daemon`, from `getdtablesize()` down.
  unfoldable pub close_all : ℕ → Table → Table
  close_all zero t = close t 0
  close_all (suc i) t = close_all i (close t (suc i))

  -- `setup_daemon`, for what `getdtablesize` returns. The arguments of `dup2` stand as in the code.
  unfoldable pub setup_daemon : ℕ → Table → Table
  unfolding close_all
  setup_daemon size t = elim (open_file (close_all size t) (ascii "/dev/null")) [
    | none ↦ close_all size t
    | some (i, t') ↦ dup2 (dup2 t' 0 i) 1 i
  ]

  close_all-at :
      (i : ℕ) (t : Table)
      → ((j : ℕ) → i < j → at t j ≡ none)
      → (j : ℕ) → at (close_all i t) j ≡ none
  unfolding close_all
  close_all-at zero t h j =
      at-close t 0 j ∙ elim (ℕ_discrete 0 j) as (λ x. ite x none (at t j) ≡ none) [
        | yes e ↦ refl
        | no n ↦ h j (omega arith)
      ]
  close_all-at (suc i) t h j =
      close_all-at i (close t (suc i))
        (λ k l.
          at-close t (suc i) k ∙ elim (ℕ_discrete (suc i) k) as (λ x. ite x none (at t k) ≡ none) [
            | yes e ↦ refl
            | no n ↦ h k (omega arith)
          ])
        j

  -- Where no descriptor is open beyond the size of the table, `setup_daemon` leaves every descriptor but that of
  -- the standard input closed, the standard output and the standard error too. The standard input is /dev/null, unless it
  -- cannot be opened.
  pub setup_daemon-closed :
      (size : ℕ) (t : Table)
      → ((j : ℕ) → size < j → at t j ≡ none)
      → let t' = setup_daemon size t in
        ((j : ℕ) → at t' (suc j) ≡ none) × ((at t' 0 ≡ some (ascii "/dev/null")) ⊎ (at t' 0 ≡ none))
  unfolding setup_daemon
  setup_daemon-closed size t h =
      let bare : (j : ℕ) → at (close_all size t) j ≡ none = close_all-at size t h in
      elim (Option-cases (open_file (close_all size t) (ascii "/dev/null"))) [
        | inl e ↦ rw (e, setup_daemon) ((λ j. bare (suc j)), inr (bare 0))
        | inr ((zero, t'), e) ↦
            let (free, least, opened) =
              open_file-at (close_all size t) t' (ascii "/dev/null") 0 e in
            let input : at t' 0 ≡ some (ascii "/dev/null") = ground (arith, opened 0) in
            let beyond : (j : ℕ) → at (dup2 t' 0 0) (suc j) ≡ none = λ j. ground (
              arith,
              dup2-open t' 0 0 (suc j) (ascii "/dev/null") input,
              opened (suc j),
              bare (suc j),
            ) in
            let same : dup2 (dup2 t' 0 0) 1 0 ≡ dup2 t' 0 0 =
              dup2-closed (dup2 t' 0 0) 1 0 (beyond 0) in
            rw (e, setup_daemon)
              (rw same (beyond, inl (ground (arith, dup2-open t' 0 0 0 (ascii "/dev/null") input))))
        | inr ((suc i, t'), e) ↦ absurd (
            (open_file-at (close_all size t) t' (ascii "/dev/null") (suc i) e).1 0 (omega arith)
              (bare 0))
      ]

-- ===== src/Client/Settled.antt =====
-- How the daemon waits for its files, and what `setup_client` leaves (src/client/daemon.cpp).
use distft.Prelude.{
  ℕ, zero, suc, ◌+◌, ◌≤◌, ◌<◌, ◌≡◌, ◌≢◌, refl, sym, ◌∙◌, ap, Bool, true, false, List, [], ◌∷◌,
  Option, none, some, if◌then◌else◌, Bool-cases, Option-cases, inl, inr, arith, ℕ_discrete, dec_lt,
  get_or,
}
use distft.Key.{Text}
use distft.Client.Control.{ascii}
use distft.Client.Home.{
  FileSystem, Kind, directory, regular, pipe, session_dir, logs_file, cmd_file, err_file,
  wait_for_files, max_waits, exists, all_there, ensure_directory, setup_client, add_daemon_files,
}
use distft.Client.Housed.{added, inside}

apart : (p : List Text) → (ascii "cmd" ∷ p) ≢ (ascii "err" ∷ p)
unfolding ascii
apart p e =
    let h : ◌≡◌ {A = ℕ} 99 101 = ap (λ (q : List Text). get_or (get_or q 0 []) 0 0) e in
    absurd (omega arith)

not_logs : (p : List Text) → (ascii "daemons" ∷ p) ≢ (ascii "client_logs" ∷ p)
unfolding ascii
not_logs p e =
    let h : ◌≡◌ {A = ℕ} 100 99 = ap (λ (q : List Text). get_or (get_or q 0 []) 0 0) e in
    absurd (omega arith)

wait_first :
    (there : ℕ → Bool) (rounds i : ℕ)
    → let w = wait_for_files there rounds i in
      (i ≤ w)
      × (w ≤ i + rounds)
      × ((j : ℕ) → i ≤ j → j < w → there j ≡ false)
      × (w < i + rounds → there w ≡ true)
unfolding wait_for_files
wait_first there zero i =
    (omega arith, omega arith, (λ j l g. absurd (omega arith)), (λ l. absurd (omega arith)))
wait_first there (suc rounds) i =
    let (a, b, c, f) = wait_first there rounds (i + 1) in
    elim (Bool-cases (there i)) [
      | inl e ↦
          rw (e, wait_for_files) (omega arith, omega arith, (λ j l g. absurd (omega arith)), λ l. e)
      | inr e ↦
          rw (e, wait_for_files)
            (
              (omega arith),
              omega arith,
              (λ j l g. elim (ℕ_discrete i j) [
                | yes q ↦ ap there (sym q) ∙ e
                | no n ↦ c j (omega arith) g
              ]),
              λ l. f (omega arith),
            )
    ]

module _ (fs : FileSystem) where
  open fs use {
    Disk, at, create_directory, create_file, mkfifo, remove, unlink, at-below,
    create_directory-made, create_directory-there, create_file-kept, create_file-else, mkfifo-made,
    mkfifo-else, remove-gone, unlink-gone, unlink-kept, unlink-else,
  }

  -- The command and error pipes exist after a success; the log file may not have been created.
  add_daemon_files-all_there :
      (cwd : List Text) (id : Text) (d d' : Disk)
      → add_daemon_files fs cwd id d ≡ some (true, d')
      → exists fs d' (logs_file cwd id) ≡ true
      → all_there fs cwd id d' ≡ true
  unfolding all_there exists cmd_file err_file
  add_daemon_files-all_there cwd id d d' a l =
      let (d1, c, f, g) = added fs cwd id d d' a in
      let d2 = create_file d1 (logs_file cwd id) in
      let d3 = (mkfifo d2 (cmd_file cwd id)).1 in
      let err : at d' (err_file cwd id) ≡ some pipe =
        ap (λ r. at r.1 (err_file cwd id)) (sym g)
        ∙ mkfifo-made d3 (err_file cwd id) (ap (λ r. r.0) g) in
      let cmd : at d' (cmd_file cwd id) ≡ some pipe =
        ap (λ r. at r.1 (cmd_file cwd id)) (sym g)
        ∙ mkfifo-else d3 (err_file cwd id) (cmd_file cwd id) (apart (session_dir cwd id))
        ∙ mkfifo-made d2 (cmd_file cwd id) f in
      rw (l, err, cmd) refl

  -- The daemon looks once a second for its files, at most `max_waits` times, and goes on at the first second at
  -- which all three exist. When `add_daemon_files` has succeeded and could create the log file, and its files
  -- are there at some second, the daemon goes on by that second.
  pub wait_for_files-add_daemon_files :
      (cwd : List Text) (id : Text) (d d' : Disk) (disk : ℕ → Disk) (t : ℕ)
      → add_daemon_files fs cwd id d ≡ some (true, d')
      → exists fs d' (logs_file cwd id) ≡ true
      → disk t ≡ d'
      → t < max_waits
      → let w = wait_for_files (λ i. all_there fs cwd id (disk i)) max_waits 0 in
        (w ≤ t)
        × (all_there fs cwd id (disk w) ≡ true)
        × ((j : ℕ) → j < w → all_there fs cwd id (disk j) ≡ false)
  wait_for_files-add_daemon_files cwd id d d' disk t a l e lt =
      let there : ℕ → Bool = λ i. all_there fs cwd id (disk i) in
      let (low, high, misses, hit) = wait_first there max_waits 0 in
      let found : there t ≡ true = rw e (add_daemon_files-all_there cwd id d d' a l) in
      let soon : wait_for_files there max_waits 0 ≤ t =
        elim (dec_lt t (wait_for_files there max_waits 0)) [
          | yes g ↦ absurd (ground (arith, misses t (omega arith) g, found))
          | no n ↦ omega arith
        ] in
      (soon, hit (omega arith), λ j g. misses j (omega arith) g)

  -- What `ensure_directory` leaves exists.
  ensure_directory-exists :
      (d d' : Disk) (p : List Text)
      → ensure_directory fs d p ≡ some (true, d')
      → exists fs d' p ≡ true
  unfolding ensure_directory exists
  ensure_directory-exists d d' p h = elim (Bool-cases (exists fs d p)) [
    | inl e ↦
        let same : d ≡ d' = ap (λ r. r.1) (inside (rw (e, ensure_directory) at h)) in rw same at e
    | inr e ↦
        (let made = create_directory-made d d' p (rw (e, ensure_directory) at h) in rw made.1 refl)
  ]

  -- The disk with a log file of the client.
  abbrev with_logs : List Text → Disk → Disk
  with_logs p d =
      if exists fs d (ascii "client_logs" ∷ p) then d else create_file d (ascii "client_logs" ∷ p)

  with_logs-else :
      (p q : List Text) (d : Disk) → q ≢ ascii "client_logs" ∷ p → at (with_logs p d) q ≡ at d q
  with_logs-else p q d n = elim (Bool-cases (exists fs d (ascii "client_logs" ∷ p))) [
    | inl e ↦ rw (e, if◌then◌else◌) refl
    | inr e ↦ rw (e, if◌then◌else◌) (create_file-else d (ascii "client_logs" ∷ p) q n)
  ]

  only_directory :
      (o : Option Kind) (d d' : Disk) (p cwd : List Text)
      → ◌≡◌ {A = Option (Bool × Disk × List Text)}
          (elim o as (λ x. Option (Bool × Disk × List Text)) [
            | some directory ↦ some (true, d, p)
            | some regular ↦ none
            | some pipe ↦ none
            | none ↦ none
          ])
          (some (true, d', cwd))
      → (o ≡ some directory) × (d ≡ d') × (p ≡ cwd)
  only_directory none d d' p cwd h = ground arith
  only_directory (some directory) d d' p cwd h =
      let e = inside h in (refl, ap (λ r. r.1) e, ap (λ r. r.2) e)
  only_directory (some regular) d d' p cwd h = ground arith
  only_directory (some pipe) d d' p cwd h = ground arith

  -- What `setup_client` did if it reports success.
  settled :
      (home : List Text) (d d' : Disk) (cwd cwd' : List Text)
      → setup_client fs home d cwd ≡ some (true, d', cwd')
      → let p = ascii ".distft" ∷ home in
        (d1 d2 : Disk) × (ensure_directory fs d p ≡ some (true, d1))
        × (ensure_directory fs d1 (ascii "daemons" ∷ p) ≡ some (true, d2))
        × (at (with_logs p d2) p ≡ some directory)
        × (with_logs p d2 ≡ d')
        × (p ≡ cwd')
  unfolding setup_client
  settled home d d' cwd cwd' h =
      let p = ascii ".distft" ∷ home in
      elim (Option-cases (ensure_directory fs d p)) [
        | inl e ↦ ground arith
        | inr ((false, d1), e) ↦ ground arith
        | inr ((true, d1), e) ↦ elim (Option-cases (ensure_directory fs d1 (ascii "daemons" ∷ p))) [
          | inl f ↦ ground arith
          | inr ((false, d2), f) ↦ ground arith
          | inr ((true, d2), f) ↦
              let (at_p, same, moved) =
                only_directory (at (with_logs p d2) p) (with_logs p d2) d' p cwd'
                  (rw (f, setup_client) at (rw (e, setup_client) at h)) in
              (d1, d2, e, f, at_p, same, moved)
        ]
      ]

  found_directory :
      (d : Disk) (p : List Text) → exists fs d p ≡ true → ensure_directory fs d p ≡ some (true, d)
  unfolding ensure_directory
  found_directory d p e = rw (e, ensure_directory) refl

  -- After a `setup_client` that reports success, the current path is the client's directory, and it and the directory
  -- of the daemons exist. If the log file could be created, a client that is set up next finds all there: it
  -- succeeds, and leaves the disk as it is.
  pub setup_client_again :
      (home : List Text) (d d' : Disk) (cwd cwd' : List Text)
      → setup_client fs home d cwd ≡ some (true, d', cwd')
      → exists fs d' (ascii "client_logs" ∷ ascii ".distft" ∷ home) ≡ true
      → (cwd' ≡ ascii ".distft" ∷ home)
        × (at d' cwd' ≡ some directory)
        × (exists fs d' (ascii "daemons" ∷ cwd') ≡ true)
        × (setup_client fs home d' cwd ≡ some (true, d', cwd'))
  unfolding setup_client exists
  setup_client_again home d d' cwd cwd' h l =
      let p : List Text = ascii ".distft" ∷ home in
      let (d1, d2, e, f, at_p, same, moved) = settled home d d' cwd cwd' h in
      let here : at d' p ≡ some directory = rw (← same) at_p in
      let there : exists fs d' p ≡ true = rw here refl in
      let daemons : exists fs d' (ascii "daemons" ∷ p) ≡ true = rw (← same) (
        rw (with_logs-else p (ascii "daemons" ∷ p) d2 (not_logs p))
          (ensure_directory-exists d1 d2 (ascii "daemons" ∷ p) f)) in
      let again : setup_client fs home d' cwd ≡ some (true, d', p) =
        rw (found_directory d' p there, setup_client)
          (rw (found_directory d' (ascii "daemons" ∷ p) daemons, setup_client)
            (rw (l, setup_client) (rw (here, setup_client) (rw (l, if◌then◌else◌) refl)))) in
      (
        sym moved,
        rw (← moved) here,
        rw (← moved) daemons,
        again ∙ ap (λ c. some (true, d', c)) moved,
      )

-- ===== src/Client/Housed.antt =====
-- The files of a daemon, from the client that adds them to the one that removes them.
use distft.Prelude.{
  ◌≡◌, ◌≢◌, ◌⊎◌, sym, ◌∙◌, ap, true, false, List, [], ◌∷◌, Option, none, some, Bool-cases,
  Option-cases, inl, inr, arith, length, drop,
}
use mathlib.Core.List.{List-discrete}
use distft.Key.{Text, Text-discrete}
use distft.Client.Control.{ascii}
use distft.Client.Home.{
  FileSystem, directory, session_dir, logs_file, cmd_file, err_file, add_daemon_files,
  remove_daemon_files,
}

pub below : (p : List Text) (name : Text) → (name ∷ p) ≢ p
below p name e = let n : length (name ∷ p) ≡ length p = ap length e in absurd (omega arith)

pub elsewhere : (p q : List Text) (x name : Text) → q ≢ p → (x ∷ q) ≢ (name ∷ p)
elsewhere p q x name h e = h (ap (λ r. drop 1 r) e)

pub inside : {S : Type 0} {a b : S} → ◌≡◌ {A = Option S} (some a) (some b) → a ≡ b
inside h = ground arith

is_below : (p q : List Text) → ((name : Text) × (q ≡ name ∷ p)) ⊎ ((name : Text) → q ≢ name ∷ p)
is_below p [] = inr (λ name e. ground arith)
is_below p (x ∷ q) = elim (List-discrete Text-discrete q p) [
  | yes e ↦ inl (x, ap (◌∷◌ x) e)
  | no n ↦ inr (λ name. elsewhere p q x name n)
]

module _ (fs : FileSystem) where
  open fs use {
    Disk, at, create_directory, create_file, mkfifo, remove, unlink, at-below,
    create_directory-made, create_directory-there, create_file-kept, create_file-else, mkfifo-made,
    mkfifo-else, remove-gone, unlink-gone, unlink-kept, unlink-else,
  }

  -- What `add_daemon_files` did if it reports success.
  pub added :
      (cwd : List Text) (id : Text) (d d' : Disk)
      → add_daemon_files fs cwd id d ≡ some (true, d')
      → (d1 : Disk) × (create_directory d (session_dir cwd id) ≡ some (true, d1))
        × ((mkfifo (create_file d1 (logs_file cwd id)) (cmd_file cwd id)).0 ≡ true)
        × (mkfifo (mkfifo (create_file d1 (logs_file cwd id)) (cmd_file cwd id)).1 (err_file cwd id)
            ≡ (true, d'))
  unfolding add_daemon_files
  added cwd id d d' h = elim (Option-cases (create_directory d (session_dir cwd id))) [
    | inl e ↦ ground arith
    | inr ((false, d1), e) ↦ ground arith
    | inr ((true, d1), e) ↦
        elim (Bool-cases (mkfifo (create_file d1 (logs_file cwd id)) (cmd_file cwd id)).0) [
          | inl m ↦ (d1, e, m, inside (rw (m, add_daemon_files) at (rw (e, add_daemon_files) at h)))
          | inr m ↦ ground arith
        ]
  ]

  -- What `remove_daemon_files` did if it ends.
  removed :
      (cwd : List Text) (id : Text) (d d' : Disk)
      → remove_daemon_files fs cwd id d ≡ some d'
      → (d1 : Disk) × (remove d (logs_file cwd id) ≡ some d1)
        × (remove (unlink (unlink d1 (cmd_file cwd id)).1 (err_file cwd id)).1 (session_dir cwd id)
            ≡ some d')
  unfolding remove_daemon_files
  removed cwd id d d' h = elim (Option-cases (remove d (logs_file cwd id))) [
    | inl e ↦ ground arith
    | inr (d1, e) ↦ (d1, e, rw (e, remove_daemon_files) at h)
  ]

  -- Apart from the files of a session, and its directory, nothing changes.
  add-else :
      (cwd : List Text) (id : Text) (d d' : Disk) (q : List Text)
      → add_daemon_files fs cwd id d ≡ some (true, d')
      → q ≢ session_dir cwd id
      → ((name : Text) → q ≢ name ∷ session_dir cwd id)
      → at d' q ≡ at d q
  unfolding logs_file cmd_file err_file
  add-else cwd id d d' q h n m =
      let (d1, c, f, g) = added cwd id d d' h in
      let d2 = create_file d1 (logs_file cwd id) in
      let d3 = (mkfifo d2 (cmd_file cwd id)).1 in
      ap (λ r. at r.1 q) (sym g)
      ∙ mkfifo-else d3 (err_file cwd id) q (m (ascii "err"))
      ∙ mkfifo-else d2 (cmd_file cwd id) q (m (ascii "cmd"))
      ∙ create_file-else d1 (logs_file cwd id) q (m (ascii "logs"))
      ∙ (create_directory-made d d1 (session_dir cwd id) c).2 q n

  add-made :
      (cwd : List Text) (id : Text) (d d' : Disk)
      → add_daemon_files fs cwd id d ≡ some (true, d')
      → at d' (session_dir cwd id) ≡ some directory
  unfolding logs_file cmd_file err_file
  add-made cwd id d d' h =
      let (d1, c, f, g) = added cwd id d d' h in
      let p = session_dir cwd id in
      let d2 = create_file d1 (logs_file cwd id) in
      let d3 = (mkfifo d2 (cmd_file cwd id)).1 in
      ap (λ r. at r.1 p) (sym g)
      ∙ mkfifo-else d3 (err_file cwd id) p (λ e. below p (ascii "err") (sym e))
      ∙ mkfifo-else d2 (cmd_file cwd id) p (λ e. below p (ascii "cmd") (sym e))
      ∙ create_file-else d1 (logs_file cwd id) p (λ e. below p (ascii "logs") (sym e))
      ∙ (create_directory-made d d1 p c).1

  unlinked-else :
      (cwd : List Text) (id : Text) (d d1 : Disk) (q : List Text)
      → remove d (logs_file cwd id) ≡ some d1
      → ((name : Text) → q ≢ name ∷ session_dir cwd id)
      → at (unlink (unlink d1 (cmd_file cwd id)).1 (err_file cwd id)).1 q ≡ at d q
  unfolding logs_file cmd_file err_file
  unlinked-else cwd id d d1 q e m =
      unlink-else (unlink d1 (cmd_file cwd id)).1 (err_file cwd id) q (m (ascii "err"))
      ∙ unlink-else d1 (cmd_file cwd id) q (m (ascii "cmd"))
      ∙ (remove-gone d d1 (logs_file cwd id) e).1 q (m (ascii "logs"))

  emptied :
      (cwd : List Text) (id : Text) (d d' d'' : Disk) (name : Text)
      → add_daemon_files fs cwd id d ≡ some (true, d')
      → remove_daemon_files fs cwd id d' ≡ some d''
      → at d'' (name ∷ session_dir cwd id) ≡ at d (name ∷ session_dir cwd id)
  emptied cwd id d d' d'' name a r =
      let p = session_dir cwd id in
      let (d1, e, g) = removed cwd id d' d'' r in
      let d3 = (unlink (unlink d1 (cmd_file cwd id)).1 (err_file cwd id)).1 in
      let made : at d3 p ≡ some directory =
        unlinked-else cwd id d' d1 p e (λ n i. below p n (sym i)) ∙ add-made cwd id d d' a in
      let (gone, same, bare) = remove-gone d3 d'' p g in
      let fresh : at d p ≡ none =
        (create_directory-made d (added cwd id d d' a).0 p (added cwd id d d' a).1).0 in
      same (name ∷ p) (below p name) ∙ bare name made ∙ sym (at-below d p name (λ i. ground arith))

  pub restored :
      (cwd : List Text) (id : Text) (d d' d'' : Disk)
      → add_daemon_files fs cwd id d ≡ some (true, d')
      → remove_daemon_files fs cwd id d' ≡ some d''
      → (q : List Text) → at d'' q ≡ at d q
  restored cwd id d d' d'' a r q =
      let p = session_dir cwd id in
      let (d1, e, g) = removed cwd id d' d'' r in
      let d3 = (unlink (unlink d1 (cmd_file cwd id)).1 (err_file cwd id)).1 in
      let (gone, same, bare) = remove-gone d3 d'' p g in
      let (d0, c, f, h) = added cwd id d d' a in
      elim (is_below p q) [
        | inl (name, i) ↦ ap (at d'') i ∙ emptied cwd id d d' d'' name a r ∙ ap (at d) (sym i)
        | inr m ↦ elim (List-discrete Text-discrete q p) [
          | yes i ↦
              ap (at d'') i ∙ gone ∙ sym (create_directory-made d d0 p c).0 ∙ ap (at d) (sym i)
          | no n ↦ same q n ∙ unlinked-else cwd id d' d1 q e m ∙ add-else cwd id d d' q a n m
        ]
      ]

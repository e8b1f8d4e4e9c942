-- ===== src/Client/Cleared.antt =====
-- src/client/daemon.cpp: the removal of the files of a daemon.
use distft.Prelude.{◌≡◌, ◌≢◌, sym, ◌∙◌, ap, true, List, ◌∷◌, none, some, arith, get_or, []}
use distft.Key.{Text, Text-discrete}
use distft.Client.Control.{ascii}
use distft.Client.Home.{
  FileSystem, directory, pipe, session_dir, logs_file, cmd_file, err_file, add_daemon_files,
  remove_daemon_files,
}
use distft.Client.Housed.{added, below, restored}

-- Two names below a directory.
apart : (x y : Text) (p : List Text) → x ≢ y → (x ∷ p) ≢ (y ∷ p)
apart x y p n e = n (ap (λ r. get_or r 0 []) e)

logs_not_cmd : ascii "logs" ≢ ascii "cmd"
unfolding ascii
logs_not_cmd e = ground arith

logs_not_err : ascii "logs" ≢ ascii "err"
unfolding ascii
logs_not_err e = ground arith

cmd_not_err : ascii "cmd" ≢ ascii "err"
unfolding ascii
cmd_not_err e = ground arith

module _ (fs : FileSystem) where
  open fs use {
    Disk, at, create_file, mkfifo, remove, unlink, at-below, create_directory-made, create_file-new,
    create_file-else, mkfifo-made, mkfifo-else, remove-gone, remove-done, unlink-done, unlink-gone,
    unlink-else,
  }

  -- Below the directory of a session that has just been added, the two pipes and the logs are all that stands.
  filled :
      (cwd : List Text) (id : Text) (d d' : Disk)
      → add_daemon_files fs cwd id d ≡ some (true, d')
      → (at d' (logs_file cwd id) ≢ some directory)
        × (at d' (cmd_file cwd id) ≡ some pipe)
        × (at d' (err_file cwd id) ≡ some pipe)
        × ((name : Text)
            → name ≢ ascii "logs"
            → name ≢ ascii "cmd"
            → name ≢ ascii "err"
            → at d' (name ∷ session_dir cwd id) ≡ none)
  unfolding logs_file cmd_file err_file
  filled cwd id d d' h =
      let (d1, c, f, g) = added fs cwd id d d' h in
      let p = session_dir cwd id in
      let (none_there, dir, same) = create_directory-made d d1 p c in
      let d2 = create_file d1 (logs_file cwd id) in
      let d3 = (mkfifo d2 (cmd_file cwd id)).1 in
      let is : (mkfifo d3 (err_file cwd id)).1 ≡ d' = ap (λ r. r.1) g in
      let fresh : (name : Text) → at d1 (name ∷ p) ≡ none =
        λ name. same (name ∷ p) (below p name) ∙ at-below d p name (λ i. ground arith) in
      let later : (name : Text) → name ≢ ascii "err" → at d' (name ∷ p) ≡ at d3 (name ∷ p) =
        λ name n.
          ap (λ r. at r (name ∷ p)) (sym is)
          ∙ mkfifo-else d3 (err_file cwd id) (name ∷ p) (apart name (ascii "err") p n) in
      let before : (name : Text) → name ≢ ascii "cmd" → at d3 (name ∷ p) ≡ at d2 (name ∷ p) =
        λ name n. mkfifo-else d2 (cmd_file cwd id) (name ∷ p) (apart name (ascii "cmd") p n) in
      (
        (λ e. create_file-new d1 (logs_file cwd id) (fresh (ascii "logs")) (
            sym (before (ascii "logs") logs_not_cmd)
            ∙ sym (later (ascii "logs") logs_not_err)
            ∙ e)),
        later (ascii "cmd") cmd_not_err ∙ mkfifo-made d2 (cmd_file cwd id) f,
        ap (λ r. at r (err_file cwd id)) (sym is)
            ∙ mkfifo-made d3 (err_file cwd id) (ap (λ r. r.0) g),
        λ name l m n.
            later name n
            ∙ before name m
            ∙ create_file-else d1 (logs_file cwd id) (name ∷ p) (apart name (ascii "logs") p l)
            ∙ fresh name,
      )

  -- Once the logs and the pipes are gone, the directory is empty.
  bared :
      (cwd : List Text) (id : Text) (d d' d1 : Disk)
      → add_daemon_files fs cwd id d ≡ some (true, d')
      → remove d' (logs_file cwd id) ≡ some d1
      → (name : Text)
      → at (unlink (unlink d1 (cmd_file cwd id)).1 (err_file cwd id)).1 (name ∷ session_dir cwd id)
        ≡ none
  unfolding logs_file cmd_file err_file
  bared cwd id d d' d1 h r name =
      let p = session_dir cwd id in
      let (l, c, e, others) = filled cwd id d d' h in
      let (gone, same, b) = remove-gone d' d1 (logs_file cwd id) r in
      let d2 = (unlink d1 (cmd_file cwd id)).1 in
      let c1 =
        same (cmd_file cwd id) (apart (ascii "cmd") (ascii "logs") p (λ i. logs_not_cmd (sym i)))
        ∙ c in
      let e1 =
        same (err_file cwd id) (apart (ascii "err") (ascii "logs") p (λ i. logs_not_err (sym i)))
        ∙ e in
      let e2 =
        unlink-else d1 (cmd_file cwd id) (err_file cwd id)
          (apart (ascii "err") (ascii "cmd") p (λ i. cmd_not_err (sym i)))
        ∙ e1 in
      elim (Text-discrete name (ascii "err")) [
        | yes i ↦
            ap (λ x. at (unlink d2 (err_file cwd id)).1 (x ∷ p)) i
            ∙ unlink-gone d2 (err_file cwd id) (unlink-done d2 (err_file cwd id) e2)
        | no n ↦
            unlink-else d2 (err_file cwd id) (name ∷ p) (apart name (ascii "err") p n)
            ∙ elim (Text-discrete name (ascii "cmd")) [
              | yes i ↦
                  ap (λ x. at d2 (x ∷ p)) i
                  ∙ unlink-gone d1 (cmd_file cwd id) (unlink-done d1 (cmd_file cwd id) c1)
              | no m ↦
                  unlink-else d1 (cmd_file cwd id) (name ∷ p) (apart name (ascii "cmd") p m)
                  ∙ elim (Text-discrete name (ascii "logs")) [
                    | yes i ↦ ap (λ x. at d1 (x ∷ p)) i ∙ gone
                    | no k ↦ same (name ∷ p) (apart name (ascii "logs") p k) ∙ others name k m n
                  ]
            ]
      ]

  -- The files of a session that `add_daemon_files` has added, with success: `remove_daemon_files` on the disk it
  -- leaves ends without an exception, and every path is as it was before.
  pub add_daemon_files-remove_daemon_files :
      (cwd : List Text) (id : Text) (d d' : Disk)
      → add_daemon_files fs cwd id d ≡ some (true, d')
      → (d'' : Disk) × (remove_daemon_files fs cwd id d' ≡ some d'')
        × ((q : List Text) → at d'' q ≡ at d q)
  unfolding remove_daemon_files
  add_daemon_files-remove_daemon_files cwd id d d' h =
      let (l, c, e, others) = filled cwd id d d' h in
      let (d1, r) = remove-done d' (logs_file cwd id) (λ i. absurd (l i)) in
      let d3 = (unlink (unlink d1 (cmd_file cwd id)).1 (err_file cwd id)).1 in
      let (d'', g) = remove-done d3 (session_dir cwd id) (λ i. bared cwd id d d' d1 h r) in
      let ends : remove_daemon_files fs cwd id d' ≡ some d'' = rw (r, remove_daemon_files) g in
      (d'', ends, restored fs cwd id d d' d'' h ends)

-- ===== src/Client/Home.antt =====
-- src/client/daemon.cpp and client.h: the client's directory and the files of a daemon. The file system of
-- the operating system is an interface. Loggers are left out.
use distft.Prelude.{
  ℕ, zero, suc, ◌+◌, ◌≡◌, ◌≢◌, Bool, true, false, ◌&&◌, List, ◌∷◌, Option, none, some,
  if◌then◌else◌,
}
use distft.Key.{Text}
use distft.Client.Control.{ascii}

-- What stands at a path. A path is its components, the last one first.
pub data Kind : Type 0 where
  directory regular pipe : Kind

abbrev pub exists_kind : Option Kind → Bool
exists_kind none = false
exists_kind (some k) = true

-- `none` is an exception, `false` a failure that is reported by the result.
pub record FileSystem : Type 1 where
  pub Disk : Type 0
  pub at : Disk → List Text → Option Kind
  pub create_directory : Disk → List Text → Option (Bool × Disk)
  pub create_file : Disk → List Text → Disk
  pub mkfifo : Disk → List Text → Bool × Disk
  pub remove : Disk → List Text → Option Disk
  pub unlink : Disk → List Text → Bool × Disk
  -- Nothing stands below what is not a directory.
  pub at-below :
      (d : Disk) (p : List Text) (name : Text) → at d p ≢ some directory → at d (name ∷ p) ≡ none
  pub create_directory-made :
      (d d' : Disk) (p : List Text)
      → create_directory d p ≡ some (true, d')
      → (at d p ≡ none) × (at d' p ≡ some directory) × ((q : List Text) → q ≢ p → at d' q ≡ at d q)
  pub create_directory-there :
      (d d' : Disk) (p : List Text)
      → create_directory d p ≡ some (false, d')
      → (at d p ≡ some directory) × (d' ≡ d)
  -- The file may be there before, and it may not be possible to create it.
  pub create_file-kept :
      (d : Disk) (p : List Text) (k : Kind) → at d p ≡ some k → at (create_file d p) p ≡ some k
  pub create_file-else : (d : Disk) (p q : List Text) → q ≢ p → at (create_file d p) q ≡ at d q
  pub create_file-new :
      (d : Disk) (p : List Text) → at d p ≡ none → at (create_file d p) p ≢ some directory
  pub mkfifo-made :
      (d : Disk) (p : List Text) → (mkfifo d p).0 ≡ true → at (mkfifo d p).1 p ≡ some pipe
  pub mkfifo-else : (d : Disk) (p q : List Text) → q ≢ p → at (mkfifo d p).1 q ≡ at d q
  -- A directory that is not empty is not removed.
  pub remove-gone :
      (d d' : Disk) (p : List Text)
      → remove d p ≡ some d'
      → (at d' p ≡ none)
        × ((q : List Text) → q ≢ p → at d' q ≡ at d q)
        × ((name : Text) → at d p ≡ some directory → at d (name ∷ p) ≡ none)
  -- What is no directory, or an empty one, can be removed.
  pub remove-done :
      (d : Disk) (p : List Text)
      → (at d p ≡ some directory → (name : Text) → at d (name ∷ p) ≡ none)
      → (d' : Disk) × (remove d p ≡ some d')
  pub unlink-done : (d : Disk) (p : List Text) → at d p ≡ some pipe → (unlink d p).0 ≡ true
  pub unlink-gone : (d : Disk) (p : List Text) → (unlink d p).0 ≡ true → at (unlink d p).1 p ≡ none
  pub unlink-kept : (d : Disk) (p : List Text) → (unlink d p).0 ≡ false → (unlink d p).1 ≡ d
  pub unlink-else : (d : Disk) (p q : List Text) → q ≢ p → at (unlink d p).1 q ≡ at d q

-- `SESSION_DIR`, `LOGS_FILE`, `CMD_FILE` and `ERR_FILE`, below the client's directory, for a session id in
-- decimal.
unfoldable pub session_dir : List Text → Text → List Text
session_dir cwd session_id = session_id ∷ ascii "daemons" ∷ cwd

unfoldable pub logs_file : List Text → Text → List Text
logs_file cwd session_id = ascii "logs" ∷ session_dir cwd session_id

unfoldable pub cmd_file : List Text → Text → List Text
cmd_file cwd session_id = ascii "cmd" ∷ session_dir cwd session_id

unfoldable pub err_file : List Text → Text → List Text
err_file cwd session_id = ascii "err" ∷ session_dir cwd session_id

-- `get_home_dir`, from the environment's `HOME`.
unfoldable pub get_home_dir : Option Text → Text
get_home_dir none = ascii "/tmp/"
get_home_dir (some home) = home

-- The loop at the start of the daemon, by whether its files exist at each second: how often it sleeps.
unfoldable pub wait_for_files : (ℕ → Bool) → ℕ → ℕ → ℕ
wait_for_files there zero i = i
wait_for_files there (suc rounds) i =
    let later = wait_for_files there rounds (i + 1) in if there i then i else later

abbrev pub max_waits : ℕ
max_waits = 60

module _ (fs : FileSystem) where
  open fs use {Disk, at, create_directory, create_file, mkfifo, remove, unlink}

  -- `std::filesystem::exists`
  unfoldable pub exists : Disk → List Text → Bool
  exists d p = exists_kind (at d p)

  -- The condition of that loop.
  unfoldable pub all_there : List Text → Text → Disk → Bool
  unfolding exists
  all_there cwd id d =
      exists d (logs_file cwd id) && exists d (cmd_file cwd id) && exists d (err_file cwd id)

  -- Creates a directory that does not exist: `false` if it could not be created.
  unfoldable pub ensure_directory : Disk → List Text → Option (Bool × Disk)
  unfolding exists
  ensure_directory d p = elim (exists d p) [ true ↦ some (true, d) | false ↦ create_directory d p ]

  -- `setup_client`, for the components of the home directory: the disk and the current path that it
  -- leaves.
  unfoldable pub setup_client : List Text → Disk → List Text → Option (Bool × Disk × List Text)
  unfolding ensure_directory
  setup_client home d cwd =
      let client_dir = ascii ".distft" ∷ home in
      elim (ensure_directory d client_dir) [
        | none ↦ none
        | some (false, d1) ↦ some (false, d1, cwd)
        | some (true, d1) ↦ elim (ensure_directory d1 (ascii "daemons" ∷ client_dir)) [
          | none ↦ none
          | some (false, d2) ↦ some (false, d2, cwd)
          | some (true, d2) ↦
              let client_logs = ascii "client_logs" ∷ client_dir in
              let d3 = if exists d2 client_logs then d2 else create_file d2 client_logs in
              elim (at d3 client_dir) [
                | some directory ↦ some (true, d3, client_dir)
                | some regular ↦ none
                | some pipe ↦ none
                | none ↦ none
              ]
        ]
      ]

  -- `add_daemon_files`
  unfoldable pub add_daemon_files : List Text → Text → Disk → Option (Bool × Disk)
  add_daemon_files cwd session_id d = elim (create_directory d (session_dir cwd session_id)) [
    | none ↦ none
    | some (false, d1) ↦ some (false, d1)
    | some (true, d1) ↦
        let d2 = create_file d1 (logs_file cwd session_id) in
        let (made, d3) = mkfifo d2 (cmd_file cwd session_id) in
        elim made [ false ↦ some (false, d3) | true ↦ some (mkfifo d3 (err_file cwd session_id)) ]
  ]

  -- `remove_daemon_files`
  unfoldable pub remove_daemon_files : List Text → Text → Disk → Option Disk
  remove_daemon_files cwd session_id d = elim (remove d (logs_file cwd session_id)) [
    | none ↦ none
    | some d1 ↦
        let (gone, d2) = unlink d1 (cmd_file cwd session_id) in
        let (gone', d3) = unlink d2 (err_file cwd session_id) in
        remove d3 (session_dir cwd session_id)
  ]

-- ===== src/Client/Homes.antt =====
-- The theorems on the files of a client and its daemon, at a file system in memory.
use distft.Prelude.{
  Bool-cases, Option-cases, ◌≡◌, refl, Bool, true, List, [], ◌∷◌, Option, none, some, ℕ_discrete,
}
use distft.Key.{Text, Text-discrete}
use distft.Client.Control.{ascii}
use distft.Client.Home.{
  directory, add_daemon_files, remove_daemon_files, session_dir, logs_file, cmd_file, err_file,
  setup_client, exists, ensure_directory,
}
use distft.Client.Memory.{Entries, Rooted, same, lookup, parent_there, is_directory, Rooted-create}
use distft.Client.Cleared.{add_daemon_files-remove_daemon_files}
use distft.Client.Disk.{at, Disk, create, make_directory, in_memory}

abbrev id : Text
id = b'7' ∷ []

abbrev root : Entries
root = ([], directory) ∷ []

root-Rooted : Rooted root
unfolding lookup same
root-Rooted p name d = refl

root-lookup :
    (lookup (ascii "daemons" ∷ []) root ≡ none) × (parent_there (ascii "daemons" ∷ []) root ≡ true)
unfolding lookup same parent_there
root-lookup = (refl, refl)

-- The root directory, and that of the daemons.
abbrev disk : Disk
disk = (
  (ascii "daemons" ∷ [], directory) ∷ root,
  Rooted-create (ascii "daemons" ∷ []) directory root root-lookup.0 root-lookup.1 root-Rooted,
)

abbrev after : Option (Bool × Disk) → Disk
after none = disk
after (some (b, d)) = d

adds :
    add_daemon_files in_memory [] id disk
    ≡ some (true, after (add_daemon_files in_memory [] id disk))
unfolding add_daemon_files session_dir logs_file cmd_file err_file lookup same Text-discrete
    ℕ_discrete ascii make_directory create parent_there is_directory Option-cases Bool-cases
adds = refl

add_daemon_files-remove_daemon_files_example :
    (d'' : Disk) × (remove_daemon_files in_memory [] id
        (after (add_daemon_files in_memory [] id disk))
      ≡ some d'')
    × ((q : List Text) → at d'' q ≡ at disk q)
add_daemon_files-remove_daemon_files_example =
    add_daemon_files-remove_daemon_files in_memory [] id disk
      (after (add_daemon_files in_memory [] id disk)) adds

abbrev setting : Disk × List Text
setting = elim (setup_client in_memory [] disk []) [
  | none ↦ (disk, [])
  | some (b, d, cwd) ↦ (d, cwd)
]

sets_up : setup_client in_memory [] disk [] ≡ some (true, setting.0, setting.1)
unfolding setup_client ensure_directory exists lookup same Text-discrete ℕ_discrete ascii
    make_directory create parent_there is_directory Option-cases Bool-cases
sets_up = refl

-- ===== src/Client/Interactive.antt =====
-- src/client/interactive.cpp: one round of the loop that reads commands from lines.
use distft.Prelude.{
  ℕ, Bool, true, false, not, ◌&&◌, ◌||◌, List, [], ◌∷◌, ◌++◌, Option, none, some, if◌then◌else◌,
  length, leb, ltb, ◌==◌,
}
use distft.Key.{Text}
use distft.Client.Control.{Cluster, Client, ascii, clear_cmd, list_cmd, store_cmd, load_cmd}
use distft.Client.Daemon.{take_back}
use distft.Client.Founder.{same_text}
use distft.Client.Handle.{print_result}

-- `std::isspace`
unfoldable pub is_space : ℕ → Bool
is_space c = c == b' ' || (leb 9 c && leb c 13)

unfoldable pub flush : Text → List Text → List Text
flush [] words = words
flush (c ∷ cs) words = (c ∷ cs) ∷ words

-- `while (iss >> token)`: the words of a line, with what was read of the next one.
unfoldable pub tokens : Text → Text → List Text
unfolding is_space flush
tokens curr [] = flush curr []
tokens curr (c ∷ line) = elim (is_space c) [
  | true ↦ flush curr (tokens [] line)
  | false ↦ tokens (curr ++ c ∷ []) line
]

-- A round goes on with what `success` holds and the lines that it prints, or ends the program.
pub data Reaction (S : Type 0) : Type 0 where
  again : Bool → List Text → Client S → Reaction S
  leaves : Client S → Reaction S
  throws : Reaction S

-- The end of the round, after a command.
abbrev pub told : {S : Type 0} → Bool × Client S → Reaction S
told (success, d) = again success (print_result (not success) d.cmd_err d.cmd_out) d

abbrev pub told_or_throws : {S : Type 0} → Option Bool × Client S → Reaction S
told_or_throws (none, d) = throws
told_or_throws (some success, d) = told (success, d)

-- `manual` is the text of `interactive_commands`.
module _ (c : Cluster) (sha1 : Text → List ℕ) (rand : ℕ → ℕ) (local : Text → Option Text)
    (order : List Text → List Text) (opens : Text → Bool) (manual : Text) where
  open c use {State}

  -- The commands, with what `success` holds from the round before, or at first by chance.
  unfoldable pub obey : Bool → List Text → Client State → Reaction State
  unfolding same_text print_result
  obey success [] d = again success [] d
  obey success (word ∷ args) d =
      if same_text word (ascii "help")
      then again success (manual ∷ print_result (not success) d.cmd_err d.cmd_out) d
      else if same_text word (ascii "list")
      then told (list_cmd c sha1 rand local order opens d)
      else if same_text word (ascii "store")
      then (if ltb (length args) 1
          then again success (ascii "Please provide file(s) to add." ∷ []) d
          else told (store_cmd c sha1 rand local order opens args d))
      else if same_text word (ascii "load")
      then (if ltb (length args) 2
          then again success (ascii "Please provide file to print/file to write to." ∷ []) d
          else (elim (take_back args) [
            | none ↦ throws
            | some (files, output) ↦
                told_or_throws (load_cmd c sha1 rand local order opens files output d)
          ]))
      else if same_text word (ascii "exit")
      then leaves d
      else again success (ascii "Enter a valid command. Enter `help` for all commands." ∷ []) d

  -- A round of the loop on a line.
  unfoldable pub interact : Bool → Text → Client State → Reaction State
  unfolding tokens obey clear_cmd
  interact success line d = obey success (tokens [] line) (clear_cmd d)

-- ===== src/Client/Typed.antt =====
-- The lines of src/client/interactive.cpp, against the commands of the daemon.
use mathlib.Core.List.{append_assoc, append-nil}
use distft.Prelude.{
  ℕ, ◌≤◌, ◌≡◌, ◌≢◌, refl, sym, ap, ◌∙◌, Bool, true, false, not, List, [], ◌∷◌, ◌++◌, Option, none,
  some, length, ◌==◌, All, Option-cases, inl, inr, ℕ_discrete,
}
use distft.Key.{Text, Text-discrete}
use distft.Client.Control.{Cluster, Client, ascii, clear_cmd, list_cmd, store_cmd, load_cmd}
use distft.Client.Daemon.{
  cmd_exit, cmd_list, cmd_store, cmd_load, take_back, Round, exits, crashes, skips, replies, reply,
  reply_or_crash, run_cmd,
}
use distft.Client.Founder.{same_text}
use distft.Client.Handle.{print_result}
use distft.Client.Commands.{at_least}
use distft.Client.Interactive.{
  is_space, flush, tokens, Reaction, again, leaves, throws, told, told_or_throws, obey, interact,
}

-- The words, each with a space behind it.
unfoldable pub spaced : List Text → Text
spaced [] = []
spaced (word ∷ words) = word ++ b' ' ∷ spaced words

-- A word of a line.
abbrev pub Word : Text → Type 0
Word word = (word ≢ []) × All (λ c. is_space c ≡ false) word

tokens-word :
    (word curr rest : Text)
    → All (λ c. is_space c ≡ false) word
    → curr ++ word ≢ []
    → tokens curr (word ++ b' ' ∷ rest) ≡ (curr ++ word) ∷ tokens [] rest
unfolding tokens flush is_space
tokens-word [] [] rest h n = absurd (n refl)
tokens-word [] (c ∷ curr) rest h n = rw append-nil refl
tokens-word (c ∷ word) curr rest h n =
    rw (h.0, tokens)
      (tokens-word word (curr ++ c ∷ []) rest h.1 (rw (append_assoc curr (c ∷ []) word) n)
        ∙ ap (λ (t : Text). t ∷ tokens [] rest) (append_assoc curr (c ∷ []) word))

-- A line of words is read as these words.
pub tokens-spaced : (words : List Text) → All Word words → tokens [] (spaced words) ≡ words
unfolding spaced tokens flush
tokens-spaced [] h = refl
tokens-spaced (word ∷ words) h =
    tokens-word word [] (spaced words) h.0.1 h.0.0
    ∙ ap (λ (ts : List Text). word ∷ ts) (tokens-spaced words h.1)

-- What a round of the daemon's loop looks like at a terminal.
abbrev pub seen : {S : Type 0} → Round S → Reaction S
seen (exits d) = leaves d
seen crashes = throws
seen (skips d) = again false [] d
seen (replies r d) = again (r.err == 0) (print_result (not (r.err == 0)) r.err_msg r.succ_msg) d

-- The words of a line that run a command of the daemon.
pub data Runs : List Text → ℕ → List Text → Type 0 where
  list : (rest : List Text) → Runs (ascii "list" ∷ rest) cmd_list rest
  store : (files : List Text) → 1 ≤ length files → Runs (ascii "store" ∷ files) cmd_store files
  load : (files : List Text) → 2 ≤ length files → Runs (ascii "load" ∷ files) cmd_load files
  exit : (rest : List Text) → Runs (ascii "exit" ∷ rest) cmd_exit rest

seen-reply :
    {S : Type 0} (success : Bool) (d : Client S) → seen (reply (success, d)) ≡ told (success, d)
seen-reply true d = refl
seen-reply false d = refl

seen-reply_or_crash :
    {S : Type 0} (o : Option Bool) (d : Client S)
    → seen (reply_or_crash (o, d)) ≡ told_or_throws (o, d)
seen-reply_or_crash none d = refl
seen-reply_or_crash (some b) d = seen-reply b d

module _ (c : Cluster) (sha1 : Text → List ℕ) (rand : ℕ → ℕ) (local : Text → Option Text)
    (order : List Text → List Text) (opens : Text → Bool) (manual : Text) where
  open c use {State}

  -- What the words of a command do.
  obey-run_cmd :
      (words args : List Text) (cmd argc : ℕ) (client_id : Text) (success : Bool) (d : Client State)
      → Runs words cmd args
      → obey c sha1 rand local order opens manual success words (clear_cmd d)
        ≡ seen (
            run_cmd c sha1 rand local order opens
              (record { client_id = client_id; cmd = cmd; argc = argc; args = args })
              d)
  unfolding obey run_cmd same_text ascii Text-discrete ℕ_discrete
  obey-run_cmd words args cmd argc client_id success d (list rest) =
      sym (seen-reply (list_cmd c sha1 rand local order opens (clear_cmd d)).0 _)
  obey-run_cmd words args cmd argc client_id success d (store files l) =
      rw (at_least (length files) 1 l)
        (sym (seen-reply (store_cmd c sha1 rand local order opens files (clear_cmd d)).0 _))
  obey-run_cmd words args cmd argc client_id success d (load files l) =
      rw (at_least (length files) 2 l) (elim (Option-cases (take_back files)) [
        | inl e ↦ rw e refl
        | inr ((first, last), e) ↦ rw e (
            sym (
              seen-reply_or_crash
                (load_cmd c sha1 rand local order opens first last (clear_cmd d)).0 _))
      ])
  obey-run_cmd words args cmd argc client_id success d (exit rest) = refl

  -- A line whose words run a command does what the daemon does with that command and those arguments: the
  -- client comes out the same, and the lines that are printed are those of the daemon's reply.
  pub interact-run_cmd :
      (words args : List Text) (cmd argc : ℕ) (client_id line : Text) (success : Bool)
      (d : Client State)
      → Runs words cmd args
      → tokens [] line ≡ words
      → interact c sha1 rand local order opens manual success line d
        ≡ seen (
            run_cmd c sha1 rand local order opens
              (record { client_id = client_id; cmd = cmd; argc = argc; args = args })
              d)
  unfolding interact
  interact-run_cmd words args cmd argc client_id line success d r e =
      ap (λ (ts : List Text). obey c sha1 rand local order opens manual success ts (clear_cmd d)) e
      ∙ obey-run_cmd words args cmd argc client_id success d r

-- ===== src/Client/Messages.antt =====
-- What comes out of the command pipe of src/client/daemon.cpp: the commands that were written.
use mathlib.Core.List.{append_assoc, append-nil}
use distft.Prelude.{
  ℕ, zero, suc, ◌+◌, ◌-◌, ◌%◌, ◌≤◌, ◌<◌, ◌≡◌, ◌≢◌, refl, ap, ◌∙◌, Bool, true, List, [], ◌∷◌, ◌++◌,
  some, arith, length, length-append, All,
}
use distft.Key.{Text}
use distft.File.Names.{NulFree, terminated}
use distft.Client.Pipe.{
  Pipe, read_byte, fill, read_object, done, push_arg, args_loop, Request, read_cmd, write,
  write_args, write_cmd,
}

-- Rounds for so many bytes, and then so many more.
unfoldable pub after : Text → ℕ → ℕ
after [] more = more
after (c ∷ cs) more = suc (after cs more)

after-length :
    (bytes : Text) (rounds : ℕ)
    → length bytes ≤ rounds
    → after bytes (rounds - length bytes) ≡ rounds
unfolding after
after-length [] rounds h = omega arith
after-length (c ∷ cs) zero h = absurd (omega arith)
after-length (c ∷ cs) (suc rounds) h = ground (arith, after-length cs rounds)

after-append : (xs ys : Text) (more : ℕ) → after (xs ++ ys) more ≡ after xs (after ys more)
unfolding after
after-append [] ys more = refl
after-append (x ∷ xs) ys more = ap suc (after-append xs ys more)

abbrev pub piped : Text → Bool → Pipe
piped bytes fails = record { bytes = bytes; fails = fails }

args_loop-arg :
    (arg rest curr : Text) (count buff more : ℕ) (args : List Text) (fails : Bool)
    → NulFree arg
    → length args < count
    → args_loop (after arg (suc more)) count buff curr args (piped (arg ++ 0 ∷ rest) fails)
      ≡ args_loop more count 0 [] (push_arg (curr ++ arg) args) (piped rest fails)
unfolding args_loop read_byte after
args_loop-arg [] rest curr count buff more args fails h l = ground (arith, append-nil curr)
args_loop-arg (c ∷ cs) rest curr count buff more args fails h l = ground (
  arith,
  args_loop-arg cs rest (curr ++ c ∷ []) count c more args fails h.1 l,
  append_assoc curr (c ∷ []) cs,
)

-- An argument that the pipe carries whole.
abbrev pub Plain : Text → Type 0
Plain arg = NulFree arg × (arg ≢ [])

push_arg-plain : (arg : Text) (args : List Text) → arg ≢ [] → push_arg arg args ≡ args ++ arg ∷ []
unfolding push_arg
push_arg-plain [] args h = absurd (h refl)
push_arg-plain (c ∷ cs) args h = refl

args_loop-full :
    (args : List Text) (p : Pipe) (count buff more : ℕ) (curr : Text)
    → length args ≡ count
    → args_loop (suc more) count buff curr args p ≡ done (args, p)
unfolding args_loop
args_loop-full args p count buff more curr l = ground arith

args_loop-args :
    (new args : List Text) (rest : Text) (count buff more : ℕ) (fails : Bool)
    → All Plain new
    → length args + length new ≡ count
    → args_loop
        (after (terminated new) (suc more))
        count
        buff
        []
        args
        (piped (terminated new ++ rest) fails)
      ≡ done (args ++ new, piped rest fails)
unfolding after terminated
args_loop-args [] args rest count buff more fails h l =
    rw append-nil (args_loop-full args (piped rest fails) count buff more [] (omega arith))
args_loop-args (arg ∷ new) args rest count buff more fails h l =
    rw
      (after-append arg (0 ∷ terminated new) (suc more), append_assoc arg (0 ∷ terminated new) rest)
      (args_loop-arg arg (terminated new ++ rest) [] count buff (after (terminated new) (suc more))
          args fails h.0.0 (omega arith)
        ∙ ap
            (λ (ls : List Text).
              args_loop (after (terminated new) (suc more)) count 0 [] ls
                (piped (terminated new ++ rest) fails))
            (push_arg-plain arg args h.0.1)
        ∙ args_loop-args new (args ++ arg ∷ []) rest count 0 more fails h.1
            (omega (arith, length-append args (arg ∷ [])))
        ∙ ap (λ (ls : List Text). done (ls, piped rest fails)) (append_assoc args (arg ∷ []) new))

-- What `write_cmd` puts on the pipe.
abbrev pub message : Request → Text
message r = r.client_id ++ r.cmd ∷ r.argc ∷ terminated r.args

write_args-terminated :
    (args : List Text) (bytes : Text) (room : ℕ)
    → write_args args (record { written = bytes; outcomes = []; room = room })
      ≡ (true, record { written = bytes ++ terminated args; outcomes = []; room = room })
unfolding write_args write terminated
write_args-terminated [] bytes room = rw append-nil refl
write_args-terminated (arg ∷ args) bytes room =
    write_args-terminated args (bytes ++ (arg ++ 0 ∷ [])) room ∙ simp append_assoc

pub write_cmd-message :
    (r : Request) (bytes : Text) (room : ℕ)
    → write_cmd true r (record { written = bytes; outcomes = []; room = room })
      ≡ (true, record { written = bytes ++ message r; outcomes = []; room = room })
unfolding write_cmd write
write_cmd-message r bytes room =
    write_args-terminated r.args (((bytes ++ r.client_id) ++ r.cmd ∷ []) ++ r.argc ∷ []) room
    ∙ simp append_assoc

fill-whole : (old new rest : Text) → length old ≡ length new → fill old (new ++ rest) ≡ (new, rest)
unfolding fill
fill-whole [] [] rest h = refl
fill-whole (b ∷ old) (c ∷ new) rest h = ground (arith, fill-whole old new rest)
fill-whole [] (c ∷ new) rest h = absurd (omega arith)
fill-whole (b ∷ old) [] rest h = absurd (omega arith)

pub read_object-whole :
    (old new rest : Text) (fails : Bool)
    → length old ≡ length new
    → 0 < length new
    → read_object old (piped (new ++ rest) fails) ≡ some (new, piped rest fails)
unfolding read_object
read_object-whole old [] rest fails h l = absurd (omega arith)
read_object-whole old (c ∷ new) rest fails h l = ground (arith, fill-whole old (c ∷ new) rest)

pub enough-rounds :
    (bytes : Text) (rounds : ℕ)
    → length bytes < rounds
    → after bytes (suc (rounds - length bytes - 1)) ≡ rounds
enough-rounds bytes rounds h =
    ap (after bytes) (omega arith) ∙ after-length bytes rounds (omega arith)

read_args :
    (r : Request) (buff rounds : ℕ) (rest : Text) (fails : Bool)
    → All Plain r.args
    → length r.args ≡ r.argc
    → r.argc < 256
    → length (terminated r.args) < rounds
    → args_loop rounds (r.argc % 256) buff [] [] (piped (terminated r.args ++ rest) fails)
      ≡ done (r.args, piped rest fails)
read_args r buff rounds rest fails h l c n =
    let read =
      args_loop-args r.args [] rest (r.argc % 256) buff (rounds - length (terminated r.args) - 1)
        fails h (omega arith) in
    rw (enough-rounds (terminated r.args) rounds n) at read

-- A command with fewer than 256 arguments, none of which is empty or contains a zero byte, and whose
-- count is theirs, is read as it was written. What stands behind it on the pipe stays there. Enough
-- rounds for the loop are one more than the arguments have bytes, with their terminators.
pub read_cmd-write_cmd :
    (r old : Request) (buff rounds room : ℕ) (rest : Text) (fails : Bool)
    → All Plain r.args
    → length r.args ≡ r.argc
    → r.argc < 256
    → length old.client_id ≡ length r.client_id
    → 0 < length r.client_id
    → length (terminated r.args) < rounds
    → let (wrote, s) = write_cmd true r (record { written = []; outcomes = []; room = room }) in
      (wrote ≡ true)
      × (read_cmd rounds old buff (piped (s.written ++ rest) fails) ≡ done (r, piped rest fails))
unfolding read_cmd read_byte
read_cmd-write_cmd r old buff rounds room rest fails h l c o i n =
    rw (write_cmd-message r [] room) (
      refl,
      rw
          (
            append_assoc r.client_id (r.cmd ∷ r.argc ∷ terminated r.args) rest,
            read_object-whole old.client_id r.client_id (r.cmd ∷ r.argc ∷ terminated r.args ++ rest)
                fails o i,
            read_args r buff rounds rest fails h l c n,
          )
          refl,
    )

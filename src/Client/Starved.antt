-- ===== src/Client/Starved.antt =====
-- The commands after which the daemon's loop in `read_cmd` never ends.
use distft.Prelude.{
  ℕ, zero, suc, ◌%◌, ◌≤◌, ◌<◌, ◌≡◌, refl, true, false, List, [], ◌∷◌, ◌++◌, arith, length,
  length-append, All,
}
use distft.Key.{Text}
use distft.File.{names_loop, push_name}
use distft.File.Names.{NulFree, terminated, non_empty, names_loop-terminated}
use distft.Client.Pipe.{read_byte, running, push_arg, args_loop, Request, read_cmd, write_cmd}
use distft.Client.Messages.{piped, write_cmd-message, read_object-whole}

push_arg-push_name : (curr : Text) (args : List Text) → push_arg curr args ≡ push_name curr args
unfolding push_arg push_name
push_arg-push_name [] args = refl
push_arg-push_name (c ∷ cs) args = refl

-- At the end of the pipe the last byte is read again and again.
at_end :
    (rounds count buff : ℕ) (curr : Text) (args : List Text)
    → (buff ≡ 0 → curr ≡ [])
    → length args < count
    → args_loop rounds count buff curr args (piped [] false) ≡ running
unfolding args_loop read_byte push_arg
at_end zero count buff curr args h l = refl
at_end (suc rounds) count zero curr args h l =
    rw (h refl) (ground (arith, at_end rounds count 0 [] args (λ e. refl) l))
at_end (suc rounds) count (suc b) curr args h l =
    ground
      (arith, at_end rounds count (suc b) (curr ++ suc b ∷ []) args (λ e. absurd (omega arith)) l)

push_name-length : (curr : Text) (args : List Text) → length args ≤ length (push_name curr args)
unfolding push_name
push_name-length [] args = omega arith
push_name-length (c ∷ cs) args = omega (arith, length-append args ((c ∷ cs) ∷ []))

names_loop-length :
    (bytes curr : Text) (args : List Text) → length args ≤ length (names_loop bytes curr args)
unfolding names_loop
names_loop-length [] curr args = omega arith
names_loop-length (zero ∷ bytes) curr args =
    omega (arith, names_loop-length bytes [] (push_name curr args), push_name-length curr args)
names_loop-length (suc c ∷ bytes) curr args =
    ground (arith, names_loop-length bytes (curr ++ suc c ∷ []) args)

starved :
    (rounds count buff : ℕ) (bytes curr : Text) (args : List Text)
    → (buff ≡ 0 → curr ≡ [])
    → length (names_loop bytes curr args) < count
    → args_loop rounds count buff curr args (piped bytes false) ≡ running
unfolding args_loop read_byte names_loop
starved zero count buff bytes curr args h l = refl
starved (suc rounds) count buff [] curr args h l = at_end (suc rounds) count buff curr args h l
starved (suc rounds) count buff (zero ∷ bytes) curr args h l =
    let few = names_loop-length bytes [] (push_name curr args) in
    let short = push_name-length curr args in
    ground (
      arith,
      push_arg-push_name curr args,
      starved rounds count 0 bytes [] (push_name curr args) (λ e. refl) l,
    )
starved (suc rounds) count buff (suc c ∷ bytes) curr args h l =
    let few = names_loop-length bytes (curr ++ suc c ∷ []) args in
    let left : length (names_loop bytes (curr ++ suc c ∷ []) args) < count = ground arith in
    ground (
      arith,
      starved rounds count (suc c) bytes (curr ++ suc c ∷ []) args (λ e. absurd (omega arith)) left,
    )

-- A command that carries fewer arguments that are not empty than its count says is never read: the
-- daemon's loop runs on, however many rounds it is given. So it is with an empty argument among as many as
-- the count says, and with a count that is not reached since the client stopped writing.
pub read_cmd-starved :
    (r old : Request) (buff rounds room : ℕ)
    → All NulFree r.args
    → length (non_empty r.args) < r.argc % 256
    → length old.client_id ≡ length r.client_id
    → 0 < length r.client_id
    → let (wrote, s) = write_cmd true r (record { written = []; outcomes = []; room = room }) in
      (wrote ≡ true) × (read_cmd rounds old buff (piped s.written false) ≡ running)
unfolding read_cmd read_byte
read_cmd-starved r old buff rounds room h l o i = rw (write_cmd-message r [] room) (
  refl,
  rw
      (
        read_object-whole old.client_id r.client_id (r.cmd ∷ r.argc ∷ terminated r.args) false o i,
        starved rounds (r.argc % 256) buff (terminated r.args) [] [] (λ e. refl)
            (rw (names_loop-terminated r.args [] h) l),
      )
      refl,
)

-- ===== src/Client/Pipe.antt =====
-- src/client/daemon.cpp: the messages on the pipes. A pipe that is read is its bytes, and whether a read
-- beyond them fails; otherwise it is at its end, where `read` returns 0 and leaves the buffer as it is.
-- What an uninitialised buffer holds is an argument. A pipe that is written is the bytes so far, how
-- the next writes end, and the room that is left. A process id is the bytes of its object.
use distft.Prelude.{
  ℕ, zero, suc, ◌%◌, Bool, true, false, List, [], ◌∷◌, ◌++◌, Option, none, some, length, ltb, ◌==◌,
  leb, take, ◌-◌, ◌||◌, if◌then◌else◌,
}
use distft.Key.{Text}

pub record Pipe : Type 0 where
  pub bytes : Text
  pub fails : Bool

-- `read(fd, &buff, 1)`: `none` is a negative result.
unfoldable pub read_byte : ℕ → Pipe → Option (ℕ × Pipe)
read_byte buff p = elim (p.bytes) [
  | [] ↦ (elim (p.fails) [ true ↦ none | false ↦ some (buff, p) ])
  | c ∷ cs ↦ some (c, record p { bytes = cs })
]

-- The bytes of an object that a read fills from the front.
unfoldable pub fill : Text → Text → Text × Text
fill [] bytes = ([], bytes)
fill (b ∷ old) [] = (b ∷ old, [])
fill (b ∷ old) (c ∷ bytes) = let (new, rest) = fill old bytes in (c ∷ new, rest)

-- `read(fd, &object, sizeof object)`
unfoldable pub read_object : Text → Pipe → Option (Text × Pipe)
read_object old p = elim (p.bytes) [
  | [] ↦ (elim (p.fails) [ true ↦ none | false ↦ some (old, p) ])
  | c ∷ cs ↦ let (new, rest) = fill old (c ∷ cs) in some (new, record p { bytes = rest })
]

-- How a read of a message ends: `running` is a loop that is out of rounds, `failed` is `false`.
pub data Read {ℓ} (A : Type ℓ) : Type ℓ where
  running failed : Read A
  done : A → Read A

abbrev pub or_failed : {A B : Type 0} → Option A → (A → Read B) → Read B
or_failed none f = failed
or_failed (some a) f = f a

abbrev pub and_then : {A B : Type 0} → Read A → (A → Read B) → Read B
and_then running f = running
and_then failed f = failed
and_then (done a) f = f a

-- `if (curr_arg.length() > 0) args.push_back(curr_arg)`
unfoldable pub push_arg : Text → List Text → List Text
push_arg [] args = args
push_arg (c ∷ cs) args = args ++ (c ∷ cs) ∷ []

-- The loop of `read_cmd` over the arguments, with the rounds left.
unfoldable pub args_loop : ℕ → ℕ → ℕ → Text → List Text → Pipe → Read (List Text × Pipe)
args_loop zero count buff curr args p = running
args_loop (suc rounds) count buff curr args p = elim (ltb (length args) count) [
  | true ↦ or_failed (read_byte buff p) (λ (c, p'). elim (c == 0) [
    | true ↦ args_loop rounds count c [] (push_arg curr args) p'
    | false ↦ args_loop rounds count c (curr ++ c ∷ []) args p'
  ])
  | false ↦ done (args, p)
]

-- What `read_cmd` writes to its reference parameters.
pub record Request : Type 0 where
  pub client_id : Text
  pub cmd : ℕ
  pub argc : ℕ
  pub args : List Text

-- `read_cmd`, over what its buffers hold before.
unfoldable pub read_cmd : ℕ → Request → ℕ → Pipe → Read (Request × Pipe)
unfolding read_byte read_object
read_cmd rounds old buff p = or_failed (read_object old.client_id p) (λ (client_id, p1).
    or_failed (read_byte old.cmd p1) (λ (cmd, p2). or_failed (read_byte old.argc p2) (λ (argc, p3).
      and_then (args_loop rounds (argc % 256) buff [] [] p3) (λ (args, p4).
        done (record { client_id = client_id; cmd = cmd; argc = argc; args = args }, p4)))))

-- One of the loops of `read_err`.
unfoldable pub string_loop : ℕ → ℕ → Text → Pipe → Read (Text × ℕ × Pipe)
string_loop zero buff msg p = running
string_loop (suc rounds) buff msg p = or_failed (read_byte buff p) (λ (c, p'). elim (c == 0) [
  | true ↦ done (msg, c, p')
  | false ↦ string_loop rounds c (msg ++ c ∷ []) p'
])

-- What `read_err` writes to its reference parameters.
pub record Reply : Type 0 where
  pub err : ℕ
  pub err_msg : Text
  pub succ_msg : Text

-- `read_err`, over what its buffers hold before.
unfoldable pub read_err : ℕ → Reply → ℕ → Pipe → Read (Reply × Pipe)
unfolding read_byte
read_err rounds old buff p = or_failed (read_byte old.err p) (λ (err, p1).
    and_then (string_loop rounds buff old.err_msg p1) (λ (err_msg, buff', p2).
      and_then (string_loop rounds buff' old.succ_msg p2) (λ (succ_msg, buff'', p3).
        done (record { err = err; err_msg = err_msg; succ_msg = succ_msg }, p3))))

-- A pipe that is written, whether each of the next writes succeeds, where later ones do, and how many
-- bytes it has room for. What its reader takes meanwhile only makes room.
pub record Sink : Type 0 where
  pub written : Text
  pub outcomes : List Bool
  pub room : ℕ

-- `write(fd, data, length)` on a pipe that blocks until all is written: `false` is a negative result.
unfoldable pub write : Text → Sink → Bool × Sink
write data_bytes s = elim (s.outcomes) [
  | [] ↦ (true, record s { written = s.written ++ data_bytes })
  | true ∷ later ↦ (true, record s { written = s.written ++ data_bytes; outcomes = later })
  | false ∷ later ↦ (false, record s { outcomes = later })
]

-- `PIPE_BUF`, and the capacity of an empty pipe.
abbrev pub pipe_buf : ℕ
pipe_buf = 4096

abbrev pub pipe_capacity : ℕ
pipe_capacity = 65536

-- The bytes that a write which does not block puts on the pipe: all that there is room for. At most
-- `PIPE_BUF` bytes are written at once or not at all. `none` is a negative result.
unfoldable pub fitting : Text → ℕ → Option Text
fitting data_bytes room =
    if leb (length data_bytes) room
    then some data_bytes
    else if leb (length data_bytes) pipe_buf || room == 0
    then none
    else some (take room data_bytes)

-- `write(fd, data, length)` on a pipe that was opened with `O_NONBLOCK`.
unfoldable pub write_at_once : Text → Sink → Bool × Sink
unfolding write fitting
write_at_once data_bytes s = elim (fitting data_bytes s.room) [
  | none ↦ (false, s)
  | some bytes ↦ write bytes (record s { room = s.room - length bytes })
]

abbrev pub and_write : Text → (Sink → Bool × Sink) → Sink → Bool × Sink
and_write bytes k s =
    let (wrote, s') = write bytes s in elim wrote [ true ↦ k s' | false ↦ (false, s') ]

-- The loop of `write_cmd` over the arguments.
unfoldable pub write_args : List Text → Sink → Bool × Sink
unfolding write
write_args [] s = (true, s)
write_args (arg ∷ args) s = and_write (arg ++ 0 ∷ []) (write_args args) s

-- `write_cmd`. The test of the first write is `!write(...)`, which a negative result passes.
unfoldable pub write_cmd : Bool → Request → Sink → Bool × Sink
unfolding write
write_cmd opens r s = elim opens [
  | false ↦ (false, s)
  | true ↦
      let (wrote, s') = write r.client_id s in
      and_write (r.cmd ∷ []) (and_write (r.argc ∷ []) (write_args r.args)) s'
]

abbrev pub then_write : Text → (Sink → Bool × Sink) → Sink → Bool × Sink
then_write bytes k s =
    let (wrote, s') = write_at_once bytes s in elim wrote [ true ↦ k s' | false ↦ (false, s') ]

-- `write_err`: a write that is cut short counts as one that succeeds.
unfoldable pub write_err : Bool → Reply → Sink → Bool × Sink
unfolding write_at_once
write_err opens r s = elim opens [
  | false ↦ (false, s)
  | true ↦
      then_write (r.err ∷ [])
        (then_write (r.err_msg ++ 0 ∷ []) (then_write (r.succ_msg ++ 0 ∷ []) (λ s'. (true, s')))) s
]

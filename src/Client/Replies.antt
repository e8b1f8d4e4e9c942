-- ===== src/Client/Replies.antt =====
-- What comes out of the error pipe of src/client/daemon.cpp: the replies that were written.
use mathlib.Core.List.{append_assoc, append-nil}
use distft.Prelude.{
  ℕ, suc, ◌+◌, ◌≤◌, length-append, ◌-◌, ◌<◌, ◌≡◌, refl, ap, ◌∙◌, false, Bool, true, [], ◌∷◌, ◌++◌,
  arith, length,
}
use distft.Key.{Text}
use distft.File.Names.{NulFree}
use distft.Client.Pipe.{
  read_byte, done, string_loop, Reply, read_err, Sink, then_write, write, write_at_once, fitting,
  write_err,
}
use distft.Client.Messages.{after, piped, enough-rounds}

string_loop-string :
    (msg rest acc : Text) (buff more : ℕ) (fails : Bool)
    → NulFree msg
    → string_loop (after msg (suc more)) buff acc (piped (msg ++ 0 ∷ rest) fails)
      ≡ done (acc ++ msg, 0, piped rest fails)
unfolding string_loop read_byte after
string_loop-string [] rest acc buff more fails h = ground (arith, append-nil acc)
string_loop-string (c ∷ msg) rest acc buff more fails h = ground (
  arith,
  string_loop-string msg rest (acc ++ c ∷ []) c more fails h.1,
  append_assoc acc (c ∷ []) msg,
)

read_string :
    (msg rest acc : Text) (buff rounds : ℕ) (fails : Bool)
    → NulFree msg
    → length msg < rounds
    → string_loop rounds buff acc (piped (msg ++ 0 ∷ rest) fails)
      ≡ done (acc ++ msg, 0, piped rest fails)
read_string msg rest acc buff rounds fails h n =
    let read = string_loop-string msg rest acc buff (rounds - length msg - 1) fails h in
    rw (enough-rounds msg rounds n) at read

-- What `write_err` puts on the pipe.
abbrev pub answer : Reply → Text
answer r = r.err ∷ (r.err_msg ++ 0 ∷ (r.succ_msg ++ 0 ∷ []))

write_at_once-all :
    (data_bytes bytes : Text) (room : ℕ)
    → length data_bytes ≤ room
    → write_at_once data_bytes (record { written = bytes; outcomes = []; room = room }) ≡ (
      true,
      record { written = bytes ++ data_bytes; outcomes = []; room = room - length data_bytes },
    )
unfolding write_at_once write fitting
write_at_once-all data_bytes bytes room l = ground arith

then_write-all :
    (data_bytes bytes : Text) (room : ℕ) (k : Sink → Bool × Sink)
    → length data_bytes ≤ room
    → then_write data_bytes k (record { written = bytes; outcomes = []; room = room })
      ≡ k (record { written = bytes ++ data_bytes; outcomes = []; room = room - length data_bytes })
then_write-all data_bytes bytes room k l =
    ap
      (λ (w : Bool × Sink). elim (w.0) as (λ x. Bool × Sink) [
        | true ↦ k w.1
        | false ↦ (false, w.1)
      ])
      (write_at_once-all data_bytes bytes room l)

-- A reply that there is room for is written whole.
pub write_err-answer :
    (r : Reply) (bytes : Text) (room : ℕ)
    → length r.err_msg + length r.succ_msg + 3 ≤ room
    → (left : ℕ) × (write_err true r (record { written = bytes; outcomes = []; room = room })
        ≡ (true, record { written = bytes ++ answer r; outcomes = []; room = left }))
unfolding write_err
write_err-answer r bytes room l =
    let m : length (r.err_msg ++ 0 ∷ []) ≡ length r.err_msg + 1 =
      length-append r.err_msg (0 ∷ []) in
    let n : length (r.succ_msg ++ 0 ∷ []) ≡ length r.succ_msg + 1 =
      length-append r.succ_msg (0 ∷ []) in
    let last : Sink → Bool × Sink = then_write (r.succ_msg ++ 0 ∷ []) (λ s. (true, s)) in
    let messages : Sink → Bool × Sink = then_write (r.err_msg ++ 0 ∷ []) last in
    let room' = room - 1 - length (r.err_msg ++ 0 ∷ []) in
    (
      room' - length (r.succ_msg ++ 0 ∷ []),
      then_write-all (r.err ∷ []) bytes room messages (omega arith)
          ∙ then_write-all (r.err_msg ++ 0 ∷ []) (bytes ++ r.err ∷ []) (room - 1) last (omega arith)
          ∙ then_write-all (r.succ_msg ++ 0 ∷ []) ((bytes ++ r.err ∷ []) ++ (r.err_msg ++ 0 ∷ []))
              room' (λ s. (true, s)) (omega arith)
          ∙ simp append_assoc,
    )

answer-append :
    (r : Reply) (rest : Text)
    → answer r ++ rest ≡ r.err ∷ (r.err_msg ++ 0 ∷ (r.succ_msg ++ 0 ∷ rest))
answer-append r rest = simp append_assoc

read_answer :
    (r : Reply) (err buff rounds : ℕ) (rest : Text) (fails : Bool)
    → NulFree r.err_msg
    → NulFree r.succ_msg
    → length r.err_msg < rounds
    → length r.succ_msg < rounds
    → read_err rounds
        (record { err = err; err_msg = []; succ_msg = [] })
        buff
        (piped (r.err ∷ (r.err_msg ++ 0 ∷ (r.succ_msg ++ 0 ∷ rest))) fails)
      ≡ done (r, piped rest fails)
unfolding read_err read_byte
read_answer r err buff rounds rest fails h g n m =
    rw
      (
        read_string r.err_msg (r.succ_msg ++ 0 ∷ rest) [] buff rounds fails h n,
        read_string r.succ_msg rest [] 0 rounds fails g m,
      )
      refl

-- A reply whose messages contain no zero byte is read as it was written, into empty strings, with more
-- rounds for each loop than its message has bytes.
pub read_err-answer :
    (r : Reply) (err buff rounds : ℕ) (rest : Text) (fails : Bool)
    → NulFree r.err_msg
    → NulFree r.succ_msg
    → length r.err_msg < rounds
    → length r.succ_msg < rounds
    → read_err rounds
        (record { err = err; err_msg = []; succ_msg = [] })
        buff
        (piped (answer r ++ rest) fails)
      ≡ done (r, piped rest fails)
read_err-answer r err buff rounds rest fails h g n m =
    rw (answer-append r rest) (read_answer r err buff rounds rest fails h g n m)

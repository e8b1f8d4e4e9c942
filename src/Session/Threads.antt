-- ===== src/Session/Threads.antt =====
-- The threads of a session: the loops of src/dht/rpc.cpp, started by `init_rpc_threads`, and `teardown` of
-- src/dht/session.cpp, which joins them in `shutdown_rpc_threads`. A step is what one thread does
-- between two points where another may run; the passes themselves stand in Session/Passes and
-- Session/Chunks.
use distft.Prelude.{ℕ, suc, ◌≡◌, Bool, true, false, List, [], ◌∷◌}

-- `republish_chunks_thread_fn`, `cleanup_chunks_thread_fn` and `refresh_peer_thread_fn`
pub data Job : Type 0 where
  republish cleanup refresh : Job

-- A thread sleeps, is in a pass, waits in a pass for a lock that it holds itself, or has returned. A pass
-- of the republishing may find a chunk that is due.
pub data Thread : Type 0 where
  sleeping : Job → Thread
  passing : Job → Bool → Thread
  stuck returned : Thread

unfoldable pub may_be_due : Job → Bool
may_be_due republish = true
may_be_due cleanup = false
may_be_due refresh = false

-- A step of one thread: it wakes and tests `dying`, or its pass ends. A pass that finds a due chunk does
-- not end: `publish` locks what the thread has locked.
pub data Turn (dying : Bool) : Thread → Thread → Type 0 where
  goes_on : (j : Job) → dying ≡ false → Turn dying (sleeping j) (passing j false)
  goes_due :
      (j : Job) → dying ≡ false → may_be_due j ≡ true → Turn dying (sleeping j) (passing j true)
  returns : (j : Job) → dying ≡ true → Turn dying (sleeping j) returned
  ends : (j : Job) → Turn dying (passing j false) (sleeping j)
  sticks : (j : Job) → Turn dying (passing j true) stuck

-- A step of one of the threads.
pub data Turns (dying : Bool) : List Thread → List Thread → Type 0 where
  first : {a b : Thread} {ts : List Thread} → Turn dying a b → Turns dying (a ∷ ts) (b ∷ ts)
  later : {a : Thread} {ts us : List Thread} → Turns dying ts us → Turns dying (a ∷ ts) (a ∷ us)

-- Where `teardown` is: not called, joining the threads, or past `shutdown_rpc_threads`.
pub data Ending : Type 0 where
  alive joining down : Ending

pub record Threads : Type 0 where
  pub dying : Bool
  pub rpc_threads : List Thread
  pub ending : Ending

-- `init_rpc_threads`: republish, cleanup and refresh.
abbrev pub init_rpc_threads : Threads
init_rpc_threads = record {
  dying = false;
  rpc_threads = sleeping republish ∷ sleeping cleanup ∷ sleeping refresh ∷ [];
  ending = alive;
}

pub data Step : Threads → Threads → Type 0 where
  runs :
      (s : Threads) (ts : List Thread)
      → Turns s.dying s.rpc_threads ts
      → Step s (record s { rpc_threads = ts })
  marks : (s : Threads) → s.ending ≡ alive → Step s (record s { dying = true; ending = joining })
  joins :
      (s : Threads) (ts : List Thread)
      → s.ending ≡ joining
      → s.rpc_threads ≡ returned ∷ ts
      → Step s (record s { rpc_threads = ts })
  leaves :
      (s : Threads) → s.ending ≡ joining → s.rpc_threads ≡ [] → Step s (record s { ending = down })

-- So many steps.
pub data Run : ℕ → Threads → Threads → Type 0 where
  here : (s : Threads) → Run 0 s s
  next : {n : ℕ} {s t u : Threads} → Step s t → Run n t u → Run (suc n) s u

-- ===== src/Session.antt =====
-- src/dht/session.h: the state of a session, and the monad of its methods. A method reads and writes
-- the session and the world, which is the network with its other peers and the clock, and may end in a
-- fault. src/dht/dht.proto: the messages.
pub mod Network
pub mod Peers
pub mod Callers
pub mod Handlers
pub mod Lookup
pub mod Keeps
pub mod Traffic
pub mod Acts
pub mod Update
pub mod Wire
pub mod Near
pub mod Nearest
pub mod Found
pub mod Lonely
pub mod Heard
pub mod Honest
pub mod Once
pub mod Asked
pub mod Local
pub mod Examples
pub mod Cleanup
pub mod Serving
pub mod Chunks
pub mod Passes
pub mod Life
pub mod Republish
pub mod Running
pub mod Threads
pub mod Joined
pub mod Lived
pub mod Refreshing
pub mod Trials
pub mod Calls
pub mod Files
pub mod Samples
use distft.Prelude.{ℕ, ◌+◌, Bool, List, [], ◌∷◌, Option, none, some, ite}
use distft.Key.{Key, Key-discrete, Text}
use distft.Router.{Router}

-- `struct Chunk`. Times are in nanoseconds.
pub record Chunk : Type 0 where
  pub original_publisher : Bool
  pub key : Key
  pub content : Text
  pub last_published : ℕ
  pub original_publish : ℕ

-- `std::unordered_map<Key, Chunk*>`
abbrev pub ChunkMap : Type 0
ChunkMap = List (Key × Chunk)

unfoldable pub find_chunk : Key → ChunkMap → Option Chunk
find_chunk k [] = none
find_chunk k ((j, c) ∷ m) = ite (Key-discrete j k) (some c) (find_chunk k m)

-- `chunks[key] = chunk`
unfoldable pub put_chunk : Key → Chunk → ChunkMap → ChunkMap
put_chunk k c [] = (k, c) ∷ []
put_chunk k c ((j, d) ∷ m) = ite (Key-discrete j k) ((k, c) ∷ m) ((j, d) ∷ put_chunk k c m)

unfoldable pub erase_chunk : Key → ChunkMap → ChunkMap
erase_chunk k [] = []
erase_chunk k ((j, d) ∷ m) = ite (Key-discrete j k) m ((j, d) ∷ erase_chunk k m)

-- The fields of `Session` that its methods compute with, and `meta->dead_peers`.
pub record Session : Type 0 where
  pub dying : Bool
  pub router : Router
  pub chunks : ChunkMap
  pub dead_peers : ℕ

-- An exception of the standard library, undefined behaviour, a lock that its own thread waits for, or a
-- loop out of rounds.
pub data Fault : Type 0 where
  thrown undefined deadlocked out_of_rounds : Fault

pub data Result {ℓ} (A : Type ℓ) : Type ℓ where
  ok : A → Result A
  err : Fault → Result A

pub record Env (W : Type 0) : Type 0 where
  pub session : Session
  pub world : W

abbrev pub M : Type 0 → Type 0 → Type 0
M W A = Env W → Result (A × Env W)

infixl 5 ◌>>=◌ ◌>>◌
abbrev pub ◌>>=◌ : {W A B : Type 0} → M W A → (A → M W B) → M W B
◌>>=◌ m f s = elim (m s) [ err e ↦ err e | ok (a, s') ↦ f a s' ]

abbrev pub ◌>>◌ : {W B : Type 0} → M W (Unit {0}) → M W B → M W B
◌>>◌ m k s = elim (m s) [ err e ↦ err e | ok (a, s') ↦ k s' ]

abbrev pub return : {W A : Type 0} → A → M W A
return a s = ok (a, s)

abbrev pub fail : {W A : Type 0} → Fault → M W A
fail e s = err e

abbrev pub get_session : {W : Type 0} → M W Session
get_session s = ok (s.session, s)

abbrev pub get_world : {W : Type 0} → M W W
get_world s = ok (s.world, s)

abbrev pub set_router : {W : Type 0} → Router → M W (Unit {0})
set_router r s = ok (tt, record s { session = record (s.session) { router = r } })

abbrev pub set_dying : {W : Type 0} → Bool → M W (Unit {0})
set_dying b s = ok (tt, record s { session = record (s.session) { dying = b } })

abbrev pub set_chunks : {W : Type 0} → ChunkMap → M W (Unit {0})
set_chunks m s = ok (tt, record s { session = record (s.session) { chunks = m } })

abbrev pub count_dead : {W : Type 0} → M W (Unit {0})
count_dead s =
    ok (tt, record s { session = record (s.session) { dead_peers = s.session.dead_peers + 1 } })

-- A value that may be missing, where the code throws.
abbrev pub or_throw : {W A : Type 0} → Option A → M W A
or_throw none s = err thrown
or_throw (some a) s = ok (a, s)

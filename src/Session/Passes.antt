-- ===== src/Session/Passes.antt =====
-- src/dht/rpc.cpp: one pass of `republish_chunks_thread_fn` and of `refresh_peer_thread_fn`.
use distft.Prelude.{
  ℕ, ◌-◌, ◌/◌, Bool, false, ◌||◌, List, [], ◌∷◌, none, some, if◌then◌else◌, length, leb,
}
use distft.Key.{Key, Peer, dist, dist_geq, filled, keybits}
use distft.Router.{get_self_peer, random_per_bucket_peers}
use distft.Session.Network.{Network}
use distft.Session.{
  Chunk, ChunkMap, M, undefined, deadlocked, ◌>>=◌, ◌>>◌, return, fail, get_session, get_world,
  set_router, set_chunks, find_chunk, erase_chunk,
}
use distft.Session.Callers.{or_undefined}
use distft.Session.Lookup.{node_lookup}
use distft.Session.Chunks.{store_all}
use distft.Tree.{second, kbucket_max}

-- `CHUNK_REPUBLISH_TIME`, in seconds
abbrev pub chunk_republish_time : ℕ
chunk_republish_time = 3600

-- `time_since_publish >= unpublished_time`, where a time that is negative is none.
unfoldable pub is_stale : ℕ → Chunk → Bool
is_stale now c = leb chunk_republish_time ((now - c.last_published) / second)

unfoldable pub republish_keys : ℕ → ChunkMap → List Key
republish_keys now [] = []
republish_keys now ((k, c) ∷ m) =
    if is_stale now c then k ∷ republish_keys now m else republish_keys now m

module _ (net : Network) where
  open net use {World, clock}

  -- `publish` in a thread that holds the lock of the chunks: to keep the chunk, it waits for the lock.
  unfoldable pub publish_locked : Chunk → Bool → M World (Unit {0})
  unfolding store_all
  publish_locked chunk force = do
    buffer ← node_lookup net chunk.key
    farthest ←
        store_all net kbucket_max chunk force (record { value = filled keybits false }) buffer
    s ← get_session
    if leb (length buffer) kbucket_max
          || dist_geq farthest (dist chunk.key (get_self_peer s.router).key)
        then fail deadlocked
        else return tt

  -- The loop over the keys to republish. A key without a chunk gives a null pointer.
  unfoldable pub republish_all : List Key → M World (Unit {0})
  unfolding publish_locked
  republish_all [] = return tt
  republish_all (key ∷ keys) = do
    s ← get_session
    elim (find_chunk key s.chunks) [
      | none ↦ fail undefined
      | some chunk ↦
          (set_chunks (erase_chunk key s.chunks)
            >> (publish_locked chunk false >> republish_all keys))
    ]

  -- One pass of `republish_chunks_thread_fn`. The clock is read once.
  unfoldable pub republish_pass : M World (Unit {0})
  unfolding republish_all republish_keys is_stale
  republish_pass = do
    s ← get_session
    w ← get_world
    republish_all (republish_keys (clock w) s.chunks)

  -- `router->random_per_bucket_peers`, whose second reading of the clock is `later`.
  unfoldable pub random_peers : (ℕ → ℕ) → ℕ → ℕ → M World (List Peer)
  unfolding random_per_bucket_peers
  random_peers rand later unaccessed = do
    s ← get_session
    w ← get_world
    (ps, r) ← or_undefined (random_per_bucket_peers rand s.router (clock w) later unaccessed)
    set_router r
    return ps

  -- The loops that look up each peer.
  unfoldable pub lookup_all : List Peer → M World (Unit {0})
  lookup_all [] = return tt
  lookup_all (p ∷ ps) = do buffer ← node_lookup net p.key; lookup_all ps

  -- One pass of `refresh_peer_thread_fn`.
  unfoldable pub refresh_pass : (ℕ → ℕ) → ℕ → M World (Unit {0})
  unfolding random_peers lookup_all
  refresh_pass rand later = do ps ← random_peers rand later 3600; lookup_all ps

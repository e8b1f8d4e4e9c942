-- ===== src/Session/Chunks.antt =====
-- src/dht/session.cpp: `set`, `publish` and `get`, and the pass of src/dht/rpc.cpp that removes
-- expired chunks.
use distft.Prelude.{
  ℕ, zero, suc, ◌+◌, ◌*◌, Bool, true, false, ◌||◌, List, [], ◌∷◌, Option, none, some, if◌then◌else◌,
  length, leb,
}
use distft.Key.{Key, Peer, Text, Dist, dist, dist_less, dist_geq, filled, keybits}
use distft.Router.{get_self_peer}
use distft.Session.Network.{Network}
use distft.Session.{
  Chunk, ChunkMap, M, ◌>>=◌, return, get_session, get_world, set_chunks, find_chunk, put_chunk,
  erase_chunk,
}
use distft.Session.Callers.{store}
use distft.Session.Lookup.{node_lookup, value_lookup}
use distft.Tree.{second, kbucket_max}

-- `CHUNK_EXPIRE_TIME`, in seconds
abbrev pub chunk_expire_time : ℕ
chunk_expire_time = 86400

-- `std::max(d, e)` on distances.
unfoldable pub larger : Dist → Dist → Dist
larger d e = if dist_less d e then e else d

-- The test by which `cleanup_chunks_thread_fn` finds expired chunks, as it is written:
-- `original_publish - now >= expire_time`.
unfoldable pub is_expired : ℕ → Chunk → Bool
is_expired now c = leb (now + chunk_expire_time * second) c.original_publish

unfoldable pub expired_keys : ℕ → ChunkMap → List Key
expired_keys now [] = []
expired_keys now ((k, c) ∷ m) =
    if is_expired now c then k ∷ expired_keys now m else expired_keys now m

unfoldable pub erase_all : List Key → ChunkMap → ChunkMap
erase_all [] m = m
erase_all (k ∷ ks) m = erase_all ks (erase_chunk k m)

module _ (net : Network) where
  open net use {World, clock}

  -- The loop of `publish` over the closest peers: the largest of their distances.
  unfoldable pub store_all : ℕ → Chunk → Bool → Dist → List Peer → M World Dist
  store_all zero chunk force d ps = return d
  store_all (suc n) chunk force d [] = return d
  store_all (suc n) chunk force d (p ∷ ps) = do
    stored ← store net p chunk force
    store_all n chunk force (larger d (dist chunk.key p.key)) ps

  -- `publish`
  unfoldable pub publish : Chunk → Bool → M World (Unit {0})
  unfolding store_all larger
  publish chunk force = do
    buffer ← node_lookup net chunk.key
    farthest ← store_all kbucket_max chunk force (record { value = filled keybits false }) buffer
    s ← get_session
    if leb (length buffer) kbucket_max
          || dist_geq farthest (dist chunk.key (get_self_peer s.router).key)
        then set_chunks (put_chunk chunk.key chunk s.chunks)
        else return tt

  -- `set`
  unfoldable pub set : Key → Text → Bool → M World (Unit {0})
  unfolding publish
  set key content force = do
    w ← get_world
    publish
        (record {
          original_publisher = true;
          key = key;
          content = content;
          last_published = clock w;
          original_publish = clock w;
        })
        force

  -- `get`: `none` is `false`.
  unfoldable pub get : Key → M World (Option Text)
  get search_key = do
    s ← get_session
    elim (find_chunk search_key s.chunks) [
      | some chunk ↦ return (some chunk.content)
      | none ↦ value_lookup net search_key
    ]

  -- One pass of `cleanup_chunks_thread_fn`.
  unfoldable pub cleanup_pass : M World (Unit {0})
  unfolding expired_keys erase_all is_expired
  cleanup_pass = do
    s ← get_session
    w ← get_world
    set_chunks (erase_all (expired_keys (clock w) s.chunks) s.chunks)

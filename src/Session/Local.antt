-- ===== src/Session/Local.antt =====
-- The chunks that `Store`, `set` and `get` leave and find in the session itself.
use distft.Prelude.{
  ℕ, ◌*◌, ◌≤◌, ◌≡◌, refl, Bool, true, false, ◌||◌, List, [], ◌∷◌, Option, none, some, ite,
  if◌then◌else◌, arith, length, leb,
}
use distft.Key.{Key, Key-discrete, Peer, Text, Dist, dist, dist_geq, key_of_string, keybits, filled}
use distft.Router.{get_self_peer}
use distft.Session.Network.{Network, RpcPeer, StoreRequest, StoreResponse}
use distft.Session.{
  Session, Chunk, ChunkMap, Env, M, Result, ok, err, return, find_chunk, put_chunk, ◌>>=◌, ◌>>◌,
  or_throw, get_session, get_world, set_chunks,
}
use distft.Session.Callers.{size_of_int32, copy_bytes, or_undefined}
use distft.Session.Peers.{handler_prelims}
use distft.Session.Handlers.{handle_store}
use distft.Session.Lookup.{node_lookup, value_lookup}
use distft.Session.Chunks.{store_all, publish, set, get}
use distft.Tree.{kbucket_max, second}
use distft.Session.Keeps.{After, handler_prelims-Keeps}
use distft.Session.Traffic.{node_lookup-Keeps}
use distft.Session.Nearest.{Closed, node_lookup-Closed}
use distft.Session.Serving.{Holds, Holds-Stable, store_all-Keeps}

abbrev contents : Option Chunk → Option Text
contents none = none
contents (some c) = some c.content

-- The content that a map holds under a key.
abbrev pub content_at : Key → ChunkMap → Option Text
content_at k m = contents (find_chunk k m)

pub find_chunk-put_chunk :
    (k : Key) (c : Chunk) (m : ChunkMap) (j : Key)
    → find_chunk j (put_chunk k c m) ≡ ite (Key-discrete k j) (some c) (find_chunk j m)
unfolding find_chunk put_chunk
find_chunk-put_chunk k c [] j = ground arith
find_chunk-put_chunk k c ((i, d) ∷ m) j = ground (arith, find_chunk-put_chunk k c m j)

content_at-put_chunk :
    (k : Key) (c : Chunk) (m : ChunkMap) (j : Key)
    → content_at j (put_chunk k c m) ≡ ite (Key-discrete k j) (some c.content) (content_at j m)
content_at-put_chunk k c m j = ground (arith, find_chunk-put_chunk k c m j)

module _ (net : Network) where
  open net use {World, clock}

  put_under :
      (k j : Key) (c : Chunk) (m : ChunkMap) (s : Env World)
      → Holds m s.session
      → content_at j (put_chunk k c s.session.chunks)
        ≡ ite (Key-discrete k j) (some c.content) (content_at j m)
  put_under k j c m s h = rw (← h) (content_at-put_chunk k c s.session.chunks j)

  stored :
      (r : StoreRequest) (m : ChunkMap) (p : Result (RpcPeer × Env World)) (o : Option Key)
      (b : Option Text) (k j : Key) (bytes : Text) (reply : StoreResponse) (s' : Env World)
      → After (Holds m) p
      → o ≡ some k
      → b ≡ some bytes
      → (elim p as (λ x. Result (StoreResponse × Env World)) [
        | err e ↦ err e
        | ok (receiver, s) ↦
            (or_throw o >>= λ key. or_undefined b >>= λ bytes'. get_session >>= λ t.
            get_world >>= λ w.
            (set_chunks (
                put_chunk key
                  (record {
                    original_publisher = false;
                    key = key;
                    content = bytes';
                    last_published = clock w;
                    original_publish = r.original_publish * second;
                  })
                  t.chunks)
              >> return {A = StoreResponse} (record { receiver = receiver })))
              s
      ])
        ≡ ok (reply, s')
      → content_at j s'.session.chunks ≡ ite (Key-discrete k j) (some bytes) (content_at j m)
  stored r m (err e) o b k j bytes reply s' h eo eb g = ground arith
  stored r m (ok (receiver, s)) none b k j bytes reply s' h eo eb g = ground arith
  stored r m (ok (receiver, s)) (some key) none k j bytes reply s' h eo eb g = ground arith
  stored r m (ok (receiver, s)) (some key) (some bytes') k j bytes reply s' h eo eb g = ground (
    arith,
    put_under key j
        (record {
          original_publisher = false;
          key = key;
          content = bytes';
          last_published = clock s.world;
          original_publish = r.original_publish * second;
        })
        m s h,
  )

  -- A `Store` whose key parses and whose bytes can be copied, and that is answered, leaves these
  -- bytes under its key, and the content that every other key holds as it was.
  pub handle_store-content :
      (r : StoreRequest) (s s' : Env World) (reply : StoreResponse) (k j : Key) (bytes : Text)
      → key_of_string r.chunk_key ≡ some k
      → copy_bytes (size_of_int32 r.size) r.content ≡ some bytes
      → handle_store net r s ≡ ok (reply, s')
      → content_at j s'.session.chunks
        ≡ ite (Key-discrete k j) (some bytes) (content_at j s.session.chunks)
  unfolding handle_store
  handle_store-content r s s' reply k j bytes eo eb g =
      stored r s.session.chunks (handler_prelims net r.sender s) (key_of_string r.chunk_key)
        (copy_bytes (size_of_int32 r.size) r.content) k j bytes reply s'
        ((handler_prelims-Keeps net (Holds s.session.chunks) (Holds-Stable s.session.chunks)
            r.sender).run
          s refl)
        eo eb g

  -- What `publish` does after the stores, with the test that it makes.
  put_last :
      (chunk : Chunk) (m : ChunkMap) (b : Bool) (t : Env World) (j : Key) (s' : Env World)
      → b ≡ true
      → Holds m t.session
      → (if b then set_chunks (put_chunk chunk.key chunk t.session.chunks) else return tt) t
        ≡ ok (tt, s')
      → content_at j s'.session.chunks
        ≡ ite (Key-discrete chunk.key j) (some chunk.content) (content_at j m)
  put_last chunk m true t j s' i h g = ground (arith, put_under chunk.key j chunk m t h)
  put_last chunk m false t j s' i h g = ground arith

  stores_kept :
      (chunk : Chunk) (m : ChunkMap) (b : Dist → Session → Bool) (r : Result (Dist × Env World))
      (j : Key) (s' : Env World)
      → ((d : Dist) (t : Session) → b d t ≡ true)
      → After (Holds m) r
      → (elim r as (λ x. Result (Unit {0} × Env World)) [
        | err e ↦ err e
        | ok (d, t) ↦
            (if b d t.session
                then set_chunks (put_chunk chunk.key chunk t.session.chunks)
                else return tt)
              t
      ])
        ≡ ok (tt, s')
      → content_at j s'.session.chunks
        ≡ ite (Key-discrete chunk.key j) (some chunk.content) (content_at j m)
  stores_kept chunk m b (err e) j s' i h g = ground arith
  stores_kept chunk m b (ok (d, t)) j s' i h g =
      put_last chunk m (b d t.session) t j s' (i d t.session) h g

  leb-or : (n m : ℕ) (b : Bool) → n ≤ m → (leb n m || b) ≡ true
  leb-or n m b h = ground arith

  -- What `publish` does with the result of the lookup.
  kept :
      (chunk : Chunk) (force : Bool) (m : ChunkMap) (far : Dist)
      (r : Result (List Peer × Env World)) (j : Key) (s' : Env World)
      → Closed net chunk.key r
      → After (Holds m) r
      → (elim r as (λ x. Result (Unit {0} × Env World)) [
        | err e ↦ err e
        | ok (buffer, s) ↦
            (store_all net kbucket_max chunk force far buffer >>= λ farthest. get_session >>= λ t.
            (if leb (length buffer) kbucket_max
                || dist_geq farthest (dist chunk.key (get_self_peer t.router).key)
              then set_chunks (put_chunk chunk.key chunk t.chunks)
              else return tt))
              s
      ])
        ≡ ok (tt, s')
      → content_at j s'.session.chunks
        ≡ ite (Key-discrete chunk.key j) (some chunk.content) (content_at j m)
  kept chunk force m far (err e) j s' c h g = ground arith
  kept chunk force m far (ok (buffer, s)) j s' c h g =
      stores_kept chunk m
        (λ farthest t.
          leb (length buffer) kbucket_max
          || dist_geq farthest (dist chunk.key (get_self_peer t.router).key))
        (store_all net kbucket_max chunk force far buffer s) j s'
        (λ d t. leb-or (length buffer) kbucket_max _ c.0)
        ((store_all-Keeps net (Holds m) (Holds-Stable m) kbucket_max chunk force far buffer).run s
          h)
        g

  -- A `set` that ends leaves the content under its key in the session itself, whatever the peers
  -- answer, and the content that every other key holds as it was.
  pub set-content :
      (k j : Key) (d : Text) (force : Bool) (s s' : Env World)
      → set net k d force s ≡ ok (tt, s')
      → content_at j s'.session.chunks
        ≡ ite (Key-discrete k j) (some d) (content_at j s.session.chunks)
  unfolding set publish
  set-content k j d force s s' g =
      kept
        (record {
          original_publisher = true;
          key = k;
          content = d;
          last_published = clock s.world;
          original_publish = clock s.world;
        })
        force s.session.chunks (record { value = filled keybits false }) (node_lookup net k s) j s'
        (node_lookup-Closed net k s)
        ((node_lookup-Keeps net (Holds s.session.chunks) (Holds-Stable s.session.chunks) k).run s
          refl)
        g

  got :
      (k : Key) (d : Text) (s : Env World) (o : Option Chunk)
      → contents o ≡ some d
      → (elim o as (λ x. M World (Option Text)) [
        | some chunk ↦ return (some chunk.content)
        | none ↦ value_lookup net k
      ])
          s
        ≡ ok (some d, s)
  got k d s none h = ground arith
  got k d s (some c) h = ground arith

  -- A `get` of a key with content in the session itself returns it.
  pub get-content_at :
      (k : Key) (d : Text) (s : Env World)
      → content_at k s.session.chunks ≡ some d
      → get net k s ≡ ok (some d, s)
  unfolding get
  get-content_at k d s h = got k d s (find_chunk k s.session.chunks) h

  -- After a `set` that ends, a `get` of the same key returns the content at once: it changes nothing and
  -- calls no peer.
  pub set-get :
      (k : Key) (d : Text) (force : Bool) (s s' : Env World)
      → set net k d force s ≡ ok (tt, s')
      → get net k s' ≡ ok (some d, s')
  set-get k d force s s' g = get-content_at k d s' (ground (arith, set-content k k d force s s' g))

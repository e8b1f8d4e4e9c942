-- ===== src/Session/Serving.antt =====
-- The invariant of the router and the chunks over the methods of a session.
use distft.Prelude.{
  ℕ, zero, suc, ◌≡◌, Bool, true, false, ◌||◌, List, [], ◌∷◌, none, some, length, map, leb,
}
use distft.Key.{Key, Peer, Text, Dist, dist, dist_geq, key_of_string, keybits, filled}
use distft.Router.{get_self_peer}
use distft.Router.Laws.{Inv, attempt_insert_peer-Inv, evict_peer-Inv}
use distft.Router.Search.{closest_peers-Inv}
use distft.Router.History.{random_per_bucket_peers-Inv}
use distft.Session.Network.{
  Network, FindNodeRequest, FindValueRequest, StoreInitRequest, StoreRequest, PingRequest,
}
use distft.Session.{Session, Chunk, ChunkMap, M, return, find_chunk, put_chunk, set_chunks, ◌>>=◌}
use distft.Session.Peers.{local_to_rpc_peer}
use distft.Session.Callers.{size_of_int32, copy_bytes, int32_of}
use distft.Session.Handlers.{
  handle_find_node, handle_find_value, handle_store_init, handle_store, handle_ping,
}
use distft.Session.Chunks.{
  larger, store_all, publish, set, get, cleanup_pass, expired_keys, erase_all,
}
use distft.Tree.{kbucket_max}
use distft.Session.Keeps.{
  Stable, Keeps, Keeps->>=, Keeps->>, Keeps-Option, Keeps-if, Keeps-return, Keeps-get_session,
  Keeps-get_world, Keeps-or_throw, handler_prelims-Keeps,
}
use distft.Session.Traffic.{
  search_router-Keeps, store-Keeps, node_lookup-Keeps, value_lookup-Keeps, Keeps-or_undefined,
}

abbrev pub Sound : Session → Type 0
Sound s = Inv s.router

pub Sound-Stable : Stable Sound
Sound-Stable = record {
  inserts = λ s p now h. attempt_insert_peer-Inv s.router p now h;
  evicts = λ s k h. evict_peer-Inv s.router k h;
  searches = λ s k n now h. closest_peers-Inv s.router k n now h;
  refreshes = λ s r rand now later unaccessed ps e h.
      random_per_bucket_peers-Inv rand s.router r now later unaccessed ps e h;
  counts = λ s h. h;
}

abbrev pub Holds : ChunkMap → Session → Type 0
Holds m s = s.chunks ≡ m

pub Holds-Stable : (m : ChunkMap) → Stable (Holds m)
Holds-Stable m = record {
  inserts = λ s p now h. h;
  evicts = λ s k h. h;
  searches = λ s k n now h. h;
  refreshes = λ s r rand now later unaccessed ps e h. h;
  counts = λ s h. h;
}

module _ (net : Network) (P : Session → Type 0) (stable : Stable P) where
  open net use {World, clock}

  pub find_node-serves : (r : FindNodeRequest) → Keeps P (handle_find_node net r)
  unfolding handle_find_node
  find_node-serves r = Keeps->>= P (handler_prelims-Keeps net P stable r.sender) (λ receiver.
      Keeps->>= P (Keeps-or_throw P (key_of_string r.search_key)) (λ k.
        Keeps->>= P (search_router-Keeps net P stable k kbucket_max) (λ found.
          Keeps-return P
            (record { receiver = receiver; closest_peers = map local_to_rpc_peer found }))))

  pub find_value-serves : (r : FindValueRequest) → Keeps P (handle_find_value net r)
  unfolding handle_find_value
  find_value-serves r = Keeps->>= P (handler_prelims-Keeps net P stable r.sender) (λ receiver.
      Keeps->>= P (Keeps-or_throw P (key_of_string r.search_key)) (λ k.
        Keeps->>= P (Keeps-get_session P) (λ s.
          Keeps-Option P (find_chunk k s.chunks)
            (Keeps->>= P (search_router-Keeps net P stable k kbucket_max) (λ found.
              Keeps-return P (record {
                receiver = receiver;
                found_value = false;
                content = [];
                size = 0;
                closest_peers = map local_to_rpc_peer found;
              })))
            (λ chunk. Keeps-return P (record {
              receiver = receiver;
              found_value = true;
              content = chunk.content;
              size = int32_of (length chunk.content);
              closest_peers = [];
            })))))

  pub store_init-serves : (r : StoreInitRequest) → Keeps P (handle_store_init net r)
  unfolding handle_store_init
  store_init-serves r = Keeps->>= P (handler_prelims-Keeps net P stable r.sender) (λ receiver.
      Keeps->>= P (Keeps-or_throw P (key_of_string r.chunk_key)) (λ k.
        Keeps->>= P (Keeps-get_session P) (λ s. Keeps-return P (record {
          receiver = receiver;
          continue_store = elim (find_chunk k s.chunks) [ none ↦ true | some c ↦ false ];
        }))))

  pub ping-serves : (r : PingRequest) → Keeps P (handle_ping net r)
  unfolding handle_ping
  ping-serves r =
      Keeps->>= P (handler_prelims-Keeps net P stable r.sender)
        (λ receiver. Keeps-return P (record { receiver = receiver }))

  pub store_all-Keeps :
      (n : ℕ) (chunk : Chunk) (force : Bool) (d : Dist) (ps : List Peer)
      → Keeps P (store_all net n chunk force d ps)
  unfolding store_all
  store_all-Keeps zero chunk force d ps = Keeps-return P d
  store_all-Keeps (suc n) chunk force d [] = Keeps-return P d
  store_all-Keeps (suc n) chunk force d (p ∷ ps) =
      Keeps->>= P (store-Keeps net P stable p chunk force)
        (λ stored. store_all-Keeps n chunk force (larger d (dist chunk.key p.key)) ps)

-- The requests of the service.
pub data Request : Type 0 where
  finds_node : FindNodeRequest → Request
  finds_value : FindValueRequest → Request
  inits_store : StoreInitRequest → Request
  stores : StoreRequest → Request
  pings : PingRequest → Request

abbrev pub skip : {W A : Type 0} → M W A → M W (Unit {0})
skip m = m >>= λ a. return tt

abbrev pub serve : (net : Network) → Request → M (net.World) (Unit {0})
serve net (finds_node r) = skip (handle_find_node net r)
serve net (finds_value r) = skip (handle_find_value net r)
serve net (inits_store r) = skip (handle_store_init net r)
serve net (stores r) = skip (handle_store net r)
serve net (pings r) = skip (handle_ping net r)

pub Keeps-skip : {W A : Type 0} (P : Session → Type 0) {m : M W A} → Keeps P m → Keeps P (skip m)
Keeps-skip P h = Keeps->>= P h (λ a. Keeps-return P tt)

-- A property that the calls of the router keep, and that the chunks are no part of.
module _ (net : Network) (P : Session → Type 0) (stable : Stable P)
    (put : (m : ChunkMap) → Keeps {W = net.World} P (set_chunks m)) where
  open net use {World, clock}

  store-serves : (r : StoreRequest) → Keeps P (handle_store net r)
  unfolding handle_store
  store-serves r = Keeps->>= P (handler_prelims-Keeps net P stable r.sender) (λ receiver.
      Keeps->>= P (Keeps-or_throw P (key_of_string r.chunk_key)) (λ k.
        Keeps->>= P (Keeps-or_undefined net P stable (copy_bytes (size_of_int32 r.size) r.content))
          (λ bytes. Keeps->>= P (Keeps-get_session P) (λ s.
            Keeps->>= P (Keeps-get_world P)
              (λ w. Keeps->> P (put _) (Keeps-return P (record { receiver = receiver })))))))

  pub serve-Keeps : (r : Request) → Keeps P (serve net r)
  serve-Keeps (finds_node r) = Keeps-skip P (find_node-serves net P stable r)
  serve-Keeps (finds_value r) = Keeps-skip P (find_value-serves net P stable r)
  serve-Keeps (inits_store r) = Keeps-skip P (store_init-serves net P stable r)
  serve-Keeps (stores r) = Keeps-skip P (store-serves r)
  serve-Keeps (pings r) = Keeps-skip P (ping-serves net P stable r)

  publish-Keeps : (chunk : Chunk) (force : Bool) → Keeps P (publish net chunk force)
  unfolding publish
  publish-Keeps chunk force = Keeps->>= P (node_lookup-Keeps net P stable chunk.key) (λ buffer.
      Keeps->>= P
        (store_all-Keeps net P stable kbucket_max chunk force
          (record { value = filled keybits false }) buffer)
        (λ farthest. Keeps->>= P (Keeps-get_session P) (λ s.
          Keeps-if P
            (leb (length buffer) kbucket_max
              || dist_geq farthest (dist chunk.key (get_self_peer s.router).key))
            (put (put_chunk chunk.key chunk s.chunks)) (Keeps-return P tt))))

  pub set-Keeps : (k : Key) (d : Text) (force : Bool) → Keeps P (set net k d force)
  unfolding set
  set-Keeps k d force = Keeps->>= P (Keeps-get_world P) (λ w.
      publish-Keeps
        (record {
          original_publisher = true;
          key = k;
          content = d;
          last_published = clock w;
          original_publish = clock w;
        })
        force)

  pub get-Keeps : (k : Key) → Keeps P (get net k)
  unfolding get
  get-Keeps k = Keeps->>= P (Keeps-get_session P) (λ s.
      Keeps-Option P (find_chunk k s.chunks) (value_lookup-Keeps net P stable k)
        (λ chunk. Keeps-return P (some chunk.content)))

  pub cleanup_pass-Keeps : Keeps P (cleanup_pass net)
  unfolding cleanup_pass
  cleanup_pass-Keeps = Keeps->>= P (Keeps-get_session P) (λ s.
      Keeps->>= P (Keeps-get_world P)
        (λ w. put (erase_all (expired_keys (clock w) s.chunks) s.chunks)))

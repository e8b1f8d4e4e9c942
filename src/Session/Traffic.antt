-- ===== src/Session/Traffic.antt =====
-- The handlers, callers, searches and lookups keep what the calls of the router keep.
use distft.Prelude.{
  ℕ, zero, suc, Bool, true, false, not, ◌&&◌, List, [], ◌∷◌, ◌++◌, Option, none, some, length, leb,
  ◌/◌,
}
use distft.Key.{Key, Peer, to_string, Dist, dist, dist_geq}
use distft.Router.{is_self}
use distft.Session.Network.{Network, RpcPeer}
use distft.Session.{Session, Chunk, M}
use distft.Tree.{second}
use distft.Session.Peers.{rpc_peer_to_local}
use distft.Session.Callers.{
  note_peers, find_node, find_value, send_chunk, store, or_undefined, copy_bytes, size_of_int32,
  int32_of,
}
use distft.Session.Handlers.{search_router}
use distft.Session.Lookup.{
  Queried, visit, has_key, nearest, lookup_rounds, lookup_helper, node_query, value_query,
  final_calls, node_lookup, value_lookup, max_lookup_iters,
}
use distft.Session.Keeps.{
  Stable, Keeps, Keeps->>=, Keeps->>, Keeps-Option, Keeps-Bool, Keeps-if, Keeps-return, Keeps-fail,
  Keeps-call, Keeps-get_session, Keeps-or_throw, Keeps-caller_prelims, evict-Keeps,
  update_peer-Keeps, caller_epilogue-Keeps,
}

module _ {W : Type 0} (P : Session → Type 0) (query : Peer → M W Queried)
    (kept : (p : Peer) → Keeps P (query p)) where
  pub visit-Keeps :
      (left : ℕ) (ahead : List Peer) (queried : List Key) (behind : List Peer)
      → Keeps P (visit query left ahead queried behind)
  unfolding visit
  visit-Keeps zero ahead queried behind = Keeps-return P _
  visit-Keeps (suc left) [] queried behind = Keeps-return P _
  visit-Keeps (suc left) (p ∷ ahead) queried behind =
      Keeps-Bool P (has_key p.key queried) (visit-Keeps (suc left) ahead queried (behind ++ p ∷ []))
        (Keeps->>= P (kept p) (λ q.
          Keeps-Option P q.found
            (Keeps-Bool P q.answered
              (visit-Keeps left (ahead ++ q.pushed) (p.key ∷ queried) (behind ++ p ∷ []))
              (visit-Keeps (suc left) ahead (p.key ∷ queried) (behind ++ p ∷ [])))
            (λ d. Keeps-return P _)))

  Keeps-List :
      {A B : Type 0} (ps : List A) {m : M W B} {f : A → List A → M W B}
      → Keeps P m
      → ((p : A) (ps' : List A) → Keeps P (f p ps'))
      → Keeps P (elim ps [ [] ↦ m | p ∷ ps' ↦ f p ps' ])
  Keeps-List [] h g = h
  Keeps-List (p ∷ ps) h g = g p ps

  pub lookup_rounds-Keeps :
      (rounds : ℕ) (k : Key) (peers : List Peer) (queried : List Key) (size : ℕ) (least : Dist)
      → Keeps P (lookup_rounds query rounds k peers queried size least)
  unfolding lookup_rounds
  lookup_rounds-Keeps zero k peers queried size least = Keeps-return P _
  lookup_rounds-Keeps (suc rounds) k peers queried size least =
      Keeps->>= P (visit-Keeps _ peers queried []) (λ v.
        Keeps-Option P v.found
          (Keeps-List (nearest k v.peers) (Keeps-fail P _) (λ p ps.
            Keeps-if P (leb (length (p ∷ ps)) size && dist_geq (dist k p.key) least)
              (Keeps-return P _)
              (lookup_rounds-Keeps rounds k (p ∷ ps) v.queried (length (p ∷ ps)) (dist k p.key))))
          (λ d. Keeps-return P _))

module _ (net : Network) (P : Session → Type 0) (stable : Stable P) where
  open net use {World, clock, call_find_node, call_find_value, call_store_init, call_store}

  pub search_router-Keeps : (k : Key) (n : ℕ) → Keeps P (search_router net k n)
  unfolding search_router
  search_router-Keeps k n = record { run = λ s h. stable.searches s.session k n (clock s.world) h }

  pub note_peers-Keeps : (rs : List RpcPeer) → Keeps P (note_peers net rs)
  unfolding note_peers
  note_peers-Keeps [] = Keeps-return P []
  note_peers-Keeps (r ∷ rs) = Keeps->>= P (Keeps-or_throw P (rpc_peer_to_local r)) (λ p.
      Keeps->>= P (Keeps-get_session P) (λ s.
        Keeps-Bool P (is_self s.router p) (note_peers-Keeps rs) (
          Keeps->> P (update_peer-Keeps net P stable p)
            (Keeps->>= P (note_peers-Keeps rs) (λ ps. Keeps-return P (p ∷ ps))))))

  pub find_node-Keeps : (p : Peer) (k : Key) → Keeps P (find_node net p k)
  unfolding find_node
  find_node-Keeps p k = Keeps->>= P (Keeps-caller_prelims P) (λ sender.
      Keeps->>= P
        (Keeps-call P
          (λ w. call_find_node w p.endpoint (record { sender = sender; search_key = to_string k })))
        (λ response.
          Keeps-Option P response
            (Keeps->> P (evict-Keeps net P stable p.key) (Keeps-return P none))
            (λ r.
              Keeps->> P (caller_epilogue-Keeps net P stable r.receiver)
                (Keeps->>= P (note_peers-Keeps r.closest_peers) (λ ps. Keeps-return P (some ps))))))

  pub Keeps-or_undefined : {A : Type 0} (o : Option A) → Keeps {W = World} P (or_undefined o)
  Keeps-or_undefined none = Keeps-fail P _
  Keeps-or_undefined (some a) = Keeps-return P a

  pub find_value-Keeps : (p : Peer) (k : Key) → Keeps P (find_value net p k)
  unfolding find_value
  find_value-Keeps p k = Keeps->>= P (Keeps-caller_prelims P) (λ sender.
      Keeps->>= P
        (Keeps-call P (λ w.
          call_find_value w p.endpoint (record { sender = sender; search_key = to_string k })))
        (λ response.
          Keeps-Option P response
            (Keeps->> P (evict-Keeps net P stable p.key) (Keeps-return P none))
            (λ r. Keeps->> P (caller_epilogue-Keeps net P stable r.receiver) (
              Keeps-Bool P r.found_value
                (Keeps->>= P (Keeps-or_undefined (copy_bytes (size_of_int32 r.size) r.content))
                  (λ bytes. Keeps-return P (some (some bytes, []))))
                (Keeps->>= P (note_peers-Keeps r.closest_peers)
                  (λ ps. Keeps-return P (some (none, ps))))))))

  send_chunk-Keeps :
      (p : Peer) (chunk : Chunk) (receiver : RpcPeer) → Keeps P (send_chunk net p chunk receiver)
  unfolding send_chunk
  send_chunk-Keeps p chunk receiver = Keeps->>= P (Keeps-caller_prelims P) (λ sender.
      Keeps->>= P
        (Keeps-call P (λ w. call_store w p.endpoint (record {
          sender = sender;
          chunk_key = to_string chunk.key;
          content = chunk.content;
          size = int32_of (length chunk.content);
          original_publish = chunk.original_publish / second;
        })))
        (λ response.
          Keeps-Option P response (Keeps-return P false)
            (λ r. Keeps->> P (caller_epilogue-Keeps net P stable receiver) (Keeps-return P true))))

  pub store-Keeps : (p : Peer) (chunk : Chunk) (force : Bool) → Keeps P (store net p chunk force)
  unfolding store
  store-Keeps p chunk force = Keeps->>= P (Keeps-caller_prelims P) (λ sender.
      Keeps->>= P
        (Keeps-call P (λ w.
          call_store_init w p.endpoint
            (record { sender = sender; chunk_key = to_string chunk.key })))
        (λ response.
          Keeps-Option P response
            (Keeps->> P (evict-Keeps net P stable p.key) (Keeps-return P false))
            (λ r. Keeps-if P (not r.continue_store && not force) (Keeps-return P true) (
              Keeps->> P (caller_epilogue-Keeps net P stable r.receiver)
                (send_chunk-Keeps p chunk r.receiver)))))

  pub lookup_helper-Keeps :
      (k : Key) (query : Peer → M World Queried)
      → ((p : Peer) → Keeps P (query p))
      → Keeps P (lookup_helper net k query)
  unfolding lookup_helper
  lookup_helper-Keeps k query kept =
      Keeps->>= P (search_router-Keeps k _)
        (λ ps. lookup_rounds-Keeps P query kept max_lookup_iters k _ [] 0 _)

  pub node_query-Keeps : (k : Key) (p : Peer) → Keeps P (node_query net k p)
  unfolding node_query
  node_query-Keeps k p = Keeps->>= P (find_node-Keeps p k) (λ r.
      Keeps-Option P r (Keeps-return P (record { answered = false; found = none; pushed = [] }))
        (λ ps. Keeps-return P (record { answered = true; found = none; pushed = ps })))

  value_query-Keeps : (k : Key) (p : Peer) → Keeps P (value_query net k p)
  unfolding value_query
  value_query-Keeps k p = Keeps->>= P (find_value-Keeps p k) (λ r.
      Keeps-Option P r (Keeps-return P (record { answered = false; found = none; pushed = [] }))
        (λ a. Keeps-return P (record { answered = true; found = a.0; pushed = a.1 })))

  final_calls-Keeps : (k : Key) (ps : List Peer) → Keeps P (final_calls net k ps)
  unfolding final_calls
  final_calls-Keeps k [] = Keeps-return P []
  final_calls-Keeps k (p ∷ ps) = Keeps->>= P (find_node-Keeps p k) (λ r.
      Keeps->>= P (final_calls-Keeps k ps)
        (λ rest. Keeps-Option P r (Keeps-return P rest) (λ qs. Keeps-return P (qs ++ rest))))

  -- A node lookup keeps every property of the session that the calls of the router keep.
  pub node_lookup-Keeps : (k : Key) → Keeps P (node_lookup net k)
  unfolding node_lookup
  node_lookup-Keeps k = Keeps->>= P (lookup_helper-Keeps k _ (node_query-Keeps k)) (λ r.
      Keeps->>= P (final_calls-Keeps k r.1) (λ pushed. Keeps-return P (nearest k (r.1 ++ pushed))))

  -- A value lookup keeps every property of the session that the calls of the router keep.
  pub value_lookup-Keeps : (k : Key) → Keeps P (value_lookup net k)
  unfolding value_lookup
  value_lookup-Keeps k =
      Keeps->>= P (lookup_helper-Keeps k _ (value_query-Keeps k)) (λ r. Keeps-return P (r.0))

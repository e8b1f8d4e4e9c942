-- ===== src/Session/Life.antt =====
-- src/dht/session.cpp: `startup`, `self_lookup` and `teardown`. The keys that `random_key` draws are
-- arguments. The threads are started and stopped in
-- Session/Threads; the server is gRPC's.
use distft.Prelude.{ℕ, zero, suc, Bool, true, false, List, [], ◌∷◌, none, some, if◌then◌else◌}
use distft.Key.{Key, Peer, Text}
use distft.Router.{new_router, get_self_peer}
use distft.Session.Network.{Network}
use distft.Session.{
  Env, Result, ok, err, Chunk, ChunkMap, M, out_of_rounds, ◌>>=◌, ◌>>◌, return, fail, get_session,
  get_world, set_router, set_dying,
}
use distft.Session.Callers.{store}
use distft.Session.Handlers.{search_router}
use distft.Session.Peers.{attempt, evict, ping}
use distft.Session.Lookup.{lookup_helper, node_query, peer_lookup_alpha}
use distft.Session.Passes.{random_peers, lookup_all}

module _ (net : Network) where
  open net use {World, clock}

  -- `self_key` and `self_endpoint`
  unfoldable pub self_key : M World Key
  unfolding get_self_peer
  self_key = do s ← get_session; return (get_self_peer s.router).key

  unfoldable pub self_endpoint : M World Text
  unfolding get_self_peer
  self_endpoint = do s ← get_session; return (get_self_peer s.router).endpoint

  -- `self_lookup`, whose query function is that of `node_lookup`.
  unfoldable pub self_lookup : (ℕ → ℕ) → ℕ → Key → M World (Unit {0})
  unfolding lookup_helper node_query random_peers lookup_all
  self_lookup rand later key = do
    closest_peers ← lookup_helper net key (node_query net key)
    ps ← random_peers net rand later 0
    lookup_all net ps

  -- `while (!ping(&other_peer, &other_peer))`, at most so many times.
  unfoldable pub ping_until : ℕ → Peer → M World Peer
  unfolding ping
  ping_until zero p = fail out_of_rounds
  ping_until (suc tries) p = do
    reply ← ping net p
    elim reply [ none ↦ ping_until tries p | some q ↦ return q ]

  -- `startup`. The constructor of the router inserts the other peer under a temporary key.
  unfoldable pub startup : (ℕ → ℕ) → ℕ → ℕ → Peer → Peer → M World (Unit {0})
  unfolding ping_until self_lookup new_router
  startup rand later tries self temp = do
    set_dying false
    w ← get_world
    set_router (new_router self temp (clock w))
    other ← ping_until tries temp
    a ← attempt net other
    evict temp.key
    self_lookup rand later self.key

  -- The loop of `teardown` over the closest peers: `stored = stored || store(...)`.
  unfoldable pub store_until : Chunk → Bool → List Peer → M World Bool
  store_until chunk stored [] = return stored
  store_until chunk true (p ∷ ps) = store_until chunk true ps
  store_until chunk false (p ∷ ps) = do
    stored ← store net p chunk false
    store_until chunk stored ps

  -- The loop of `teardown` over the chunks: the keys of those that it drops.
  unfoldable pub hand_over : ChunkMap → M World (List Key)
  unfolding store_until
  hand_over [] = return []
  hand_over ((k, c) ∷ m) = do
    ps ← search_router net k peer_lookup_alpha
    stored ← store_until c false ps
    dropped ← hand_over m
    return (if stored then dropped else k ∷ dropped)

  -- `teardown` up to the deletions: the keys of the chunks that are dropped, if it hands them over.
  unfoldable pub close_down : Bool → M World (List Key)
  unfolding hand_over
  close_down republish = do
    set_dying true
    s ← get_session
    if republish then hand_over s.chunks else return []

  -- `teardown`: the chunks and the router are deleted, so that only the network is left.
  unfoldable pub teardown : Bool → Env World → Result (List Key × World)
  unfolding close_down
  teardown republish s = elim (close_down republish s) [
    | err e ↦ err e
    | ok (dropped, left) ↦ ok (dropped, left.world)
  ]

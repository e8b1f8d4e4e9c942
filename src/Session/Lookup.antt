-- ===== src/Session/Lookup.antt =====
-- src/dht/session.cpp: the node lookup algorithms. `std::sort` by distance is an insertion sort: with
-- distinct keys there is one sorted order.
use distft.Prelude.{
  ℕ, zero, suc, Bool, true, false, ◌&&◌, List, [], ◌∷◌, ◌++◌, Option, none, some, if◌then◌else◌,
  length, take, leb, ltb, ite,
}
use distft.Key.{
  Key, Key-discrete, Peer, Text, Dist, dist, max_dist, dist_less, dist_geq, closer, keybits,
}
use distft.Session.Network.{Network}
use distft.Session.{M, thrown, ◌>>=◌, return, fail}
use distft.Session.Callers.{find_node, find_value}
use distft.Session.Handlers.{search_router}
use distft.Tree.{kbucket_max}

-- `PEER_LOOKUP_ALPHA` and `MAX_LOOKUP_ITERS`
abbrev pub peer_lookup_alpha : ℕ
peer_lookup_alpha = 3

abbrev pub max_lookup_iters : ℕ
max_lookup_iters = keybits

unfoldable pub has_key : Key → List Key → Bool
has_key k [] = false
has_key k (j ∷ js) = ite (Key-discrete j k) true (has_key k js)

-- The loop that keeps the first peer of each key.
unfoldable pub unique_peers : List Key → List Peer → List Peer
unique_peers seen [] = []
unique_peers seen (p ∷ ps) = elim (has_key p.key seen) [
  | true ↦ unique_peers seen ps
  | false ↦ p ∷ unique_peers (p.key ∷ seen) ps
]

-- `std::sort(begin, end, StaticDistComparator(k))`
unfoldable pub insert_sorted : Key → Peer → List Peer → List Peer
insert_sorted k p [] = p ∷ []
insert_sorted k p (q ∷ qs) = if closer k q p then q ∷ insert_sorted k p qs else p ∷ q ∷ qs

unfoldable pub sort_peers : Key → List Peer → List Peer
sort_peers k [] = []
sort_peers k (p ∷ ps) = insert_sorted k p (sort_peers k ps)

-- Unique, sorted and cut to `KBUCKET_MAX` peers.
unfoldable pub nearest : Key → List Peer → List Peer
nearest k ps = take kbucket_max (sort_peers k (unique_peers [] ps))

-- `std::min(d, e)` on distances.
unfoldable pub min_dist : Dist → Dist → Dist
min_dist d e = if dist_less e d then e else d

unfoldable pub min_dist_of : Key → Dist → List Peer → Dist
min_dist_of k d [] = d
min_dist_of k d (p ∷ ps) = min_dist_of k (min_dist d (dist k p.key)) ps

-- What a query function does to one peer: whether the call was answered, which counts, the peers that
-- it adds to the list, and the value that makes the lookup halt.
pub record Queried : Type 0 where
  pub answered : Bool
  pub found : Option Text
  pub pushed : List Peer

-- What a round of queries leaves: a value that was found, the peers and the queried keys.
pub record Visited : Type 0 where
  pub found : Option Text
  pub peers : List Peer
  pub queried : List Key

module _ {W : Type 0} (query : Peer → M W Queried) where
  -- The loop over `closest_peers`, which the queries make longer: the peers behind and ahead, and how
  -- many more answers end the round.
  unfoldable pub visit : ℕ → List Peer → List Key → List Peer → M W Visited
  visit zero ahead queried behind =
      return (record { found = none; peers = behind ++ ahead; queried = queried })
  visit (suc left) [] queried behind =
      return (record { found = none; peers = behind; queried = queried })
  visit (suc left) (p ∷ ahead) queried behind = elim (has_key p.key queried) [
    | true ↦ visit (suc left) ahead queried (behind ++ p ∷ [])
    | false ↦
        (query p >>= λ q. elim (q.found) [
          | some d ↦ return (record {
            found = some d;
            peers = behind ++ p ∷ ahead ++ q.pushed;
            queried = queried;
          })
          | none ↦ (elim (q.answered) [
            | true ↦ visit left (ahead ++ q.pushed) (p.key ∷ queried) (behind ++ p ∷ [])
            | false ↦ visit (suc left) ahead (p.key ∷ queried) (behind ++ p ∷ [])
          ])
        ])
  ]

  -- The rounds of `lookup_helper`, with the size and the least distance of the last round. An empty list
  -- makes `at(0)` throw.
  unfoldable pub lookup_rounds :
      ℕ → Key → List Peer → List Key → ℕ → Dist → M W (Option Text × List Peer)
  lookup_rounds zero k peers queried size least = return (none, peers)
  lookup_rounds (suc rounds) k peers queried size least =
      visit (if ltb (length peers) peer_lookup_alpha then length peers else peer_lookup_alpha) peers
        queried []
      >>= λ v. elim (v.found) [
        | some d ↦ return (some d, v.peers)
        | none ↦ (elim (nearest k v.peers) [
          | [] ↦ fail thrown
          | p ∷ ps ↦
              (if leb (length (p ∷ ps)) size && dist_geq (dist k p.key) least
                then return (none, p ∷ ps)
                else lookup_rounds rounds k (p ∷ ps) v.queried (length (p ∷ ps)) (dist k p.key))
        ])
      ]

module _ (net : Network) where
  open net use {World}

  -- `lookup_helper`, from an empty list of closest peers.
  unfoldable pub lookup_helper : Key → (Peer → M World Queried) → M World (Option Text × List Peer)
  lookup_helper k query = do
    local_peers ← search_router net k kbucket_max
    lookup_rounds query max_lookup_iters k (sort_peers k local_peers) [] 0
        (min_dist_of k max_dist local_peers)

  -- The query functions of `node_lookup` and `value_lookup`.
  unfoldable pub node_query : Key → Peer → M World Queried
  node_query k p = do
    r ← find_node net p k
    elim r [
      | none ↦ return (record { answered = false; found = none; pushed = [] })
      | some ps ↦ return (record { answered = true; found = none; pushed = ps })
    ]

  unfoldable pub value_query : Key → Peer → M World Queried
  value_query k p = do
    r ← find_value net p k
    elim r [
      | none ↦ return (record { answered = false; found = none; pushed = [] })
      | some (d, ps) ↦ return (record { answered = true; found = d; pushed = ps })
    ]

  -- The final calls of `node_lookup`: the peers that they add.
  unfoldable pub final_calls : Key → List Peer → M World (List Peer)
  final_calls k [] = return []
  final_calls k (p ∷ ps) = do
    r ← find_node net p k
    rest ← final_calls k ps
    elim r [ none ↦ return rest | some qs ↦ return (qs ++ rest) ]

  -- `node_lookup`
  unfoldable pub node_lookup : Key → M World (List Peer)
  unfolding lookup_helper node_query final_calls nearest
  node_lookup k = do
    (found, peers) ← lookup_helper k (node_query k)
    pushed ← final_calls k peers
    return (nearest k (peers ++ pushed))

  -- `value_lookup`
  unfoldable pub value_lookup : Key → M World (Option Text)
  unfolding lookup_helper value_query
  value_lookup k = do (found, peers) ← lookup_helper k (value_query k); return found

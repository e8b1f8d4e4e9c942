-- ===== src/Router/Examples.antt =====
-- Example routers, and the theorems on routers and their trees at them.
use distft.Prelude.{
  ℕ, zero, suc, ◌<◌, ◌≤◌, ◌≡◌, ◌≢◌, refl, ap, true, false, List, [], ◌∷◌, ite, if◌then◌else◌, none,
  some, arith, length, All, ℕ_discrete,
}
use distft.Key.{Key-discrete, Text-discrete, Peer, bit}
use distft.Key.Examples.{repeat, key_a, key_b, key_c, peer_a, peer_b, peer_c}
use distft.Tree.{Tree, leaf, joint, insert_loop, tree_closest_peers, find_key}
use distft.Tree.Bucket.{Distinct, bucket_endpoint}
use distft.Tree.Valid.{IsValid, endpoint_of}
use distft.Tree.Insert.{bucket_of}
use distft.Router.{
  Router, is_self, attempt, attempt_insert_peer, new_router, evict_peer, closest_peers, all_peers,
  get_peer, front_is,
}
use distft.Router.Laws.{view, Inv, attempt_insert_peer-view, evict_peer-view}
use distft.Router.Room.{attempt_insert_peer-retry}
use distft.Router.Search.{closest_peers_small, all_peers-view}
use distft.Router.History.{start, next, insert, evict, Reach-Inv}

-- A router with two peers in one bucket.
abbrev pub two_peers : Tree
two_peers = leaf 159 2 0 (peer_a ∷ peer_b ∷ [])

abbrev pub small : Router
small = record { self_peer = peer_c; table = two_peers }

two_peers-IsValid : IsValid 159 two_peers
two_peers-IsValid = (refl, refl, omega arith, (((λ e. cc), tt), (tt, tt)))

pub small-Inv : Inv small
unfolding endpoint_of bucket_endpoint Key-discrete
small-Inv = record { table = two_peers-IsValid; self_absent = refl }

abbrev newcomer : Peer
newcomer = record { endpoint = 9 ∷ []; key = true ∷ true ∷ [] }

newcomer-other : is_self small newcomer ≡ false
unfolding is_self Key-discrete Text-discrete ℕ_discrete
newcomer-other = refl

attempt_insert_peer-view_example :
    view (attempt_insert_peer small newcomer 5).router newcomer.key ≡ (
      if (attempt_insert_peer small newcomer 5).inserted
      then ite
          (Key-discrete newcomer.key newcomer.key)
          (some newcomer.endpoint)
          (view small newcomer.key)
      else view small newcomer.key)
attempt_insert_peer-view_example =
    attempt_insert_peer-view small newcomer 5 newcomer.key newcomer-other

evict_peer-view_example :
    view (evict_peer small key_a) key_b ≡ ite (Key-discrete key_a key_b) none (view small key_b)
evict_peer-view_example = evict_peer-view small key_a key_b small-Inv

Reach-Inv_example :
    Inv (evict_peer (attempt_insert_peer (new_router peer_c peer_a 1) peer_b 2).router key_a)
Reach-Inv_example = Reach-Inv (
    next (next (start peer_c peer_a 1) (insert (new_router peer_c peer_a 1) peer_b 2))
      (evict (attempt_insert_peer (new_router peer_c peer_a 1) peer_b 2).router key_a))

all_peers-view_example : bucket_endpoint key_b (all_peers small) ≡ view small key_b
all_peers-view_example = all_peers-view small key_b small-Inv

closest_peers_small_example : (closest_peers small key_b 20 5).0 ≡ bucket_of key_b two_peers
closest_peers_small_example = closest_peers_small small key_b 20 5 small-Inv (omega arith)

front_found : (get_peer small key_a 5).0 ≡ some peer_a
unfolding get_peer closest_peers front_is tree_closest_peers Key-discrete
front_found = refl

small-bucket_of : bucket_of key_b small.table ≡ peer_a ∷ peer_b ∷ []
unfolding bucket_of
small-bucket_of = refl

-- A full bucket, off the way to the router's own key.
abbrev pub ladder : ℕ → List Peer
ladder zero = []
ladder (suc n) = record { endpoint = 7 ∷ []; key = repeat n true } ∷ ladder n

length-ladder : (n : ℕ) → length (ladder n) ≡ n
length-ladder zero = refl
length-ladder (suc n) = omega (arith, length-ladder n)

length-repeat : (n : ℕ) → length (repeat n true) ≡ n
length-repeat zero = refl
length-repeat (suc n) = omega (arith, length-repeat n)

repeat-differ : (n m : ℕ) → n < m → repeat n true ≢ repeat m true
repeat-differ n m h e =
    let same : length (repeat n true) ≡ length (repeat m true) = ap length e in
    omega (arith, length-repeat n, length-repeat m)

ladder-below : (n m : ℕ) → n ≤ m → All (λ q. q.key ≢ repeat m true) (ladder n)
ladder-below zero m h = tt
ladder-below (suc n) m h = (repeat-differ n m h, ladder-below n m (omega arith))

ladder-Distinct : (n : ℕ) → Distinct (ladder n)
ladder-Distinct zero = tt
ladder-Distinct (suc n) = (ladder-below n n (omega arith), ladder-Distinct n)

abbrev pub full : Router
full = record { self_peer = peer_c; table = leaf 159 20 0 (ladder 20) }

pub full-Inv : Inv full
unfolding endpoint_of bucket_endpoint Key-discrete
full-Inv = record { table = (refl, refl, omega arith, ladder-Distinct 20); self_absent = refl }

abbrev pub late : Peer
late = record { endpoint = 9 ∷ []; key = repeat 20 true }

pub late-refused : (attempt_insert_peer full late 5).inserted ≡ false
unfolding attempt_insert_peer attempt insert_loop is_self find_key bit Key-discrete Text-discrete
    ℕ_discrete
late-refused = refl

attempt_insert_peer-retry_example :
    (q : Peer) × ((attempt_insert_peer full late 5).lru_peer ≡ some q)
    × (view (attempt_insert_peer full late 5).router q.key ≢ none)
    × (q.key ≢ late.key)
    × ((attempt_insert_peer
          (evict_peer (attempt_insert_peer full late 5).router q.key)
          late
          6).inserted
        ≡ true)
attempt_insert_peer-retry_example = attempt_insert_peer-retry full late 5 6 full-Inv late-refused

-- Two leaves, with two peers in the one that the search prefers.
abbrev far_peer : Peer
far_peer = record { endpoint = 8 ∷ []; key = key_c }

abbrev forked : Tree
forked = joint 159 3 0 (leaf 158 2 0 (peer_a ∷ peer_b ∷ [])) (leaf 158 1 0 (far_peer ∷ []))

forked-IsValid : IsValid 159 forked
unfolding bit
forked-IsValid = (
  refl,
  omega arith,
  refl,
  (refl, refl, omega arith, (((λ e. cc), tt), (tt, tt))),
  (refl, refl, omega arith, (tt, tt)),
  (refl, (refl, tt)),
  (refl, tt),
)

preferred : 1 < length (if bit key_a 159 then far_peer ∷ [] else peer_a ∷ peer_b ∷ [])
unfolding bit
preferred = omega arith

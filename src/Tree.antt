-- ===== src/Tree.antt =====
-- src/dht/router.h and router.cpp, `Router::BinaryTree`: the routing tree and the walks of the
-- router over it. A tree is a value: the parent pointers, which only serve to correct the counts
-- on the way up, are the walk's own path. Clock readings are arguments, in nanoseconds. Counts are
-- numbers of allocated peers, which do not wrap.
pub mod Bucket
pub mod Valid
pub mod Insert
pub mod Evict
pub mod Closest
pub mod Refresh
pub mod Stands
use distft.Prelude.{
  ℕ, zero, suc, ◌+◌, ◌-◌, ◌*◌, ◌/◌, ◌%◌, ◌≡◌, Bool, true, false, not, ◌&&◌, ◌||◌, List, [], ◌∷◌,
  ◌++◌, length, take, ite, if◌then◌else◌, Option, none, some, ltb, leb, ◌==◌, xor,
}
use distft.Key.{Key, Key-discrete, Peer, Text, bit}

-- `KBUCKET_MAX`
abbrev pub kbucket_max : ℕ
kbucket_max = 20

-- `class BinaryTree`: `split_bit_index`, `key_count` and `latest_access`, with the bucket of a
-- leaf, or the zero and the one tree of a joint.
pub data Tree : Type 0 where
  leaf : ℕ → ℕ → ℕ → List Peer → Tree
  joint : ℕ → ℕ → ℕ → Tree → Tree → Tree

unfoldable pub key_count : Tree → ℕ
key_count (leaf s c at ks) = c
key_count (joint s c at z o) = c

-- The constructor of `BinaryTree`.
unfoldable pub new_tree : ℕ → ℕ → Tree
new_tree s now = leaf s 0 now []

-- The scan of a bucket for a key.
unfoldable pub find_key : Key → List Peer → Option ℕ
find_key k [] = none
find_key k (p ∷ ps) =
    ite (Key-discrete p.key k) (some 0)
      (elim (find_key k ps) [ none ↦ none | some i ↦ some (suc i) ])

-- `kbucket.erase(kbucket.begin() + i)`
unfoldable pub remove_at : ℕ → List Peer → List Peer
remove_at i [] = []
remove_at zero (p ∷ ps) = ps
remove_at (suc i) (p ∷ ps) = p ∷ remove_at i ps

-- `kbucket.at(i)->endpoint = endpoint`
unfoldable pub set_endpoint : ℕ → Text → List Peer → List Peer
set_endpoint i e [] = []
set_endpoint zero e (p ∷ ps) = record p { endpoint = e } ∷ ps
set_endpoint (suc i) e (p ∷ ps) = p ∷ set_endpoint i e ps

unfoldable pub peer_at : ℕ → List Peer → Option Peer
peer_at i [] = none
peer_at zero (p ∷ ps) = some p
peer_at (suc i) (p ∷ ps) = peer_at i ps

-- `std::rotate(begin, begin + i, begin + i + 1)`: entry `i` comes to the front.
unfoldable pub rotate_front : ℕ → List Peer → List Peer
rotate_front i ps = elim (peer_at i ps) [ none ↦ ps | some p ↦ p ∷ remove_at i ps ]

-- `kbucket.back()`
unfoldable pub back : List Peer → Option Peer
back [] = none
back (p ∷ []) = some p
back (p ∷ q ∷ ps) = back (q ∷ ps)

-- `tree->kbucket.push_back(peer); tree->key_count++`, at a leaf.
unfoldable pub push_back : Tree → Peer → Tree
push_back (leaf s c at ks) p = leaf s (c + 1) at (ks ++ p ∷ [])
push_back (joint s c at z o) p = joint s c at z o

-- The loop of `split`, over the bucket that is emptied from the front.
unfoldable pub reassign : ℕ → List Peer → Tree → Tree → Tree × Tree
reassign s [] z o = (z, o)
reassign s (p ∷ ps) z o = elim (bit p.key s) [
  | true ↦ reassign s ps z (push_back o p)
  | false ↦ reassign s ps (push_back z p) o
]

-- `split`: the two children of a leaf with this split bit and bucket.
unfoldable pub split : ℕ → ℕ → List Peer → Tree × Tree
split s now ks = reassign s ks (new_tree (s - 1) now) (new_tree (s - 1) now)

-- How the walk of `attempt_insert_peer` ends: the peer was there, the peer is new, or there is no
-- room. In the last case the buffer for the least recently used peer is set, or the walk ran out
-- of rounds and it is not.
pub data Outcome : Type 0 where
  refreshed : Tree → Outcome
  added : Tree → Outcome
  rejected : Option Peer → Tree → Outcome

-- The walk goes on in a child. A joint above a new peer counts it.
unfoldable pub graft_zero : ℕ → ℕ → ℕ → Tree → Outcome → Outcome
graft_zero s c at o (refreshed z) = refreshed (joint s c at z o)
graft_zero s c at o (added z) = added (joint s (c + 1) at z o)
graft_zero s c at o (rejected lru z) = rejected lru (joint s c at z o)

unfoldable pub graft_one : ℕ → ℕ → ℕ → Tree → Outcome → Outcome
graft_one s c at z (refreshed o) = refreshed (joint s c at z o)
graft_one s c at z (added o) = added (joint s (c + 1) at z o)
graft_one s c at z (rejected lru o) = rejected lru (joint s c at z o)

unfoldable pub descend : (Tree → Outcome) → Bool → ℕ → ℕ → ℕ → Tree → Tree → Outcome
descend walk true s c at z o = graft_one s c at z (walk o)
descend walk false s c at z o = graft_zero s c at o (walk z)

-- The `for` loop of `attempt_insert_peer`, with the rounds left.
unfoldable pub insert_loop : ℕ → Key → Peer → ℕ → Tree → Outcome
insert_loop zero self p now t = rejected none t
insert_loop (suc i) self p now (joint s c at z o) =
    descend (insert_loop i self p now) (bit p.key s) s c at z o
insert_loop (suc i) self p now (leaf s c at ks) = elim (find_key p.key ks) [
  | some j ↦ refreshed (leaf s c now (rotate_front j (set_endpoint j p.endpoint ks)))
  | none ↦
      if ltb (length ks) kbucket_max
      then added (leaf s (c + 1) now (p ∷ ks))
      else if not (xor (bit p.key s) (bit self s)) && ltb 0 s
      then (let (z, o) = split s now ks in
          descend (insert_loop i self p now) (bit p.key s) s c at z o)
      else rejected (back ks) (leaf s c at ks)
]

-- The `for` loop of `evict_peer`: the tree without the peer, or `none` if the walk finds no such
-- peer and changes nothing.
unfoldable pub evict_zero : ℕ → ℕ → ℕ → Tree → Option Tree → Option Tree
evict_zero s c at o none = none
evict_zero s c at o (some z) = some (joint s (c - 1) at z o)

unfoldable pub evict_one : ℕ → ℕ → ℕ → Tree → Option Tree → Option Tree
evict_one s c at z none = none
evict_one s c at z (some o) = some (joint s (c - 1) at z o)

unfoldable pub evict_loop : ℕ → Key → Tree → Option Tree
evict_loop zero k t = none
evict_loop (suc i) k (joint s c at z o) = elim (bit k s) [
  | true ↦ evict_one s c at z (evict_loop i k o)
  | false ↦ evict_zero s c at o (evict_loop i k z)
]
evict_loop (suc i) k (leaf s c at ks) = elim (find_key k ks) [
  | some j ↦ some (leaf s (c - 1) at (remove_at j ks))
  | none ↦ evict_loop i k (leaf s c at ks)
]

-- `tree_closest_peers`: the tree with its access times, and what goes to the buffer.
unfoldable pub tree_closest_peers : Key → ℕ → ℕ → Tree → Tree × List Peer
tree_closest_peers k n now (leaf s c at ks) = (leaf s c now ks, take n ks)
tree_closest_peers k n now (joint s c at z o) = elim (bit k s) [
  | true ↦
      let (o', first) = tree_closest_peers k n now o in
      let (z', rest) = tree_closest_peers k (key_count o' - n) now z in
      if ltb n (key_count o')
      then (joint s c at z' o', first ++ rest)
      else (joint s c at z o', first)
  | false ↦
      let (z', first) = tree_closest_peers k n now z in
      let (o', rest) = tree_closest_peers k (key_count z' - n) now o in
      if ltb n (key_count z')
      then (joint s c at z' o', first ++ rest)
      else (joint s c at z' o, first)
]

-- `tree_all_peers`
unfoldable pub tree_all_peers : Tree → List Peer
tree_all_peers (leaf s c at ks) = ks
tree_all_peers (joint s c at z o) = tree_all_peers o ++ tree_all_peers z

-- What a walk that draws random numbers returns: the tree, the peers for the buffer, and the
-- number of draws so far. `none` is the division by zero of `rand() % kbucket.size()` at an empty
-- bucket.
abbrev pub Drawn : Type 0
Drawn = Option (Tree × List Peer × ℕ)

abbrev pub second : ℕ
second = 1_000_000_000

-- `std::rand() % size`
unfoldable pub draw : (ℕ → ℕ) → ℕ → List Peer → Option Peer
draw rand d [] = none
draw rand d (p ∷ ps) = peer_at (rand d % length (p ∷ ps)) (p ∷ ps)

-- `random_per_bucket_peers_helper`. A leaf reads the clock twice: `now` is stored, and `later` is
-- what the stored time is then compared to.
unfoldable pub random_per_bucket : (ℕ → ℕ) → ℕ → ℕ → ℕ → Tree → ℕ → Drawn
random_per_bucket rand now later unaccessed (leaf s c at ks) d =
    if leb unaccessed ((later - now) / second)
    then (elim (draw rand d ks) [ none ↦ none | some p ↦ some (leaf s c now ks, p ∷ [], d + 1) ])
    else some (leaf s c now ks, [], d)
random_per_bucket rand now later unaccessed (joint s c at z o) d =
    elim (random_per_bucket rand now later unaccessed z d) [
      | none ↦ none
      | some (z', first, d') ↦ elim (random_per_bucket rand now later unaccessed o d') [
        | none ↦ none
        | some (o', rest, d'') ↦ some (joint s c at z' o', first ++ rest, d'')
      ]
    ]

-- ===== src/Router.antt =====
-- src/dht/router.h and router.cpp, `Router`: the peer itself and the routing tree of the others.
-- The clock readings of one call are its arguments.
pub mod Laws
pub mod Room
pub mod History
pub mod Search
pub mod Examples
use distft.Prelude.{
  ℕ, ◌+◌, ◌-◌, ◌≡◌, Bool, true, false, ◌||◌, List, [], ◌∷◌, ite, if◌then◌else◌, Option, none, some,
  ℕ_discrete,
}
use distft.Key.{Key, Key-discrete, Peer, Text, Text-discrete, keybits}
use distft.Tree.{
  Tree, new_tree, Outcome, refreshed, added, rejected, insert_loop, evict_loop, tree_closest_peers,
  tree_all_peers, random_per_bucket,
}

pub record Router : Type 0 where
  pub self_peer : Peer
  pub table : Tree

-- What `attempt_insert_peer` returns, with what it writes to the buffer for the least recently used
-- peer, if anything.
pub record Attempt : Type 0 where
  pub inserted : Bool
  pub lru_peer : Option Peer
  pub router : Router

-- The test at its head: the router's own key or endpoint.
unfoldable pub is_self : Router → Peer → Bool
is_self r p =
    ite (Key-discrete p.key r.self_peer.key) true
      (ite (Text-discrete p.endpoint r.self_peer.endpoint) true false)

unfoldable pub attempt : Router → Outcome → Attempt
attempt r (refreshed t) = record {
  inserted = true;
  lru_peer = none;
  router = record r { table = t };
}
attempt r (added t) = record { inserted = true; lru_peer = none; router = record r { table = t } }
attempt r (rejected lru t) = record {
  inserted = false;
  lru_peer = lru;
  router = record r { table = t };
}

unfoldable pub attempt_insert_peer : Router → Peer → ℕ → Attempt
attempt_insert_peer r p now =
    if is_self r p
    then record { inserted = true; lru_peer = none; router = r }
    else attempt r (insert_loop keybits r.self_peer.key p now r.table)

-- The constructor: a router that has heard of one other peer.
unfoldable pub new_router : Peer → Peer → ℕ → Router
new_router self other now =
    (attempt_insert_peer (record { self_peer = self; table = new_tree (keybits - 1) now }) other
      now).router

unfoldable pub evict_peer : Router → Key → Router
evict_peer r k =
    ite (Key-discrete k r.self_peer.key) r
      (elim (evict_loop keybits k r.table) [ none ↦ r | some t ↦ record r { table = t } ])

-- The peers that go to the buffer, and the router with its access times.
unfoldable pub closest_peers : Router → Key → ℕ → ℕ → List Peer × Router
closest_peers r k n now = (
  (tree_closest_peers k n now r.table).1,
  record r { table = (tree_closest_peers k n now r.table).0 },
)

unfoldable pub all_peers : Router → List Peer
all_peers r = tree_all_peers r.table

unfoldable pub front_is : Key → List Peer → Option Peer
front_is k [] = none
front_is k (p ∷ ps) = ite (Key-discrete p.key k) (some p) none

-- `none` is `NULL`.
unfoldable pub get_peer : Router → Key → ℕ → Option Peer × Router
unfolding closest_peers front_is
get_peer r k now = let (buffer, r') = closest_peers r k 1 now in (front_is k buffer, r')

unfoldable pub get_self_peer : Router → Peer
get_self_peer r = r.self_peer

-- `none` is the division by zero at an empty bucket.
unfoldable pub random_per_bucket_peers : (ℕ → ℕ) → Router → ℕ → ℕ → ℕ → Option (List Peer × Router)
random_per_bucket_peers rand r now later unaccessed =
    elim (random_per_bucket rand now later unaccessed r.table 0) [
      | none ↦ none
      | some (t, ps, d) ↦ some (ps, record r { table = t })
    ]

-- ===== src/Router/Search.antt =====
-- What the router hands out: the closest peers, one peer by its key, and all the peers.
use mathlib.Core.Path.{subst}
use distft.Prelude.{ℕ, ◌-◌, ◌≤◌, ◌≡◌, ◌∙◌, List, [], ◌∷◌, ite, none, some, arith, All}
use distft.Key.{Key, Key-discrete, Peer, keybits}
use distft.Tree.Bucket.{bucket_endpoint}
use distft.Tree.Valid.{size}
use distft.Tree.Insert.{bucket_of}
use distft.Tree.Closest.{
  closest-All, closest_bucket_first, closest_small, closest-IsValid, closest-endpoint,
  all_peers-endpoint,
}
use distft.Tree.Stands.{Stands, valid-Stands}
use distft.Router.{Router, closest_peers, all_peers, get_peer, front_is}
use distft.Router.Laws.{view, Inv}

-- Every peer that a search hands out of a valid router is known under its endpoint.
pub closest_peers-known :
    (r : Router) (k : Key) (n now : ℕ)
    → Inv r
    → All (λ q. view r q.key ≡ some q.endpoint) (closest_peers r k n now).0
unfolding closest_peers
closest_peers-known r k n now v =
    (closest-All (Stands r.table) k n now r.table (valid-Stands (keybits - 1) r.table v.table)).0

-- A search changes access times only: the invariant and every endpoint stay.
pub closest_peers-Inv : (r : Router) (k : Key) (n now : ℕ) → Inv r → Inv (closest_peers r k n now).1
unfolding closest_peers
closest_peers-Inv r k n now v = record {
  table = (closest-IsValid k n now (keybits - 1) r.table v.table).0;
  self_absent = closest-endpoint k n now r.table r.self_peer.key ∙ v.self_absent;
}

-- A valid router with at most `n` peers hands out, for a search for `n` peers, the peers of the one
-- bucket that the search key leads to.
pub closest_peers_small :
    (r : Router) (k : Key) (n now : ℕ)
    → Inv r
    → size r.table ≤ n
    → (closest_peers r k n now).0 ≡ bucket_of k r.table
unfolding closest_peers
closest_peers_small r k n now v h = closest_small k n now (keybits - 1) r.table v.table h

front_is-head :
    (k : Key) (q : Peer) (ps : List Peer) (p : Peer)
    → front_is k (q ∷ ps) ≡ some p
    → (q ≡ p) × (q.key ≡ k)
unfolding front_is
front_is-head k q ps p e = ground arith

front_is-All {κ} :
    (P : Peer → Type κ) (k : Key) (ps : List Peer) (p : Peer)
    → front_is k ps ≡ some p
    → All P ps
    → (p.key ≡ k) × P p
unfolding front_is
front_is-All P k [] p e h = cc
front_is-All P k (q ∷ ps) p e h =
    let (same, found) = front_is-head k q ps p e in (ground arith, subst P same h.0)

-- A peer that `get_peer` of a valid router returns has the key that was asked for, and the endpoint
-- under which the router knows it.
pub get_peer_sound :
    (r : Router) (k : Key) (now : ℕ) (p : Peer)
    → Inv r
    → (get_peer r k now).0 ≡ some p
    → (p.key ≡ k) × (view r k ≡ some p.endpoint)
unfolding get_peer
get_peer_sound r k now p v e =
    let (same, known) =
      front_is-All (Stands r.table) k (closest_peers r k 1 now).0 p e
        (closest_peers-known r k 1 now v) in
    (same, rw same at known)

-- `get_peer` of a key whose bucket is not empty returns the first peer of that bucket if it has the
-- key, and `NULL` otherwise, also if the key stands further behind.
pub get_peer-front :
    (r : Router) (k : Key) (now : ℕ) (p : Peer) (ps : List Peer)
    → bucket_of k r.table ≡ p ∷ ps
    → (get_peer r k now).0 ≡ ite (Key-discrete p.key k) (some p) none
unfolding get_peer closest_peers front_is
get_peer-front r k now p ps e =
    let (rest, q) = closest_bucket_first k 1 now r.table in ground (arith, q)

-- The list of all the peers of a valid router and its tree are one finite map: a search through the
-- list finds for each key the endpoint that the tree knows.
pub all_peers-view : (r : Router) (k : Key) → Inv r → bucket_endpoint k (all_peers r) ≡ view r k
unfolding all_peers
all_peers-view r k v = all_peers-endpoint (keybits - 1) r.table k v.table

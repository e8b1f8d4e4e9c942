-- ===== src/Router/Laws.antt =====
-- The invariant of the router, each call as a change to a finite map from keys to endpoints, and the
-- calls that make room for a peer.
use distft.Prelude.{
  ℕ, ◌-◌, ◌≡◌, refl, ◌≢◌, inl, inr, false, ite, if◌then◌else◌, Option, none, some, arith,
  Bool-cases,
}
use distft.Key.{Key, Key-discrete, Peer, Text, keybits}
use distft.Tree.{new_tree, Outcome, refreshed, added, rejected, insert_loop}
use distft.Tree.Bucket.{bucket_endpoint}
use distft.Tree.Valid.{IsValid, endpoint_of}
use distft.Tree.Insert.{outcome_tree, Knows, insert_loop-IsValid, insert_loop-Knows}
use distft.Tree.Evict.{evict_loop-Shrunk, evict_loop-endpoint}
use distft.Router.{Router, is_self, attempt, attempt_insert_peer, new_router, evict_peer}

-- The router as a finite map from keys to endpoints.
abbrev pub view : Router → Key → Option Text
view r k = endpoint_of k r.table

-- The table is a valid tree over all the bits, and the router is not in its own table.
pub record Inv (r : Router) : Type 0 where
  pub table : IsValid (keybits - 1) r.table
  pub self_absent : endpoint_of r.self_peer.key r.table ≡ none

outcome-IsValid : (r : Router) (o : Outcome) → (attempt r o).router.table ≡ outcome_tree o
unfolding attempt
outcome-IsValid r (refreshed t) = refl
outcome-IsValid r (added t) = refl
outcome-IsValid r (rejected lru t) = refl

attempt-view :
    (r : Router) (o : Outcome) (p : Peer) (k : Key)
    → Knows p k (view r k) o
    → view (attempt r o).router k ≡ (
        if (attempt r o).inserted
        then ite (Key-discrete p.key k) (some p.endpoint) (view r k)
        else view r k)
unfolding attempt
attempt-view r (refreshed t) p k h = h
attempt-view r (added t) p k h = h
attempt-view r (rejected lru t) p k h = h

-- For a peer that is neither under the router's own key nor at its own endpoint: if it is accepted,
-- the router knows it under its endpoint from then on, whether it was known before or not, and no
-- other key is touched. A refusal changes no endpoint.
pub attempt_insert_peer-view :
    (r : Router) (p : Peer) (now : ℕ) (k : Key)
    → is_self r p ≡ false
    → let a = attempt_insert_peer r p now in
      view a.router k
      ≡ (if a.inserted then ite (Key-discrete p.key k) (some p.endpoint) (view r k) else view r k)
unfolding attempt_insert_peer
attempt_insert_peer-view r p now k e =
    rw e (attempt-view r _ p k (insert_loop-Knows keybits r.self_peer.key p now r.table k))

pub attempt-Inv :
    (r : Router) (o : Outcome) (p : Peer)
    → Inv r
    → p.key ≢ r.self_peer.key
    → IsValid (keybits - 1) (outcome_tree o)
    → Knows p r.self_peer.key (view r r.self_peer.key) o
    → Inv (attempt r o).router
unfolding attempt
attempt-Inv r (refreshed t) p v n w h = record {
  table = w;
  self_absent = ground (arith, v.self_absent);
}
attempt-Inv r (added t) p v n w h = record {
  table = w;
  self_absent = ground (arith, v.self_absent);
}
attempt-Inv r (rejected lru t) p v n w h = record {
  table = w;
  self_absent = ground (arith, v.self_absent);
}

pub is_self-false : (r : Router) (p : Peer) → is_self r p ≡ false → p.key ≢ r.self_peer.key
unfolding is_self
is_self-false r p e h = ground arith

pub attempt_insert_peer-Inv :
    (r : Router) (p : Peer) (now : ℕ) → Inv r → Inv (attempt_insert_peer r p now).router
unfolding attempt_insert_peer
attempt_insert_peer-Inv r p now v = elim (Bool-cases (is_self r p)) [
  | inl e ↦ rw e v
  | inr e ↦ rw e (
      attempt-Inv r (insert_loop keybits r.self_peer.key p now r.table) p v (is_self-false r p e)
        (insert_loop-IsValid keybits r.self_peer.key p now (keybits - 1) r.table v.table).0
        (insert_loop-Knows keybits r.self_peer.key p now r.table r.self_peer.key))
]

-- From a router that meets its invariant, after an eviction of a key the router knows no endpoint
-- for that key, and for every other key the one that it knew before.
pub evict_peer-view :
    (r : Router) (k j : Key)
    → Inv r
    → view (evict_peer r k) j ≡ ite (Key-discrete k j) none (view r j)
unfolding evict_peer
evict_peer-view r k j v = ground (
  arith,
  evict_loop-endpoint keybits k (keybits - 1) r.table j (omega arith) v.table,
  v.self_absent,
)

pub evict_peer_self : (r : Router) (k : Key) → (evict_peer r k).self_peer ≡ r.self_peer
unfolding evict_peer
evict_peer_self r k = ground arith

pub evict_peer-Inv : (r : Router) (k : Key) → Inv r → Inv (evict_peer r k)
unfolding evict_peer
evict_peer-Inv r k v = record { table = table; self_absent = absent }
  where
    table : IsValid (keybits - 1) (evict_peer r k).table
    table = ground (arith, evict_loop-Shrunk keybits k (keybits - 1) r.table v.table, v.table)

    absent : endpoint_of (evict_peer r k).self_peer.key (evict_peer r k).table ≡ none
    absent =
        ground (arith, evict_peer-view r k r.self_peer.key v, evict_peer_self r k, v.self_absent)

pub new_router-Inv : (self other : Peer) (now : ℕ) → Inv (new_router self other now)
unfolding new_router new_tree endpoint_of bucket_endpoint
new_router-Inv self other now =
    attempt_insert_peer-Inv _ other now
      (record { table = (refl, refl, omega arith, tt); self_absent = refl })

pub attempt_insert_peer_self :
    (r : Router) (p : Peer) (now : ℕ) → (attempt_insert_peer r p now).router.self_peer ≡ r.self_peer
unfolding attempt_insert_peer attempt
attempt_insert_peer_self r p now = ground arith

pub new_router_self : (self other : Peer) (now : ℕ) → (new_router self other now).self_peer ≡ self
unfolding new_router
new_router_self self other now =
    attempt_insert_peer_self (record { self_peer = self; table = new_tree (keybits - 1) now }) other
      now

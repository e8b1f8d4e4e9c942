-- ===== src/Router/History.antt =====
-- The states that a router can reach: the constructor, then any calls, in any order.
use distft.Prelude.{ℕ, ◌-◌, ◌≡◌, refl, ◌∙◌, List, some, Option-cases, inl, inr, arith}
use distft.Key.{Key, Peer, keybits}
use distft.Tree.{random_per_bucket}
use distft.Tree.Refresh.{accessed, refresh-accessed, accessed-IsValid, endpoint_of-accessed}
use distft.Router.{
  Router, attempt_insert_peer, new_router, evict_peer, closest_peers, get_peer,
  random_per_bucket_peers,
}
use distft.Router.Laws.{Inv, attempt_insert_peer-Inv, evict_peer-Inv, new_router-Inv}
use distft.Router.Search.{closest_peers-Inv}

-- One call. A refresh that divides by zero has no state after it.
pub data Step : Router → Router → Type 0 where
  insert : (r : Router) (p : Peer) (now : ℕ) → Step r (attempt_insert_peer r p now).router
  evict : (r : Router) (k : Key) → Step r (evict_peer r k)
  search_for : (r : Router) (k : Key) (n now : ℕ) → Step r (closest_peers r k n now).1
  get : (r : Router) (k : Key) (now : ℕ) → Step r (get_peer r k now).1
  refresh :
      (r r' : Router) (rand : ℕ → ℕ) (now later unaccessed : ℕ) (ps : List Peer)
      → random_per_bucket_peers rand r now later unaccessed ≡ some (ps, r')
      → Step r r'

pub data Reach : Router → Type 0 where
  start : (self other : Peer) (now : ℕ) → Reach (new_router self other now)
  next : {r r' : Router} → Reach r → Step r r' → Reach r'

accessed-Inv :
    (r r' : Router) (now : ℕ) → r' ≡ record r { table = accessed now r.table } → Inv r → Inv r'
accessed-Inv r r' now e v = rw e (record {
  table = accessed-IsValid now (keybits - 1) r.table v.table;
  self_absent = endpoint_of-accessed r.self_peer.key now r.table ∙ v.self_absent;
})

refresh-table :
    (rand : ℕ → ℕ) (r r' : Router) (now later unaccessed : ℕ) (ps : List Peer)
    → random_per_bucket_peers rand r now later unaccessed ≡ some (ps, r')
    → r' ≡ record r { table = accessed now r.table }
unfolding random_per_bucket_peers
refresh-table rand r r' now later unaccessed ps e =
    elim (Option-cases (random_per_bucket rand now later unaccessed r.table 0)) [
      | inl f ↦ ground arith
      | inr ((t, qs, d), f) ↦
          ground (arith, refresh-accessed rand now later unaccessed r.table 0 t qs d f)
    ]

-- A refresh keeps the invariant.
pub random_per_bucket_peers-Inv :
    (rand : ℕ → ℕ) (r r' : Router) (now later unaccessed : ℕ) (ps : List Peer)
    → random_per_bucket_peers rand r now later unaccessed ≡ some (ps, r')
    → Inv r
    → Inv r'
random_per_bucket_peers-Inv rand r r' now later unaccessed ps e v =
    accessed-Inv r r' now (refresh-table rand r r' now later unaccessed ps e) v

pub random_per_bucket_peers_self :
    (rand : ℕ → ℕ) (r r' : Router) (now later unaccessed : ℕ) (ps : List Peer)
    → random_per_bucket_peers rand r now later unaccessed ≡ some (ps, r')
    → r'.self_peer ≡ r.self_peer
random_per_bucket_peers_self rand r r' now later unaccessed ps e =
    rw (refresh-table rand r r' now later unaccessed ps e) refl

Step-Inv : {r r' : Router} → Step r r' → Inv r → Inv r'
unfolding get_peer
Step-Inv (insert r p now) v = attempt_insert_peer-Inv r p now v
Step-Inv (evict r k) v = evict_peer-Inv r k v
Step-Inv (search_for r k n now) v = closest_peers-Inv r k n now v
Step-Inv (get r k now) v = closest_peers-Inv r k 1 now v
Step-Inv (refresh r r' rand now later unaccessed ps e) v =
    random_per_bucket_peers-Inv rand r r' now later unaccessed ps e v

-- Every router that a history of calls reaches has a valid table, in which it does not stand itself.
pub Reach-Inv : {r : Router} → Reach r → Inv r
Reach-Inv (start self other now) = new_router-Inv self other now
Reach-Inv (next h st) = Step-Inv st (Reach-Inv h)

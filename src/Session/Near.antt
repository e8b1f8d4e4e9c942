-- ===== src/Session/Near.antt =====
-- The peers that a node lookup of src/dht/session.cpp knows do not get lost on the way to its list.
use distft.Prelude.{ℕ, ◌≤◌, ◌≡◌, ◌⊎◌, inl, inr, true, List, [], ◌∷◌, ◌++◌, arith, take, Bool-cases}
use distft.Key.{Key, Peer, dist}
use distft.Key.Order.{value}
use distft.Tree.{kbucket_max}
use distft.Session.Lookup.{has_key, unique_peers, insert_sorted, sort_peers, nearest}
use distft.Session.Nearest.{away, Ordered, sort_peers-Ordered}

-- Some peer, or some key, is at most so far from a key.
abbrev pub Near : Key → ℕ → List Peer → Type 0
Near k m [] = ⊥
Near k m (p ∷ ps) = (away k p ≤ m) ⊎ Near k m ps

abbrev NearKey : Key → ℕ → List Key → Type 0
NearKey k m [] = ⊥
NearKey k m (j ∷ js) = (value (dist k j).value ≤ m) ⊎ NearKey k m js

pub Near-left : (k : Key) (m : ℕ) (ps qs : List Peer) → Near k m ps → Near k m (ps ++ qs)
Near-left k m [] qs h = absurd h
Near-left k m (p ∷ ps) qs (inl l) = inl l
Near-left k m (p ∷ ps) qs (inr h) = inr (Near-left k m ps qs h)

pub Near-right : (k : Key) (m : ℕ) (ps qs : List Peer) → Near k m qs → Near k m (ps ++ qs)
Near-right k m [] qs h = h
Near-right k m (p ∷ ps) qs h = inr (Near-right k m ps qs h)

has_key-NearKey :
    (k j : Key) (m : ℕ) (seen : List Key)
    → has_key j seen ≡ true
    → value (dist k j).value ≤ m
    → NearKey k m seen
unfolding has_key
has_key-NearKey k j m [] h l = absurd (ground arith)
has_key-NearKey k j m (i ∷ seen) h l = ground (arith, has_key-NearKey k j m seen)

unique_peers-Near :
    (k : Key) (m : ℕ) (seen : List Key) (ps : List Peer)
    → Near k m ps
    → NearKey k m seen ⊎ Near k m (unique_peers seen ps)
unfolding unique_peers
unique_peers-Near k m seen [] h = absurd h
unique_peers-Near k m seen (p ∷ ps) h = elim (Bool-cases (has_key p.key seen)) [
  | inl e ↦
      rw (e, unique_peers)
        (elim h [
          | inl l ↦ inl (has_key-NearKey k p.key m seen e l)
          | inr r ↦ unique_peers-Near k m seen ps r
        ])
  | inr e ↦
      rw (e, unique_peers)
        (elim h [
          | inl l ↦ inr (inl l)
          | inr r ↦ elim (unique_peers-Near k m (p.key ∷ seen) ps r) [
            | inl (inl l) ↦ inr (inl l)
            | inl (inr s) ↦ inl s
            | inr u ↦ inr (inr u)
          ]
        ])
]

insert_sorted-Near :
    (k : Key) (m : ℕ) (p : Peer) (ps : List Peer)
    → Near k m (p ∷ ps)
    → Near k m (insert_sorted k p ps)
unfolding insert_sorted
insert_sorted-Near k m p [] h = h
insert_sorted-Near k m p (q ∷ qs) h = ground (arith, insert_sorted-Near k m p qs)

pub sort_peers-Near : (k : Key) (m : ℕ) (ps : List Peer) → Near k m ps → Near k m (sort_peers k ps)
unfolding sort_peers
sort_peers-Near k m [] h = h
sort_peers-Near k m (p ∷ ps) (inl l) = insert_sorted-Near k m p (sort_peers k ps) (inl l)
sort_peers-Near k m (p ∷ ps) (inr h) =
    insert_sorted-Near k m p (sort_peers k ps) (inr (sort_peers-Near k m ps h))

pub Near-first :
    (k : Key) (m : ℕ) (p : Peer) (ps : List Peer)
    → Ordered k (p ∷ ps)
    → Near k m (p ∷ ps)
    → away k p ≤ m
Near-first k m p ps o (inl l) = l
Near-first k m p [] o (inr h) = absurd h
Near-first k m p (q ∷ ps) o (inr h) =
    let l : away k q ≤ m = Near-first k m q ps o.1 h in omega (arith, o.0.0)

cut-Near :
    (k : Key) (m : ℕ) (ps : List Peer) → Ordered k ps → Near k m ps → Near k m (take kbucket_max ps)
cut-Near k m [] o h = h
cut-Near k m (p ∷ ps) o h = inl (Near-first k m p ps o h)

pub nearest-Near : (k : Key) (m : ℕ) (ps : List Peer) → Near k m ps → Near k m (nearest k ps)
unfolding nearest
nearest-Near k m ps h = cut-Near k m _ (sort_peers-Ordered k (unique_peers [] ps)) (
    sort_peers-Near k m (unique_peers [] ps)
      (elim (unique_peers-Near k m [] ps h) [ inl n ↦ absurd n | inr u ↦ u ]))

-- ===== src/Session/Found.antt =====
-- What a node lookup of src/dht/session.cpp finds: no peer that it knows gets lost in its rounds.
use mathlib.Core.Path.{subst}
use distft.Prelude.{
  ℕ, zero, suc, ◌≤◌, ◌≡◌, refl, Bool, ◌⊎◌, inl, inr, true, false, List, [], ◌∷◌, ◌++◌,
  if◌then◌else◌, arith, All, Bool-cases, Option, none, some,
}
use distft.Prelude.{leb, length, ◌&&◌}
use distft.Key.{dist, dist_geq}
use distft.Key.{Key, Peer, Dist, Text}
use distft.Tree.{kbucket_max}
use distft.Router.{closest_peers}
use distft.Session.Network.{Network}
use distft.Session.{Env, M, Result, ok, err, thrown, fail, return}
use distft.Session.Handlers.{search_router}
use distft.Session.Lookup.{
  has_key, nearest, Queried, Visited, visit, lookup_rounds, lookup_helper, node_query, final_calls,
  node_lookup, max_lookup_iters,
}
use distft.Session.Nearest.{away, Ordered, node_lookup-Closest}
use distft.Session.Near.{Near, Near-left, Near-right, sort_peers-Near, Near-first, nearest-Near}

-- A result that is no fault has the property.
abbrev Gives : {W A : Type 0} → (A → Type 0) → Result (A × Env W) → Type 0
Gives P (ok (a, s)) = P a
Gives P (err e) = Unit {0}

Gives->>= :
    {W A B : Type 0} (P : A → Type 0) (Q : B → Type 0) (r : Result (A × Env W)) (f : A → M W B)
    → ((a : A) (s : Env W) → P a → Gives Q (f a s))
    → Gives P r
    → Gives Q (elim r [ err e ↦ err e | ok (a, s) ↦ f a s ])
Gives->>= P Q (ok (a, s)) f h g = h a s g
Gives->>= P Q (err e) f h g = tt

passed :
    (k : Key) (m : ℕ) (p : Peer) (ahead behind : List Peer)
    → Near k m behind ⊎ Near k m (p ∷ ahead)
    → Near k m (behind ++ p ∷ []) ⊎ Near k m ahead
passed k m p ahead behind (inl h) = inl (Near-left k m behind (p ∷ []) h)
passed k m p ahead behind (inr (inl l)) = inl (Near-right k m behind (p ∷ []) (inl l))
passed k m p ahead behind (inr (inr h)) = inr h

pushed_too :
    (k : Key) (m : ℕ) (behind ahead pushed : List Peer)
    → Near k m behind ⊎ Near k m ahead
    → Near k m behind ⊎ Near k m (ahead ++ pushed)
pushed_too k m behind ahead pushed (inl h) = inl h
pushed_too k m behind ahead pushed (inr h) = inr (Near-left k m ahead pushed h)

joined_up :
    (k : Key) (m : ℕ) (behind ahead : List Peer)
    → Near k m behind ⊎ Near k m ahead
    → Near k m (behind ++ ahead)
joined_up k m behind ahead (inl h) = Near-left k m behind ahead h
joined_up k m behind ahead (inr h) = Near-right k m behind ahead h

stopped :
    (k : Key) (m : ℕ) (p : Peer) (ahead pushed behind : List Peer)
    → Near k m behind ⊎ Near k m (p ∷ ahead)
    → Near k m (behind ++ p ∷ ahead ++ pushed)
stopped k m p ahead pushed behind h =
    Near-left k m (behind ++ p ∷ ahead) pushed (joined_up k m behind (p ∷ ahead) h)

anything : {W A : Type 0} (r : Result (A × Env W)) → Gives (λ q. Unit {0}) r
anything (ok (a, s)) = tt
anything (err e) = tt

-- What `visit` does with an answer.
after_query :
    {W : Type 0} (P : Visited → Type 0) (found : Option Text) (answered : Bool)
    (stops : Text → Visited) (goes misses : M W Visited) (t : Env W)
    → ((d : Text) → P (stops d))
    → Gives P (goes t)
    → Gives P (misses t)
    → Gives P (
        (elim found as (λ x. M W Visited) [
          | some d ↦ return (stops d)
          | none ↦ (elim answered as (λ x. M W Visited) [ true ↦ goes | false ↦ misses ])
        ])
          t)
after_query P (some d) answered stops goes misses t h g f = h d
after_query P none true stops goes misses t h g f = g
after_query P none false stops goes misses t h g f = f

-- What `lookup_rounds` does with what a round leaves.
after_round :
    {W : Type 0} (k : Key) (m : ℕ) (found : Option Text) (peers ns : List Peer)
    (ends : Peer → List Peer → Bool) (more : Peer → List Peer → M W (Option Text × List Peer))
    (t : Env W)
    → Near k m peers
    → Near k m ns
    → ((p : Peer) (ps : List Peer) → Near k m (p ∷ ps) → Gives (λ r. Near k m r.1) (more p ps t))
    → Gives
        (λ r. Near k m r.1)
        ((elim found as (λ x. M W (Option Text × List Peer)) [
          | some d ↦ return (some d, peers)
          | none ↦ (elim ns as (λ x. M W (Option Text × List Peer)) [
            | [] ↦ fail thrown
            | p ∷ ps ↦ (if ends p ps then return (none, p ∷ ps) else more p ps)
          ])
        ])
          t)
after_round k m (some d) peers ns ends more t h g f = h
after_round k m none peers [] ends more t h g f = tt
after_round k m none peers (p ∷ ps) ends more t h g f = elim (Bool-cases (ends p ps)) [
  | inl e ↦ rw (e, if◌then◌else◌) g
  | inr e ↦ rw (e, if◌then◌else◌) (f p ps g)
]

module _ {W : Type 0} (query : Peer → M W Queried) (k : Key) (m : ℕ) where
  visit-Near :
      (left : ℕ) (ahead : List Peer) (queried : List Key) (behind : List Peer) (s : Env W)
      → Near k m behind ⊎ Near k m ahead
      → Gives (λ v. Near k m v.peers) (visit query left ahead queried behind s)
  unfolding visit
  visit-Near zero ahead queried behind s h = joined_up k m behind ahead h
  visit-Near (suc left) [] queried behind s (inl h) = h
  visit-Near (suc left) [] queried behind s (inr h) = absurd h
  visit-Near (suc left) (p ∷ ahead) queried behind s h =
      let h' = passed k m p ahead behind h in
      elim (Bool-cases (has_key p.key queried)) [
        | inl e ↦ rw (e, visit) (visit-Near (suc left) ahead queried (behind ++ p ∷ []) s h')
        | inr e ↦
            rw (e, visit)
              (Gives->>= (λ q. Unit {0}) (λ v. Near k m v.peers) (query p s) _
                (λ q t u.
                  after_query (λ v. Near k m v.peers) q.found q.answered _ _ _ t
                    (λ d. stopped k m p ahead q.pushed behind h)
                    (visit-Near left (ahead ++ q.pushed) (p.key ∷ queried) (behind ++ p ∷ []) t
                      (pushed_too k m (behind ++ p ∷ []) ahead q.pushed h'))
                    (visit-Near (suc left) ahead (p.key ∷ queried) (behind ++ p ∷ []) t h'))
                (anything (query p s)))
      ]

  lookup_rounds-Near :
      (rounds : ℕ) (peers : List Peer) (queried : List Key) (size : ℕ) (least : Dist) (s : Env W)
      → Near k m peers
      → Gives (λ r. Near k m r.1) (lookup_rounds query rounds k peers queried size least s)
  unfolding lookup_rounds
  lookup_rounds-Near zero peers queried size least s h = h
  lookup_rounds-Near (suc rounds) peers queried size least s h =
      Gives->>= {A = Visited} {B = Option Text × List Peer} (λ v. Near k m v.peers)
        (λ r. Near k m r.1) _ _
        (λ v t g.
          after_round k m v.found v.peers (nearest k v.peers)
            (λ p ps. leb (length (p ∷ ps)) size && dist_geq (dist k p.key) least)
            (λ p ps.
              lookup_rounds query rounds k (p ∷ ps) v.queried (length (p ∷ ps)) (dist k p.key))
            t g (nearest-Near k m v.peers g)
            (λ p ps f.
              lookup_rounds-Near rounds (p ∷ ps) v.queried (length (p ∷ ps)) (dist k p.key) t f))
        (visit-Near _ peers queried [] s (inr h))

module _ (net : Network) where
  open net use {World, clock}

  node_lookup-Gives :
      (k : Key) (m : ℕ) (s : Env World)
      → Near k m (closest_peers s.session.router k kbucket_max (clock s.world)).0
      → Gives (Near k m) (node_lookup net k s)
  unfolding node_lookup lookup_helper search_router
  node_lookup-Gives k m s h =
      Gives->>= (λ r. Near k m r.1) (Near k m) (lookup_helper net k (node_query net k) s) _
        (λ (found, peers) t g.
          Gives->>= (λ q. Unit {0}) (Near k m) (final_calls net k peers t) _
            (λ pushed u v. nearest-Near k m (peers ++ pushed) (Near-left k m peers pushed g))
            (anything (final_calls net k peers t)))
        (lookup_rounds-Near (node_query net k) k m max_lookup_iters _ [] 0 _ _
          (sort_peers-Near k m _ h))

  first :
      (k : Key) (m : ℕ) (ps : List Peer)
      → Ordered k ps
      → Near k m ps
      → (q : Peer) × (qs : List Peer) × (ps ≡ q ∷ qs) × (away k q ≤ m)
  first k m [] o h = absurd h
  first k m (q ∷ qs) o h = (q, qs, refl, Near-first k m q qs o h)

  -- A node lookup that ends hands out a peer first that is at least as near to the key as every peer
  -- that the session's own router has closest to it, whatever the network answers.
  pub node_lookup-Near :
      (k : Key) (s s' : Env World) (ps : List Peer)
      → node_lookup net k s ≡ ok (ps, s')
      → All
          (λ p. (q : Peer) × (qs : List Peer) × (ps ≡ q ∷ qs) × (away k q ≤ away k p))
          (closest_peers s.session.router k kbucket_max (clock s.world)).0
  node_lookup-Near k s s' ps e =
      each (closest_peers s.session.router k kbucket_max (clock s.world)).0 (λ m h.
        first k m ps (node_lookup-Closest net k s s' ps e).2
          (subst (Gives (Near k m)) e (node_lookup-Gives k m s h)))
    where
      each :
          (found : List Peer)
          → ((m : ℕ)
              → Near k m found
              → (q : Peer) × (qs : List Peer) × (ps ≡ q ∷ qs) × (away k q ≤ m))
          → All (λ p. (q : Peer) × (qs : List Peer) × (ps ≡ q ∷ qs) × (away k q ≤ away k p)) found
      each [] h = tt
      each (p ∷ found) h = (h (away k p) (inl (omega arith)), each found (λ m n. h m (inr n)))

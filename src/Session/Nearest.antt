-- ===== src/Session/Nearest.antt =====
-- The list that a node lookup hands out.
use mathlib.Core.Path.{subst}
use distft.Prelude.{
  ℕ, zero, suc, ◌≤◌, ◌≡◌, ◌≢◌, sym, inl, inr, false, List, [], ◌∷◌, ◌++◌, if◌then◌else◌, arith,
  length, take, length-take_le, All, Bool-cases,
}
use distft.Key.{Key, Peer, dist, closer}
use distft.Key.Order.{value, closer-value}
use distft.Tree.{kbucket_max}
use distft.Tree.Bucket.{Distinct}
use distft.Session.Network.{Network}
use distft.Session.{Env, M, Result, ok, err}
use distft.Session.Lookup.{
  has_key, unique_peers, insert_sorted, sort_peers, nearest, lookup_helper, node_query, final_calls,
  node_lookup,
}

-- The distance of a peer to a key, as a number.
abbrev pub away : Key → Peer → ℕ
away k p = value (dist k p.key).value

-- The peers stand in the order of their distances to a key.
abbrev pub Ordered : Key → List Peer → Type 0
Ordered k [] = Unit {0}
Ordered k (p ∷ ps) = All (λ q. away k p ≤ away k q) ps × Ordered k ps

unseen-tail :
    (k : Key) (seen : List Key) (ps : List Peer)
    → All (λ q. has_key q.key (k ∷ seen) ≡ false) ps
    → All (λ q. has_key q.key seen ≡ false) ps
unfolding has_key
unseen-tail k seen [] h = tt
unseen-tail k seen (p ∷ ps) h = (ground arith, unseen-tail k seen ps h.1)

unseen-head :
    (k : Key) (seen : List Key) (ps : List Peer)
    → All (λ q. has_key q.key (k ∷ seen) ≡ false) ps
    → All (λ q. q.key ≢ k) ps
unfolding has_key
unseen-head k seen [] h = tt
unseen-head k seen (p ∷ ps) h = ((λ e. ground arith), unseen-head k seen ps h.1)

unique_peers-unseen :
    (seen : List Key) (ps : List Peer)
    → All (λ q. has_key q.key seen ≡ false) (unique_peers seen ps)
unfolding unique_peers has_key
unique_peers-unseen seen [] = tt
unique_peers-unseen seen (p ∷ ps) = elim (Bool-cases (has_key p.key seen)) [
  | inl e ↦ rw (e, unique_peers) (unique_peers-unseen seen ps)
  | inr e ↦
      rw (e, unique_peers) ((e, unseen-tail p.key seen _ (unique_peers-unseen (p.key ∷ seen) ps)))
]

unique_peers-Distinct : (seen : List Key) (ps : List Peer) → Distinct (unique_peers seen ps)
unfolding unique_peers has_key
unique_peers-Distinct seen [] = tt
unique_peers-Distinct seen (p ∷ ps) = elim (Bool-cases (has_key p.key seen)) [
  | inl e ↦ rw (e, unique_peers) (unique_peers-Distinct seen ps)
  | inr e ↦
      rw (e, unique_peers)
        ((
          unseen-head p.key seen _ (unique_peers-unseen (p.key ∷ seen) ps),
          unique_peers-Distinct (p.key ∷ seen) ps,
        ))
]

insert_sorted-All {κ} :
    (P : Peer → Type κ) (k : Key) (p : Peer) (ps : List Peer)
    → P p
    → All P ps
    → All P (insert_sorted k p ps)
unfolding insert_sorted
insert_sorted-All P k p [] h g = (h, tt)
insert_sorted-All P k p (q ∷ qs) h g = ground (arith, insert_sorted-All P k p qs h g.1)

insert_sorted-Distinct :
    (k : Key) (p : Peer) (ps : List Peer)
    → All (λ q. q.key ≢ p.key) ps
    → Distinct ps
    → Distinct (insert_sorted k p ps)
unfolding insert_sorted
insert_sorted-Distinct k p [] h d = (tt, tt)
insert_sorted-Distinct k p (q ∷ qs) h d = elim (Bool-cases (closer k q p)) [
  | inl e ↦
      rw (e, if◌then◌else◌)
        ((
          insert_sorted-All (λ r. r.key ≢ q.key) k p qs (λ e'. h.0 (sym e')) d.0,
          insert_sorted-Distinct k p qs h.1 d.1,
        ))
  | inr e ↦ rw (e, if◌then◌else◌) ((h, d))
]

All-weaken :
    (k : Key) (p q : Peer) (ps : List Peer)
    → away k p ≤ away k q
    → All (λ r. away k q ≤ away k r) ps
    → All (λ r. away k p ≤ away k r) ps
All-weaken k p q [] l h = tt
All-weaken k p q (r ∷ ps) l h = (omega (arith, h.0), All-weaken k p q ps l h.1)

insert_sorted-Ordered :
    (k : Key) (p : Peer) (ps : List Peer) → Ordered k ps → Ordered k (insert_sorted k p ps)
unfolding insert_sorted
insert_sorted-Ordered k p [] h = (tt, tt)
insert_sorted-Ordered k p (q ∷ qs) h = elim (Bool-cases (closer k q p)) [
  | inl e ↦
      let l : away k q ≤ away k p = ground (arith, closer-value k q p) in
      rw (e, if◌then◌else◌)
        ((
          insert_sorted-All (λ r. away k q ≤ away k r) k p qs l h.0,
          insert_sorted-Ordered k p qs h.1,
        ))
  | inr e ↦
      let l : away k p ≤ away k q = ground (arith, closer-value k q p) in
      rw (e, if◌then◌else◌) (((l, All-weaken k p q qs l h.0), h))
]

pub sort_peers-All {κ} :
    (P : Peer → Type κ) (k : Key) (ps : List Peer) → All P ps → All P (sort_peers k ps)
unfolding sort_peers
sort_peers-All P k [] h = tt
sort_peers-All P k (p ∷ ps) h =
    insert_sorted-All P k p (sort_peers k ps) h.0 (sort_peers-All P k ps h.1)

sort_peers-Distinct : (k : Key) (ps : List Peer) → Distinct ps → Distinct (sort_peers k ps)
unfolding sort_peers
sort_peers-Distinct k [] d = tt
sort_peers-Distinct k (p ∷ ps) d =
    insert_sorted-Distinct k p (sort_peers k ps) (sort_peers-All (λ q. q.key ≢ p.key) k ps d.0)
      (sort_peers-Distinct k ps d.1)

pub sort_peers-Ordered : (k : Key) (ps : List Peer) → Ordered k (sort_peers k ps)
unfolding sort_peers
sort_peers-Ordered k [] = tt
sort_peers-Ordered k (p ∷ ps) =
    insert_sorted-Ordered k p (sort_peers k ps) (sort_peers-Ordered k ps)

take-All {κ} : (P : Peer → Type κ) (n : ℕ) (ps : List Peer) → All P ps → All P (take n ps)
take-All P zero ps h = tt
take-All P (suc n) [] h = tt
take-All P (suc n) (p ∷ ps) h = (h.0, take-All P n ps h.1)

unique_peers-All {κ} :
    (P : Peer → Type κ) (seen : List Key) (ps : List Peer) → All P ps → All P (unique_peers seen ps)
unfolding unique_peers
unique_peers-All P seen [] h = tt
unique_peers-All P seen (p ∷ ps) h = elim (Bool-cases (has_key p.key seen)) [
  | inl e ↦ rw (e, unique_peers) (unique_peers-All P seen ps h.1)
  | inr e ↦ rw (e, unique_peers) ((h.0, unique_peers-All P (p.key ∷ seen) ps h.1))
]

pub nearest-All {κ} :
    (P : Peer → Type κ) (k : Key) (ps : List Peer) → All P ps → All P (nearest k ps)
unfolding nearest
nearest-All P k ps h = take-All P kbucket_max _ (sort_peers-All P k _ (unique_peers-All P [] ps h))

take-Distinct : (n : ℕ) (ps : List Peer) → Distinct ps → Distinct (take n ps)
take-Distinct zero ps d = tt
take-Distinct (suc n) [] d = tt
take-Distinct (suc n) (p ∷ ps) d = (take-All (λ q. q.key ≢ p.key) n ps d.0, take-Distinct n ps d.1)

take-Ordered : (k : Key) (n : ℕ) (ps : List Peer) → Ordered k ps → Ordered k (take n ps)
take-Ordered k zero ps h = tt
take-Ordered k (suc n) [] h = tt
take-Ordered k (suc n) (p ∷ ps) h =
    (take-All (λ q. away k p ≤ away k q) n ps h.0, take-Ordered k n ps h.1)

-- What a lookup promises of its list.
abbrev pub Closest : Key → List Peer → Type 0
Closest k ps = (length ps ≤ kbucket_max) × Distinct ps × Ordered k ps

nearest-Closest : (k : Key) (ps : List Peer) → Closest k (nearest k ps)
unfolding nearest
nearest-Closest k ps =
    let qs = sort_peers k (unique_peers [] ps) in
    (
      length-take_le kbucket_max qs,
      take-Distinct kbucket_max qs
          (sort_peers-Distinct k (unique_peers [] ps) (unique_peers-Distinct [] ps)),
      take-Ordered k kbucket_max qs (sort_peers-Ordered k (unique_peers [] ps)),
    )

module _ (net : Network) where
  open net use {World}

  abbrev pub Closed : Key → Result (List Peer × Env World) → Type 0
  Closed k (ok (ps, s)) = Closest k ps
  Closed k (err e) = Unit {0}

  Closed->>= :
      {A : Type 0} (k : Key) (r : Result (A × Env World)) (f : A → M World (List Peer))
      → ((a : A) (s : Env World) → Closed k (f a s))
      → Closed k (elim r [ err e ↦ err e | ok (a, s) ↦ f a s ])
  Closed->>= k (ok (a, s)) f h = h a s
  Closed->>= k (err e) f h = tt

  pub node_lookup-Closed : (k : Key) (s : Env World) → Closed k (node_lookup net k s)
  unfolding node_lookup
  node_lookup-Closed k s =
      Closed->>= k (lookup_helper net k (node_query net k) s) _ (λ (found, peers) s'.
        Closed->>= k (final_calls net k peers s') _
          (λ pushed s''. nearest-Closest k (peers ++ pushed)))

  -- A node lookup that ends hands out at most `KBUCKET_MAX` peers, with distinct keys, in the order of
  -- their distances to the key, whatever the network answers.
  pub node_lookup-Closest :
      (k : Key) (s s' : Env World) (ps : List Peer)
      → node_lookup net k s ≡ ok (ps, s')
      → Closest k ps
  node_lookup-Closest k s s' ps h = subst (Closed k) h (node_lookup-Closed k s)

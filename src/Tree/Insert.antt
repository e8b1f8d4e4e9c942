-- ===== src/Tree/Insert.antt =====
-- The walk of `attempt_insert_peer` keeps the tree valid, and what it does to the endpoints.
use distft.Prelude.{
  ℕ, zero, suc, ◌+◌, ◌-◌, ◌<◌, ◌≡◌, refl, inl, inr, Bool-cases, Option-cases, true, false, List,
  ◌∷◌, length, ite, if◌then◌else◌, Option, none, some, arith,
}
use distft.Key.{Key, Key-discrete, Peer, Text, bit}
use distft.Tree.{
  Tree, leaf, joint, Outcome, refreshed, added, rejected, graft_zero, graft_one, descend,
  insert_loop, find_key, remove_at, kbucket_max, split, back,
}
use distft.Tree.Bucket.{
  bucket_endpoint, find_key-none, rotate_front-found, length-remove_at, All-remove_at,
  remove_at-Distinct, remove_at-fresh, bucket_endpoint-remove_at,
}
use distft.Tree.Valid.{
  size, AllPeers, IsValid, endpoint_of, split-IsValid, split-HasBit, split-All, size-split,
  endpoint_of-split,
}

-- The tree that a walk leaves.
abbrev pub outcome_tree : Outcome → Tree
outcome_tree (refreshed t) = t
outcome_tree (added t) = t
outcome_tree (rejected lru t) = t

-- A predicate on keys that the new peer meets is kept.
insert_loop-All {κ} :
    (Q : Key → Type κ) (i : ℕ) (self : Key) (p : Peer) (now : ℕ) (t : Tree)
    → Q p.key
    → AllPeers (λ q. Q q.key) t
    → AllPeers (λ q. Q q.key) (outcome_tree (insert_loop i self p now t))
unfolding insert_loop descend graft_zero graft_one
insert_loop-All Q zero self p now t q h = h
insert_loop-All Q (suc i) self p now (joint s c at z o) q h =
    ground (arith, insert_loop-All Q i self p now z q h.0, insert_loop-All Q i self p now o q h.1)
insert_loop-All Q (suc i) self p now (leaf s c at ks) q h =
    elim (Option-cases (find_key p.key ks)) [
      | inr (j, e) ↦
          rw (e, insert_loop)
            (rw (rotate_front-found p.key ks j p.endpoint e)
              (q, All-remove_at (λ q. Q q.key) j ks h))
      | inl e ↦ ground (
        arith,
        split-All (λ q. Q q.key) s now ks h,
        insert_loop-All Q i self p now (split s now ks).0 q,
        insert_loop-All Q i self p now (split s now ks).1 q,
      )
    ]

-- A new peer is one more; any other outcome keeps the number of peers.
abbrev pub Grown : ℕ → Outcome → Type 0
Grown n (refreshed t) = size t ≡ n
Grown n (added t) = size t ≡ n + 1
Grown n (rejected lru t) = size t ≡ n

-- The walk of an insertion, whatever its outcome, keeps a valid tree valid. The number of peers grows by
-- one if the peer is new, and stays otherwise.
pub insert_loop-IsValid :
    (i : ℕ) (self : Key) (p : Peer) (now b : ℕ) (t : Tree)
    → IsValid b t
    → IsValid b (outcome_tree (insert_loop i self p now t))
      × Grown (size t) (insert_loop i self p now t)
unfolding insert_loop descend graft_zero graft_one
insert_loop-IsValid zero self p now b t v = (v, refl)
insert_loop-IsValid (suc i) self p now b (joint s c at z o) v = elim (Bool-cases (bit p.key s)) [
  | inl e ↦ ground (
    arith,
    insert_loop-IsValid i self p now (b - 1) o v.4,
    insert_loop-All (λ k. bit k s ≡ true) i self p now o e v.6,
  )
  | inr e ↦ ground (
    arith,
    insert_loop-IsValid i self p now (b - 1) z v.3,
    insert_loop-All (λ k. bit k s ≡ false) i self p now z e v.5,
  )
]
insert_loop-IsValid (suc i) self p now b (leaf s c at ks) v =
    elim (Option-cases (find_key p.key ks)) [
      | inr (j, e) ↦
          rw (e, insert_loop)
            (rw (rotate_front-found p.key ks j p.endpoint e) (
              (
                v.0,
                omega (arith, length-remove_at p.key ks j e),
                omega (arith, length-remove_at p.key ks j e),
                (remove_at-fresh p.key ks j e v.3, remove_at-Distinct j ks v.3),
              ),
              omega (arith, length-remove_at p.key ks j e),
            ))
      | inl e ↦ elim (Bool-cases (bit p.key s)) [
        | inl u ↦ ground (
          arith,
          find_key-none p.key ks e,
          split-IsValid s now ks,
          split-HasBit s now ks,
          size-split s now ks,
          insert_loop-IsValid i self p now (s - 1) (split s now ks).1,
          insert_loop-All (λ k. bit k s ≡ true) i self p now (split s now ks).1 u,
        )
        | inr u ↦ ground (
          arith,
          find_key-none p.key ks e,
          split-IsValid s now ks,
          split-HasBit s now ks,
          size-split s now ks,
          insert_loop-IsValid i self p now (s - 1) (split s now ks).0,
          insert_loop-All (λ k. bit k s ≡ false) i self p now (split s now ks).0 u,
        )
      ]
    ]

-- What a walk makes of the endpoint `old` of a key: an accepted peer's key has the peer's endpoint,
-- and no other key is touched. A walk that ends without room changes none.
abbrev pub Knows : Peer → Key → Option Text → Outcome → Type 0
Knows p k old (refreshed t) = endpoint_of k t ≡ ite (Key-discrete p.key k) (some p.endpoint) old
Knows p k old (added t) = endpoint_of k t ≡ ite (Key-discrete p.key k) (some p.endpoint) old
Knows p k old (rejected lru t) = endpoint_of k t ≡ old

descend-Knows :
    (p : Peer) (k : Key) (walk : Tree → Outcome) (s c at : ℕ) (z o : Tree)
    → Knows p k (endpoint_of k z) (walk z)
    → Knows p k (endpoint_of k o) (walk o)
    → Knows p k
        (if bit k s then endpoint_of k o else endpoint_of k z)
        (descend walk (bit p.key s) s c at z o)
unfolding descend graft_zero graft_one endpoint_of
descend-Knows p k walk s c at z o hz ho = ground arith

moved-Knows :
    (p : Peer) (k : Key) (ks : List Peer) (j : ℕ)
    → find_key p.key ks ≡ some j
    → bucket_endpoint k (record { endpoint = p.endpoint; key = p.key } ∷ remove_at j ks)
      ≡ ite (Key-discrete p.key k) (some p.endpoint) (bucket_endpoint k ks)
unfolding bucket_endpoint
moved-Knows p k ks j e = ground (arith, bucket_endpoint-remove_at p.key k ks j e)

added-Knows :
    (p : Peer) (k : Key) (ks : List Peer)
    → bucket_endpoint k (p ∷ ks)
      ≡ ite (Key-discrete p.key k) (some p.endpoint) (bucket_endpoint k ks)
unfolding bucket_endpoint
added-Knows p k ks = refl

leaf-Knows :
    (i : ℕ) (self : Key) (p : Peer) (now s c at : ℕ) (ks : List Peer) (k : Key)
    → find_key p.key ks ≡ none
    → Knows p k (bucket_endpoint k ks) (
        descend
          (insert_loop i self p now)
          (bit p.key s)
          s
          c
          at
          (split s now ks).0
          (split s now ks).1)
    → Knows p k (bucket_endpoint k ks) (insert_loop (suc i) self p now (leaf s c at ks))
unfolding insert_loop endpoint_of
leaf-Knows i self p now s c at ks k e h = rw (e, insert_loop) (ground (arith, added-Knows p k ks))

-- After a walk that refreshes or adds the peer the tree knows the peer's key under the peer's endpoint,
-- and after any walk every other key as before. A walk that is turned away changes no endpoint.
pub insert_loop-Knows :
    (i : ℕ) (self : Key) (p : Peer) (now : ℕ) (t : Tree) (k : Key)
    → Knows p k (endpoint_of k t) (insert_loop i self p now t)
unfolding insert_loop endpoint_of
insert_loop-Knows zero self p now t k = refl
insert_loop-Knows (suc i) self p now (joint s c at z o) k =
    descend-Knows p k (insert_loop i self p now) s c at z o (insert_loop-Knows i self p now z k)
      (insert_loop-Knows i self p now o k)
insert_loop-Knows (suc i) self p now (leaf s c at ks) k = elim (Option-cases (find_key p.key ks)) [
  | inr (j, e) ↦
      rw (e, insert_loop) (rw (rotate_front-found p.key ks j p.endpoint e) (moved-Knows p k ks j e))
  | inl e ↦ leaf-Knows i self p now s c at ks k e (
      rw (endpoint_of-split k s now ks) at (
        descend-Knows p k (insert_loop i self p now) s c at (split s now ks).0 (split s now ks).1
          (insert_loop-Knows i self p now (split s now ks).0 k)
          (insert_loop-Knows i self p now (split s now ks).1 k)))
]

-- The bucket that a key's bits lead to.
unfoldable pub bucket_of : Key → Tree → List Peer
bucket_of k (leaf s c at ks) = ks
bucket_of k (joint s c at z o) = if bit k s then bucket_of k o else bucket_of k z

-- What holds of a walk that is turned away.
abbrev pub FullFor : Peer → Outcome → Type 0
FullFor p (refreshed t) = Unit {0}
FullFor p (added t) = Unit {0}
FullFor p (rejected lru t) =
    (lru ≡ back (bucket_of p.key t))
    × (length (bucket_of p.key t) ≡ kbucket_max)
    × (find_key p.key (bucket_of p.key t) ≡ none)

-- If a walk with more rounds than there are bits left is turned away from a valid tree, the bucket of the
-- peer is full and does not hold the peer's key, and what the walk hands out is the last peer of that
-- bucket.
pub insert_loop-FullFor :
    (i : ℕ) (self : Key) (p : Peer) (now b : ℕ) (t : Tree)
    → b < i
    → IsValid b t
    → FullFor p (insert_loop i self p now t)
unfolding insert_loop descend graft_zero graft_one bucket_of
insert_loop-FullFor zero self p now b t h v = elim h [ ]
insert_loop-FullFor (suc i) self p now b (joint s c at z o) h v =
    ground (
      arith,
      insert_loop-FullFor i self p now (b - 1) z,
      insert_loop-FullFor i self p now (b - 1) o,
    )
insert_loop-FullFor (suc i) self p now b (leaf s c at ks) h v =
    elim (Option-cases (find_key p.key ks)) [
      | inr (j, e) ↦ rw (e, insert_loop) tt
      | inl e ↦ ground (
        arith,
        split-IsValid s now ks,
        insert_loop-FullFor i self p now (s - 1) (split s now ks).0,
        insert_loop-FullFor i self p now (s - 1) (split s now ks).1,
      )
    ]

-- A walk with more rounds than there are bits left and a bucket with room is not turned away.
abbrev pub Accepts : Outcome → Type 0
Accepts (refreshed t) = Unit {0}
Accepts (added t) = Unit {0}
Accepts (rejected lru t) = ⊥

pub insert_loop-Accepts :
    (i : ℕ) (self : Key) (p : Peer) (now b : ℕ) (t : Tree)
    → b < i
    → IsValid b t
    → length (bucket_of p.key t) < kbucket_max
    → Accepts (insert_loop i self p now t)
unfolding insert_loop descend graft_zero graft_one bucket_of
insert_loop-Accepts zero self p now b t h v l = elim h [ ]
insert_loop-Accepts (suc i) self p now b (joint s c at z o) h v l =
    ground (
      arith,
      insert_loop-Accepts i self p now (b - 1) z,
      insert_loop-Accepts i self p now (b - 1) o,
    )
insert_loop-Accepts (suc i) self p now b (leaf s c at ks) h v l = ground arith

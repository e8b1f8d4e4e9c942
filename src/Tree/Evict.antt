-- ===== src/Tree/Evict.antt =====
-- The walk of `evict_peer` keeps the tree valid, and what it does to the endpoints and to the room.
use mathlib.Core.Path.{subst}
use mathlib.Core.Option.{some-injective}
use distft.Prelude.{
  ℕ, zero, suc, ◌-◌, ◌≤◌, ◌<◌, ◌≡◌, refl, ◌≢◌, inl, inr, Option-cases, true, false, List, [], ◌∷◌,
  length, ite, Option, none, some, arith, All,
}
use distft.Key.{Key, Key-discrete, Peer}
use distft.Tree.{
  Tree, leaf, joint, evict_zero, evict_one, evict_loop, find_key, remove_at, kbucket_max, back,
}
use distft.Tree.Bucket.{
  bucket_endpoint, find_key-none, length-remove_at, All-remove_at, remove_at-Distinct,
  remove_at-fresh, bucket_endpoint-none, bucket_endpoint-remove_at,
}
use distft.Tree.Valid.{size, AllPeers, HasBit, IsValid, endpoint_of}
use distft.Tree.Insert.{bucket_of}

evict_leaf-none :
    (i : ℕ) (k : Key) (s c at : ℕ) (ks : List Peer)
    → find_key k ks ≡ none
    → evict_loop i k (leaf s c at ks) ≡ none
unfolding evict_loop
evict_leaf-none zero k s c at ks e = refl
evict_leaf-none (suc i) k s c at ks e = rw (e, evict_loop) (evict_leaf-none i k s c at ks e)

abbrev AllLeft {κ} : (Peer → Type κ) → Option Tree → Type κ
AllLeft P none = Unit
AllLeft P (some t) = AllPeers P t

evict_loop-AllLeft {κ} :
    (P : Peer → Type κ) (i : ℕ) (k : Key) (t : Tree) → AllPeers P t → AllLeft P (evict_loop i k t)
unfolding evict_loop evict_zero evict_one
evict_loop-AllLeft P zero k t h = tt
evict_loop-AllLeft P (suc i) k (joint s c at z o) h =
    ground (arith, evict_loop-AllLeft P i k z h.0, evict_loop-AllLeft P i k o h.1)
evict_loop-AllLeft P (suc i) k (leaf s c at ks) h = elim (Option-cases (find_key k ks)) [
  | inr (j, e) ↦ rw (e, evict_loop) (All-remove_at P j ks h)
  | inl e ↦ rw (evict_leaf-none (suc i) k s c at ks e) tt
]

-- A walk that evicts leaves a valid tree with one peer less.
abbrev pub Shrunk : ℕ → ℕ → Option Tree → Type 0
Shrunk b n none = Unit {0}
Shrunk b n (some t) = IsValid b t × (suc (size t) ≡ n)

pub evict_loop-Shrunk :
    (i : ℕ) (k : Key) (b : ℕ) (t : Tree) → IsValid b t → Shrunk b (size t) (evict_loop i k t)
unfolding evict_loop evict_zero evict_one
evict_loop-Shrunk zero k b t v = tt
evict_loop-Shrunk (suc i) k b (joint s c at z o) v = ground (
  arith,
  evict_loop-Shrunk i k (b - 1) z v.3,
  evict_loop-Shrunk i k (b - 1) o v.4,
  evict_loop-AllLeft (HasBit s false) i k z v.5,
  evict_loop-AllLeft (HasBit s true) i k o v.6,
)
evict_loop-Shrunk (suc i) k b (leaf s c at ks) v = elim (Option-cases (find_key k ks)) [
  | inr (j, e) ↦
      rw (e, evict_loop)
        (
          (
            v.0,
            omega (arith, length-remove_at k ks j e),
            omega (arith, length-remove_at k ks j e),
            remove_at-Distinct j ks v.3,
          ),
          omega (arith, length-remove_at k ks j e),
        )
  | inl e ↦ rw (evict_leaf-none (suc i) k s c at ks e) tt
]

-- What a walk leaves: the tree it started from if it finds no such peer.
abbrev pub evicted : Tree → Option Tree → Tree
evicted t none = t
evicted t (some t') = t'

-- After a walk with more rounds than there are bits left the evicted key has no endpoint, and
-- every other key has the one that it had.
pub evict_loop-endpoint :
    (i : ℕ) (k : Key) (b : ℕ) (t : Tree) (j : Key)
    → b < i
    → IsValid b t
    → endpoint_of j (evicted t (evict_loop i k t)) ≡ ite (Key-discrete k j) none (endpoint_of j t)
unfolding evict_loop evict_zero evict_one endpoint_of
evict_loop-endpoint zero k b t j h v = elim h [ ]
evict_loop-endpoint (suc i) k b (joint s c at z o) j h v =
    ground (arith, evict_loop-endpoint i k (b - 1) z j, evict_loop-endpoint i k (b - 1) o j)
evict_loop-endpoint (suc i) k b (leaf s c at ks) j h v = elim (Option-cases (find_key k ks)) [
  | inr (n, e) ↦
      rw (e, evict_loop)
        (ground (
          arith,
          bucket_endpoint-none k (remove_at n ks) (remove_at-fresh k ks n e v.3),
          bucket_endpoint-remove_at k j ks n e,
        ))
  | inl e ↦
      rw (evict_leaf-none (suc i) k s c at ks e)
        (ground (arith, bucket_endpoint-none k ks (find_key-none k ks e)))
]

pub find_key-back : (ks : List Peer) (q : Peer) → back ks ≡ some q → find_key q.key ks ≢ none
unfolding find_key back
find_key-back [] q e f = cc
find_key-back (p ∷ []) q e f = ground arith
find_key-back (p ∷ r ∷ ks) q e f = ground (arith, find_key-back (r ∷ ks) q e)

All-back {κ} : (P : Peer → Type κ) (ks : List Peer) (q : Peer) → back ks ≡ some q → All P ks → P q
unfolding back
All-back P [] q e h = cc
All-back P (p ∷ []) q e h = subst P (some-injective p q e) h.0
All-back P (p ∷ r ∷ ks) q e h = All-back P (r ∷ ks) q e h.1

bucket_of-All {κ} : (P : Peer → Type κ) (k : Key) (t : Tree) → AllPeers P t → All P (bucket_of k t)
unfolding bucket_of
bucket_of-All P k (leaf s c at ks) h = h
bucket_of-All P k (joint s c at z o) h =
    ground (arith, bucket_of-All P k z h.0, bucket_of-All P k o h.1)

-- The eviction of the last peer of the bucket that a key leads to makes room there.
pub evict_loop_room :
    (i : ℕ) (b : ℕ) (t : Tree) (k : Key) (q : Peer)
    → b < i
    → IsValid b t
    → back (bucket_of k t) ≡ some q
    → suc (length (bucket_of k (evicted t (evict_loop i q.key t)))) ≡ length (bucket_of k t)
unfolding evict_loop evict_zero evict_one bucket_of
evict_loop_room zero b t k q h v e = elim h [ ]
evict_loop_room (suc i) b (joint s c at z o) k q h v e = ground (
  arith,
  evict_loop_room i (b - 1) z k q,
  evict_loop_room i (b - 1) o k q,
  All-back (HasBit s false) (bucket_of k z) q,
  All-back (HasBit s true) (bucket_of k o) q,
  bucket_of-All (HasBit s false) k z v.5,
  bucket_of-All (HasBit s true) k o v.6,
)
evict_loop_room (suc i) b (leaf s c at ks) k q h v e = elim (Option-cases (find_key q.key ks)) [
  | inr (n, f) ↦ rw (f, evict_loop) (omega (arith, length-remove_at q.key ks n f))
  | inl f ↦ absurd (find_key-back ks q e f)
]

bucket_endpoint-back :
    (ks : List Peer) (q : Peer) → back ks ≡ some q → bucket_endpoint q.key ks ≢ none
unfolding bucket_endpoint back
bucket_endpoint-back [] q e f = cc
bucket_endpoint-back (p ∷ []) q e f = ground arith
bucket_endpoint-back (p ∷ r ∷ ks) q e f = ground (arith, bucket_endpoint-back (r ∷ ks) q e)

-- The last peer of a bucket is found by its own key.
remove_at-length : (n : ℕ) (ks : List Peer) → length (remove_at n ks) ≤ length ks
unfolding remove_at
remove_at-length n [] = omega arith
remove_at-length zero (p ∷ ks) = omega arith
remove_at-length (suc n) (p ∷ ks) = ground (arith, remove_at-length n ks)

-- An eviction makes no bucket longer.
pub evict_loop-bucket_of :
    (i : ℕ) (t : Tree) (k j : Key)
    → length (bucket_of j (evicted t (evict_loop i k t))) ≤ length (bucket_of j t)
unfolding evict_loop evict_zero evict_one bucket_of
evict_loop-bucket_of zero t k j = omega arith
evict_loop-bucket_of (suc i) (joint s c at z o) k j =
    ground (arith, evict_loop-bucket_of i z k j, evict_loop-bucket_of i o k j)
evict_loop-bucket_of (suc i) (leaf s c at ks) k j = elim (Option-cases (find_key k ks)) [
  | inr (n, f) ↦ rw (f, evict_loop) (remove_at-length n ks)
  | inl f ↦ rw (f, evict_loop) (evict_loop-bucket_of i (leaf s c at ks) k j)
]

pub endpoint_of-back :
    (b : ℕ) (t : Tree) (k : Key) (q : Peer)
    → IsValid b t
    → back (bucket_of k t) ≡ some q
    → endpoint_of q.key t ≢ none
unfolding endpoint_of bucket_of
endpoint_of-back b (leaf s c at ks) k q v e f = bucket_endpoint-back ks q e f
endpoint_of-back b (joint s c at z o) k q v e f = ground (
  arith,
  endpoint_of-back (b - 1) z k q v.3,
  endpoint_of-back (b - 1) o k q v.4,
  All-back (HasBit s false) (bucket_of k z) q,
  All-back (HasBit s true) (bucket_of k o) q,
  bucket_of-All (HasBit s false) k z v.5,
  bucket_of-All (HasBit s true) k o v.6,
)

back-some : (ks : List Peer) → 0 < length ks → (q : Peer) × (back ks ≡ some q)
unfolding back
back-some [] h = elim h [ ]
back-some (p ∷ []) h = (p, refl)
back-some (p ∷ r ∷ ks) h = back-some (r ∷ ks) (omega arith)

pub full-back : (ks : List Peer) → length ks ≡ kbucket_max → (q : Peer) × (back ks ≡ some q)
full-back ks h = back-some ks (omega arith)

-- ===== src/Tree/Valid.antt =====
-- The invariant of the routing tree, the endpoint under which it knows a key, and the split of a
-- leaf.
use distft.Prelude.{
  ℕ, ◌+◌, ◌-◌, ◌≤◌, ◌<◌, ◌≡◌, refl, ◌≢◌, Bool, true, false, List, [], ◌∷◌, ◌++◌, length,
  length-append, if◌then◌else◌, Option, arith, All,
}
use distft.Key.{Key, Peer, Text, bit}
use distft.Tree.{Tree, leaf, joint, key_count, kbucket_max, split, reassign, push_back, new_tree}
use distft.Tree.Bucket.{bucket_endpoint, Distinct}
use mathlib.Core.List.{append_assoc, append-nil}

-- The number of peers of a tree.
abbrev pub size : Tree → ℕ
size (leaf s c at ks) = length ks
size (joint s c at z o) = size z + size o

-- A predicate on all the peers of a tree.
abbrev pub AllPeers {κ} : (Peer → Type κ) → Tree → Type κ
AllPeers P (leaf s c at ks) = All P ks
AllPeers P (joint s c at z o) = AllPeers P z × AllPeers P o

-- The key has this bit.
abbrev pub HasBit : ℕ → Bool → Peer → Type 0
HasBit s b p = bit p.key s ≡ b

-- A tree whose root splits at bit `b`: the split bits fall by one from joint to child, each count
-- is the number of peers below, a bucket has at most `KBUCKET_MAX` peers, all with distinct keys,
-- and the peers of a zero tree or a one tree have that bit of their keys.
abbrev pub IsValid : ℕ → Tree → Type 0
IsValid b (leaf s c at ks) = (s ≡ b) × (c ≡ length ks) × (length ks ≤ kbucket_max) × Distinct ks
IsValid b (joint s c at z o) =
    (s ≡ b)
    × (0 < b)
    × (c ≡ size z + size o)
    × IsValid (b - 1) z
    × IsValid (b - 1) o
    × AllPeers (HasBit s false) z
    × AllPeers (HasBit s true) o

-- The endpoint under which a tree knows a key: a look at the bucket that the key's bits lead to.
unfoldable pub endpoint_of : Key → Tree → Option Text
endpoint_of k (leaf s c at ks) = bucket_endpoint k ks
endpoint_of k (joint s c at z o) = if bit k s then endpoint_of k o else endpoint_of k z

pub key_count-size : (b : ℕ) (t : Tree) → IsValid b t → key_count t ≡ size t
unfolding key_count
key_count-size b (leaf s c at ks) v = v.1
key_count-size b (joint s c at z o) v = v.2

-- The peers of a bucket with bit `s` unset, and set, in their order.
unfoldable pub select : ℕ → Bool → List Peer → List Peer
select s b [] = []
select s true (p ∷ ps) = if bit p.key s then p ∷ select s true ps else select s true ps
select s false (p ∷ ps) = if bit p.key s then select s false ps else p ∷ select s false ps

reassign-select :
    (s b c c' at at' : ℕ) (ks zs os : List Peer)
    → c ≡ length zs
    → c' ≡ length os
    → reassign s ks (leaf b c at zs) (leaf b c' at' os) ≡ (
      leaf b (length (zs ++ select s false ks)) at (zs ++ select s false ks),
      leaf b (length (os ++ select s true ks)) at' (os ++ select s true ks),
    )
unfolding reassign push_back select
reassign-select s b c c' at at' [] zs os h h' = rw (h, h') (simp append-nil)
reassign-select s b c c' at at' (p ∷ ks) zs os h h' = ground (
  arith,
  reassign-select s b c (c' + 1) at at' ks zs (os ++ p ∷ []),
  reassign-select s b (c + 1) c' at at' ks (zs ++ p ∷ []) os,
  append_assoc zs (p ∷ []) (select s false ks),
  append_assoc os (p ∷ []) (select s true ks),
  length-append zs (p ∷ []),
  length-append os (p ∷ []),
)

-- A split deals the bucket out by the bit, in order, into two fresh leaves.
pub split-select :
    (s now : ℕ) (ks : List Peer)
    → split s now ks ≡ (
      leaf (s - 1) (length (select s false ks)) now (select s false ks),
      leaf (s - 1) (length (select s true ks)) now (select s true ks),
    )
unfolding split new_tree
split-select s now ks = reassign-select s (s - 1) 0 0 now now ks [] [] refl refl

length-select :
    (s : ℕ) (ks : List Peer) → length (select s false ks) + length (select s true ks) ≡ length ks
unfolding select
length-select s [] = refl
length-select s (p ∷ ks) = ground (arith, length-select s ks)

All-select {κ} :
    (P : Peer → Type κ) (s : ℕ) (b : Bool) (ks : List Peer) → All P ks → All P (select s b ks)
unfolding select
All-select P s b [] h = h
All-select P s true (p ∷ ks) h = ground (arith, All-select P s true ks)
All-select P s false (p ∷ ks) h = ground (arith, All-select P s false ks)

select-HasBit : (s : ℕ) (b : Bool) (ks : List Peer) → All (HasBit s b) (select s b ks)
unfolding select
select-HasBit s b [] = tt
select-HasBit s true (p ∷ ks) = ground (arith, select-HasBit s true ks)
select-HasBit s false (p ∷ ks) = ground (arith, select-HasBit s false ks)

select-Distinct : (s : ℕ) (b : Bool) (ks : List Peer) → Distinct ks → Distinct (select s b ks)
unfolding select
select-Distinct s b [] h = h
select-Distinct s true (p ∷ ks) h =
    ground (arith, select-Distinct s true ks h.1, All-select (λ q. q.key ≢ p.key) s true ks h.0)
select-Distinct s false (p ∷ ks) h =
    ground (arith, select-Distinct s false ks h.1, All-select (λ q. q.key ≢ p.key) s false ks h.0)

bucket_endpoint-select :
    (k : Key) (s : ℕ) (ks : List Peer)
    → (if bit k s
        then bucket_endpoint k (select s true ks)
        else bucket_endpoint k (select s false ks))
      ≡ bucket_endpoint k ks
unfolding bucket_endpoint select
bucket_endpoint-select k s [] = ground arith
bucket_endpoint-select k s (p ∷ ks) = ground (arith, bucket_endpoint-select k s ks)

-- The two halves of a valid full leaf are valid below its split bit.
pub split-IsValid :
    (s now : ℕ) (ks : List Peer)
    → 0 < s
    → length ks ≤ kbucket_max
    → Distinct ks
    → IsValid (s - 1) (split s now ks).0 × IsValid (s - 1) (split s now ks).1
split-IsValid s now ks h l d = rw (split-select s now ks) (
  (refl, refl, omega (arith, length-select s ks), select-Distinct s false ks d),
  (refl, refl, omega (arith, length-select s ks), select-Distinct s true ks d),
)

pub split-HasBit :
    (s now : ℕ) (ks : List Peer)
    → AllPeers (HasBit s false) (split s now ks).0 × AllPeers (HasBit s true) (split s now ks).1
split-HasBit s now ks =
    rw (split-select s now ks) (select-HasBit s false ks, select-HasBit s true ks)

pub size-split :
    (s now : ℕ) (ks : List Peer) → size (split s now ks).0 + size (split s now ks).1 ≡ length ks
size-split s now ks = rw (split-select s now ks) (length-select s ks)

-- A split keeps what the leaf knew.
pub endpoint_of-split :
    (k : Key) (s now : ℕ) (ks : List Peer)
    → (if bit k s then endpoint_of k (split s now ks).1 else endpoint_of k (split s now ks).0)
      ≡ bucket_endpoint k ks
unfolding endpoint_of
endpoint_of-split k s now ks = rw (split-select s now ks) (bucket_endpoint-select k s ks)

pub split-All {κ} :
    (P : Peer → Type κ) (s now : ℕ) (ks : List Peer)
    → All P ks
    → AllPeers P (split s now ks).0 × AllPeers P (split s now ks).1
split-All P s now ks h =
    rw (split-select s now ks) (All-select P s false ks h, All-select P s true ks h)

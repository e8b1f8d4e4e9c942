-- ===== src/Tree/Closest.antt =====
-- `tree_closest_peers` and `tree_all_peers`: what they hand out.
use distft.Prelude.{
  ℕ, zero, suc, ◌-◌, ◌≤◌, ◌<◌, ◌≡◌, refl, ◌≢◌, inl, inr, Bool-cases, Bool, true, false, List, [],
  ◌∷◌, ◌++◌, length, length-append, if◌then◌else◌, none, some, arith, All, All-append, take,
  take-all, length-take, ltb,
}
use distft.Key.{Key, Peer, bit}
use distft.Tree.{Tree, leaf, joint, key_count, tree_closest_peers, tree_all_peers}
use distft.Tree.Bucket.{bucket_endpoint}
use distft.Tree.Valid.{size, AllPeers, HasBit, IsValid, endpoint_of, key_count-size}
use distft.Tree.Insert.{bucket_of}
use mathlib.Core.List.{append_assoc, append-nil}

length-bucket_of : (k : Key) (t : Tree) → length (bucket_of k t) ≤ size t
unfolding bucket_of
length-bucket_of k (leaf s c at ks) = omega arith
length-bucket_of k (joint s c at z o) = ground (arith, length-bucket_of k z, length-bucket_of k o)

key_count-closest :
    (k : Key) (n now : ℕ) (t : Tree) → key_count (tree_closest_peers k n now t).0 ≡ key_count t
unfolding tree_closest_peers key_count
key_count-closest k n now (leaf s c at ks) = refl
key_count-closest k n now (joint s c at z o) = ground arith

take-All {ℓ κ} : {A : Type ℓ} (P : A → Type κ) (n : ℕ) (xs : List A) → All P xs → All P (take n xs)
take-All P zero xs h = tt
take-All P (suc n) [] h = tt
take-All P (suc n) (x ∷ xs) h = (h.0, take-All P n xs h.1)

pub closest-All {κ} :
    (P : Peer → Type κ) (k : Key) (n now : ℕ) (t : Tree)
    → AllPeers P t
    → All P (tree_closest_peers k n now t).1 × AllPeers P (tree_closest_peers k n now t).0
unfolding tree_closest_peers
closest-All P k n now (leaf s c at ks) h = (take-All P n ks h, h)
closest-All P k n now (joint s c at z o) h =
    let first_o = tree_closest_peers k n now o in
    let first_z = tree_closest_peers k n now z in
    let rest_z = tree_closest_peers k (key_count first_o.0 - n) now z in
    let rest_o = tree_closest_peers k (key_count first_z.0 - n) now o in
    ground (
      arith,
      closest-All P k n now o h.1,
      closest-All P k n now z h.0,
      closest-All P k (key_count first_o.0 - n) now z h.0,
      closest-All P k (key_count first_z.0 - n) now o h.1,
      All-append P first_o.1 rest_z.1,
      All-append P first_z.1 rest_o.1,
    )

-- The walk starts with the bucket that the search key leads to.
pub closest_bucket_first :
    (k : Key) (n now : ℕ) (t : Tree)
    → (rest : List Peer) × ((tree_closest_peers k n now t).1 ≡ take n (bucket_of k t) ++ rest)
unfolding tree_closest_peers bucket_of
closest_bucket_first k n now (leaf s c at ks) = ([], simp append-nil)
closest_bucket_first k n now (joint s c at z o) = elim (Bool-cases (bit k s)) [
  | inl e ↦
      let (rest, q) = closest_bucket_first k n now o in
      let more = (tree_closest_peers k (key_count (tree_closest_peers k n now o).0 - n) now z).1 in
      (
        if ltb n (key_count (tree_closest_peers k n now o).0) then rest ++ more else rest,
        rw (e, tree_closest_peers)
            (ground (arith, append_assoc (take n (bucket_of k o)) rest more)),
      )
  | inr e ↦
      let (rest, q) = closest_bucket_first k n now z in
      let more = (tree_closest_peers k (key_count (tree_closest_peers k n now z).0 - n) now o).1 in
      (
        if ltb n (key_count (tree_closest_peers k n now z).0) then rest ++ more else rest,
        rw (e, tree_closest_peers)
            (ground (arith, append_assoc (take n (bucket_of k z)) rest more)),
      )
]

-- In a valid tree of at most `n` peers the walk for `n` peers hands out the bucket of the search key
-- and no peer of any other bucket, however few that makes.
pub closest_small :
    (k : Key) (n now b : ℕ) (t : Tree)
    → IsValid b t
    → size t ≤ n
    → (tree_closest_peers k n now t).1 ≡ bucket_of k t
unfolding tree_closest_peers bucket_of
closest_small k n now b (leaf s c at ks) v h = take-all n ks h
closest_small k n now b (joint s c at z o) v h = ground (
  arith,
  closest_small k n now (b - 1) z v.3,
  closest_small k n now (b - 1) o v.4,
  key_count-closest k n now z,
  key_count-closest k n now o,
  key_count-size (b - 1) z v.3,
  key_count-size (b - 1) o v.4,
)

bucket_endpoint-append :
    (k : Key) (ps qs : List Peer)
    → bucket_endpoint k (ps ++ qs)
      ≡ (elim (bucket_endpoint k ps) [ none ↦ bucket_endpoint k qs | some e ↦ some e ])
unfolding bucket_endpoint
bucket_endpoint-append k [] qs = refl
bucket_endpoint-append k (p ∷ ps) qs = ground (arith, bucket_endpoint-append k ps qs)

tree_all_peers-All {κ} : (P : Peer → Type κ) (t : Tree) → AllPeers P t → All P (tree_all_peers t)
unfolding tree_all_peers
tree_all_peers-All P (leaf s c at ks) h = h
tree_all_peers-All P (joint s c at z o) h =
    All-append P (tree_all_peers o) (tree_all_peers z) (tree_all_peers-All P o h.1)
      (tree_all_peers-All P z h.0)

-- A key without this bit is not among peers that have it.
other_bit :
    (s : ℕ) (b : Bool) (k : Key) (ps : List Peer)
    → bit k s ≢ b
    → All (HasBit s b) ps
    → bucket_endpoint k ps ≡ none
unfolding bucket_endpoint
other_bit s b k [] n h = refl
other_bit s b k (p ∷ ps) n h = ground (arith, other_bit s b k ps n h.1)

-- In a valid tree the look into the one bucket that a key's bits lead to finds what a search through
-- all the peers finds.
pub all_peers-endpoint :
    (b : ℕ) (t : Tree) (k : Key)
    → IsValid b t
    → bucket_endpoint k (tree_all_peers t) ≡ endpoint_of k t
unfolding tree_all_peers endpoint_of
all_peers-endpoint b (leaf s c at ks) k v = refl
all_peers-endpoint b (joint s c at z o) k v = ground (
  arith,
  bucket_endpoint-append k (tree_all_peers o) (tree_all_peers z),
  all_peers-endpoint (b - 1) z k v.3,
  all_peers-endpoint (b - 1) o k v.4,
  other_bit s false k (tree_all_peers z),
  other_bit s true k (tree_all_peers o),
  tree_all_peers-All (HasBit s false) z v.5,
  tree_all_peers-All (HasBit s true) o v.6,
)

pub closest-IsValid :
    (k : Key) (n now b : ℕ) (t : Tree)
    → IsValid b t
    → IsValid b (tree_closest_peers k n now t).0 × (size (tree_closest_peers k n now t).0 ≡ size t)
unfolding tree_closest_peers
closest-IsValid k n now b (leaf s c at ks) v = (v, refl)
closest-IsValid k n now b (joint s c at z o) v =
    let rest = λ (t : Tree). key_count (tree_closest_peers k n now t).0 - n in
    ground (
      arith,
      closest-IsValid k n now (b - 1) z v.3,
      closest-IsValid k n now (b - 1) o v.4,
      closest-IsValid k (rest o) now (b - 1) z v.3,
      closest-IsValid k (rest z) now (b - 1) o v.4,
      closest-All (HasBit s false) k n now z v.5,
      closest-All (HasBit s true) k n now o v.6,
      closest-All (HasBit s false) k (rest o) now z v.5,
      closest-All (HasBit s true) k (rest z) now o v.6,
    )

pub closest-endpoint :
    (k : Key) (n now : ℕ) (t : Tree) (j : Key)
    → endpoint_of j (tree_closest_peers k n now t).0 ≡ endpoint_of j t
unfolding tree_closest_peers endpoint_of
closest-endpoint k n now (leaf s c at ks) j = refl
closest-endpoint k n now (joint s c at z o) j =
    let rest = λ (t : Tree). key_count (tree_closest_peers k n now t).0 - n in
    ground (
      arith,
      closest-endpoint k n now z j,
      closest-endpoint k n now o j,
      closest-endpoint k (rest o) now z j,
      closest-endpoint k (rest z) now o j,
    )

length-take_pos {ℓ} :
    {A : Type ℓ} (n : ℕ) (xs : List A) → 0 < n → 0 < length xs → 0 < length (take n xs)
length-take_pos zero xs h l = absurd (omega arith)
length-take_pos (suc n) [] h l = absurd (omega arith)
length-take_pos (suc n) (x ∷ xs) h l = omega arith

-- Above two leaves that are not empty, in a valid tree, a search for `n` peers whose preferred leaf
-- has more than `n` hands out more than `n` peers.
pub closest_overrun :
    (k : Key) (n now b s c at s' c' at' s'' c'' at'' : ℕ) (zs os : List Peer)
    → IsValid b (joint s c at (leaf s' c' at' zs) (leaf s'' c'' at'' os))
    → 0 < length zs
    → 0 < length os
    → n < length (if bit k s then os else zs)
    → n
      < length
          (tree_closest_peers k n now (joint s c at (leaf s' c' at' zs) (leaf s'' c'' at'' os))).1
unfolding tree_closest_peers key_count
closest_overrun k n now b s c at s' c' at' s'' c'' at'' zs os v hz ho h = ground (
  arith,
  length-append (take n zs) (take (c' - n) os),
  length-append (take n os) (take (c'' - n) zs),
  length-take n zs,
  length-take n os,
  length-take_pos (c' - n) os,
  length-take_pos (c'' - n) zs,
)

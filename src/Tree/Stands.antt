-- ===== src/Tree/Stands.antt =====
-- In a valid tree every peer is found by its own key, under its own endpoint.
use distft.Prelude.{ℕ, ◌-◌, ◌≡◌, ◌≢◌, true, false, List, [], ◌∷◌, some, arith, All}
use distft.Key.{Peer}
use distft.Tree.{Tree, leaf, joint}
use distft.Tree.Bucket.{bucket_endpoint, Distinct}
use distft.Tree.Valid.{AllPeers, HasBit, IsValid, endpoint_of}

-- A peer stands under its own key.
abbrev pub Stands : Tree → Peer → Type 0
Stands t q = endpoint_of q.key t ≡ some q.endpoint

bucket-Stands :
    (ks : List Peer) → Distinct ks → All (λ q. bucket_endpoint q.key ks ≡ some q.endpoint) ks
unfolding bucket_endpoint
bucket-Stands [] d = tt
bucket-Stands (p ∷ ks) d = (ground arith, later ks d.0 (bucket-Stands ks d.1))
  where
    later :
        (qs : List Peer)
        → All (λ q. q.key ≢ p.key) qs
        → All (λ q. bucket_endpoint q.key ks ≡ some q.endpoint) qs
        → All (λ q. bucket_endpoint q.key (p ∷ ks) ≡ some q.endpoint) qs
    later [] n h = tt
    later (q ∷ qs) n h = (ground arith, later qs n.1 h.1)

module _ {κ μ ν} (P : Peer → Type κ) (Q : Peer → Type μ) (R : Peer → Type ν)
    (f : (p : Peer) → P p → Q p → R p) where
  All-both : (ps : List Peer) → All P ps → All Q ps → All R ps
  All-both [] g h = tt
  All-both (p ∷ ps) g h = (f p g.0 h.0, All-both ps g.1 h.1)

  AllPeers-both : (t : Tree) → AllPeers P t → AllPeers Q t → AllPeers R t
  AllPeers-both (leaf s c at ks) g h = All-both ks g h
  AllPeers-both (joint s c at z o) g h = (AllPeers-both z g.0 h.0, AllPeers-both o g.1 h.1)

-- In a valid tree every peer stands under its own key.
pub valid-Stands : (b : ℕ) (t : Tree) → IsValid b t → AllPeers (Stands t) t
unfolding endpoint_of
valid-Stands b (leaf s c at ks) v = bucket-Stands ks v.3
valid-Stands b (joint s c at z o) v = (
  AllPeers-both (HasBit s false) (Stands z) (Stands (joint s c at z o)) (λ p h g. ground arith) z
      v.5 (valid-Stands (b - 1) z v.3),
  AllPeers-both (HasBit s true) (Stands o) (Stands (joint s c at z o)) (λ p h g. ground arith) o v.6
      (valid-Stands (b - 1) o v.4),
)

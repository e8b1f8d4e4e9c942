-- ===== src/Tree/Refresh.antt =====
-- `random_per_bucket_peers_helper`: which buckets it draws from, and where it divides by zero.
use distft.Prelude.{
  ℕ, zero, suc, ◌+◌, ◌-◌, ◌/◌, ◌%◌, ◌≤◌, ◌<◌, ◌≡◌, refl, ◌≢◌, inl, inr, ◌⊎◌, Option-cases, true,
  false, List, [], ◌∷◌, ◌++◌, length, length-append, none, some, arith,
}
use distft.Key.{Key, Peer}
use distft.Tree.Valid.{size, AllPeers, HasBit, IsValid, endpoint_of}
use distft.Tree.{Tree, leaf, joint, second, draw, peer_at, random_per_bucket}

-- Some bucket is empty.
abbrev pub HasEmpty : Tree → Type 0
HasEmpty (leaf s c at ks) = ks ≡ []
HasEmpty (joint s c at z o) = HasEmpty z ⊎ HasEmpty o

-- Every bucket has a peer.
abbrev pub NoEmpty : Tree → Type 0
NoEmpty (leaf s c at ks) = ks ≢ []
NoEmpty (joint s c at z o) = NoEmpty z × NoEmpty o

abbrev pub buckets : Tree → List (List Peer)
buckets (leaf s c at ks) = ks ∷ []
buckets (joint s c at z o) = buckets z ++ buckets o

-- The tree with one access time in all its leaves.
unfoldable pub accessed : ℕ → Tree → Tree
accessed now (leaf s c at ks) = leaf s c now ks
accessed now (joint s c at z o) = joint s c at (accessed now z) (accessed now o)

-- A refresh that lasts less than the unaccessed time it asks for draws no peer at all and marks
-- every bucket.
pub refresh-nothing :
    (rand : ℕ → ℕ) (now later unaccessed : ℕ) (t : Tree) (d : ℕ)
    → (later - now) / second < unaccessed
    → random_per_bucket rand now later unaccessed t d ≡ some (accessed now t, [], d)
unfolding random_per_bucket accessed
refresh-nothing rand now later unaccessed (leaf s c at ks) d h = ground arith
refresh-nothing rand now later unaccessed (joint s c at z o) d h = ground (
  arith,
  refresh-nothing rand now later unaccessed z d h,
  refresh-nothing rand now later unaccessed o d h,
)

-- With an unaccessed time that is at most the time that passes during the refresh, 0 for one, an
-- empty bucket makes it divide by zero.
pub refresh-fault :
    (rand : ℕ → ℕ) (now later unaccessed : ℕ) (t : Tree) (d : ℕ)
    → unaccessed ≤ (later - now) / second
    → HasEmpty t
    → random_per_bucket rand now later unaccessed t d ≡ none
unfolding random_per_bucket draw
refresh-fault rand now later unaccessed (leaf s c at ks) d h e = rw e (ground arith)
refresh-fault rand now later unaccessed (joint s c at z o) d h (inl e) =
    rw (refresh-fault rand now later unaccessed z d h e, random_per_bucket)
refresh-fault rand now later unaccessed (joint s c at z o) d h (inr e) =
    elim (Option-cases (random_per_bucket rand now later unaccessed z d)) [
      | inl f ↦ rw (f, random_per_bucket)
      | inr ((z', first, d'), f) ↦
          rw (f, random_per_bucket)
            (rw (refresh-fault rand now later unaccessed o d' h e, random_per_bucket))
    ]

-- Each peer stands in the bucket of its place.
abbrev pub OneEach : List (List Peer) → List Peer → Type 0
OneEach [] [] = Unit {0}
OneEach [] (p ∷ ps) = ⊥
OneEach (ks ∷ kss) [] = ⊥
OneEach (ks ∷ kss) (p ∷ ps) = ((i : ℕ) × (peer_at i ks ≡ some p)) × OneEach kss ps

OneEach-append :
    (kss lss : List (List Peer)) (ps qs : List Peer)
    → OneEach kss ps
    → OneEach lss qs
    → OneEach (kss ++ lss) (ps ++ qs)
OneEach-append [] lss [] qs h g = g
OneEach-append [] lss (p ∷ ps) qs h g = absurd h
OneEach-append (ks ∷ kss) lss [] qs h g = absurd h
OneEach-append (ks ∷ kss) lss (p ∷ ps) qs h g = (h.0, OneEach-append kss lss ps qs h.1 g)

peer_at-lt : (i : ℕ) (ks : List Peer) → i < length ks → (p : Peer) × (peer_at i ks ≡ some p)
unfolding peer_at
peer_at-lt i [] h = elim h [ ]
peer_at-lt zero (p ∷ ks) h = (p, refl)
peer_at-lt (suc i) (p ∷ ks) h = peer_at-lt i ks (omega arith)

draw-some :
    (rand : ℕ → ℕ) (d : ℕ) (ks : List Peer)
    → ks ≢ []
    → (p : Peer) × (draw rand d ks ≡ some p) × ((i : ℕ) × (peer_at i ks ≡ some p))
unfolding draw
draw-some rand d [] h = absurd (h refl)
draw-some rand d (k ∷ ks) h =
    let i = rand d % length (k ∷ ks) in
    let (p, e) = peer_at-lt i (k ∷ ks) (omega arith) in (p, e, (i, e))

-- With an unaccessed time that is at most the time that passes during the refresh, where no bucket
-- is empty it marks every bucket and draws one peer from each, whatever the random numbers.
pub refresh-OneEach :
    (rand : ℕ → ℕ) (now later unaccessed : ℕ) (t : Tree) (d : ℕ)
    → unaccessed ≤ (later - now) / second
    → NoEmpty t
    → (ps : List Peer) × (random_per_bucket rand now later unaccessed t d
        ≡ some (accessed now t, ps, d + length ps))
      × OneEach (buckets t) ps
unfolding random_per_bucket accessed
refresh-OneEach rand now later unaccessed (leaf s c at ks) d h e =
    let (p, f, w) = draw-some rand d ks e in (p ∷ [], ground arith, (w, tt))
refresh-OneEach rand now later unaccessed (joint s c at z o) d h e =
    let (ps, f, w) = refresh-OneEach rand now later unaccessed z d h e.0 in
    let (qs, g, u) = refresh-OneEach rand now later unaccessed o (d + length ps) h e.1 in
    (
      ps ++ qs,
      rw (f, random_per_bucket) (rw (g, random_per_bucket) (ground (arith, length-append ps qs))),
      OneEach-append (buckets z) (buckets o) ps qs w u,
    )

-- A refresh that ends changes access times only.
pub refresh-accessed :
    (rand : ℕ → ℕ) (now later unaccessed : ℕ) (t : Tree) (d : ℕ) (t' : Tree) (ps : List Peer)
    (d' : ℕ)
    → random_per_bucket rand now later unaccessed t d ≡ some (t', ps, d')
    → t' ≡ accessed now t
unfolding random_per_bucket accessed
refresh-accessed rand now later unaccessed (leaf s c at ks) d t' ps d' h = ground arith
refresh-accessed rand now later unaccessed (joint s c at z o) d t' ps d' h =
    elim (Option-cases (random_per_bucket rand now later unaccessed z d)) [
      | inl f ↦ ground arith
      | inr ((z', first, d1), f) ↦
          elim (Option-cases (random_per_bucket rand now later unaccessed o d1)) [
            | inl g ↦ ground arith
            | inr ((o', rest, d2), g) ↦ ground (
              arith,
              refresh-accessed rand now later unaccessed z d z' first d1 f,
              refresh-accessed rand now later unaccessed o d1 o' rest d2 g,
            )
          ]
    ]

accessed-AllPeers {κ} :
    (P : Peer → Type κ) (now : ℕ) (t : Tree) → AllPeers P t → AllPeers P (accessed now t)
unfolding accessed
accessed-AllPeers P now (leaf s c at ks) h = h
accessed-AllPeers P now (joint s c at z o) h =
    (accessed-AllPeers P now z h.0, accessed-AllPeers P now o h.1)

size-accessed : (now : ℕ) (t : Tree) → size (accessed now t) ≡ size t
unfolding accessed
size-accessed now (leaf s c at ks) = refl
size-accessed now (joint s c at z o) = rw (size-accessed now z, size-accessed now o)

pub accessed-IsValid : (now b : ℕ) (t : Tree) → IsValid b t → IsValid b (accessed now t)
unfolding accessed
accessed-IsValid now b (leaf s c at ks) v = v
accessed-IsValid now b (joint s c at z o) v = (
  v.0,
  v.1,
  omega (arith, size-accessed now z, size-accessed now o),
  accessed-IsValid now (b - 1) z v.3,
  accessed-IsValid now (b - 1) o v.4,
  accessed-AllPeers (HasBit s false) now z v.5,
  accessed-AllPeers (HasBit s true) now o v.6,
)

pub endpoint_of-accessed :
    (k : Key) (now : ℕ) (t : Tree) → endpoint_of k (accessed now t) ≡ endpoint_of k t
unfolding accessed endpoint_of
endpoint_of-accessed k now (leaf s c at ks) = refl
endpoint_of-accessed k now (joint s c at z o) =
    rw (endpoint_of-accessed k now z, endpoint_of-accessed k now o)

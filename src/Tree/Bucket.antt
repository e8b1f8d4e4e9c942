-- ===== src/Tree/Bucket.antt =====
-- A bucket: the scan for a key, the removal of an entry and its move to the front.
use mathlib.Core.Path.{subst}
use distft.Prelude.{
  ℕ, zero, suc, ◌≡◌, refl, ap, ◌≢◌, List, [], ◌∷◌, length, ite, Option, none, some, arith, All,
}
use distft.Key.{Key, Key-discrete, Peer, Text}
use distft.Tree.{find_key, remove_at, set_endpoint, peer_at, rotate_front}

-- The endpoint under which a bucket knows a key.
unfoldable pub bucket_endpoint : Key → List Peer → Option Text
bucket_endpoint k [] = none
bucket_endpoint k (p ∷ ps) = ite (Key-discrete p.key k) (some p.endpoint) (bucket_endpoint k ps)

-- No key stands twice.
abbrev pub Distinct : List Peer → Type 0
Distinct [] = Unit {0}
Distinct (p ∷ ps) = All (λ q. q.key ≢ p.key) ps × Distinct ps

pub find_key-none : (k : Key) (ps : List Peer) → find_key k ps ≡ none → All (λ q. q.key ≢ k) ps
unfolding find_key
find_key-none k [] e = tt
find_key-none k (p ∷ ps) e = ground (arith, find_key-none k ps)

pub bucket_endpoint-none :
    (k : Key) (ps : List Peer) → All (λ q. q.key ≢ k) ps → bucket_endpoint k ps ≡ none
unfolding bucket_endpoint
bucket_endpoint-none k [] h = refl
bucket_endpoint-none k (p ∷ ps) h = ground (arith, bucket_endpoint-none k ps)

pub peer_at-found :
    (k : Key) (ps : List Peer) (i : ℕ) (e : Text)
    → find_key k ps ≡ some i
    → peer_at i (set_endpoint i e ps) ≡ some (record { endpoint = e; key = k })
unfolding find_key peer_at set_endpoint
peer_at-found k [] i e h = cc
peer_at-found k (p ∷ ps) zero e h = ground arith
peer_at-found k (p ∷ ps) (suc i) e h = ground (arith, peer_at-found k ps i e)

pub remove_at-set_endpoint :
    (i : ℕ) (e : Text) (ps : List Peer) → remove_at i (set_endpoint i e ps) ≡ remove_at i ps
unfolding remove_at set_endpoint
remove_at-set_endpoint i e [] = refl
remove_at-set_endpoint zero e (p ∷ ps) = refl
remove_at-set_endpoint (suc i) e (p ∷ ps) = ap (◌∷◌ p) (remove_at-set_endpoint i e ps)

-- A known peer moves to the front with its new endpoint.
pub rotate_front-found :
    (k : Key) (ps : List Peer) (i : ℕ) (e : Text)
    → find_key k ps ≡ some i
    → rotate_front i (set_endpoint i e ps) ≡ record { endpoint = e; key = k } ∷ remove_at i ps
unfolding rotate_front
rotate_front-found k ps i e h =
    ground (arith, peer_at-found k ps i e h, remove_at-set_endpoint i e ps)

pub length-remove_at :
    (k : Key) (ps : List Peer) (i : ℕ)
    → find_key k ps ≡ some i
    → length ps ≡ suc (length (remove_at i ps))
unfolding find_key remove_at
length-remove_at k [] i h = cc
length-remove_at k (p ∷ ps) zero h = refl
length-remove_at k (p ∷ ps) (suc i) h = ground (arith, length-remove_at k ps i)

pub All-remove_at {κ} :
    (P : Peer → Type κ) (i : ℕ) (ps : List Peer) → All P ps → All P (remove_at i ps)
unfolding remove_at
All-remove_at P i [] h = h
All-remove_at P zero (p ∷ ps) h = h.1
All-remove_at P (suc i) (p ∷ ps) h = (h.0, All-remove_at P i ps h.1)

pub remove_at-Distinct : (i : ℕ) (ps : List Peer) → Distinct ps → Distinct (remove_at i ps)
unfolding remove_at
remove_at-Distinct i [] h = h
remove_at-Distinct zero (p ∷ ps) h = h.1
remove_at-Distinct (suc i) (p ∷ ps) h =
    (All-remove_at (λ q. q.key ≢ p.key) i ps h.0, remove_at-Distinct i ps h.1)

find_key-head : (k : Key) (p : Peer) (ps : List Peer) → find_key k (p ∷ ps) ≡ some 0 → p.key ≡ k
unfolding find_key
find_key-head k p ps h = ground arith

-- Without its entry a key is not in the bucket any more.
pub remove_at-fresh :
    (k : Key) (ps : List Peer) (i : ℕ)
    → find_key k ps ≡ some i
    → Distinct ps
    → All (λ q. q.key ≢ k) (remove_at i ps)
unfolding find_key remove_at
remove_at-fresh k [] i h d = cc
remove_at-fresh k (p ∷ ps) zero h d =
    subst (λ x. All (λ q. q.key ≢ x) ps) (find_key-head k p ps h) d.0
remove_at-fresh k (p ∷ ps) (suc i) h d = ground (arith, remove_at-fresh k ps i)

pub bucket_endpoint-remove_at :
    (k j : Key) (ps : List Peer) (i : ℕ)
    → find_key k ps ≡ some i
    → j ≢ k
    → bucket_endpoint j (remove_at i ps) ≡ bucket_endpoint j ps
unfolding find_key remove_at bucket_endpoint
bucket_endpoint-remove_at k j [] i h n = cc
bucket_endpoint-remove_at k j (p ∷ ps) zero h n = ground arith
bucket_endpoint-remove_at k j (p ∷ ps) (suc i) h n =
    ground (arith, bucket_endpoint-remove_at k j ps i)

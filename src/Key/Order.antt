-- ===== src/Key/Order.antt =====
-- The two comparisons of `Dist` against the number that a key spells, and distance as a metric.
use distft.Prelude.{
  ℕ, zero, suc, ◌+◌, ◌*◌, ◌^◌, ◌≤◌, ◌<◌, ◌≡◌, refl, Bool, true, false, not, xor, [], ◌∷◌, length,
  arith, ltb, ℕ_discrete,
}
use distft.Key.{
  Key, IsKey, Peer, closer, keybits, bit, xor_bits, Dist, dist, less_from, geq_from, dist_less,
  dist_geq,
}
use native.Mathlib.Nat.{pow-suc}

abbrev pub digit : Bool → ℕ
digit true = 1
digit false = 0

-- The number that the bits below `n` spell.
pub low : ℕ → Key → ℕ
low zero k = 0
low (suc n) k = low n k + digit (bit k n) * 2 ^ n

-- The number that a key spells.
pub value : Key → ℕ
value k = low keybits k

low-lt : (n : ℕ) (k : Key) → low n k < 2 ^ n
unfolding low
low-lt zero k = omega arith
low-lt (suc n) k = ground (arith, low-lt n k, pow-suc 2 n)

less_from-low : (n : ℕ) (a b : Key) → less_from n a b ≡ ltb (low n a) (low n b)
unfolding low less_from
less_from-low zero a b = refl
less_from-low (suc n) a b = ground (arith, less_from-low n a b, low-lt n a, low-lt n b)

geq_from-not : (n : ℕ) (a b : Key) → geq_from n a b ≡ not (less_from n a b)
unfolding less_from geq_from
geq_from-not zero a b = refl
geq_from-not (suc n) a b = ground (arith, geq_from-not n a b)

-- `operator <` compares the numbers that the two distances spell, and `operator >=` is its
-- negation.
pub dist_less-value :
    (d e : Dist)
    → (dist_less d e ≡ ltb (value d.value) (value e.value)) × (dist_geq d e ≡ not (dist_less d e))
unfolding dist_less dist_geq value
dist_less-value d e = (less_from-low keybits d.value e.value, geq_from-not keybits d.value e.value)

bit-nil : (i : ℕ) → bit [] i ≡ false
unfolding bit
bit-nil i = refl

bit-xor : (k l : Key) (i : ℕ) → bit (xor_bits k l) i ≡ xor (bit k i) (bit l i)
unfolding bit xor_bits
bit-xor [] l i = refl
bit-xor (a ∷ k) [] i = ground (arith, bit-nil i)
bit-xor (a ∷ k) (b ∷ l) zero = refl
bit-xor (a ∷ k) (b ∷ l) (suc i) = bit-xor k l i

low-xor_self : (n : ℕ) (k : Key) → low n (xor_bits k k) ≡ 0
unfolding low
low-xor_self zero k = refl
low-xor_self (suc n) k = ground (arith, low-xor_self n k, bit-xor k k n)

low-xor_comm : (n : ℕ) (k l : Key) → low n (xor_bits k l) ≡ low n (xor_bits l k)
unfolding low
low-xor_comm zero k l = refl
low-xor_comm (suc n) k l = ground (arith, low-xor_comm n k l, bit-xor k l n, bit-xor l k n)

low-xor_triangle :
    (n : ℕ) (a b c : Key) → low n (xor_bits a c) ≤ low n (xor_bits a b) + low n (xor_bits b c)
unfolding low
low-xor_triangle zero a b c = omega arith
low-xor_triangle (suc n) a b c =
    ground (arith, low-xor_triangle n a b c, bit-xor a b n, bit-xor b c n, bit-xor a c n)

bits_of_low : (n : ℕ) (a b : Key) → low n a ≡ low n b → (i : ℕ) → i < n → bit a i ≡ bit b i
unfolding low
bits_of_low zero a b e i h = elim h [ ]
bits_of_low (suc n) a b e i h = elim (ℕ_discrete i n) [
  | yes last ↦ rw last (ground (arith, low-lt n a, low-lt n b))
  | no other ↦ bits_of_low n a b (ground (arith, low-lt n a, low-lt n b)) i (omega arith)
]

pub eq_of_bits :
    (n : ℕ) (a b : Key)
    → length a ≡ n
    → length b ≡ n
    → ((i : ℕ) → i < n → bit a i ≡ bit b i)
    → a ≡ b
unfolding bit
eq_of_bits n [] [] p q h = refl
eq_of_bits n [] (y ∷ b) p q h = absurd (omega arith)
eq_of_bits n (x ∷ a) [] p q h = absurd (omega arith)
eq_of_bits zero (x ∷ a) (y ∷ b) p q h = absurd (omega arith)
eq_of_bits (suc n) (x ∷ a) (y ∷ b) p q h = ground (
  arith,
  h 0 (omega arith),
  eq_of_bits n a b (omega arith) (omega arith) (λ i l. h (suc i) (omega arith)),
)

-- Two keys at one distance of a third are one key.
xor_cancel : (k a b : Key) → IsKey a → IsKey b → value (xor_bits k a) ≡ value (xor_bits k b) → a ≡ b
unfolding value
xor_cancel k a b p q e = eq_of_bits keybits a b p q λ i h.
    ground
      (arith, bits_of_low keybits (xor_bits k a) (xor_bits k b) e i h, bit-xor k a i, bit-xor k b i)

-- The distance, read as a number, is a metric: 0 from a key to itself, symmetric, and with the
-- triangle inequality.
pub dist_metric :
    (a b c : Key)
    → (value (dist a a).value ≡ 0)
      × (value (dist a b).value ≡ value (dist b a).value)
      × (value (dist a c).value ≤ value (dist a b).value + value (dist b c).value)
unfolding dist value
dist_metric a b c =
    (low-xor_self keybits a, low-xor_comm keybits a b, low-xor_triangle keybits a b c)

pub closer-value :
    (k : Key) (p q : Peer)
    → closer k p q ≡ ltb (value (dist k p.key).value) (value (dist k q.key).value)
unfolding closer
closer-value k p q = (dist_less-value (dist k p.key) (dist k q.key)).0

-- Two peers with whole keys neither of which the comparator puts first have the same key, at any
-- search key.
pub closer_connected :
    (k : Key) (p q : Peer)
    → IsKey p.key
    → IsKey q.key
    → closer k p q ≡ false
    → closer k q p ≡ false
    → p.key ≡ q.key
unfolding dist
closer_connected k p q hp hq e f = xor_cancel k p.key q.key hp hq same
  where
    same : value (xor_bits k p.key) ≡ value (xor_bits k q.key)
    same = ground (arith, closer-value k p q, closer-value k q p)

-- ===== src/Key/Digits.antt =====
-- The text of a key, and the key of a digest, bit by bit.
use distft.Prelude.{
  ℕ, zero, suc, ◌+◌, ◌-◌, ◌*◌, ◌/◌, ◌%◌, ◌^◌, ◌≤◌, ◌<◌, ◌≡◌, refl, sym, ap, ◌∙◌, ℕ_discrete, Bool,
  List, [], ◌∷◌, ◌++◌, some, length, get_or, length-append, arith, ◌==◌,
}
use distft.Key.{
  Key, IsKey, Text, keybits, bit, digit_bit, digits_from, read_digits, pad, to_string,
  key_of_string, byte_bits, digest_bits, key_from_data,
}
use distft.Key.Order.{eq_of_bits}

-- The bits of `k` below `n`, in front of `acc`.
bits_below : ℕ → Key → Key → Key
bits_below zero k acc = acc
bits_below (suc n) k acc = bits_below n k (bit k n ∷ acc)

length-bits_below : (n : ℕ) (k acc : Key) → length (bits_below n k acc) ≡ n + length acc
unfolding bits_below
length-bits_below zero k acc = omega arith
length-bits_below (suc n) k acc = omega (arith, length-bits_below n k (bit k n ∷ acc))

bit-cons : (b : Bool) (k : Key) (i : ℕ) → 0 < i → bit (b ∷ k) i ≡ bit k (i - 1)
unfolding bit
bit-cons b k zero h = absurd (omega arith)
bit-cons b k (suc i) h = ap (bit k) (omega arith)

bit-cons_head : (b : Bool) (k : Key) (i : ℕ) → i ≡ 0 → bit (b ∷ k) i ≡ b
unfolding bit
bit-cons_head b k zero h = refl
bit-cons_head b k (suc i) h = absurd (omega arith)

bit-bits_below_high :
    (n : ℕ) (k acc : Key) (i : ℕ) → n ≤ i → bit (bits_below n k acc) i ≡ bit acc (i - n)
unfolding bits_below
bit-bits_below_high zero k acc i h = ap (bit acc) (omega arith)
bit-bits_below_high (suc n) k acc i h =
    bit-bits_below_high n k (bit k n ∷ acc) i (omega arith)
    ∙ bit-cons (bit k n) acc (i - n) (omega arith)
    ∙ ap (bit acc) (omega arith)

bit-bits_below : (n : ℕ) (k acc : Key) (i : ℕ) → i < n → bit (bits_below n k acc) i ≡ bit k i
unfolding bits_below
bit-bits_below zero k acc i h = elim h [ ]
bit-bits_below (suc n) k acc i h = elim (ℕ_discrete i n) [
  | yes last ↦
      bit-bits_below_high n k (bit k n ∷ acc) i (omega arith)
      ∙ bit-cons_head (bit k n) acc (i - n) (omega arith)
      ∙ ap (bit k) (sym last)
  | no other ↦ bit-bits_below n k (bit k n ∷ acc) i (omega arith)
]

read-digits_from :
    (n : ℕ) (k acc : Key) → read_digits n (digits_from n k) acc ≡ some (bits_below n k acc)
unfolding read_digits digits_from digit_bit bits_below
read-digits_from zero k acc = refl
read-digits_from (suc n) k acc = ground (arith, read-digits_from n k (bit k n ∷ acc))

pad_full : (n : ℕ) (k : Key) → length k ≡ n → pad n k ≡ k
unfolding pad
pad_full zero k h = refl
pad_full (suc n) [] h = absurd (omega arith)
pad_full (suc n) (b ∷ k) h = ap (◌∷◌ b) (pad_full n k (omega arith))

-- The text of a whole key, which is what peers exchange, reads back as that key.
pub key_of_string-to_string : (k : Key) → IsKey k → key_of_string (to_string k) ≡ some k
unfolding key_of_string to_string
key_of_string-to_string k h =
    rw (read-digits_from keybits k [], key_of_string) (rw same (ap some (pad_full keybits k h)))
  where
    same : bits_below keybits k [] ≡ k
    same =
        eq_of_bits keybits _ k (length-bits_below keybits k [] ∙ omega arith) h
          (bit-bits_below keybits k [])

bit-append_left : (k l : Key) (i : ℕ) → i < length k → bit (k ++ l) i ≡ bit k i
unfolding bit
bit-append_left [] l i h = elim h [ ]
bit-append_left (b ∷ k) l zero h = refl
bit-append_left (b ∷ k) l (suc i) h = bit-append_left k l i (omega arith)

bit-append_right : (k l : Key) (i : ℕ) → bit (k ++ l) (length k + i) ≡ bit l i
unfolding bit
bit-append_right [] l i = ap (bit l) (omega arith)
bit-append_right (b ∷ k) l i =
    bit-cons b (k ++ l) (suc (length k) + i) (omega arith)
    ∙ ap (bit (k ++ l)) (omega arith)
    ∙ bit-append_right k l i

length-byte_bits : (n j byte : ℕ) → length (byte_bits n j byte) ≡ n
unfolding byte_bits
length-byte_bits zero j byte = refl
length-byte_bits (suc n) j byte = ap suc (length-byte_bits n (suc j) byte)

bit-byte_bits :
    (n j byte i : ℕ) → i < n → bit (byte_bits n j byte) i ≡ ((byte / 2 ^ (j + i)) % 2 == 1)
unfolding byte_bits bit
bit-byte_bits zero j byte i h = elim h [ ]
bit-byte_bits (suc n) j byte zero h = ap (λ (e : ℕ). (byte / 2 ^ e) % 2 == 1) (omega arith)
bit-byte_bits (suc n) j byte (suc i) h =
    bit-byte_bits n (suc j) byte i (omega arith)
    ∙ ap (λ (e : ℕ). (byte / 2 ^ e) % 2 == 1) (omega arith)

length-digest_bits : (hash : List ℕ) → length (digest_bits hash) ≡ 8 * length hash
unfolding digest_bits
length-digest_bits [] = refl
length-digest_bits (byte ∷ rest) = omega (
  arith,
  length-append (byte_bits 8 0 byte) (digest_bits rest),
  length-byte_bits 8 0 byte,
  length-digest_bits rest,
)

bit-digest_bits :
    (hash : List ℕ) (i j : ℕ)
    → i < length hash
    → j < 8
    → bit (digest_bits hash) (8 * i + j) ≡ ((get_or hash i 0 / 2 ^ j) % 2 == 1)
unfolding digest_bits
bit-digest_bits [] i j h l = elim h [ ]
bit-digest_bits (byte ∷ rest) zero j h l =
    bit-append_left (byte_bits 8 0 byte) (digest_bits rest) (8 * 0 + j) short
    ∙ bit-byte_bits 8 0 byte (8 * 0 + j) (omega arith)
    ∙ ap (λ (e : ℕ). (byte / 2 ^ e) % 2 == 1) (omega arith)
  where
    short : 8 * 0 + j < length (byte_bits 8 0 byte)
    short = omega (arith, length-byte_bits 8 0 byte)
bit-digest_bits (byte ∷ rest) (suc i) j h l =
    ap (bit (byte_bits 8 0 byte ++ digest_bits rest)) place
    ∙ bit-append_right (byte_bits 8 0 byte) (digest_bits rest) (8 * i + j)
    ∙ bit-digest_bits rest i j (omega arith) l
  where
    place : 8 * suc i + j ≡ length (byte_bits 8 0 byte) + (8 * i + j)
    place = omega (arith, length-byte_bits 8 0 byte)

-- Over a hash function with digests of 20 bytes, `key_from_data` fills the whole key: its bit
-- 8 * i + j is bit j of byte i of the digest.
pub key_from_data_bits :
    (sha1 : Text → List ℕ) (content : Text) (i j : ℕ)
    → length (sha1 content) ≡ 20
    → i < 20
    → j < 8
    → IsKey (key_from_data sha1 content)
      × (bit (key_from_data sha1 content) (8 * i + j)
          ≡ ((get_or (sha1 content) i 0 / 2 ^ j) % 2 == 1))
unfolding key_from_data
key_from_data_bits sha1 content i j h hi hj = (
  omega (arith, length-digest_bits (sha1 content)),
  bit-digest_bits (sha1 content) i j (omega arith) hj,
)

pub key_from_data-IsKey :
    (sha1 : Text → List ℕ) (content : Text)
    → length (sha1 content) ≡ 20
    → IsKey (key_from_data sha1 content)
unfolding key_from_data
key_from_data-IsKey sha1 content h = omega (arith, length-digest_bits (sha1 content))

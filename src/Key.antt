-- ===== src/Key.antt =====
-- src/utils/utils.h and utils.cpp: keys, distances between keys, peers, and the text of a key.
pub mod Order
pub mod Digits
pub mod Hex
pub mod Examples
use distft.Prelude.{
  ℕ_discrete, ℕ, zero, suc, ◌/◌, ◌%◌, ◌^◌, ◌≡◌, Bool, true, false, not, ◌&&◌, xor, List, [], ◌∷◌,
  ◌++◌, length, Option, none, some, ◌==◌, if◌then◌else◌,
}

-- `KEYBITS`
abbrev pub keybits : ℕ
keybits = 160

-- `std::bitset<KEYBITS>`, as the list of its bits from bit 0 on.
abbrev pub Key : Type 0
Key = List Bool

abbrev pub IsKey : Key → Type 0
IsKey k = length k ≡ keybits

unfoldable pub Key-discrete : Discrete Key
Key-discrete = hlevel

-- `k[i]`
unfoldable pub bit : Key → ℕ → Bool
bit [] i = false
bit (b ∷ k) zero = b
bit (b ∷ k) (suc i) = bit k i

-- `k1 ^ k2`
unfoldable pub xor_bits : Key → Key → Key
xor_bits [] l = l
xor_bits (a ∷ k) [] = a ∷ k
xor_bits (a ∷ k) (b ∷ l) = xor a b ∷ xor_bits k l

-- `bitset().set()` and `bitset().reset()`
unfoldable pub filled : ℕ → Bool → Key
filled zero b = []
filled (suc n) b = b ∷ filled n b

-- `struct Dist`
pub record Dist : Type 0 where
  pub value : Key

-- `Dist()`: the largest distance.
unfoldable pub max_dist : Dist
unfolding filled
max_dist = record { value = filled keybits true }

-- `Dist(k1, k2)`
unfoldable pub dist : Key → Key → Dist
dist k1 k2 = record { value = xor_bits k1 k2 }

-- The loops of the two comparisons, over the bits below `n` from the highest on.
unfoldable pub less_from : ℕ → Key → Key → Bool
less_from zero a b = false
less_from (suc i) a b =
    if bit a i && not (bit b i)
    then false
    else if not (bit a i) && bit b i
    then true
    else less_from i a b

unfoldable pub geq_from : ℕ → Key → Key → Bool
geq_from zero a b = true
geq_from (suc i) a b =
    if bit a i && not (bit b i)
    then true
    else if not (bit a i) && bit b i
    then false
    else geq_from i a b

-- `Dist::operator <`
unfoldable pub dist_less : Dist → Dist → Bool
dist_less d e = less_from keybits d.value e.value

-- `Dist::operator >=`
unfoldable pub dist_geq : Dist → Dist → Bool
dist_geq d e = geq_from keybits d.value e.value

-- A string as its bytes.
abbrev pub Text : Type 0
Text = List ℕ

unfoldable pub Text-discrete : Discrete Text
Text-discrete = hlevel ℕ_discrete

-- `struct Peer`
pub record Peer : Type 0 where
  pub endpoint : Text
  pub key : Key

-- `StaticDistComparator(k)(p1, p2)`
unfoldable pub closer : Key → Peer → Peer → Bool
unfolding dist_less dist
closer k p1 p2 = dist_less (dist k p1.key) (dist k p2.key)

-- The bits of one byte of the digest, `byte >> j & 0x1` for each `j` in turn.
unfoldable pub byte_bits : ℕ → ℕ → ℕ → Key
byte_bits zero j byte = []
byte_bits (suc n) j byte = ((byte / 2 ^ j) % 2 == 1) ∷ byte_bits n (suc j) byte

unfoldable pub digest_bits : List ℕ → Key
digest_bits [] = []
digest_bits (byte ∷ rest) = byte_bits 8 0 byte ++ digest_bits rest

-- `key_from_data` (and `key_from_string`) over the hash function of the library.
unfoldable pub key_from_data : (Text → List ℕ) → Text → Key
key_from_data sha1 bytes = digest_bits (sha1 bytes)

-- `bitset::to_string`: the digits of the bits below `n`, from the highest on.
unfoldable pub digits_from : ℕ → Key → Text
digits_from zero k = []
digits_from (suc i) k = (if bit k i then b'1' else b'0') ∷ digits_from i k

unfoldable pub to_string : Key → Text
to_string k = digits_from keybits k

-- `bitset(string)`: it throws at a character that is no digit. The first characters count, at most
-- as many as there are bits, the last of them for bit 0; the bits above are 0.
unfoldable pub digit_bit : ℕ → Option Bool
digit_bit c = if c == b'1' then some true else if c == b'0' then some false else none

unfoldable pub read_digits : ℕ → Text → Key → Option Key
read_digits n [] k = some k
read_digits zero (c ∷ s) k = elim (digit_bit c) [ none ↦ none | some b ↦ read_digits zero s k ]
read_digits (suc n) (c ∷ s) k = elim (digit_bit c) [
  | none ↦ none
  | some b ↦ read_digits n s (b ∷ k)
]

unfoldable pub pad : ℕ → Key → Key
pad zero k = k
pad (suc n) [] = false ∷ pad n []
pad (suc n) (b ∷ k) = b ∷ pad n k

unfoldable pub key_of_string : Text → Option Key
key_of_string s = elim (read_digits keybits s []) [ none ↦ none | some k ↦ some (pad keybits k) ]

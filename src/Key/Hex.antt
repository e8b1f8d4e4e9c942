-- ===== src/Key/Hex.antt =====
-- src/utils/utils.cpp: `random_key` and `hex_string`, whose digits name keys in the logs.
use distft.Prelude.{
  ℕ, zero, suc, ◌+◌, ◌-◌, ◌*◌, ◌/◌, ◌%◌, ◌≤◌, ◌<◌, ◌≡◌, refl, Bool, [], ◌∷◌, ◌++◌, arith, length,
  length-append, length-take, ap, ◌∙◌, take, drop, ltb, if◌then◌else◌,
}
use distft.Key.{Key, IsKey, bit, keybits, to_string, Text}

-- The loop of `random_key`, from bit `i` on, with what `dist(gen)` gives for each bit.
unfoldable pub random_bits : (ℕ → Bool) → ℕ → ℕ → Key
random_bits coin zero i = []
random_bits coin (suc n) i = coin i ∷ random_bits coin n (i + 1)

unfoldable pub random_key : (ℕ → Bool) → Key
unfolding random_bits
random_key coin = random_bits coin keybits 0

-- `std::bitset<8>(byte).to_ulong()`, where the first `n` characters count.
unfoldable pub bits_value : ℕ → Text → ℕ → ℕ
bits_value zero byte value = value
bits_value (suc n) [] value = value
bits_value (suc n) (c ∷ byte) value = bits_value n byte (value * 2 + (c - b'0'))

unfoldable pub hex_digit : ℕ → ℕ
hex_digit d = if ltb d 10 then b'0' + d else b'a' + (d - 10)

-- `byte_hex << std::hex << value`, of a byte: no digit stands for a leading zero.
unfoldable pub hex_byte : ℕ → Text
unfolding hex_digit
hex_byte value =
    if ltb value 16
    then hex_digit value ∷ []
    else hex_digit (value / 16) ∷ hex_digit (value % 16) ∷ []

-- The loop of `hex_string` from byte `i` on. `substr` takes more characters than a byte has.
unfoldable pub hex_loop : ℕ → ℕ → Text → Text
unfolding hex_byte bits_value
hex_loop zero i bits = []
hex_loop (suc n) i bits =
    hex_byte (bits_value 8 (take (8 * (i + 1)) (drop (8 * i) bits)) 0) ++ hex_loop n (i + 1) bits

unfoldable pub hex_string : Key → Text
unfolding hex_loop to_string
hex_string k = take 6 (hex_loop (keybits / 8) 0 (to_string k))

random_bits-bit :
    (coin : ℕ → Bool) (n i j : ℕ) → j < n → bit (random_bits coin n i) j ≡ coin (i + j)
unfolding random_bits bit
random_bits-bit coin zero i j h = absurd (omega arith)
random_bits-bit coin (suc n) i zero h = ground arith
random_bits-bit coin (suc n) i (suc j) h = ground (arith, random_bits-bit coin n (i + 1) j)

random_bits-length : (coin : ℕ → Bool) (n i : ℕ) → length (random_bits coin n i) ≡ n
unfolding random_bits
random_bits-length coin zero i = refl
random_bits-length coin (suc n) i = omega (arith, random_bits-length coin n (i + 1))

-- A random key is whole, and each of its bits is the one that was drawn for it.
pub random_key-bit :
    (coin : ℕ → Bool) (j : ℕ)
    → j < keybits
    → IsKey (random_key coin) × (bit (random_key coin) j ≡ coin j)
unfolding random_key
random_key-bit coin j h =
    (random_bits-length coin keybits 0, random_bits-bit coin keybits 0 j h ∙ ap coin (omega arith))

hex_byte-length : (value : ℕ) → 1 ≤ length (hex_byte value)
unfolding hex_byte
hex_byte-length value = ground arith

hex_loop-length : (n i : ℕ) (bits : Text) → n ≤ length (hex_loop n i bits)
unfolding hex_loop
hex_loop-length zero i bits = omega arith
hex_loop-length (suc n) i bits =
    let byte = hex_byte (bits_value 8 (take (8 * (i + 1)) (drop (8 * i) bits)) 0) in
    omega (
      arith,
      length-append byte (hex_loop n (i + 1) bits),
      hex_byte-length (bits_value 8 (take (8 * (i + 1)) (drop (8 * i) bits)) 0),
      hex_loop-length n (i + 1) bits,
    )

-- A hex string always has six characters.
pub hex_string-length : (k : Key) → length (hex_string k) ≡ 6
unfolding hex_string
hex_string-length k =
    let enough = hex_loop-length (keybits / 8) 0 (to_string k) in
    length-take 6 (hex_loop (keybits / 8) 0 (to_string k)) (omega (arith, enough))

-- ===== src/Key/Examples.antt =====
-- Example keys and peers, and the theorems on keys at them.
use distft.Prelude.{ℕ, zero, suc, ◌≡◌, refl, true, false, not, List, [], ◌∷◌, ltb, length}
use distft.Key.{Key, Peer, Text, dist, dist_less, dist_geq, closer, bit, less_from, xor_bits}
use distft.Key.Order.{value, dist_less-value}

-- A key of 160 bits from its first bit and the value of the rest.
abbrev pub repeat {ℓ} : {A : Type ℓ} → ℕ → A → List A
repeat zero a = []
repeat (suc n) a = a ∷ repeat n a

abbrev pub key_a : Key
key_a = repeat 160 false

abbrev pub key_b : Key
key_b = true ∷ repeat 159 false

abbrev pub key_c : Key
key_c = repeat 160 true

abbrev pub peer_a : Peer
peer_a = record { endpoint = 1 ∷ []; key = key_a }

abbrev pub peer_b : Peer
peer_b = record { endpoint = 2 ∷ []; key = key_b }

abbrev pub peer_c : Peer
peer_c = record { endpoint = 3 ∷ []; key = key_c }

-- A hash function for examples: 20 bytes, the first of which is the length.
abbrev pub toy_hash : Text → List ℕ
toy_hash d = length d ∷ repeat 19 0

dist_less-value_example :
    (dist_less (dist key_a key_b) (dist key_a key_c)
      ≡ ltb (value (dist key_a key_b).value) (value (dist key_a key_c).value))
    × (dist_geq (dist key_a key_b) (dist key_a key_c)
        ≡ not (dist_less (dist key_a key_b) (dist key_a key_c)))
dist_less-value_example = dist_less-value (dist key_a key_b) (dist key_a key_c)

not_closer : closer key_b peer_a peer_a ≡ false
unfolding closer dist_less dist less_from bit xor_bits
not_closer = refl

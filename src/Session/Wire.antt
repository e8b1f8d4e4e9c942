-- ===== src/Session/Wire.antt =====
-- What comes back from the messages: the bytes of a chunk with their size, and the peers.
use distft.Prelude.{
  ℕ, ◌^◌, ◌<◌, ◌≤◌, ◌≡◌, refl, none, some, arith, length, take-all, ltb, if◌then◌else◌,
}
use distft.Key.{IsKey, Peer, Text}
use distft.Key.Digits.{key_of_string-to_string}
use distft.Session.Peers.{local_to_rpc_peer, rpc_peer_to_local}
use distft.Session.Callers.{int32_of, size_of_int32, copy_bytes}

size-small : (n : ℕ) → n < 2 ^ 31 → size_of_int32 (int32_of n) ≡ n
unfolding size_of_int32 int32_of
size-small n h = ground arith

size-large : (n : ℕ) → 2 ^ 31 ≤ n → n < 2 ^ 32 → n < size_of_int32 (int32_of n)
unfolding size_of_int32 int32_of
size-large n h l = ground arith

-- The bytes of a chunk come out of a message as they went in, if there are fewer than 2 ^ 31 of them. From
-- there to 2 ^ 32 the size turns negative, and the receiver copies beyond the data.
pub copy_bytes-size_of_int32 :
    (d : Text)
    → length d < 2 ^ 32
    → copy_bytes (size_of_int32 (int32_of (length d))) d
      ≡ (if ltb (length d) (2 ^ 31) then some d else none)
unfolding copy_bytes
copy_bytes-size_of_int32 d h =
    ground (arith, size-small (length d), size-large (length d), take-all (length d) d)

-- A peer with a whole key comes out of a message as it went in.
pub rpc_peer_to_local-local_to_rpc_peer :
    (p : Peer) → IsKey p.key → rpc_peer_to_local (local_to_rpc_peer p) ≡ some p
unfolding rpc_peer_to_local local_to_rpc_peer
rpc_peer_to_local-local_to_rpc_peer p h =
    rw (key_of_string-to_string p.key h, rpc_peer_to_local) refl

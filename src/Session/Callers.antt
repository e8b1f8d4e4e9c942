-- ===== src/Session/Callers.antt =====
-- src/dht/rpc.cpp: the callers `find_node`, `find_value` and `store`.
use distft.Prelude.{
  ℕ, ◌+◌, ◌-◌, ◌/◌, ◌%◌, ◌^◌, Bool, true, false, not, ◌&&◌, List, [], ◌∷◌, Option, none, some,
  if◌then◌else◌, length, take, ltb, leb,
}
use distft.Key.{Key, Peer, Text, to_string}
use distft.Router.{is_self}
use distft.Session.Network.{Network, RpcPeer}
use distft.Session.{Chunk, M, undefined, ◌>>=◌, ◌>>◌, return, fail, get_session, or_throw}
use distft.Session.Peers.{
  rpc_peer_to_local, call, caller_prelims, evict, update_peer, caller_epilogue,
}
use distft.Tree.{second}

-- `set_size(size)`: a `size_t` as an `int32`.
unfoldable pub int32_of : ℕ → ℕ
int32_of n = n % 2 ^ 32

-- `size_t size = response.size()`: a negative size becomes a huge one.
unfoldable pub size_of_int32 : ℕ → ℕ
size_of_int32 x = if ltb x (2 ^ 31) then x else x + (2 ^ 64 - 2 ^ 32)

-- `std::vector<char>(data, data + size)`: undefined beyond the data.
unfoldable pub copy_bytes : ℕ → Text → Option Text
copy_bytes n bytes = if leb n (length bytes) then some (take n bytes) else none

abbrev pub or_undefined : {W A : Type 0} → Option A → M W A
or_undefined none = fail undefined
or_undefined (some a) = return a

module _ (net : Network) where
  open net use {World, clock, call_find_node, call_find_value, call_store_init, call_store}

  -- The loop over the closest peers of a response: the peers that go to the buffer.
  unfoldable pub note_peers : List RpcPeer → M World (List Peer)
  note_peers [] = return []
  note_peers (r ∷ rs) = do
    p ← or_throw (rpc_peer_to_local r)
    s ← get_session
    elim (is_self s.router p) [
      | true ↦ note_peers rs
      | false ↦ (update_peer net p >> (note_peers rs >>= λ ps. return (p ∷ ps)))
    ]

  -- `find_node`: `none` is `false`, and otherwise the peers that go to the buffer.
  unfoldable pub find_node : Peer → Key → M World (Option (List Peer))
  find_node p search_key = do
    sender ← caller_prelims
    response ← call (λ w.
        call_find_node w p.endpoint (record { sender = sender; search_key = to_string search_key }))
    elim response [
      | none ↦ (evict p.key >> return none)
      | some r ↦
          (caller_epilogue net r.receiver
            >> (note_peers r.closest_peers >>= λ ps. return (some ps)))
    ]

  -- `find_value`: `none` is `false`, and otherwise the value, if it was found, and the peers.
  unfoldable pub find_value : Peer → Key → M World (Option (Option Text × List Peer))
  unfolding size_of_int32 copy_bytes
  find_value p search_key = do
    sender ← caller_prelims
    response ← call (λ w.
        call_find_value w p.endpoint
          (record { sender = sender; search_key = to_string search_key }))
    elim response [
      | none ↦ (evict p.key >> return none)
      | some r ↦
          (caller_epilogue net r.receiver >> (elim (r.found_value) [
            | true ↦
                (or_undefined (copy_bytes (size_of_int32 r.size) r.content) >>= λ bytes.
                return (some (some bytes, [])))
            | false ↦ (note_peers r.closest_peers >>= λ ps. return (some (none, ps)))
          ]))
    ]

  -- The second part of `store`: the data itself.
  unfoldable pub send_chunk : Peer → Chunk → RpcPeer → M World Bool
  unfolding int32_of
  send_chunk p chunk receiver = do
    sender ← caller_prelims
    response ← call (λ w. call_store w p.endpoint (record {
      sender = sender;
      chunk_key = to_string chunk.key;
      content = chunk.content;
      size = int32_of (length chunk.content);
      original_publish = chunk.original_publish / second;
    }))
    elim response [ none ↦ return false | some r ↦ (caller_epilogue net receiver >> return true) ]

  -- `store`
  unfoldable pub store : Peer → Chunk → Bool → M World Bool
  unfolding send_chunk
  store p chunk force = do
    sender ← caller_prelims
    response ← call (λ w.
        call_store_init w p.endpoint (record { sender = sender; chunk_key = to_string chunk.key }))
    elim response [
      | none ↦ (evict p.key >> return false)
      | some r ↦
          (if not r.continue_store && not force
            then return true
            else (caller_epilogue net r.receiver >> send_chunk p chunk r.receiver))
    ]

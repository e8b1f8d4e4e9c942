-- ===== src/Session/Handlers.antt =====
-- src/dht/rpc.cpp: the handlers of the service.
use distft.Prelude.{ℕ, ◌*◌, true, false, List, [], none, some, length, map}
use distft.Key.{Key, Peer, key_of_string}
use distft.Router.{closest_peers}
use distft.Session.Network.{
  Network, FindNodeRequest, FindNodeResponse, FindValueRequest, FindValueResponse, StoreInitRequest,
  StoreInitResponse, StoreRequest, StoreResponse, PingRequest, PingResponse,
}
use distft.Session.{
  M, ◌>>=◌, ◌>>◌, return, get_session, get_world, set_router, set_chunks, or_throw, find_chunk,
  put_chunk,
}
use distft.Session.Peers.{local_to_rpc_peer, handler_prelims}
use distft.Session.Callers.{int32_of, size_of_int32, copy_bytes, or_undefined}
use distft.Tree.{second, kbucket_max}

module _ (net : Network) where
  open net use {World, clock}

  -- `router->closest_peers` under its lock.
  unfoldable pub search_router : Key → ℕ → M World (List Peer)
  search_router k n = do
    s ← get_session
    w ← get_world
    let (found, r) = closest_peers s.router k n (clock w)
    set_router r
    return found

  -- `FindNode`
  unfoldable pub handle_find_node : FindNodeRequest → M World FindNodeResponse
  unfolding local_to_rpc_peer
  handle_find_node request = do
    receiver ← handler_prelims net request.sender
    search_key ← or_throw (key_of_string request.search_key)
    found ← search_router search_key kbucket_max
    return (record { receiver = receiver; closest_peers = map local_to_rpc_peer found })

  -- `FindValue`
  unfoldable pub handle_find_value : FindValueRequest → M World FindValueResponse
  unfolding local_to_rpc_peer int32_of
  handle_find_value request = do
    receiver ← handler_prelims net request.sender
    search_key ← or_throw (key_of_string request.search_key)
    s ← get_session
    elim (find_chunk search_key s.chunks) [
      | some chunk ↦ return (record {
        receiver = receiver;
        found_value = true;
        content = chunk.content;
        size = int32_of (length chunk.content);
        closest_peers = [];
      })
      | none ↦
          (search_router search_key kbucket_max >>= λ found. return (record {
            receiver = receiver;
            found_value = false;
            content = [];
            size = 0;
            closest_peers = map local_to_rpc_peer found;
          }))
    ]

  -- `StoreInit`
  unfoldable pub handle_store_init : StoreInitRequest → M World StoreInitResponse
  handle_store_init request = do
    receiver ← handler_prelims net request.sender
    chunk_key ← or_throw (key_of_string request.chunk_key)
    s ← get_session
    return (record {
      receiver = receiver;
      continue_store = elim (find_chunk chunk_key s.chunks) [ none ↦ true | some c ↦ false ];
    })

  -- `Store`
  unfoldable pub handle_store : StoreRequest → M World StoreResponse
  unfolding size_of_int32 copy_bytes
  handle_store request = do
    receiver ← handler_prelims net request.sender
    key ← or_throw (key_of_string request.chunk_key)
    bytes ← or_undefined (copy_bytes (size_of_int32 request.size) request.content)
    s ← get_session
    w ← get_world
    set_chunks (
        put_chunk key
          (record {
            original_publisher = false;
            key = key;
            content = bytes;
            last_published = clock w;
            original_publish = request.original_publish * second;
          })
          s.chunks)
    return (record { receiver = receiver })

  -- `Ping`
  unfoldable pub handle_ping : PingRequest → M World PingResponse
  handle_ping request = do
    receiver ← handler_prelims net request.sender
    return (record { receiver = receiver })

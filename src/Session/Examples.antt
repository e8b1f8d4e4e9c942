-- ===== src/Session/Examples.antt =====
-- Networks and sessions for examples, and the theorems on sessions at them.
use distft.Prelude.{
  ltb, if◌then◌else◌, ◌^◌, ℕ, ◌*◌, ◌≡◌, refl, Bool, true, false, List, [], ◌∷◌, none, some, ite,
  arith, length, ℕ_discrete,
}
use distft.Key.{
  Key-discrete, Peer, key_of_string, to_string, pad, Text-discrete, read_digits, digit_bit, bit,
  digits_from, max_dist, dist, dist_less, dist_geq, less_from, geq_from, xor_bits, filled, closer,
}
use distft.Key.Digits.{key_of_string-to_string}
use distft.Key.Examples.{key_a, key_b, peer_c, peer_a}
use distft.Tree.{
  leaf, insert_loop, find_key, back, second, set_endpoint, rotate_front, remove_at, peer_at,
  evict_loop, tree_closest_peers,
}
use distft.Tree.Bucket.{bucket_endpoint}
use distft.Tree.Valid.{endpoint_of}
use distft.Router
use distft.Router.{Router, attempt_insert_peer, is_self, get_self_peer, evict_peer, closest_peers}
use distft.Router.Laws.{Inv}
use distft.Router.Examples.{full, full-Inv, late}
use distft.Session.Network.{FindValueRequest, Network, StoreRequest, StoreResponse}
use distft.Session.{put_chunk, find_chunk, Chunk, ChunkMap, Env, ok, err, thrown}
use distft.Session.Peers.{
  update_peer, update_loop, attempt, ping, evict, caller_prelims, handler_prelims,
  rpc_peer_to_local, local_to_rpc_peer,
}
use distft.Session.Update.{update_peer-ends}
use distft.Session.Callers.{int32_of, find_node, store, copy_bytes, size_of_int32}
use distft.Session.Handlers.{handle_find_value, search_router, handle_store}
use distft.Session.Chunks.{set, cleanup_pass, store_all, larger, publish}
use distft.Session.Lookup.{
  node_query, lookup_helper, lookup_rounds, visit, has_key, nearest, unique_peers, sort_peers,
  insert_sorted, min_dist_of, min_dist, final_calls, node_lookup,
}
use distft.Session.Serving.{finds_value, serve}
use distft.Session.Acts.{serve-chunks}
use distft.Session.Local.{content_at, handle_store-content, set-content}
use distft.Session.Nearest.{Closest, node_lookup-Closest}
use distft.Session.Wire.{copy_bytes-size_of_int32}
use distft.Session.Cleanup.{cleanup_pass-keeps}

-- A network in which no one answers but a ping, with a key that does not parse.
abbrev pub garbled : Network
garbled = record {
  World = ℕ;
  clock = λ w. w;
  call_find_node = λ w e r. (none, w);
  call_find_value = λ w e r. (none, w);
  call_store_init = λ w e r. (none, w);
  call_store = λ w e r. (none, w);
  call_ping = λ w e r. (some (record { receiver = record { key = 7 ∷ []; endpoint = e } }), w);
}

abbrev full_env : Env ℕ
full_env = record {
  session = record { dying = false; router = full; chunks = []; dead_peers = 0 };
  world = 5;
}

garbled-thrown : update_peer garbled late full_env ≡ err thrown
unfolding update_peer update_loop attempt Router.attempt ping evict caller_prelims rpc_peer_to_local
    key_of_string read_digits digit_bit attempt_insert_peer insert_loop is_self find_key bit back
    Key-discrete Text-discrete ℕ_discrete get_self_peer
garbled-thrown = refl

update_peer-ends_example : thrown ≡ thrown
update_peer-ends_example = update_peer-ends garbled late full_env thrown full-Inv garbled-thrown

-- A session that knows one peer.
abbrev pub one_peer : ℕ → List Peer → Router
one_peer at ks = record { self_peer = peer_c; table = leaf 159 (length ks) at ks }

one_peer-Inv : Inv (one_peer 0 (peer_a ∷ []))
unfolding endpoint_of bucket_endpoint Key-discrete
one_peer-Inv = record { table = (refl, refl, omega arith, (tt, tt)); self_absent = refl }

abbrev pub env : Router → ChunkMap → Env ℕ
env r m = record {
  session = record { dying = false; router = r; chunks = m; dead_peers = 0 };
  world = 100;
}

abbrev pub before : Env ℕ
before = env (one_peer 0 (peer_a ∷ [])) []

abbrev pub chunk : Bool → ℕ → Chunk
chunk mine published = record {
  original_publisher = mine;
  key = key_b;
  content = 5 ∷ 6 ∷ [];
  last_published = 100;
  original_publish = published;
}

abbrev store_request : StoreRequest
store_request = record {
  sender = record { key = to_string key_a; endpoint = 1 ∷ [] };
  chunk_key = to_string key_b;
  content = 5 ∷ 6 ∷ [];
  size = 2;
  original_publish = 0;
}

abbrev store_reply : StoreResponse
store_reply = record { receiver = local_to_rpc_peer peer_c }

abbrev pub after_store : Env ℕ
after_store = env (one_peer 100 (peer_a ∷ [])) ((key_b, chunk false 0) ∷ [])

copied : copy_bytes (size_of_int32 2) (5 ∷ 6 ∷ []) ≡ some (5 ∷ 6 ∷ [])
unfolding copy_bytes size_of_int32
copied = refl

store_handled : handle_store garbled store_request before ≡ ok (store_reply, after_store)
unfolding update_peer update_loop attempt Router.attempt ping evict caller_prelims rpc_peer_to_local
    key_of_string read_digits digit_bit attempt_insert_peer insert_loop is_self find_key bit back
    Key-discrete Text-discrete ℕ_discrete get_self_peer handler_prelims handle_store copy_bytes
    size_of_int32 to_string digits_from pad local_to_rpc_peer set_endpoint rotate_front remove_at
    peer_at put_chunk
store_handled = refl

handle_store-content_example :
    content_at key_b after_store.session.chunks
    ≡ ite (Key-discrete key_b key_b) (some (5 ∷ 6 ∷ [])) (content_at key_b [])
handle_store-content_example =
    handle_store-content garbled store_request before after_store store_reply key_b key_b
      (5 ∷ 6 ∷ []) (key_of_string-to_string key_b refl) copied store_handled

abbrev pub after_set : Env ℕ
after_set = env (one_peer 100 []) ((key_b, chunk true 100) ∷ [])

pub lookup_done : node_lookup garbled key_b before ≡ ok (peer_a ∷ [], env (one_peer 100 []) [])
unfolding update_peer update_loop attempt Router.attempt ping evict caller_prelims rpc_peer_to_local
    key_of_string read_digits digit_bit attempt_insert_peer insert_loop is_self find_key bit back
    Key-discrete Text-discrete ℕ_discrete get_self_peer to_string digits_from pad local_to_rpc_peer
    set_endpoint rotate_front remove_at peer_at evict_peer evict_loop closest_peers
    tree_closest_peers find_node node_query lookup_helper lookup_rounds visit has_key nearest
    unique_peers sort_peers insert_sorted min_dist_of min_dist max_dist dist dist_less dist_geq
    less_from geq_from xor_bits filled closer search_router final_calls node_lookup
lookup_done = refl

node_lookup-Closest_example : Closest key_b (peer_a ∷ [])
node_lookup-Closest_example =
    node_lookup-Closest garbled key_b before (env (one_peer 100 []) []) (peer_a ∷ []) lookup_done

pub set_done : set garbled key_b (5 ∷ 6 ∷ []) false before ≡ ok (tt, after_set)
unfolding update_peer update_loop attempt Router.attempt ping evict caller_prelims rpc_peer_to_local
    key_of_string read_digits digit_bit attempt_insert_peer insert_loop is_self find_key bit back
    Key-discrete Text-discrete ℕ_discrete get_self_peer to_string digits_from pad local_to_rpc_peer
    set_endpoint rotate_front remove_at peer_at put_chunk evict_peer evict_loop closest_peers
    tree_closest_peers find_node node_query lookup_helper lookup_rounds visit has_key nearest
    unique_peers sort_peers insert_sorted min_dist_of min_dist max_dist dist dist_less dist_geq
    less_from geq_from xor_bits filled closer search_router final_calls node_lookup store store_all
    larger publish set
set_done = refl

set-content_example :
    content_at key_b after_set.session.chunks
    ≡ ite (Key-discrete key_b key_b) (some (5 ∷ 6 ∷ [])) (content_at key_b [])
set-content_example = set-content garbled key_b key_b (5 ∷ 6 ∷ []) false before after_set set_done

-- A chunk of the epoch, a long time after it.
abbrev pub aged : Env ℕ
aged = record after_store { world = 1000 * (86400 * second) }

cleanup_pass-keeps_example : cleanup_pass garbled aged ≡ ok (tt, aged)
cleanup_pass-keeps_example = cleanup_pass-keeps garbled aged (omega arith, tt)

copy_bytes-size_of_int32_example :
    copy_bytes (size_of_int32 (int32_of 2)) (5 ∷ 6 ∷ [])
    ≡ (if ltb 2 (2 ^ 31) then some (5 ∷ 6 ∷ []) else none)
copy_bytes-size_of_int32_example = copy_bytes-size_of_int32 (5 ∷ 6 ∷ []) (omega arith)

abbrev sought : FindValueRequest
sought = record { sender = store_request.sender; search_key = to_string key_b }

value_served : serve garbled (finds_value sought) after_store ≡ ok (tt, after_store)
unfolding update_peer update_loop attempt Router.attempt ping evict caller_prelims rpc_peer_to_local
    key_of_string read_digits digit_bit attempt_insert_peer insert_loop is_self find_key bit back
    Key-discrete Text-discrete ℕ_discrete get_self_peer handler_prelims to_string digits_from pad
    local_to_rpc_peer set_endpoint rotate_front remove_at peer_at find_chunk handle_find_value
value_served = refl

serve-chunks_example : after_store.session.chunks ≡ after_store.session.chunks
serve-chunks_example =
    serve-chunks garbled (finds_value sought) after_store after_store refl value_served

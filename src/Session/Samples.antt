-- ===== src/Session/Samples.antt =====
-- The theorems on files over a session, its lookups, its threads and its chunks, at small sessions.
use distft.Session.Lonely.{set-thrown}
use distft.Session.{err, thrown, find_chunk}
use distft.Session.Chunks.{get}
use distft.Prelude.{All, ◌≤◌, inl, List, arith}
use distft.Key.{Peer}
use distft.Key.Examples.{key_b}
use distft.Router.{closest_peers}
use distft.Session.Nearest.{away}
use distft.Session.Found.{node_lookup-Near}
use distft.Session.Threads.{
  Threads, stuck, sleeping, cleanup, refresh, joining, down, init_rpc_threads, marks, here, next,
}
use distft.Session.Joined.{Stuck-down}
use distft.Session.Examples.{garbled, before, lookup_done, chunk}
use mathlib.Core.List.Permᴰ
use distft.Prelude.{ℕ, ◌≡◌, ◌≢◌, refl, [], ◌∷◌, true, false, none, some, ℕ_discrete, length}
use distft.Key.{
  Key-discrete, key_of_string, to_string, pad, Text-discrete, read_digits, digit_bit, bit,
  digits_from, max_dist, dist, dist_less, dist_geq, less_from, geq_from, xor_bits, filled, closer,
  Text,
}
use distft.Key.Examples.{peer_a}
use distft.Tree.{
  insert_loop, find_key, back, set_endpoint, rotate_front, remove_at, peer_at, evict_loop,
  tree_closest_peers,
}
use distft.Router
use distft.Router.{
  Router, new_router, attempt_insert_peer, is_self, get_self_peer, evict_peer, closest_peers,
  random_per_bucket_peers,
}
use distft.Session.Network.{Network}
use distft.Session.{Env, ok}
use distft.Session.Peers.{
  update_peer, update_loop, attempt, ping, evict, caller_prelims, caller_epilogue,
  rpc_peer_to_local, local_to_rpc_peer,
}
use distft.Session.Callers.{find_node, note_peers}
use distft.Session.Handlers.{search_router}
use distft.Session.Lookup.{
  node_query, lookup_helper, lookup_rounds, visit, has_key, nearest, unique_peers, sort_peers,
  insert_sorted, min_dist_of, min_dist, final_calls, node_lookup,
}
use distft.Key.{Key, key_from_data, digest_bits, byte_bits}
use distft.Key.Examples.{toy_hash}
use distft.Session.{put_chunk, Env, Chunk, ChunkMap}
use distft.Session.Callers.{store, send_chunk, int32_of, copy_bytes, size_of_int32}
use distft.Session.Peers.{local_to_rpc_peer}
use distft.Session.Chunks.{publish, set, store_all, larger}
use distft.Session.Files.{running, session_store, set_backed, after_set, session-read-write}
use distft.Session.Examples.{env, one_peer}
use distft.File.{write_from_file, read_in_files, read_loop, set_chunks, key_texts, append_names}
use distft.File.Content.{pieces, Apart}

-- A network in which one peer answers, and accepts what it is sent.
abbrev pub willing : Network
willing = record {
  World = ℕ;
  clock = λ w. w;
  call_find_node =
      λ w e r. (some (record { receiver = local_to_rpc_peer peer_a; closest_peers = [] }), w);
  call_find_value = λ w e r. (none, w);
  call_store_init =
      λ w e r. (some (record { receiver = local_to_rpc_peer peer_a; continue_store = true }), w);
  call_store = λ w e r. (some (record { receiver = local_to_rpc_peer peer_a }), w);
  call_ping = λ w e r. (some (record { receiver = local_to_rpc_peer peer_a }), w);
}

-- A session that has met this peer.
abbrev pub met : ChunkMap → Env ℕ
met m = env (one_peer 100 (peer_a ∷ [])) m

-- The name "a" and the content "hi!".
abbrev name : Text
name = b'a' ∷ []

abbrev content : Text
content = b'h' ∷ b'i' ∷ b'!' ∷ []

-- The chunk of a content under a key.
abbrev pub own : Key → Text → Chunk
own k d = record {
  original_publisher = true;
  key = k;
  content = d;
  last_published = 100;
  original_publish = 100;
}

piece_set :
    set willing (key_from_data toy_hash content) content false (met [])
    ≡ ok (
      tt,
      met (
          put_chunk
            (key_from_data toy_hash content)
            (own (key_from_data toy_hash content) content)
            []),
    )
unfolding update_peer update_loop attempt Router.attempt ping evict caller_prelims rpc_peer_to_local
    key_of_string read_digits digit_bit attempt_insert_peer insert_loop is_self find_key bit back
    Key-discrete Text-discrete ℕ_discrete get_self_peer to_string digits_from pad local_to_rpc_peer
    set_endpoint rotate_front remove_at peer_at put_chunk evict_peer evict_loop closest_peers
    tree_closest_peers find_node node_query lookup_helper lookup_rounds visit has_key nearest
    unique_peers sort_peers insert_sorted min_dist_of min_dist max_dist dist dist_less dist_geq
    less_from geq_from xor_bits filled closer search_router final_calls node_lookup store store_all
    larger publish set caller_epilogue note_peers send_chunk int32_of copy_bytes size_of_int32
    key_from_data digest_bits byte_bits
piece_set = refl

name_set :
    (d : Text) (m : ChunkMap)
    → set willing (key_from_data toy_hash name) d true (met m)
      ≡ ok (
        tt,
        met (put_chunk (key_from_data toy_hash name) (own (key_from_data toy_hash name) d) m),
      )
unfolding update_peer update_loop attempt Router.attempt ping evict caller_prelims rpc_peer_to_local
    key_of_string read_digits digit_bit attempt_insert_peer insert_loop is_self find_key bit back
    Key-discrete Text-discrete ℕ_discrete get_self_peer to_string digits_from pad local_to_rpc_peer
    set_endpoint rotate_front remove_at peer_at put_chunk evict_peer evict_loop closest_peers
    tree_closest_peers find_node node_query lookup_helper lookup_rounds visit has_key nearest
    unique_peers sort_peers insert_sorted min_dist_of min_dist max_dist dist dist_less dist_geq
    less_from geq_from xor_bits filled closer search_router final_calls node_lookup store store_all
    larger publish set caller_epilogue note_peers send_chunk int32_of copy_bytes size_of_int32
    key_from_data digest_bits byte_bits
name_set d m = refl

pieces-content : pieces content ≡ content ∷ []
unfolding pieces read_loop
pieces-content = refl

toy_digest : (d : Text) → length (toy_hash d) ≡ 20
toy_digest d = refl

name-differs : key_from_data toy_hash name ≢ key_from_data toy_hash content
unfolding key_from_data digest_bits byte_bits
name-differs e = cc

content-Apart : Apart (session_store willing) toy_hash name (pieces content)
content-Apart = rw pieces-content (tt, name-differs, tt)

abbrev written : Env ℕ
written = met (
    put_chunk (key_from_data toy_hash name)
      (own (key_from_data toy_hash name) (append_names [] (key_texts toy_hash (content ∷ []))))
      (put_chunk (key_from_data toy_hash content) (own (key_from_data toy_hash content) content)
        []))

write-written :
    (write_from_file
      (session_store willing)
      toy_hash
      (running (met []))
      (some content)
      name
      (λ ds. ds)).1
    ≡ running written
unfolding write_from_file read_loop set_chunks set_backed after_set
write-written = rw (piece_set, name_set) refl

session-read-write_example :
    read_in_files (session_store willing) toy_hash (running written) (name ∷ [])
    ≡ (some (some content), running written)
session-read-write_example =
    session-read-write willing toy_hash (met []) written content name (λ ds. ds) toy_digest
      (Permᴰ.refl (pieces content)) content-Apart write-written

node_lookup-Near_example :
    All
      (λ p.
        (q : Peer) × (qs : List Peer) × (◌≡◌ {A = List Peer} (peer_a ∷ []) (q ∷ qs))
        × (away key_b q ≤ away key_b p))
      (closest_peers before.session.router key_b 20 before.world).0
node_lookup-Near_example =
    node_lookup-Near garbled key_b before (env (one_peer 100 []) []) (peer_a ∷ []) lookup_done

-- The first thread has begun a pass that does not end, and `teardown` is called.
abbrev held_up : Threads
held_up = record init_rpc_threads { rpc_threads = stuck ∷ sleeping cleanup ∷ sleeping refresh ∷ [] }

abbrev torn : Threads
torn = record held_up { dying = true; ending = joining }

Stuck-down_example : torn.ending ≢ down
Stuck-down_example =
    Stuck-down (next (marks held_up refl) (here torn)) (inl refl) (λ e. ground arith)

-- A session that knows no peer.
abbrev alone : Env ℕ
alone = env (one_peer 100 []) []

alone-found : (closest_peers alone.session.router key_b 20 100).0 ≡ []
unfolding closest_peers tree_closest_peers find_key bit back
alone-found = refl

set-thrown_example :
    (node_lookup garbled key_b alone ≡ err thrown)
    × (set garbled key_b content false alone ≡ err thrown)
    × (get garbled key_b alone ≡ (elim (find_chunk key_b alone.session.chunks) [
      | some chunk ↦ ok (some chunk.content, alone)
      | none ↦ err thrown
    ]))
unfolding find_chunk
set-thrown_example = set-thrown garbled key_b content false alone alone-found

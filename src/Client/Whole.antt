-- ===== src/Client/Whole.antt =====
-- `store_cmd` and `load_cmd` at a session of src/dht/session.cpp, in a network in which one peer answers.
use mathlib.Core.List.Permᴰ
use distft.Prelude.{
  ℕ, ◌+◌, length, ◌≡◌, refl, Bool, true, false, List, [], ◌∷◌, ◌++◌, Option, some, ℕ_discrete,
}
use distft.Key.{
  Key-discrete, key_of_string, to_string, pad, Text-discrete, read_digits, digit_bit, bit, Key,
  digits_from, max_dist, dist, dist_less, dist_geq, less_from, geq_from, xor_bits, filled, closer,
  Text, key_from_data, digest_bits, byte_bits,
}
use distft.Key.Examples.{toy_hash}
use distft.Tree.{
  insert_loop, find_key, back, set_endpoint, rotate_front, remove_at, peer_at, evict_loop,
  tree_closest_peers,
}
use distft.Router
use distft.Router.{attempt_insert_peer, is_self, get_self_peer, evict_peer, closest_peers}
use distft.Session.{put_chunk, find_chunk}
use distft.Session.Peers.{
  local_to_rpc_peer, rpc_peer_to_local, update_peer, update_loop, attempt, ping, evict,
  caller_prelims, caller_epilogue,
}
use distft.Session.Callers.{
  find_node, note_peers, store, send_chunk, int32_of, copy_bytes, size_of_int32,
}
use distft.Session.Handlers.{search_router}
use distft.Session.Lookup.{
  node_query, lookup_helper, lookup_rounds, visit, has_key, nearest, unique_peers, sort_peers,
  insert_sorted, min_dist_of, min_dist, final_calls, node_lookup,
}
use distft.Session.Chunks.{publish, set, get, store_all, larger}
use distft.Session.Files.{
  Backed, running, is_faulted, session_store, set_backed, after_set, get_backed, after_get, held,
}
use distft.Session.Samples.{willing, met, own}
use distft.File.{
  index_name, index_key, read_loop, file_exists, exists_loop, write_from_file, set_chunks,
  key_texts, get_index_files, names_loop, push_name, append_names, add_files_to_index_file,
  read_in_files, read_keys, get_chunks, keys_loop, push_key, join,
}
use distft.File.Names.{terminated, member, non_empty}
use distft.File.Content.{pieces}
use distft.Client.Control.{
  alone, list_cmd, clear_cmd, Client, file_name, store_cmd, load_cmd, store_loop, is_stored,
  has_name, append_lines, ascii,
}
use distft.Client.Stored.{Indexed, New, store_cmd-list_cmd}
use distft.Client.Loaded.{store_cmd-load_cmd}
use distft.Client.Examples.{
  content-Apart, path-Clear, toy_rand, toy_local, toy_order, toy_opens, path, content,
}

abbrev key_of : Text → Key
key_of d = key_from_data toy_hash d

abbrev name : Text
name = b'a' ∷ []

-- A client with one session, which holds an empty index.
abbrev joined : Client (Backed ℕ)
joined = record {
  cluster = running (met ((key_of index_name, own (key_of index_name) []) ∷ []));
  sessions = 1;
  draws = 0;
  cmd_err = [];
  cmd_out = [];
  saved = [];
}

abbrev stored : Bool × Client (Backed ℕ)
stored =
    store_cmd (alone (session_store willing) is_faulted) toy_hash toy_rand toy_local toy_order
      toy_opens (path ∷ []) joined

abbrev loaded : Option Bool × Client (Backed ℕ)
loaded =
    load_cmd (alone (session_store willing) is_faulted) toy_hash toy_rand toy_local toy_order
      toy_opens (file_name path [] ∷ []) (b'o' ∷ []) stored.1

ends : is_faulted loaded.1.cluster ≡ false
unfolding update_peer update_loop attempt Router.attempt ping evict caller_prelims rpc_peer_to_local
    key_of_string read_digits digit_bit attempt_insert_peer insert_loop is_self find_key bit back
    Key-discrete Text-discrete ℕ_discrete get_self_peer to_string digits_from pad local_to_rpc_peer
    set_endpoint rotate_front remove_at peer_at put_chunk evict_peer evict_loop closest_peers
    tree_closest_peers find_node node_query lookup_helper lookup_rounds visit has_key nearest
    unique_peers sort_peers insert_sorted min_dist_of min_dist max_dist dist dist_less dist_geq
    less_from geq_from xor_bits filled closer search_router final_calls node_lookup store store_all
    larger publish set caller_epilogue note_peers send_chunk int32_of copy_bytes size_of_int32
    key_from_data digest_bits byte_bits store_cmd load_cmd store_loop is_stored has_name file_name
    file_exists exists_loop write_from_file read_loop set_chunks add_files_to_index_file index_key
    set_backed after_set get_backed after_get find_chunk get read_in_files read_keys get_chunks
    keys_loop push_key join append_names key_texts
ends = refl

abbrev listed : Bool × Client (Backed ℕ)
listed =
    list_cmd (alone (session_store willing) is_faulted) toy_hash toy_rand toy_local toy_order
      toy_opens
      (clear_cmd
        (store_cmd (alone (session_store willing) is_faulted) toy_hash toy_rand toy_local toy_order
          toy_opens (path ∷ path ∷ []) joined).1)

lists_too : is_faulted listed.1.cluster ≡ false
unfolding update_peer update_loop attempt Router.attempt ping evict caller_prelims rpc_peer_to_local
    key_of_string read_digits digit_bit attempt_insert_peer insert_loop is_self find_key bit back
    Key-discrete Text-discrete ℕ_discrete get_self_peer to_string digits_from pad local_to_rpc_peer
    set_endpoint rotate_front remove_at peer_at put_chunk evict_peer evict_loop closest_peers
    tree_closest_peers find_node node_query lookup_helper lookup_rounds visit has_key nearest
    unique_peers sort_peers insert_sorted min_dist_of min_dist max_dist dist dist_less dist_geq
    less_from geq_from xor_bits filled closer search_router final_calls node_lookup store store_all
    larger publish set caller_epilogue note_peers send_chunk int32_of copy_bytes size_of_int32
    key_from_data digest_bits byte_bits store_cmd load_cmd store_loop is_stored has_name file_name
    file_exists exists_loop write_from_file read_loop set_chunks add_files_to_index_file index_key
    set_backed after_set get_backed after_get find_chunk get read_in_files read_keys get_chunks
    keys_loop push_key join append_names key_texts clear_cmd list_cmd get_index_files names_loop
    push_name append_lines ascii
lists_too = refl

joined-Indexed :
    Indexed
      (session_store willing)
      is_faulted
      toy_hash
      toy_rand
      toy_local
      toy_order
      toy_opens
      joined
      []
unfolding held terminated find_chunk Key-discrete key_from_data digest_bits byte_bits
joined-Indexed = refl

store_cmd-load_cmd_example :
    (stored.0 ≡ true) × (loaded.0 ≡ some true) × (loaded.1.saved ≡ [] ++ (b'o' ∷ [], content) ∷ [])
unfolding member
store_cmd-load_cmd_example =
    store_cmd-load_cmd (session_store willing) is_faulted toy_hash toy_rand toy_local toy_order
      toy_opens path content (b'o' ∷ []) joined [] (λ t. refl) refl refl tt joined-Indexed
      path-Clear refl (Permᴰ.refl (pieces content)) content-Apart ends

store_cmd-list_cmd_example :
    let (stored, d') =
      store_cmd
        (alone (session_store willing) is_faulted)
        toy_hash
        toy_rand
        toy_local
        toy_order
        toy_opens
        (path ∷ path ∷ [])
        joined in
    let (listed, d'') =
      list_cmd
        (alone (session_store willing) is_faulted)
        toy_hash
        toy_rand
        toy_local
        toy_order
        toy_opens
        (clear_cmd d') in
    (names : List Text) × (stored ≡ true)
    × (d'.cmd_out ≡ append_lines (ascii "Successfully stored the following files\n") names)
    × (listed ≡ true)
    × (d''.cmd_out ≡ append_lines (ascii "INDEX\n") (non_empty ([] ++ names)))
    × New [] names
store_cmd-list_cmd_example =
    store_cmd-list_cmd (session_store willing) is_faulted toy_hash toy_rand toy_local toy_order
      toy_opens (path ∷ path ∷ []) joined [] tt (path-Clear, (path-Clear, tt)) joined-Indexed
      lists_too

-- What `store_cmd` makes of the path, and rounds for the client's loops.
abbrev replied : Bool × Client (Backed ℕ)
replied =
    store_cmd (alone (session_store willing) is_faulted) toy_hash toy_rand toy_local toy_order
      toy_opens (path ∷ []) (clear_cmd joined)

abbrev enough : ℕ
enough = length replied.1.cmd_err + length replied.1.cmd_out + 1

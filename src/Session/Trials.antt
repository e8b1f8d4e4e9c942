-- ===== src/Session/Trials.antt =====
-- The theorems on the life of a session at the networks of the other examples, and at one that answers.
use distft.Prelude.{
  ℕ, ◌≡◌, ◌↔◌, refl, true, [], ◌∷◌, none, some, arith, ℕ_discrete, Option, ap, ◌∙◌, false, List,
}
use distft.Key.{
  Key-discrete, key_of_string, to_string, pad, Text-discrete, read_digits, digit_bit, bit,
  digits_from, max_dist, dist, dist_less, dist_geq, less_from, geq_from, xor_bits, filled, closer,
  Text,
}
use distft.Key.Examples.{key_b, peer_a, peer_b, peer_c}
use distft.Tree.{
  new_tree, insert_loop, find_key, back, set_endpoint, rotate_front, remove_at, peer_at, evict_loop,
  tree_closest_peers, random_per_bucket, draw,
}
use distft.Tree.Refresh.{accessed}
use distft.Router
use distft.Router.{
  Router, new_router, attempt_insert_peer, is_self, get_self_peer, evict_peer, closest_peers,
  random_per_bucket_peers,
}
use distft.Router.Laws.{Inv}
use distft.Session.Network.{Network}
use distft.Session.{Result, Env, ok, err, undefined}
use distft.Session.Peers.{
  update_peer, update_loop, attempt, ping, evict, caller_prelims, caller_epilogue,
  rpc_peer_to_local, local_to_rpc_peer,
}
use distft.Session.Callers.{find_node, note_peers}
use distft.Session.Handlers.{search_router}
use distft.Session.Lookup.{
  node_query, lookup_helper, lookup_rounds, visit, has_key, nearest, unique_peers, sort_peers,
  insert_sorted, min_dist_of, min_dist, final_calls, node_lookup,
}
use distft.Session.Passes.{
  republish_all, republish_keys, republish_pass, random_peers, lookup_all, refresh_pass,
}
use distft.Session.Chunks.{cleanup_pass, expired_keys, erase_all}
use distft.Session.Life.{startup, ping_until, self_lookup, close_down, hand_over}
use distft.Session.Lived.{live, live-Inv}
use distft.Session.Acts.{cleans, republishes}
use distft.Session.Republish.{republish_pass-idle}
use distft.Session.Refreshing.{refresh_pass-idle, self_lookup-fault}
use distft.Session.Local.{content_at}
use distft.Session.Chunks.{get}
use distft.Session.{find_chunk}
use distft.Session.Calls.{sets, gets, run_calls, Allows, run_calls-Allows}
use distft.Session.Examples.{after_set, set_done, garbled, one_peer, env, before, aged}

-- Chunks that nobody has published for years are due, and the pass does not end.
republish_pass-idle_example :
    (republish_pass garbled aged ≡ ok (tt, aged))
    ↔ ((republish_keys aged.world aged.session.chunks ≡ []) × (aged ≡ aged))
republish_pass-idle_example = republish_pass-idle garbled aged aged

refresh_pass-idle_example :
    refresh_pass garbled (λ n. n) 200 before
    ≡ ok (
      tt,
      record before {
        session = record (before.session) {
          router = record (before.session.router) {
            table = accessed 100 before.session.router.table;
          };
        };
      },
    )
refresh_pass-idle_example = refresh_pass-idle garbled (λ n. n) 200 before (omega arith)

-- The peer does not answer, and is evicted.
helped :
    lookup_helper garbled key_b (node_query garbled key_b) before
    ≡ ok ((none, peer_a ∷ []), env (one_peer 100 []) [])
unfolding update_peer update_loop attempt Router.attempt ping evict caller_prelims rpc_peer_to_local
    key_of_string read_digits digit_bit attempt_insert_peer insert_loop is_self find_key bit back
    Key-discrete Text-discrete ℕ_discrete get_self_peer to_string digits_from pad local_to_rpc_peer
    set_endpoint rotate_front remove_at peer_at evict_peer evict_loop closest_peers
    tree_closest_peers find_node node_query lookup_helper lookup_rounds visit has_key nearest
    unique_peers sort_peers insert_sorted min_dist_of min_dist max_dist dist dist_less dist_geq
    less_from geq_from xor_bits filled closer search_router final_calls node_lookup
helped = refl

self_lookup-fault_example : self_lookup garbled (λ n. n) 200 key_b before ≡ err undefined
self_lookup-fault_example =
    self_lookup-fault garbled (λ n. n) 200 key_b before (env (one_peer 100 []) [])
      (none, peer_a ∷ []) helped refl

-- A network in which one peer answers.
abbrev answering : Network
answering = record {
  World = ℕ;
  clock = λ w. w;
  call_find_node =
      λ w e r. (some (record { receiver = local_to_rpc_peer peer_a; closest_peers = [] }), w);
  call_find_value = λ w e r. (none, w);
  call_store_init = λ w e r. (none, w);
  call_store = λ w e r. (none, w);
  call_ping = λ w e r. (some (record { receiver = local_to_rpc_peer peer_a }), w);
}

-- The session that has met this peer, and has ended.
abbrev closed : Env ℕ
closed = record {
  session = record {
    dying = true;
    router = one_peer 100 (peer_a ∷ []);
    chunks = [];
    dead_peers = 0;
  };
  world = 100;
}

lived :
    live answering (λ n. n) 200 1 peer_c peer_b (republishes ∷ cleans ∷ []) (some true) before
    ≡ ok (tt, closed)
unfolding update_peer update_loop attempt Router.attempt ping evict caller_prelims rpc_peer_to_local
    key_of_string read_digits digit_bit attempt_insert_peer insert_loop is_self find_key bit back
    Key-discrete Text-discrete ℕ_discrete get_self_peer to_string digits_from pad local_to_rpc_peer
    set_endpoint rotate_front remove_at peer_at evict_peer evict_loop closest_peers
    tree_closest_peers find_node node_query lookup_helper lookup_rounds visit has_key nearest
    unique_peers sort_peers insert_sorted min_dist_of min_dist max_dist dist dist_less dist_geq
    less_from geq_from xor_bits filled closer search_router final_calls node_lookup startup
    ping_until caller_epilogue note_peers random_per_bucket_peers random_per_bucket draw
    random_peers lookup_all self_lookup close_down hand_over republish_pass republish_all
    republish_keys cleanup_pass expired_keys erase_all new_router new_tree
lived = refl

live-Inv_example : Inv (one_peer 100 (peer_a ∷ [])) × (peer_c ≡ peer_c)
unfolding get_self_peer
live-Inv_example =
    live-Inv answering peer_c (λ n. n) 200 1 peer_b (republishes ∷ cleans ∷ []) (some true) before
      closed lived

-- A client that sets a content and gets it.
called :
    run_calls garbled (sets key_b (5 ∷ 6 ∷ []) false ∷ gets key_b ∷ []) before
    ≡ ok (some (5 ∷ 6 ∷ []) ∷ [], after_set)
unfolding get find_chunk Key-discrete
called =
    ap
      (λ (r : Result (Unit {0} × Env ℕ)). elim r as (λ x. Result (List (Option Text) × Env ℕ)) [
        | err e ↦ err e
        | ok (a, s) ↦ run_calls garbled (gets key_b ∷ []) s
      ])
      set_done
    ∙ refl

run_calls-Allows_example :
    Allows
      (sets key_b (5 ∷ 6 ∷ []) false ∷ gets key_b ∷ [])
      (λ k. content_at k [])
      (some (5 ∷ 6 ∷ []) ∷ [])
run_calls-Allows_example =
    run_calls-Allows garbled (sets key_b (5 ∷ 6 ∷ []) false ∷ gets key_b ∷ [])
      (some (5 ∷ 6 ∷ []) ∷ []) before after_set called

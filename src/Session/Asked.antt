-- ===== src/Session/Asked.antt =====
-- A value lookup of src/dht/session.cpp in a network that keeps a log of the calls.
use mathlib.Core.Path.{subst}
use distft.Prelude.{
  ◌≡◌, refl, Bool, true, false, List, [], ◌∷◌, Option, none, some, All, if◌then◌else◌, ℕ_discrete,
}
use distft.Key.{
  Key, Peer, Key-discrete, key_of_string, to_string, pad, Text-discrete, read_digits, digit_bit,
  bit, digits_from, max_dist, dist, dist_less, dist_geq, less_from, geq_from, xor_bits, filled,
  closer, Text,
}
use distft.Key.Examples.{key_a, key_b, peer_c, peer_a, peer_b}
use distft.Tree.{
  leaf, insert_loop, find_key, back, set_endpoint, rotate_front, remove_at, peer_at, evict_loop,
  tree_closest_peers,
}
use distft.Router
use distft.Router.{Router, attempt_insert_peer, is_self, get_self_peer, evict_peer, closest_peers}
use distft.Session.Network.{Network, RpcPeer, FindValueResponse}
use distft.Session.{Env, ok}
use distft.Session.Peers.{
  attempt, local_to_rpc_peer, rpc_peer_to_local, update_peer, update_loop, ping, evict,
  caller_prelims, caller_epilogue,
}
use distft.Session.Callers.{find_value, note_peers, copy_bytes, size_of_int32}
use distft.Session.Handlers.{search_router}
use distft.Session.Lookup.{
  value_query, lookup_helper, lookup_rounds, visit, has_key, nearest, unique_peers, sort_peers,
  insert_sorted, min_dist_of, min_dist, value_lookup,
}
use distft.Session.Examples.{one_peer}
use distft.Session.Honest.{Told, Named}
use distft.Session.Once.{Honest, Apart, value_lookup-Apart}

-- The first peer names the second, and the second has the value.
abbrev second : RpcPeer
second = record { key = to_string key_b; endpoint = 2 ∷ [] }

abbrev answer : Bool → FindValueResponse
answer has = record {
  receiver = second;
  found_value = has;
  content = [];
  size = 0;
  closest_peers = if has then [] else second ∷ [];
}

abbrev at_first : {A : Type 0} → Text → A → A → A
at_first [] x y = y
at_first (e ∷ es) x y = elim (ℕ_discrete e 1) [ yes p ↦ x | no p ↦ y ]

abbrev logged : Network
logged = record {
  World = List Text;
  clock = λ w. 100;
  call_find_node = λ w e r. (none, w);
  call_find_value = λ w e r. (some (answer (at_first e false true)), e ∷ w);
  call_store_init = λ w e r. (none, w);
  call_store = λ w e r. (none, w);
  call_ping = λ w e r. (none, w);
}

-- The key of each endpoint.
abbrev home : Text → Key
home e = at_first e key_a key_b

abbrev start : Env (List Text)
start = record {
  session = record {
    dying = false;
    router = one_peer 0 (peer_a ∷ []);
    chunks = [];
    dead_peers = 0;
  };
  world = [];
}

abbrev IsHome : Option Peer → Type 0
IsHome none = Unit {0}
IsHome (some p) = Honest home p

peer_b-Named : Named (Honest home) second
unfolding rpc_peer_to_local local_to_rpc_peer key_of_string to_string read_digits digit_bit
    digits_from pad bit ℕ_discrete
peer_b-Named p e = subst IsHome e refl

-- The endpoints that the lookup calls: that of the peer that the session knows, and of the one it hears of.
abbrev called : List Text
called = (2 ∷ []) ∷ (1 ∷ []) ∷ []

abbrev found_out : Router
found_out = record { self_peer = peer_c; table = leaf 159 2 100 (peer_b ∷ peer_a ∷ []) }

abbrev after : Env (List Text)
after = record {
  session = record { dying = false; router = found_out; chunks = []; dead_peers = 0 };
  world = called;
}

value_lookup-done : value_lookup logged key_b start ≡ ok (some [], after)
unfolding update_peer update_loop attempt Router.attempt ping evict caller_prelims rpc_peer_to_local
    key_of_string read_digits digit_bit attempt_insert_peer insert_loop is_self find_key bit back
    Key-discrete Text-discrete ℕ_discrete get_self_peer to_string digits_from pad local_to_rpc_peer
    set_endpoint rotate_front remove_at peer_at evict_peer evict_loop closest_peers
    tree_closest_peers find_value value_query lookup_helper lookup_rounds visit has_key nearest
    unique_peers sort_peers insert_sorted min_dist_of min_dist max_dist dist dist_less dist_geq
    less_from geq_from xor_bits filled closer search_router value_lookup note_peers caller_epilogue
    copy_bytes size_of_int32
value_lookup-done = refl

told : (has : Bool) → Told (Honest home) (some (answer has))
told true = tt
told false = (peer_b-Named, tt)

start-Honest : All (Honest home) (closest_peers start.session.router key_b 20 100).0
unfolding closest_peers tree_closest_peers find_key bit back ℕ_discrete
start-Honest = (refl, tt)

value_lookup-Apart_example : Apart called
value_lookup-Apart_example =
    value_lookup-Apart logged home (λ w. w) key_b start after (some [])
      (λ w e r. told (at_first e false true)) (λ w e r. refl) (λ w e r. refl) start-Honest refl
      value_lookup-done

-- ===== src/Session/Peers.antt =====
-- src/dht/rpc.cpp: the ping, `update_peer` and the conversions of peers.
use distft.Prelude.{ℕ, zero, suc, Bool, true, false, Option, none, some, ite}
use distft.Key.{Key, Key-discrete, Peer, to_string, key_of_string}
use distft.Router.{Attempt, attempt_insert_peer, evict_peer, get_self_peer}
use distft.Session.Network.{Network, RpcPeer}
use distft.Session.{
  M, ok, undefined, out_of_rounds, ◌>>=◌, ◌>>◌, return, fail, get_session, get_world, set_router,
  count_dead, or_throw,
}

-- `local_to_rpc_peer`
unfoldable pub local_to_rpc_peer : Peer → RpcPeer
local_to_rpc_peer p = record { key = to_string p.key; endpoint = p.endpoint }

-- `rpc_peer_to_local`: `none` is the exception of `Key(rpc_peer->key())`.
unfoldable pub rpc_peer_to_local : RpcPeer → Option Peer
rpc_peer_to_local p = elim (key_of_string p.key) [
  | none ↦ none
  | some k ↦ some (record { endpoint = p.endpoint; key = k })
]

-- A call through the stub leaves a world.
abbrev pub call : {W A : Type 0} → (W → Option A × W) → M W (Option A)
call f s = let (a, w) = f s.world in ok (a, record s { world = w })

-- `rpc_caller_prelims`
unfoldable pub caller_prelims : {W : Type 0} → M W RpcPeer
unfolding get_self_peer local_to_rpc_peer
caller_prelims = do s ← get_session; return (local_to_rpc_peer (get_self_peer s.router))

-- `router->evict_peer(key)`
unfoldable pub evict : {W : Type 0} → Key → M W (Unit {0})
evict k = do s ← get_session; set_router (evict_peer s.router k)

-- The test of `update_peer`: the peer that answers is the one that was asked.
unfoldable pub answers : Peer → Option Peer → Bool
answers lru none = false
answers lru (some q) = ite (Key-discrete lru.key q.key) true false

module _ (net : Network) where
  open net use {World, clock, call_ping}

  -- `router->attempt_insert_peer`
  unfoldable pub attempt : Peer → M World Attempt
  attempt p = do
    s ← get_session
    w ← get_world
    let a = attempt_insert_peer s.router p (clock w)
    set_router a.router
    return a

  -- `ping`: the peer that answers, or `none` if there is no answer.
  unfoldable pub ping : Peer → M World (Option Peer)
  unfolding caller_prelims evict
  ping p = do
    sender ← caller_prelims
    response ← call (λ w. call_ping w p.endpoint (record { sender = sender }))
    elim response [
      | none ↦ (evict p.key >> return none)
      | some r ↦ (or_throw (rpc_peer_to_local r.receiver) >>= λ q. return (some q))
    ]

  -- `update_peer`, with at most so many rounds of its loop.
  unfoldable pub update_loop : ℕ → Peer → M World (Unit {0})
  update_loop zero p = fail out_of_rounds
  update_loop (suc rounds) p = do
    a ← attempt p
    elim (a.inserted) [
      | true ↦ return tt
      | false ↦ (elim (a.lru_peer) [
        | none ↦ fail undefined
        | some lru ↦
            (ping lru >>= λ reply. elim (answers lru reply) [
              | true ↦ return tt
              | false ↦ (evict lru.key >> (count_dead >> update_loop rounds p))
            ])
      ])
    ]

  -- `update_peer`, with two rounds for its loop.
  unfoldable pub update_peer : Peer → M World (Unit {0})
  update_peer p = update_loop 2 p

  -- `rpc_handler_prelims`: the sender is noted, and the receiver is the session itself.
  unfoldable pub handler_prelims : RpcPeer → M World RpcPeer
  unfolding get_self_peer
  handler_prelims sender = do
    p ← or_throw (rpc_peer_to_local sender)
    update_peer p
    s ← get_session
    return (local_to_rpc_peer (get_self_peer s.router))

  -- `rpc_caller_epilogue`
  unfoldable pub caller_epilogue : RpcPeer → M World (Unit {0})
  caller_epilogue receiver = do p ← or_throw (rpc_peer_to_local receiver); update_peer p

-- ===== src/Session/Heard.antt =====
-- What the callers of src/dht/rpc.cpp tell the network: the calls that a method makes, as a log in the
-- world.
use mathlib.Core.Path.{subst}
use distft.Prelude.{
  ℕ, zero, suc, ◌≡◌, refl, Bool, true, false, List, [], ◌∷◌, ◌++◌, Option, none, some,
}
use distft.Key.{Key, Peer, Text, to_string}
use distft.Router.{is_self}
use distft.Session.Network.{Network, RpcPeer, PingRequest, FindValueRequest}
use distft.Session.{
  Env, M, Result, ok, err, Fault, undefined, out_of_rounds, fail, return, ◌>>=◌, ◌>>◌, or_throw,
  get_session, count_dead,
}
use distft.Session.Peers.{
  attempt, ping, evict, update_loop, update_peer, caller_epilogue, rpc_peer_to_local, answers, call,
  caller_prelims,
}
use distft.Session.Callers.{note_peers, find_value, or_undefined, copy_bytes, size_of_int32}
use distft.Session.Lookup.{value_query}

-- A result that is no fault, with what it leaves, has the property.
abbrev pub Leaves : {W A : Type 0} → (A → Env W → Type 0) → Result (A × Env W) → Type 0
Leaves P (ok (a, s)) = P a s
Leaves P (err e) = Unit {0}

pub Leaves->>= :
    {W A B : Type 0} (P : A → Env W → Type 0) (Q : B → Env W → Type 0) (r : Result (A × Env W))
    (f : A → M W B)
    → ((a : A) (s : Env W) → P a s → Leaves Q (f a s))
    → Leaves P r
    → Leaves Q (elim r [ err e ↦ err e | ok (a, s) ↦ f a s ])
Leaves->>= P Q (ok (a, s)) f h g = h a s g
Leaves->>= P Q (err e) f h g = tt

-- A method that ends has added these entries to the log.
pub record Adds {W A : Type 0} (log : W → List Text) (es : List Text) (m : M W A) : Type 0 where
  pub run : (s : Env W) → Leaves (λ a t. log t.world ≡ es ++ log s.world) (m s)

module _ {W : Type 0} (log : W → List Text) where
  Adds-first :
      {A B : Type 0} (es ls : List Text) (r : Result (A × Env W)) (f : A → M W B)
      → Leaves (λ a t. log t.world ≡ es ++ ls) r
      → ((a : A) → Adds log [] (f a))
      → Leaves (λ b t. log t.world ≡ es ++ ls) (elim r [ err e ↦ err e | ok (a, s) ↦ f a s ])
  Adds-first {B = B} es ls (ok (a, s)) f h g =
      subst (λ ks. Leaves (λ b t. log t.world ≡ ks) (f a s)) h ((g a).run s)
  Adds-first es ls (err e) f h g = tt

  Adds-last :
      {A B : Type 0} (es ls : List Text) (r : Result (A × Env W)) (f : A → M W B)
      → Leaves (λ a t. log t.world ≡ ls) r
      → ((a : A) → Adds log es (f a))
      → Leaves (λ b t. log t.world ≡ es ++ ls) (elim r [ err e ↦ err e | ok (a, s) ↦ f a s ])
  Adds-last es ls (ok (a, s)) f h g =
      subst (λ ks. Leaves (λ b t. log t.world ≡ es ++ ks) (f a s)) h ((g a).run s)
  Adds-last es ls (err e) f h g = tt

  Adds->>= :
      {A B : Type 0} {es : List Text} {m : M W A} {f : A → M W B}
      → Adds log es m
      → ((a : A) → Adds log [] (f a))
      → Adds log es (m >>= f)
  Adds->>= {es = es} {m = m} {f = f} h g = record {
    run = λ s. Adds-first es (log s.world) (m s) f (h.run s) g;
  }

  Adds-then :
      {A B : Type 0} {es : List Text} {m : M W A} {f : A → M W B}
      → Adds log [] m
      → ((a : A) → Adds log es (f a))
      → Adds log es (m >>= f)
  Adds-then {es = es} {m = m} {f = f} h g = record {
    run = λ s. Adds-last es (log s.world) (m s) f (h.run s) g;
  }

  Adds->> :
      {B : Type 0} {m : M W (Unit {0})} {k : M W B}
      → Adds log [] m
      → Adds log [] k
      → Adds log [] (m >> k)
  Adds->> {m = m} {k = k} h g = record {
    run = λ s. Adds-first [] (log s.world) (m s) (λ _. k) (h.run s) (λ _. g);
  }

  Adds-Option :
      {A B : Type 0} (o : Option A) {m : M W B} {f : A → M W B}
      → Adds log [] m
      → ((a : A) → Adds log [] (f a))
      → Adds log [] (elim o [ none ↦ m | some a ↦ f a ])
  Adds-Option none h g = h
  Adds-Option (some a) h g = g a

  Adds-Bool :
      {B : Type 0} (b : Bool) {m k : M W B}
      → Adds log [] m
      → Adds log [] k
      → Adds log [] (elim b [ true ↦ m | false ↦ k ])
  Adds-Bool true h g = h
  Adds-Bool false h g = g

  Adds-return : {A : Type 0} (a : A) → Adds {W = W} log [] (return a)
  Adds-return a = record { run = λ s. refl }

  Adds-or_throw : {A : Type 0} (o : Option A) → Adds {W = W} log [] (or_throw o)
  Adds-or_throw none = record { run = λ s. tt }
  Adds-or_throw (some a) = record { run = λ s. refl }

  Adds-or_undefined : {A : Type 0} (o : Option A) → Adds {W = W} log [] (or_undefined o)
  Adds-or_undefined none = record { run = λ s. tt }
  Adds-or_undefined (some a) = record { run = λ s. refl }

  Adds-fail : {A : Type 0} (e : Fault) → Adds {W = W} {A = A} log [] (fail e)
  Adds-fail e = record { run = λ s. tt }

  Adds-call :
      {A : Type 0} {es : List Text} (f : W → Option A × W)
      → ((w : W) → log (f w).1 ≡ es ++ log w)
      → Adds log es (call f)
  Adds-call f h = record { run = λ s. h s.world }

  evict-Adds : (k : Key) → Adds {W = W} log [] (evict k)
  unfolding evict
  evict-Adds k = record { run = λ s. refl }

  caller_prelims-Adds : Adds {W = W} log [] caller_prelims
  unfolding caller_prelims
  caller_prelims-Adds = record { run = λ s. refl }

module _ (net : Network) (log : net.World → List Text)
    (pings : (w : net.World) (e : Text) (r : PingRequest)
      → log ((net.call_ping w e r).1) ≡ log w) where
  open net use {World, call_ping, call_find_value}

  ping-Adds : (p : Peer) → Adds log [] (ping net p)
  unfolding ping
  ping-Adds p = Adds->>= log (caller_prelims-Adds log) (λ sender.
      Adds->>= log
        (Adds-call log (λ w. call_ping w p.endpoint (record { sender = sender }))
          (λ w. pings w p.endpoint (record { sender = sender })))
        (λ response.
          Adds-Option log response (Adds->> log (evict-Adds log p.key) (Adds-return log none)) (λ r.
            Adds->>= log (Adds-or_throw log (rpc_peer_to_local r.receiver))
              (λ q. Adds-return log (some q)))))

  update_loop-Adds : (n : ℕ) (p : Peer) → Adds log [] (update_loop net n p)
  unfolding update_loop attempt
  update_loop-Adds zero p = Adds-fail log out_of_rounds
  update_loop-Adds (suc n) p =
      Adds->>= log {m = attempt net p} (record { run = λ s. refl })
        (λ a. Adds-Bool log a.inserted (Adds-return log tt) (
          Adds-Option log a.lru_peer (Adds-fail log undefined) (λ lru.
            Adds->>= log (ping-Adds lru) (λ reply.
              Adds-Bool log (answers lru reply) (Adds-return log tt) (
                Adds->> log (evict-Adds log lru.key) (
                  Adds->> log {m = count_dead} (record { run = λ s. refl })
                    (update_loop-Adds n p)))))))

  update_peer-Adds : (p : Peer) → Adds log [] (update_peer net p)
  unfolding update_peer
  update_peer-Adds p = update_loop-Adds 2 p

  caller_epilogue-Adds : (receiver : RpcPeer) → Adds log [] (caller_epilogue net receiver)
  unfolding caller_epilogue
  caller_epilogue-Adds receiver =
      Adds->>= log (Adds-or_throw log (rpc_peer_to_local receiver)) update_peer-Adds

  note_peers-Adds : (rs : List RpcPeer) → Adds log [] (note_peers net rs)
  unfolding note_peers
  note_peers-Adds [] = Adds-return log []
  note_peers-Adds (r ∷ rs) = Adds->>= log (Adds-or_throw log (rpc_peer_to_local r)) (λ p.
      Adds->>= log {m = get_session} (record { run = λ s. refl })
        (λ s. Adds-Bool log (is_self s.router p) (note_peers-Adds rs) (
          Adds->> log (update_peer-Adds p)
            (Adds->>= log (note_peers-Adds rs) (λ ps. Adds-return log (p ∷ ps))))))

  -- The rest of `find_value` once the call is answered.
  find_value-Adds :
      (p : Peer) (k : Key)
      → ((w : World) (e : Text) (r : FindValueRequest)
          → log ((call_find_value w e r).1) ≡ e ∷ log w)
      → Adds log (p.endpoint ∷ []) (find_value net p k)
  unfolding find_value
  find_value-Adds p k h = Adds-then log (caller_prelims-Adds log) (λ sender.
      Adds->>= log
        (Adds-call log
          (λ w. call_find_value w p.endpoint (record { sender = sender; search_key = to_string k }))
          (λ w. h w p.endpoint (record { sender = sender; search_key = to_string k })))
        (λ response.
          Adds-Option log response (Adds->> log (evict-Adds log p.key) (Adds-return log none)) (λ r.
            Adds->> log (caller_epilogue-Adds r.receiver) (
              Adds-Bool log r.found_value
                (Adds->>= log (Adds-or_undefined log (copy_bytes (size_of_int32 r.size) r.content))
                  (λ bytes. Adds-return log (some (some bytes, []))))
                (Adds->>= log (note_peers-Adds r.closest_peers)
                  (λ ps. Adds-return log (some (none, ps))))))))

  pub value_query-Adds :
      (p : Peer) (k : Key)
      → ((w : World) (e : Text) (r : FindValueRequest)
          → log ((call_find_value w e r).1) ≡ e ∷ log w)
      → Adds log (p.endpoint ∷ []) (value_query net k p)
  unfolding value_query
  value_query-Adds p k h = Adds->>= log (find_value-Adds p k h) (λ r.
      Adds-Option log r (Adds-return log (record { answered = false; found = none; pushed = [] }))
        (λ (d, ps). Adds-return log (record { answered = true; found = d; pushed = ps })))

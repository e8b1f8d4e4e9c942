-- ===== src/Session/Keeps.antt =====
-- What the methods keep: a property of the session that the calls of the router keep is kept by every
-- method that only talks to other peers.
use distft.Prelude.{
  ℕ, zero, suc, ◌+◌, ◌≡◌, List, Bool, true, false, Option, none, some, if◌then◌else◌,
}
use distft.Key.{Key, Peer}
use distft.Router.{Router, attempt_insert_peer, evict_peer, closest_peers, random_per_bucket_peers}
use distft.Session.Network.{Network, RpcPeer}
use distft.Session.{
  Session, Env, M, Result, ok, err, count_dead, ◌>>=◌, ◌>>◌, return, fail, or_throw, Fault,
  get_session, get_world,
}
use distft.Session.Peers.{
  attempt, ping, evict, update_loop, update_peer, handler_prelims, caller_epilogue,
  rpc_peer_to_local, answers, call, caller_prelims,
}

-- The calls of the router, and the count of dead peers, keep the property.
pub record Stable (P : Session → Type 0) : Type 0 where
  pub inserts :
      (s : Session) (p : Peer) (now : ℕ)
      → P s
      → P (record s { router = (attempt_insert_peer s.router p now).router })
  pub evicts : (s : Session) (k : Key) → P s → P (record s { router = evict_peer s.router k })
  pub searches :
      (s : Session) (k : Key) (n now : ℕ)
      → P s
      → P (record s { router = (closest_peers s.router k n now).1 })
  pub refreshes :
      (s : Session) (r : Router) (rand : ℕ → ℕ) (now later unaccessed : ℕ) (ps : List Peer)
      → random_per_bucket_peers rand s.router now later unaccessed ≡ some (ps, r)
      → P s
      → P (record s { router = r })
  pub counts : (s : Session) → P s → P (record s { dead_peers = s.dead_peers + 1 })

-- A result that is no fault has the property.
abbrev pub After : {W A : Type 0} → (Session → Type 0) → Result (A × Env W) → Type 0
After P (ok (a, s)) = P s.session
After P (err e) = Unit {0}

pub record Keeps {W A : Type 0} (P : Session → Type 0) (m : M W A) : Type 0 where
  pub run : (s : Env W) → P s.session → After P (m s)

module _ {W : Type 0} (P : Session → Type 0) where
  pub After->>= :
      {A B : Type 0} (r : Result (A × Env W)) (f : A → M W B)
      → After P r
      → ((a : A) → Keeps P (f a))
      → After P (elim r [ err e ↦ err e | ok (a, s) ↦ f a s ])
  After->>= (ok (a, s)) f h g = (g a).run s h
  After->>= (err e) f h g = tt

  pub Keeps->>= :
      {A B : Type 0} {m : M W A} {f : A → M W B}
      → Keeps P m
      → ((a : A) → Keeps P (f a))
      → Keeps P (m >>= f)
  Keeps->>= {m = m} {f = f} h g = record { run = λ s p. After->>= (m s) f (h.run s p) g }

  pub Keeps->> :
      {B : Type 0} {m : M W (Unit {0})} {k : M W B} → Keeps P m → Keeps P k → Keeps P (m >> k)
  Keeps->> {m = m} {k = k} h g = record {
    run = λ s p. After->>= (m s) (λ _. k) (h.run s p) (λ _. g);
  }

  pub Keeps-Option :
      {A B : Type 0} (o : Option A) {m : M W B} {f : A → M W B}
      → Keeps P m
      → ((a : A) → Keeps P (f a))
      → Keeps P (elim o [ none ↦ m | some a ↦ f a ])
  Keeps-Option none h g = h
  Keeps-Option (some a) h g = g a

  pub Keeps-Bool :
      {B : Type 0} (b : Bool) {m k : M W B}
      → Keeps P m
      → Keeps P k
      → Keeps P (elim b [ true ↦ m | false ↦ k ])
  Keeps-Bool true h g = h
  Keeps-Bool false h g = g

  pub Keeps-if :
      {B : Type 0} (b : Bool) {m k : M W B} → Keeps P m → Keeps P k → Keeps P (if b then m else k)
  Keeps-if true h g = h
  Keeps-if false h g = g

  pub Keeps-return : {A : Type 0} (a : A) → Keeps {W = W} P (return a)
  Keeps-return a = record { run = λ s p. p }

  pub Keeps-or_throw : {A : Type 0} (o : Option A) → Keeps {W = W} P (or_throw o)
  Keeps-or_throw none = record { run = λ s p. tt }
  Keeps-or_throw (some a) = record { run = λ s p. p }

  pub Keeps-fail : {A : Type 0} (e : Fault) → Keeps {W = W} {A = A} P (fail e)
  Keeps-fail e = record { run = λ s p. tt }

  pub Keeps-call : {A : Type 0} (f : W → Option A × W) → Keeps P (call f)
  Keeps-call f = record { run = λ s p. p }

  pub Keeps-get_session : Keeps {W = W} P get_session
  Keeps-get_session = record { run = λ s p. p }

  pub Keeps-get_world : Keeps {W = W} P get_world
  Keeps-get_world = record { run = λ s p. p }

  pub Keeps-caller_prelims : Keeps {W = W} P caller_prelims
  unfolding caller_prelims
  Keeps-caller_prelims = record { run = λ s p. p }

module _ (net : Network) (P : Session → Type 0) where
  open net use {World, call_ping}

  pub ping-Keeps : (p : Peer) → Keeps {W = World} P (evict p.key) → Keeps P (ping net p)
  unfolding ping
  ping-Keeps p h = Keeps->>= P (Keeps-caller_prelims P) (λ sender.
      Keeps->>= P (Keeps-call P (λ w. call_ping w p.endpoint (record { sender = sender })))
        (λ response. Keeps-Option P response (Keeps->> P h (Keeps-return P none)) (λ r.
          Keeps->>= P (Keeps-or_throw P (rpc_peer_to_local r.receiver))
            (λ q. Keeps-return P (some q)))))

module _ (net : Network) (P : Session → Type 0) (stable : Stable P) where
  open net use {World, clock, call_ping}

  pub evict-Keeps : (k : Key) → Keeps {W = World} P (evict k)
  unfolding evict
  evict-Keeps k = record { run = λ s p. stable.evicts s.session k p }

  pub attempt-Keeps : (p : Peer) → Keeps P (attempt net p)
  unfolding attempt
  attempt-Keeps p = record { run = λ s h. stable.inserts s.session p (clock s.world) h }

  count_dead-Keeps : Keeps {W = World} P count_dead
  count_dead-Keeps = record { run = λ s h. stable.counts s.session h }

  pub update_loop-Keeps : (n : ℕ) (p : Peer) → Keeps P (update_loop net n p)
  unfolding update_loop
  update_loop-Keeps zero p = Keeps-fail P _
  update_loop-Keeps (suc n) p = Keeps->>= P (attempt-Keeps p) (λ a.
      Keeps-Bool P a.inserted (Keeps-return P tt) (
        Keeps-Option P a.lru_peer (Keeps-fail P _) (λ lru.
          Keeps->>= P (ping-Keeps net P lru (evict-Keeps lru.key)) (λ reply.
            Keeps-Bool P (answers lru reply) (Keeps-return P tt) (
              Keeps->> P (evict-Keeps lru.key)
                (Keeps->> P count_dead-Keeps (update_loop-Keeps n p)))))))

  pub update_peer-Keeps : (p : Peer) → Keeps P (update_peer net p)
  unfolding update_peer
  update_peer-Keeps p = update_loop-Keeps 2 p

  pub handler_prelims-Keeps : (sender : RpcPeer) → Keeps P (handler_prelims net sender)
  unfolding handler_prelims
  handler_prelims-Keeps sender = Keeps->>= P (Keeps-or_throw P (rpc_peer_to_local sender)) (λ p.
      Keeps->> P (update_peer-Keeps p) (Keeps->>= P (Keeps-get_session P) (λ s. Keeps-return P _)))

  pub caller_epilogue-Keeps : (receiver : RpcPeer) → Keeps P (caller_epilogue net receiver)
  unfolding caller_epilogue
  caller_epilogue-Keeps receiver =
      Keeps->>= P (Keeps-or_throw P (rpc_peer_to_local receiver)) update_peer-Keeps

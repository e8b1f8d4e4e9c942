-- ===== src/Session/Honest.antt =====
-- What `find_value` of src/dht/rpc.cpp hands on of its answer: no other peers than the answer names.
use distft.Prelude.{◌≡◌, refl, Bool, true, false, List, [], ◌∷◌, Option, none, some, All}
use distft.Key.{Key, Peer, Text, to_string}
use distft.Router.{is_self}
use distft.Session.Network.{Network, RpcPeer, FindValueRequest, FindValueResponse}
use distft.Session.{Env, M, Result, ok, err, return, ◌>>=◌, ◌>>◌, or_throw, get_session}
use distft.Session.Peers.{
  evict, update_peer, caller_epilogue, rpc_peer_to_local, call, caller_prelims,
}
use distft.Session.Callers.{note_peers, find_value, or_undefined, copy_bytes, size_of_int32}
use distft.Session.Lookup.{Queried, value_query}
use distft.Session.Heard.{Leaves, Leaves->>=}

-- A method that ends has a result with the property.
pub record Pays {W A : Type 0} (P : A → Type 0) (m : M W A) : Type 0 where
  pub run : (s : Env W) → Leaves (λ a t. P a) (m s)

module _ {W : Type 0} where
  Pays->>= :
      {A B : Type 0} {P : A → Type 0} {Q : B → Type 0} {m : M W A} {f : A → M W B}
      → Pays P m
      → ((a : A) → P a → Pays Q (f a))
      → Pays Q (m >>= f)
  Pays->>= {P = P} {Q = Q} {m = m} {f = f} h g = record {
    run = λ s. Leaves->>= (λ a t. P a) (λ b t. Q b) (m s) f (λ a t p. (g a p).run t) (h.run s);
  }

  ended : {A : Type 0} (r : Result (A × Env W)) → Leaves (λ a t. Unit {0}) r
  ended (ok (a, s)) = tt
  ended (err e) = tt

  Pays-any : {A : Type 0} (m : M W A) → Pays (λ a. Unit {0}) m
  Pays-any m = record { run = λ s. ended (m s) }

  Pays->> :
      {B : Type 0} {Q : B → Type 0} {k : M W B} (m : M W (Unit {0})) → Pays Q k → Pays Q (m >> k)
  Pays->> {Q = Q} {k = k} m h = record {
    run = λ s.
        Leaves->>= (λ a t. Unit {0}) (λ b t. Q b) (m s) (λ a. k) (λ a t p. h.run t) (ended (m s));
  }

  Pays-return : {A : Type 0} (P : A → Type 0) (a : A) → P a → Pays {W = W} P (return a)
  Pays-return P a h = record { run = λ s. h }

  Pays-Bool :
      {B : Type 0} {Q : B → Type 0} (b : Bool) {m k : M W B}
      → Pays Q m
      → Pays Q k
      → Pays Q (elim b [ true ↦ m | false ↦ k ])
  Pays-Bool true h g = h
  Pays-Bool false h g = g

  Pays-or_throw :
      {A : Type 0} (P : A → Type 0) (o : Option A)
      → ((a : A) → o ≡ some a → P a)
      → Pays {W = W} P (or_throw o)
  Pays-or_throw P none h = record { run = λ s. tt }
  Pays-or_throw P (some a) h = record { run = λ s. h a refl }

module _ (H : Peer → Type 0) where
  -- The peer that a message names, if its key parses, has the property.
  abbrev pub Named : RpcPeer → Type 0
  Named r = (p : Peer) → rpc_peer_to_local r ≡ some p → H p

  abbrev pub Told : Option FindValueResponse → Type 0
  Told none = Unit {0}
  Told (some r) = All Named r.closest_peers

  abbrev Noted : Option (Option Text × List Peer) → Type 0
  Noted none = Unit {0}
  Noted (some (d, ps)) = All H ps

  module _ (net : Network) where
    open net use {World, call_find_value}

    note_peers-Pays : (rs : List RpcPeer) → All Named rs → Pays (All H) (note_peers net rs)
    unfolding note_peers
    note_peers-Pays [] h = Pays-return (All H) [] tt
    note_peers-Pays (r ∷ rs) h =
        Pays->>= {P = H} (Pays-or_throw H (rpc_peer_to_local r) h.0) (λ p g.
          Pays->>= {P = λ s. Unit {0}} (Pays-any get_session) (λ s u.
            Pays-Bool (is_self s.router p) (note_peers-Pays rs h.1) (
              Pays->> (update_peer net p) (
                Pays->>= {P = All H} (note_peers-Pays rs h.1)
                  (λ ps f. Pays-return (All H) (p ∷ ps) (g, f))))))

    answered :
        (o : Option FindValueResponse) (p : Peer)
        → Told o
        → Pays {W = World} Noted (elim o [
          | none ↦ (evict p.key >> return none)
          | some r ↦
              (caller_epilogue net r.receiver >> (elim (r.found_value) [
                | true ↦
                    (or_undefined (copy_bytes (size_of_int32 r.size) r.content) >>= λ bytes.
                    return (some (some bytes, [])))
                | false ↦ (note_peers net r.closest_peers >>= λ ps. return (some (none, ps)))
              ]))
        ])
    answered none p h = Pays->> (evict p.key) (Pays-return Noted none tt)
    answered (some r) p h = Pays->> (caller_epilogue net r.receiver) (
        Pays-Bool r.found_value
          (Pays->>= (Pays-any (or_undefined (copy_bytes (size_of_int32 r.size) r.content)))
            (λ bytes u. Pays-return Noted (some (some bytes, [])) tt))
          (Pays->>= {P = All H} (note_peers-Pays r.closest_peers h)
            (λ ps f. Pays-return Noted (some (none, ps)) f)))

    find_value-Pays :
        (p : Peer) (k : Key)
        → ((w : World) (e : Text) (r : FindValueRequest) → Told (call_find_value w e r).0)
        → Pays Noted (find_value net p k)
    unfolding find_value
    find_value-Pays p k h = Pays->>= (Pays-any caller_prelims) (λ sender u.
        Pays->>= {P = Told}
          {m = call (λ w.
            call_find_value w p.endpoint (record { sender = sender; search_key = to_string k }))}
          (record {
            run = λ s. h s.world p.endpoint (record { sender = sender; search_key = to_string k });
          })
          (λ o t. answered o p t))

    pub value_query-Pays :
        (p : Peer) (k : Key)
        → ((w : World) (e : Text) (r : FindValueRequest) → Told (call_find_value w e r).0)
        → Pays (λ (q : Queried). All H q.pushed) (value_query net k p)
    unfolding value_query
    value_query-Pays p k h = Pays->>= {P = Noted} (find_value-Pays p k h) (λ o n. found o n)
      where
        found :
            (o : Option (Option Text × List Peer))
            → Noted o
            → Pays {W = World}
                (λ (q : Queried). All H q.pushed)
                (elim o [
                  | none ↦ return (record { answered = false; found = none; pushed = [] })
                  | some (d, ps) ↦ return (record { answered = true; found = d; pushed = ps })
                ])
        found none n = record { run = λ s. tt }
        found (some (d, ps)) n = record { run = λ s. n }

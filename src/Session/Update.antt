-- ===== src/Session/Update.antt =====
-- The loop of `update_peer` ends within two rounds.
use mathlib.Core.Path.{subst}
use mathlib.Core.Option.{some-injective}
use distft.Prelude.{
  ℕ, suc, ◌<◌, ◌≡◌, refl, sym, ◌∙◌, inl, inr, Bool-cases, Bool, true, false, Option, none, some,
  arith, length,
}
use distft.Key.{Peer}
use distft.Tree.{kbucket_max}
use distft.Tree.Insert.{bucket_of}
use distft.Router.{is_self, attempt_insert_peer, evict_peer}
use distft.Router.Laws.{Inv, attempt_insert_peer-Inv, evict_peer-Inv}
use distft.Router.Room.{room-insert, refused_room, evict_peer-is_self, evict_peer-bucket_of}
use distft.Session.Network.{Network, PingResponse}
use distft.Session.{
  Session, Env, Fault, thrown, M, Result, ok, err, return, ◌>>=◌, ◌>>◌, or_throw, count_dead, fail,
  undefined,
}
use distft.Session.Peers.{
  attempt, ping, evict, update_loop, update_peer, answers, rpc_peer_to_local, caller_prelims,
}
use distft.Session.Keeps.{Keeps, After, ping-Keeps}

-- A session whose router has room for a peer, once `lru` is evicted.
record Spaced (p lru : Peer) (s : Session) : Type 0 where
  valid : Inv s.router
  other : is_self s.router p ≡ false
  room : length (bucket_of p.key (evict_peer s.router lru.key).table) < kbucket_max

module _ (net : Network) where
  open net use {World, clock, call_ping}

  evict-Spaced : (p lru : Peer) → Keeps {W = World} (Spaced p lru) (evict lru.key)
  unfolding evict
  evict-Spaced p lru = record {
    run = λ s h. record {
      valid = evict_peer-Inv s.session.router lru.key h.valid;
      other = evict_peer-is_self s.session.router p lru.key ∙ h.other;
      room =
          let le = evict_peer-bucket_of (evict_peer s.session.router lru.key) lru.key p.key in
          let lt = h.room in omega arith;
    };
  }

  or_throw_fault :
      {A : Type 0} (o : Option A) (s : Env World) (e : Fault)
      → (or_throw o >>= λ q. return (some q)) s ≡ err e
      → e ≡ thrown
  or_throw_fault none s e h = ground arith
  or_throw_fault (some a) s e h = ground arith

  -- What a ping does with the response.
  answer_fault :
      (p : Peer) (o : Option PingResponse) (s : Env World) (e : Fault)
      → (elim o as (λ x. M World (Option Peer)) [
        | none ↦ (evict p.key >> return none)
        | some r ↦ (or_throw (rpc_peer_to_local r.receiver) >>= λ q. return (some q))
      ])
          s
        ≡ err e
      → e ≡ thrown
  unfolding evict
  answer_fault p none s e h = ground arith
  answer_fault p (some r) s e h = or_throw_fault (rpc_peer_to_local r.receiver) s e h

  -- The only fault of a ping is the exception of a key that does not parse.
  ping_fault : (p : Peer) (s : Env World) (e : Fault) → ping net p s ≡ err e → e ≡ thrown
  unfolding ping caller_prelims
  ping_fault p s e h = answer_fault p _ _ e h

  -- A second round, after the eviction, ends at once.
  settled :
      (p lru : Peer) (rounds : ℕ) (s : Env World) (e : Fault)
      → Spaced p lru s.session
      → (evict lru.key >> (count_dead >> update_loop net (suc rounds) p)) s ≡ err e
      → e ≡ thrown
  unfolding evict update_loop attempt
  settled p lru rounds s e h f = ground (
    arith,
    room-insert (evict_peer s.session.router lru.key) p (clock s.world)
        (evict_peer-Inv s.session.router lru.key h.valid)
        (evict_peer-is_self s.session.router p lru.key ∙ h.other) h.room,
  )

  ping_settled :
      (p lru : Peer) (rounds : ℕ) (r : Result (Option Peer × Env World)) (e : Fault)
      → After (Spaced p lru) r
      → ((e' : Fault) → r ≡ err e' → e' ≡ thrown)
      → elim r [
        | err e' ↦ err e'
        | ok (reply, s) ↦
            (elim (answers lru reply) as (λ x. M World (Unit {0})) [
              | true ↦ return tt
              | false ↦ (evict lru.key >> (count_dead >> update_loop net (suc rounds) p))
            ])
              s
      ]
        ≡ err e
      → e ≡ thrown
  ping_settled p lru rounds (err e') e h f eq = let g : e' ≡ thrown = f e' refl in ground arith
  ping_settled p lru rounds (ok (reply, s)) e h f eq = elim (Bool-cases (answers lru reply)) [
    | inl a ↦
        (let g : ◌≡◌ {A = Result (Unit {0} × Env World)} (ok (tt, s)) (err e) = rw a at eq in
          ground arith)
    | inr a ↦ settled p lru rounds s e h (rw a at eq)
  ]

  -- What a round does with the outcome of the attempt.
  round :
      (p q : Peer) (b : Bool) (o : Option Peer) (s : Env World) (e : Fault)
      → b ≡ false
      → o ≡ some q
      → Spaced p q s.session
      → (elim b as (λ x. M World (Unit {0})) [
        | true ↦ return tt
        | false ↦ (elim o as (λ x. M World (Unit {0})) [
          | none ↦ fail undefined
          | some lru ↦
              (ping net lru >>= λ reply. elim (answers lru reply) as (λ x. M World (Unit {0})) [
                | true ↦ return tt
                | false ↦ (evict lru.key >> (count_dead >> update_loop net 1 p))
              ])
        ])
      ])
          s
        ≡ err e
      → e ≡ thrown
  round p q true o s e i l h f = (let n : true ≡ false = i in cc)
  round p q false none s e i l h f = (let n : none ≡ some q = l in cc)
  round p q false (some lru) s e i l h f =
      let spaced : Spaced p lru s.session =
        subst (λ x. Spaced p x s.session) (sym (some-injective lru q l)) h in
      ping_settled p lru 0 (ping net lru s) e
        ((ping-Keeps net (Spaced p lru) lru (evict-Spaced p lru)).run s spaced) (ping_fault lru s) f

  refused :
      (p : Peer) (s : Env World) (e : Fault)
      → Inv s.session.router
      → (attempt_insert_peer s.session.router p (clock s.world)).inserted ≡ false
      → update_loop net 2 p s ≡ err e
      → e ≡ thrown
  unfolding update_loop attempt
  refused p s e v i h =
      let a = attempt_insert_peer s.session.router p (clock s.world) in
      let s' : Env World = record s { session = record (s.session) { router = a.router } } in
      let (other, (q, l, room)) = refused_room s.session.router p (clock s.world) v i in
      let spaced : Spaced p q s'.session = record {
        valid = attempt_insert_peer-Inv s.session.router p (clock s.world) v;
        other = other;
        room = room;
      } in
      round p q a.inserted a.lru_peer s' e i l spaced h

  -- With a valid router, `update_peer` never runs out of the two rounds that the model gives its loop, and
  -- never dereferences a missing peer: its only fault is the exception of a key in an answer to the
  -- ping that does not parse.
  pub update_peer-ends :
      (p : Peer) (s : Env World) (e : Fault)
      → Inv s.session.router
      → update_peer net p s ≡ err e
      → e ≡ thrown
  unfolding update_peer update_loop attempt
  update_peer-ends p s e v h =
      elim (Bool-cases (attempt_insert_peer s.session.router p (clock s.world)).inserted) [
        | inl i ↦ ground arith
        | inr i ↦ refused p s e v i h
      ]

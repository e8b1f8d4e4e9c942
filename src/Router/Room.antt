-- ===== src/Router/Room.antt =====
-- The calls that make room for a peer: a refused peer is accepted once the peer that the refusal names
-- is evicted.
use distft.Prelude.{
  ℕ, ◌-◌, ◌<◌, ◌≤◌, ◌≡◌, refl, ◌∙◌, ◌≢◌, inl, inr, true, false, none, some, arith, Bool-cases,
  length,
}
use distft.Key.{Key, Peer, keybits}
use distft.Tree.{Outcome, refreshed, added, rejected, insert_loop, evict_loop, kbucket_max, back}
use distft.Tree.Insert.{FullFor, Accepts, bucket_of, insert_loop-FullFor, insert_loop-Accepts}
use distft.Tree.Evict.{
  evicted, evict_loop_room, evict_loop-bucket_of, full-back, find_key-back, endpoint_of-back,
}
use distft.Router.Laws.{view, Inv, attempt_insert_peer-Inv, evict_peer-Inv, evict_peer_self}
use distft.Router.{Router, is_self, attempt, attempt_insert_peer, evict_peer}

Accepts-inserted : (r : Router) (o : Outcome) → Accepts o → (attempt r o).inserted ≡ true
unfolding attempt
Accepts-inserted r (refreshed t) h = refl
Accepts-inserted r (added t) h = refl
Accepts-inserted r (rejected lru t) h = absurd h

is_self-same : (r r' : Router) (p : Peer) → r.self_peer ≡ r'.self_peer → is_self r p ≡ is_self r' p
unfolding is_self
is_self-same r r' p h = ground arith

evict_peer-table :
    (r : Router) (k : Key)
    → k ≢ r.self_peer.key
    → (evict_peer r k).table ≡ evicted r.table (evict_loop keybits k r.table)
unfolding evict_peer
evict_peer-table r k n = ground arith

-- A peer whose bucket has room is accepted.
pub room-insert :
    (r : Router) (p : Peer) (now : ℕ)
    → Inv r
    → is_self r p ≡ false
    → length (bucket_of p.key r.table) < kbucket_max
    → (attempt_insert_peer r p now).inserted ≡ true
unfolding attempt_insert_peer
room-insert r p now v e h = rw e (
    Accepts-inserted r _ (
      insert_loop-Accepts keybits r.self_peer.key p now (keybits - 1) r.table (omega arith) v.table
        h))

pub evict_peer-is_self :
    (r : Router) (p : Peer) (k : Key) → is_self (evict_peer r k) p ≡ is_self r p
evict_peer-is_self r p k = is_self-same (evict_peer r k) r p (evict_peer_self r k)

pub evict_peer-bucket_of :
    (r : Router) (k j : Key)
    → length (bucket_of j (evict_peer r k).table) ≤ length (bucket_of j r.table)
unfolding evict_peer
evict_peer-bucket_of r k j = ground (arith, evict_loop-bucket_of keybits r.table k j)

-- The eviction of the last peer of the full bucket that turned `p` away makes room for `p`.
evict_peer_room :
    (r : Router) (p q : Peer)
    → Inv r
    → q.key ≢ r.self_peer.key
    → back (bucket_of p.key r.table) ≡ some q
    → length (bucket_of p.key r.table) ≡ kbucket_max
    → length (bucket_of p.key (evict_peer r q.key).table) < kbucket_max
evict_peer_room r p q v n b l =
    rw (evict_peer-table r q.key n)
      (omega (arith, evict_loop_room keybits (keybits - 1) r.table p.key q (omega arith) v.table b))

retry_outcome :
    (r : Router) (p : Peer) (o : Outcome)
    → Inv (attempt r o).router
    → is_self r p ≡ false
    → FullFor p o
    → (attempt r o).inserted ≡ false
    → (q : Peer) × ((attempt r o).lru_peer ≡ some q)
      × (view (attempt r o).router q.key ≢ none)
      × (q.key ≢ p.key)
      × (length (bucket_of p.key (evict_peer (attempt r o).router q.key).table) < kbucket_max)
unfolding attempt
retry_outcome r p (refreshed t) v e f h = cc
retry_outcome r p (added t) v e f h = cc
retry_outcome r p (rejected lru t) v e f h =
    let r' : Router = record r { table = t } in
    let (q, b) = full-back (bucket_of p.key t) f.1 in
    let known = endpoint_of-back (keybits - 1) t p.key q v.table b in
    (
      q,
      f.0 ∙ b,
      known,
      λ s. find_key-back (bucket_of p.key t) q b (rw s f.2),
      evict_peer_room r' p q v (λ s. known (rw s v.self_absent)) b f.1,
    )

refusal :
    (r : Router) (p : Peer) (now : ℕ)
    → Inv r
    → (attempt_insert_peer r p now).inserted ≡ false
    → is_self r p ≡ false
    → let a = attempt_insert_peer r p now in
      (q : Peer) × (a.lru_peer ≡ some q)
      × (view a.router q.key ≢ none)
      × (q.key ≢ p.key)
      × (length (bucket_of p.key (evict_peer a.router q.key).table) < kbucket_max)
unfolding attempt_insert_peer
refusal r p now v h e = rw e (
    retry_outcome r p (insert_loop keybits r.self_peer.key p now r.table)
      (rw e at (attempt_insert_peer-Inv r p now v)) e
      (insert_loop-FullFor keybits r.self_peer.key p now (keybits - 1) r.table (omega arith)
        v.table)
      (rw e at h))

self-inserted :
    (r : Router) (p : Peer) (now : ℕ)
    → (attempt_insert_peer r p now).inserted ≡ false
    → is_self r p ≡ false
unfolding attempt_insert_peer
self-inserted r p now h = ground arith

attempt_self : (r : Router) (o : Outcome) → (attempt r o).router.self_peer ≡ r.self_peer
unfolding attempt
attempt_self r (refreshed t) = refl
attempt_self r (added t) = refl
attempt_self r (rejected lru t) = refl

attempt-is_self :
    (r : Router) (p : Peer) (now : ℕ) → is_self (attempt_insert_peer r p now).router p ≡ is_self r p
unfolding attempt_insert_peer
attempt-is_self r p now = elim (Bool-cases (is_self r p)) [
  | inl e ↦ rw e e
  | inr e ↦ rw e (
      is_self-same (attempt r (insert_loop keybits r.self_peer.key p now r.table)).router r p
        (attempt_self r (insert_loop keybits r.self_peer.key p now r.table))
      ∙ e)
]

-- A refused peer is not the router itself, the refusal names a peer, and the eviction of that peer
-- leaves room for the refused one.
pub refused_room :
    (r : Router) (p : Peer) (now : ℕ)
    → Inv r
    → (attempt_insert_peer r p now).inserted ≡ false
    → let a = attempt_insert_peer r p now in
      (is_self a.router p ≡ false)
      × ((q : Peer) × (a.lru_peer ≡ some q)
          × (length (bucket_of p.key (evict_peer a.router q.key).table) < kbucket_max))
refused_room r p now v h =
    let e = self-inserted r p now h in
    let (q, l, k, n, room) = refusal r p now v h e in (attempt-is_self r p now ∙ e, (q, l, room))

-- From a valid router, a refusal names a peer of the table, with another key than the refused one.
-- Once that peer is evicted the refused peer is accepted.
pub attempt_insert_peer-retry :
    (r : Router) (p : Peer) (now later : ℕ)
    → Inv r
    → (attempt_insert_peer r p now).inserted ≡ false
    → let a = attempt_insert_peer r p now in
      (q : Peer) × (a.lru_peer ≡ some q)
      × (view a.router q.key ≢ none)
      × (q.key ≢ p.key)
      × ((attempt_insert_peer (evict_peer a.router q.key) p later).inserted ≡ true)
attempt_insert_peer-retry r p now later v h =
    let e = self-inserted r p now h in
    let (q, l, k, n, room) = refusal r p now v h e in
    let r' = (attempt_insert_peer r p now).router in
    (
      q,
      l,
      k,
      n,
      room-insert (evict_peer r' q.key) p later
          (evict_peer-Inv r' q.key (attempt_insert_peer-Inv r p now v))
          (evict_peer-is_self r' p q.key ∙ attempt-is_self r p now ∙ e) room,
    )

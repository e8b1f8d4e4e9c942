-- ===== src/Session/Once.antt =====
-- Whom a lookup of src/dht/session.cpp asks: `queried` in `lookup_helper`.
use mathlib.Core.Path.{subst}
use distft.Prelude.{
  ℕ, zero, suc, ◌≡◌, ◌≢◌, refl, sym, Bool, true, false, inl, inr, List, [], ◌∷◌, ◌++◌,
  if◌then◌else◌, arith, All, Bool-cases, Option, none, some, leb, length, ◌&&◌, map, All-append,
}
use distft.Key.{Key, Peer, Dist, Text, dist, dist_geq}
use distft.Session.Network.{Network, FindValueRequest, PingRequest}
use distft.Session.Heard.{Leaves, Leaves->>=, value_query-Adds}
use distft.Session.Honest.{Told, value_query-Pays}
use distft.Session.Nearest.{sort_peers-All, nearest-All}
use distft.Router.{closest_peers}
use distft.Tree.{kbucket_max}
use distft.Tree.Bucket.{Distinct}
use distft.Session.{Env, M, Result, ok, err, thrown, fail, return}
use distft.Session.Handlers.{search_router}
use distft.Session.Lookup.{
  has_key, nearest, Queried, Visited, visit, lookup_rounds, lookup_helper, max_lookup_iters,
  value_query, value_lookup,
}

fresh :
    (k : Key) (ps : List Peer) → has_key k (map (λ p. p.key) ps) ≡ false → All (λ q. q.key ≢ k) ps
unfolding has_key
fresh k [] h = tt
fresh k (p ∷ ps) h = ((λ e. ground arith), fresh k ps (ground arith))

after_query :
    {W : Type 0} (P : Visited → Env W → Type 0) (found : Option Text) (answered : Bool)
    (stops : Text → Visited) (goes misses : M W Visited) (t : Env W)
    → ((d : Text) → P (stops d) t)
    → Leaves P (goes t)
    → Leaves P (misses t)
    → Leaves P (
        (elim found as (λ x. M W Visited) [
          | some d ↦ return (stops d)
          | none ↦ (elim answered as (λ x. M W Visited) [ true ↦ goes | false ↦ misses ])
        ])
          t)
after_query P (some d) answered stops goes misses t h g f = h d
after_query P none true stops goes misses t h g f = g
after_query P none false stops goes misses t h g f = f

-- Peers with the property and distinct keys, whose endpoints are what the log holds.
abbrev Calls : (Peer → Type 0) → List Text → List Peer → Type 0
Calls H log ps = (log ≡ map (λ p. p.endpoint) ps) × Distinct ps × All H ps

both :
    {W A : Type 0} (P Q : A → Env W → Type 0) (r : Result (A × Env W))
    → Leaves P r
    → Leaves Q r
    → Leaves (λ a t. P a t × Q a t) r
both P Q (ok (a, s)) h g = (h, g)
both P Q (err e) h g = tt

module _ {W : Type 0} (H : Peer → Type 0) (log : W → List Text) (query : Peer → M W Queried)
    (k : Key) where
  -- What a query leaves: the call in the log, and peers with the property.
  abbrev Asks : Type 0
  Asks =
      (p : Peer) (s : Env W)
      → Leaves (λ q t. (log t.world ≡ p.endpoint ∷ log s.world) × All H q.pushed) (query p s)

  -- What a round leaves: the log holds calls of peers, which are those that it counts as queried if it
  -- found no value.
  abbrev Counted : Visited → Env W → Type 0
  Counted v s =
      (ps : List Peer) × Calls H (log s.world) ps
      × (v.found ≡ none → (v.queried ≡ map (λ p. p.key) ps) × All H v.peers)

  -- What a lookup leaves.
  abbrev Logged : Option Text × List Peer → Env W → Type 0
  Logged r s = (ps : List Peer) × Calls H (log s.world) ps

  visit-Counted :
      (left : ℕ) (ahead : List Peer) (queried : List Key) (behind : List Peer) (s : Env W)
      (ps : List Peer)
      → Asks
      → Calls H (log s.world) ps
      → queried ≡ map (λ p. p.key) ps
      → All H behind
      → All H ahead
      → Leaves Counted (visit query left ahead queried behind s)
  unfolding visit
  visit-Counted zero ahead queried behind s ps l c e b a =
      (ps, c, λ h. (e, All-append H behind ahead b a))
  visit-Counted (suc left) [] queried behind s ps l c e b a = (ps, c, λ h. (e, b))
  visit-Counted (suc left) (p ∷ ahead) queried behind s ps l c e b a =
      let b' : All H (behind ++ p ∷ []) = All-append H behind (p ∷ []) b (a.0, tt) in
      elim (Bool-cases (has_key p.key queried)) [
        | inl h ↦
            rw (h, visit)
              (visit-Counted (suc left) ahead queried (behind ++ p ∷ []) s ps l c e b' a.1)
        | inr h ↦
            rw (h, visit)
              (Leaves->>= (λ q t. (log t.world ≡ p.endpoint ∷ log s.world) × All H q.pushed) Counted
                (query p s) _
                (λ q t u.
                  let c' : Calls H (log t.world) (p ∷ ps) = (
                    subst (λ es. log t.world ≡ p.endpoint ∷ es) c.0 u.0,
                    (fresh p.key ps (subst (λ ks. has_key p.key ks ≡ false) e h), c.1),
                    (a.0, c.2),
                  ) in
                  let e' : p.key ∷ queried ≡ map (λ r. r.key) (p ∷ ps) =
                    subst (λ ks. p.key ∷ queried ≡ p.key ∷ ks) e refl in
                  after_query Counted q.found q.answered _ _ _ t
                    (λ d. (p ∷ ps, c', λ n. absurd (ground arith)))
                    (visit-Counted left (ahead ++ q.pushed) (p.key ∷ queried) (behind ++ p ∷ []) t
                      (p ∷ ps) l c' e' b' (All-append H ahead q.pushed a.1 u.1))
                    (visit-Counted (suc left) ahead (p.key ∷ queried) (behind ++ p ∷ []) t (p ∷ ps)
                      l c' e' b' a.1))
                (l p s))
      ]

  -- What `lookup_rounds` does with what a round leaves.
  after_round :
      (found : Option Text) (peers ns : List Peer) (ends : Peer → List Peer → Bool)
      (more : Peer → List Peer → M W (Option Text × List Peer)) (t : Env W) (asked : List Peer)
      → Calls H (log t.world) asked
      → (found ≡ none → All H ns)
      → ((p : Peer) (ps : List Peer) → found ≡ none → All H (p ∷ ps) → Leaves Logged (more p ps t))
      → Leaves Logged (
          (elim found as (λ x. M W (Option Text × List Peer)) [
            | some d ↦ return (some d, peers)
            | none ↦ (elim ns as (λ x. M W (Option Text × List Peer)) [
              | [] ↦ fail thrown
              | p ∷ ps ↦ (if ends p ps then return (none, p ∷ ps) else more p ps)
            ])
          ])
            t)
  after_round (some d) peers ns ends more t asked c h f = (asked, c)
  after_round none peers [] ends more t asked c h f = tt
  after_round none peers (p ∷ ps) ends more t asked c h f = elim (Bool-cases (ends p ps)) [
    | inl e ↦ rw (e, if◌then◌else◌) ((asked, c))
    | inr e ↦ rw (e, if◌then◌else◌) (f p ps refl (h refl))
  ]

  lookup_rounds-Logged :
      (rounds : ℕ) (peers : List Peer) (queried : List Key) (size : ℕ) (least : Dist) (s : Env W)
      (ps : List Peer)
      → Asks
      → Calls H (log s.world) ps
      → queried ≡ map (λ p. p.key) ps
      → All H peers
      → Leaves Logged (lookup_rounds query rounds k peers queried size least s)
  unfolding lookup_rounds
  lookup_rounds-Logged zero peers queried size least s ps l c e h = (ps, c)
  lookup_rounds-Logged (suc rounds) peers queried size least s ps l c e h =
      Leaves->>= {A = Visited} {B = Option Text × List Peer} Counted Logged _ _
        (λ v t (asked, c', e').
          after_round v.found v.peers (nearest k v.peers)
            (λ p qs. leb (length (p ∷ qs)) size && dist_geq (dist k p.key) least)
            (λ p qs.
              lookup_rounds query rounds k (p ∷ qs) v.queried (length (p ∷ qs)) (dist k p.key))
            t asked c' (λ n. nearest-All H k v.peers (e' n).1)
            (λ p qs n g.
              lookup_rounds-Logged rounds (p ∷ qs) v.queried (length (p ∷ qs)) (dist k p.key) t
                asked l c' (e' n).0 g))
        (visit-Counted _ peers queried [] s ps l c e tt h)

-- No endpoint stands twice.
abbrev pub Apart : List Text → Type 0
Apart [] = Unit {0}
Apart (e ∷ es) = All (λ f. f ≢ e) es × Apart es

module _ (home : Text → Key) where
  -- The peer stands under the key that belongs to its endpoint.
  abbrev pub Honest : Peer → Type 0
  Honest p = home p.endpoint ≡ p.key

  elsewhere :
      (p : Peer) (ps : List Peer)
      → Honest p
      → All (λ q. q.key ≢ p.key) ps
      → All Honest ps
      → All (λ e. e ≢ p.endpoint) (map (λ q. q.endpoint) ps)
  elsewhere p [] h d g = tt
  elsewhere p (q ∷ ps) h d g = (
    λ e. d.0 (subst (λ j. q.key ≡ j) h (subst (λ x. q.key ≡ home x) e (sym g.0))),
    elsewhere p ps h d.1 g.1,
  )

  endpoints-Apart :
      (ps : List Peer) → Distinct ps → All Honest ps → Apart (map (λ p. p.endpoint) ps)
  endpoints-Apart [] d h = tt
  endpoints-Apart (p ∷ ps) d h = (elsewhere p ps h.0 d.0 h.1, endpoints-Apart ps d.1 h.1)

module _ (net : Network) where
  open net use {World, clock, call_find_value, call_ping}

  value_lookup-Leaves :
      (H : Peer → Type 0) (log : World → List Text) (k : Key) (s : Env World)
      → Asks H log (value_query net k) k
      → log s.world ≡ []
      → All H (closest_peers s.session.router k kbucket_max (clock s.world)).0
      → Leaves (λ r t. (ps : List Peer) × Calls H (log t.world) ps) (value_lookup net k s)
  unfolding value_lookup lookup_helper search_router
  value_lookup-Leaves H log k s l e h =
      Leaves->>= (Logged H log (value_query net k) k) _ (lookup_helper net k (value_query net k) s)
        _ (λ (found, peers) t g. g)
        (lookup_rounds-Logged H log (value_query net k) k max_lookup_iters _ [] 0 _ _ [] l
          (e, tt, tt) refl (sort_peers-All H k _ h))

  -- A value lookup that ends calls no endpoint twice, if each endpoint belongs to one key: the peers that
  -- the own router has closest, and those that answers to a `FindValue` name, stand under the keys of
  -- their endpoints. `log` reads the calls off the world: a `FindValue` adds its endpoint to it, a ping
  -- leaves it, and it is empty before the lookup.
  pub value_lookup-Apart :
      (home : Text → Key) (log : World → List Text) (k : Key) (s s' : Env World)
      (found : Option Text)
      → ((w : World) (e : Text) (r : FindValueRequest)
          → Told (Honest home) (call_find_value w e r).0)
      → ((w : World) (e : Text) (r : FindValueRequest) → log (call_find_value w e r).1 ≡ e ∷ log w)
      → ((w : World) (e : Text) (r : PingRequest) → log (call_ping w e r).1 ≡ log w)
      → All (Honest home) (closest_peers s.session.router k kbucket_max (clock s.world)).0
      → log s.world ≡ []
      → value_lookup net k s ≡ ok (found, s')
      → Apart (log s'.world)
  value_lookup-Apart home log k s s' found told calls pings near e h =
      let (ps, c) =
        subst (Leaves (λ r t. (ps : List Peer) × Calls (Honest home) (log t.world) ps)) h (
          value_lookup-Leaves (Honest home) log k s
            (λ p t.
              both _ _ (value_query net k p t) ((value_query-Adds net log pings p k calls).run t)
                ((value_query-Pays (Honest home) net p k told).run t))
            e near) in
      subst Apart (sym c.0) (endpoints-Apart home ps c.1 c.2)

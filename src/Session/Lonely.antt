-- ===== src/Session/Lonely.antt =====
-- What the client's calls of a session do when its router hands out no peer (src/dht/session.cpp).
use distft.Prelude.{◌≡◌, refl, Bool, [], Option, none, some}
use distft.Key.{Key, Text, Peer}
use distft.Router.{closest_peers}
use distft.Tree.{kbucket_max}
use distft.Session.Network.{Network}
use distft.Session.{M, Env, Result, Chunk, ok, return, err, thrown, find_chunk}
use distft.Session.Handlers.{search_router}
use distft.Session.Lookup.{
  visit, lookup_rounds, lookup_helper, nearest, sort_peers, unique_peers, node_lookup, value_lookup,
  Queried, node_query, value_query,
}
use distft.Session.Chunks.{publish, set, get}

bind_err :
    {W A B : Type 0} (r : Result (A × Env W)) (f : A → M W B)
    → r ≡ err thrown
    → elim r as (λ x. Result (B × Env W)) [ err e ↦ err e | ok (a, s) ↦ f a s ] ≡ err thrown
bind_err r f e = rw e refl

fetched :
    {W : Type 0} (o : Option Chunk) (m : M W (Option Text)) (s : Env W)
    → m s ≡ err thrown
    → (elim o as (λ x. M W (Option Text)) [ some chunk ↦ return (some chunk.content) | none ↦ m ]) s
      ≡ (elim o as (λ x. Result (Option Text × Env W)) [
        | some chunk ↦ ok (some chunk.content, s)
        | none ↦ err thrown
      ])
fetched none m s h = h
fetched (some c) m s h = refl

module _ (net : Network) where
  open net use {World, clock}

  lookup_helper-thrown :
      (k : Key) (query : Peer → M World Queried) (s : Env World)
      → (closest_peers s.session.router k kbucket_max (clock s.world)).0 ≡ []
      → lookup_helper net k query s ≡ err thrown
  unfolding lookup_helper search_router lookup_rounds visit nearest sort_peers unique_peers
  lookup_helper-thrown k query s h = rw (h, lookup_helper) refl

  node_lookup-thrown :
      (k : Key) (s : Env World)
      → (closest_peers s.session.router k kbucket_max (clock s.world)).0 ≡ []
      → node_lookup net k s ≡ err thrown
  unfolding node_lookup
  node_lookup-thrown k s h =
      bind_err (lookup_helper net k (node_query net k) s) _
        (lookup_helper-thrown k (node_query net k) s h)

  value_lookup-thrown :
      (k : Key) (s : Env World)
      → (closest_peers s.session.router k kbucket_max (clock s.world)).0 ≡ []
      → value_lookup net k s ≡ err thrown
  unfolding value_lookup
  value_lookup-thrown k s h =
      bind_err (lookup_helper net k (value_query net k) s) _
        (lookup_helper-thrown k (value_query net k) s h)

  -- When a session's router finds no peer for a key, a node lookup of the key throws, and so does a `set`
  -- under it, whatever the session holds. A `get` of it returns the content that the session holds under
  -- it, and leaves everything as it is, or throws if the session holds none.
  pub set-thrown :
      (k : Key) (d : Text) (force : Bool) (s : Env World)
      → (closest_peers s.session.router k kbucket_max (clock s.world)).0 ≡ []
      → (node_lookup net k s ≡ err thrown)
        × (set net k d force s ≡ err thrown)
        × (get net k s ≡ (elim (find_chunk k s.session.chunks) [
          | some chunk ↦ ok (some chunk.content, s)
          | none ↦ err thrown
        ]))
  unfolding set publish get
  set-thrown k d force s h = (
    node_lookup-thrown k s h,
    bind_err (node_lookup net k s) _ (node_lookup-thrown k s h),
    fetched (find_chunk k s.session.chunks) (value_lookup net k) s (value_lookup-thrown k s h),
  )

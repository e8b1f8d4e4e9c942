-- ===== src/Session/Republish.antt =====
-- What a pass of the republishing thread can do.
use mathlib.Core.Path.{subst}
use distft.Prelude.{
  ℕ, ◌≤◌, ◌≡◌, refl, ◌↔◌, Bool, false, ◌||◌, List, [], ◌∷◌, Option, none, some, arith,
  if◌then◌else◌, length, leb,
}
use distft.Key.{Key, Peer, Dist, dist, dist_geq, filled, keybits}
use distft.Router.{get_self_peer}
use distft.Session.Network.{Network}
use distft.Session.{
  Chunk, Env, M, Result, ok, err, deadlocked, return, fail, find_chunk, get_session, ◌>>=◌, ◌>>◌,
  set_chunks, erase_chunk, undefined,
}
use distft.Session.Lookup.{node_lookup}
use distft.Session.Chunks.{store_all}
use distft.Session.Nearest.{Closed, node_lookup-Closed}
use distft.Session.Passes.{publish_locked, republish_keys, republish_all, republish_pass}
use distft.Tree.{kbucket_max}

module _ (net : Network) where
  open net use {World, clock}

  -- No call that ends.
  abbrev Never : {A : Type 0} → Result (A × Env World) → Type 0
  Never (ok (a, s)) = ⊥
  Never (err e) = Unit {0}

  Never->>= :
      {A B : Type 0} (r : Result (A × Env World)) (f : A → M World B)
      → ((a : A) (s : Env World) → Never (f a s))
      → Never (elim r [ err e ↦ err e | ok (a, s) ↦ f a s ])
  Never->>= (ok (a, s)) f h = h a s
  Never->>= (err e) f h = tt

  Never-then :
      {A B : Type 0} (r : Result (A × Env World)) (f : A → M World B)
      → Never r
      → Never (elim r [ err e ↦ err e | ok (a, s) ↦ f a s ])
  Never-then (ok (a, s)) f h = absurd h
  Never-then (err e) f h = tt

  Never-if :
      (n : ℕ) (b : Bool) (s : Env World)
      → n ≤ kbucket_max
      → Never ((if leb n kbucket_max || b then fail deadlocked else return tt) s)
  Never-if n b s h = ground arith

  looked_up :
      (chunk : Chunk) (force : Bool) (far : Dist) (r : Result (List Peer × Env World))
      → Closed net chunk.key r
      → Never (elim r as (λ x. Result (Unit {0} × Env World)) [
        | err e ↦ err e
        | ok (buffer, s) ↦
            (store_all net kbucket_max chunk force far buffer >>= λ farthest. get_session >>= λ t.
            (if leb (length buffer) kbucket_max
                || dist_geq farthest (dist chunk.key (get_self_peer t.router).key)
              then fail deadlocked
              else return tt))
              s
      ])
  looked_up chunk force far (err e) c = tt
  looked_up chunk force far (ok (buffer, s)) c =
      Never->>= (store_all net kbucket_max chunk force far buffer s) _
        (λ farthest t. Never-if (length buffer) _ t c.0)

  publish_locked-Never :
      (chunk : Chunk) (force : Bool) (s : Env World) → Never (publish_locked net chunk force s)
  unfolding publish_locked
  publish_locked-Never chunk force s =
      looked_up chunk force (record { value = filled keybits false }) (node_lookup net chunk.key s)
        (node_lookup-Closed net chunk.key s)

  found-Never :
      (o : Option Chunk) (key : Key) (keys : List Key) (s : Env World)
      → Never (
          (elim o as (λ x. M World (Unit {0})) [
            | none ↦ fail undefined
            | some chunk ↦
                (set_chunks (erase_chunk key s.session.chunks)
                  >> (publish_locked net chunk false >> republish_all net keys))
          ])
            s)
  found-Never none key keys s = tt
  found-Never (some chunk) key keys s =
      let s' : Env World = record s {
        session = record (s.session) { chunks = erase_chunk key s.session.chunks };
      } in
      Never-then (publish_locked net chunk false s') (λ _. republish_all net keys)
        (publish_locked-Never chunk false s')

  -- What the loop over the keys can end with.
  republished :
      (keys : List Key) (s s' : Env World)
      → republish_all net keys s ≡ ok (tt, s')
      → (keys ≡ []) × (s' ≡ s)
  unfolding republish_all
  republished [] s s' h = (refl, ground arith)
  republished (key ∷ keys) s s' h =
      absurd (subst Never h (found-Never (find_chunk key s.session.chunks) key keys s))

  -- A pass of the republishing ends exactly where no chunk has gone unpublished for an hour, and then it
  -- changes nothing: it never publishes a chunk.
  pub republish_pass-idle :
      (s s' : Env World)
      → (republish_pass net s ≡ ok (tt, s'))
        ↔ ((republish_keys (clock s.world) s.session.chunks ≡ []) × (s' ≡ s))
  unfolding republish_pass republish_all
  republish_pass-idle s s' =
      (republished (republish_keys (clock s.world) s.session.chunks) s s', λ (e, i). rw (e, i) refl)

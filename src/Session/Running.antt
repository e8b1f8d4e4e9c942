-- ===== src/Session/Running.antt =====
-- What the passes of the background threads, the startup and the end of a session keep.
use distft.Prelude.{
  ℕ, zero, suc, ◌||◌, Bool, true, false, List, [], ◌∷◌, length, leb, Option-cases, inl, inr,
}
use distft.Key.{Key, Peer, dist, dist_geq, filled, keybits}
use distft.Router.{get_self_peer, new_router, random_per_bucket_peers}
use distft.Session.Network.{Network}
use distft.Session.{Session, Chunk, ChunkMap, Env, find_chunk, set_chunks, set_dying}
use distft.Session.Lookup.{node_query, peer_lookup_alpha}
use distft.Session.Passes.{
  publish_locked, republish_keys, republish_all, republish_pass, random_peers, lookup_all,
  refresh_pass,
}
use distft.Session.Life.{self_lookup, ping_until, startup, store_until, hand_over, close_down}
use distft.Session.Keeps.{
  Stable, Keeps, After, Keeps->>=, Keeps->>, Keeps-Option, Keeps-if, Keeps-return, Keeps-fail,
  Keeps-get_session, Keeps-get_world, ping-Keeps, evict-Keeps, attempt-Keeps,
}
use distft.Session.Traffic.{
  search_router-Keeps, store-Keeps, lookup_helper-Keeps, node_query-Keeps, node_lookup-Keeps,
}
use distft.Session.Serving.{store_all-Keeps}
use distft.Tree.{kbucket_max}

module _ (net : Network) (P : Session → Type 0) (stable : Stable P) where
  open net use {World, clock}

  random_peers-Keeps :
      (rand : ℕ → ℕ) (later unaccessed : ℕ) → Keeps P (random_peers net rand later unaccessed)
  unfolding random_peers
  random_peers-Keeps rand later unaccessed = record {
    run = λ s h.
        elim (Option-cases
          (random_per_bucket_peers rand s.session.router (clock s.world) later unaccessed)) [
            | inl e ↦ rw (e, random_peers) tt
            | inr ((ps, r), e) ↦
                rw (e, random_peers)
                  (stable.refreshes s.session r rand (clock s.world) later unaccessed ps e h)
          ];
  }

  lookup_all-Keeps : (ps : List Peer) → Keeps P (lookup_all net ps)
  unfolding lookup_all
  lookup_all-Keeps [] = Keeps-return P tt
  lookup_all-Keeps (p ∷ ps) =
      Keeps->>= P (node_lookup-Keeps net P stable p.key) (λ buffer. lookup_all-Keeps ps)

  pub refresh_pass-Keeps : (rand : ℕ → ℕ) (later : ℕ) → Keeps P (refresh_pass net rand later)
  unfolding refresh_pass
  refresh_pass-Keeps rand later = Keeps->>= P (random_peers-Keeps rand later 3600) lookup_all-Keeps

  self_lookup-Keeps : (rand : ℕ → ℕ) (later : ℕ) (k : Key) → Keeps P (self_lookup net rand later k)
  unfolding self_lookup
  self_lookup-Keeps rand later k =
      Keeps->>= P
        (lookup_helper-Keeps net P stable k (node_query net k) (node_query-Keeps net P stable k))
        (λ r. Keeps->>= P (random_peers-Keeps rand later 0) lookup_all-Keeps)

  ping_until-Keeps : (tries : ℕ) (p : Peer) → Keeps P (ping_until net tries p)
  unfolding ping_until
  ping_until-Keeps zero p = Keeps-fail P _
  ping_until-Keeps (suc tries) p =
      Keeps->>= P (ping-Keeps net P p (evict-Keeps net P stable p.key))
        (λ reply. Keeps-Option P reply (ping_until-Keeps tries p) (λ q. Keeps-return P q))

  store_until-Keeps :
      (chunk : Chunk) (stored : Bool) (ps : List Peer) → Keeps P (store_until net chunk stored ps)
  unfolding store_until
  store_until-Keeps chunk true [] = Keeps-return P true
  store_until-Keeps chunk false [] = Keeps-return P false
  store_until-Keeps chunk true (p ∷ ps) = store_until-Keeps chunk true ps
  store_until-Keeps chunk false (p ∷ ps) =
      Keeps->>= P (store-Keeps net P stable p chunk false)
        (λ stored. store_until-Keeps chunk stored ps)

  hand_over-Keeps : (m : ChunkMap) → Keeps P (hand_over net m)
  unfolding hand_over
  hand_over-Keeps [] = Keeps-return P []
  hand_over-Keeps ((k, c) ∷ m) =
      Keeps->>= P (search_router-Keeps net P stable k peer_lookup_alpha) (λ ps.
        Keeps->>= P (store_until-Keeps c false ps)
          (λ stored. Keeps->>= P (hand_over-Keeps m) (λ dropped. Keeps-return P _)))

  pub close_down-Keeps :
      (republish : Bool) → Keeps {W = World} P (set_dying true) → Keeps P (close_down net republish)
  unfolding close_down
  close_down-Keeps republish h = Keeps->> P h (
      Keeps->>= P (Keeps-get_session P)
        (λ s. Keeps-if P republish (hand_over-Keeps s.chunks) (Keeps-return P [])))

module _ (net : Network) (P : Session → Type 0) (stable : Stable P)
    (put : (m : ChunkMap) → Keeps {W = net.World} P (set_chunks m)) where
  open net use {World, clock}

  publish_locked-Keeps : (chunk : Chunk) (force : Bool) → Keeps P (publish_locked net chunk force)
  unfolding publish_locked
  publish_locked-Keeps chunk force =
      Keeps->>= P (node_lookup-Keeps net P stable chunk.key) (λ buffer.
        Keeps->>= P
          (store_all-Keeps net P stable kbucket_max chunk force
            (record { value = filled keybits false }) buffer)
          (λ farthest. Keeps->>= P (Keeps-get_session P) (λ s.
            Keeps-if P
              (leb (length buffer) kbucket_max
                || dist_geq farthest (dist chunk.key (get_self_peer s.router).key))
              (Keeps-fail P _) (Keeps-return P tt))))

  republish_all-Keeps : (keys : List Key) → Keeps P (republish_all net keys)
  unfolding republish_all
  republish_all-Keeps [] = Keeps-return P tt
  republish_all-Keeps (key ∷ keys) = Keeps->>= P (Keeps-get_session P) (λ s.
      Keeps-Option P (find_chunk key s.chunks) (Keeps-fail P _) (λ chunk.
        Keeps->> P (put _)
          (Keeps->> P (publish_locked-Keeps chunk false) (republish_all-Keeps keys))))

  pub republish_pass-Keeps : Keeps P (republish_pass net)
  unfolding republish_pass
  republish_pass-Keeps = Keeps->>= P (Keeps-get_session P) (λ s.
      Keeps->>= P (Keeps-get_world P)
        (λ w. republish_all-Keeps (republish_keys (clock w) s.chunks)))

-- Whatever a session was before, its startup leaves what holds of the router that it builds.
pub startup-After :
    (net : Network) (P : Session → Type 0) (stable : Stable P) (rand : ℕ → ℕ) (later tries : ℕ)
    (self temp : Peer) (s : Env (net.World))
    → P (record (s.session) { dying = false; router = new_router self temp (net.clock s.world) })
    → After P (startup net rand later tries self temp s)
unfolding startup
startup-After net P stable rand later tries self temp s h =
    (Keeps->>= P (ping_until-Keeps net P stable tries temp) (λ other.
        Keeps->>= P (attempt-Keeps net P stable other) (λ a.
          Keeps->> P (evict-Keeps net P stable temp.key)
            (self_lookup-Keeps net P stable rand later self.key)))).run
      (record s {
        session = record (s.session) {
          dying = false;
          router = new_router self temp (net.clock s.world);
        };
      })
      h

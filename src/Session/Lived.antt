-- ===== src/Session/Lived.antt =====
-- A session from its startup to its end.
use mathlib.Core.Path.{subst}
use distft.Prelude.{ℕ, ◌≡◌, ◌∙◌, Bool, true, List, Option, none, some}
use distft.Key.{Peer}
use distft.Router.{get_self_peer, closest_peers}
use distft.Router.Laws.{
  Inv, evict_peer_self, attempt_insert_peer_self, new_router-Inv, new_router_self,
}
use distft.Router.History.{random_per_bucket_peers_self}
use distft.Session.Network.{Network}
use distft.Session.{Session, ChunkMap, Env, M, ok, return, ◌>>◌, set_chunks, set_dying}
use distft.Session.Life.{startup, close_down}
use distft.Session.Running.{startup-After, close_down-Keeps}
use distft.Session.Keeps.{Stable, Keeps, After, After->>=, Keeps->>, Keeps-return}
use distft.Session.Serving.{Sound-Stable, skip, Keeps-skip}
use distft.Session.Acts.{Act, run_acts, acts-Keeps}

-- What is left of a session: nothing, or its `teardown` up to where it deletes
-- the chunks and the router.
abbrev pub end_with : (net : Network) → Option Bool → M (net.World) (Unit {0})
end_with net none = return tt
end_with net (some republish) = skip (close_down net republish)

-- A session from its startup on.
abbrev pub live :
    (net : Network)
    → (ℕ → ℕ)
    → ℕ
    → ℕ
    → Peer
    → Peer
    → List Act
    → Option Bool
    → M (net.World) (Unit {0})
live net rand later tries self temp acts ending =
    startup net rand later tries self temp >> (run_acts net acts >> end_with net ending)

-- The router is valid, and its own peer is this one.
record Own (self : Peer) (s : Session) : Type 0 where
  valid : Inv s.router
  same : get_self_peer s.router ≡ self

Own-Stable : (self : Peer) → Stable (Own self)
unfolding get_self_peer closest_peers
Own-Stable self = record {
  inserts = λ s p now h. record {
    valid = Sound-Stable.inserts s p now h.valid;
    same = attempt_insert_peer_self s.router p now ∙ h.same;
  };
  evicts = λ s k h. record {
    valid = Sound-Stable.evicts s k h.valid;
    same = evict_peer_self s.router k ∙ h.same;
  };
  searches =
      λ s k n now h. record { valid = Sound-Stable.searches s k n now h.valid; same = h.same };
  refreshes = λ s r rand now later unaccessed ps e h. record {
    valid = Sound-Stable.refreshes s r rand now later unaccessed ps e h.valid;
    same = random_per_bucket_peers_self rand s.router r now later unaccessed ps e ∙ h.same;
  };
  counts = λ s h. record { valid = h.valid; same = h.same };
}

module _ (net : Network) (self : Peer) where
  open net use {World}

  put-Own : (m : ChunkMap) → Keeps {W = World} (Own self) (set_chunks m)
  put-Own m = record { run = λ s h. record { valid = h.valid; same = h.same } }

  die-Own : Keeps {W = World} (Own self) (set_dying true)
  die-Own = record { run = λ s h. record { valid = h.valid; same = h.same } }

  end_with-Own : (ending : Option Bool) → Keeps (Own self) (end_with net ending)
  end_with-Own none = Keeps-return (Own self) tt
  end_with-Own (some republish) =
      Keeps-skip (Own self) (close_down-Keeps net (Own self) (Own-Stable self) republish die-Own)

  startup-Own :
      (rand : ℕ → ℕ) (later tries : ℕ) (temp : Peer) (s : Env World)
      → After (Own self) (startup net rand later tries self temp s)
  unfolding get_self_peer
  startup-Own rand later tries temp s =
      startup-After net (Own self) (Own-Stable self) rand later tries self temp s (record {
        valid = new_router-Inv self temp (net.clock s.world);
        same = new_router_self self temp (net.clock s.world);
      })

  -- A session that starts up, whatever it was before, goes on with any requests, calls and passes, and may
  -- be torn down, has a valid router, and the key and the endpoint that it started with, up to
  -- where `teardown` deletes it, if no fault occurs.
  pub live-Inv :
      (rand : ℕ → ℕ) (later tries : ℕ) (temp : Peer) (acts : List Act) (ending : Option Bool)
      (s s' : Env World)
      → live net rand later tries self temp acts ending s ≡ ok (tt, s')
      → Inv s'.session.router × (get_self_peer s'.session.router ≡ self)
  live-Inv rand later tries temp acts ending s s' h =
      let rest =
        Keeps->> (Own self) (acts-Keeps net (Own self) (Own-Stable self) put-Own acts)
          (end_with-Own ending) in
      let own : Own self s'.session = subst (After (Own self)) h (
        After->>= (Own self) (startup net rand later tries self temp s)
          (λ _. run_acts net acts >> end_with net ending) (startup-Own rand later tries temp s)
          (λ _. rest)) in
      (own.valid, own.same)

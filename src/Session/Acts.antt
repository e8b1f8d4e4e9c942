-- ===== src/Session/Acts.antt =====
-- What a session goes through: requests, calls of its client and passes of the cleanup.
use mathlib.Core.Path.{subst}
use distft.Prelude.{ℕ, ◌≡◌, refl, Bool, true, false, List, [], ◌∷◌}
use distft.Key.{Key, Text}
use distft.Router.Laws.{Inv}
use distft.Session.Network.{Network}
use distft.Session.{Session, ChunkMap, Env, M, ok, return, ◌>>◌, set_chunks}
use distft.Session.Chunks.{set, get, cleanup_pass}
use distft.Session.Passes.{republish_pass, refresh_pass}
use distft.Session.Running.{republish_pass-Keeps, refresh_pass-Keeps}
use distft.Session.Keeps.{Stable, Keeps, After, Keeps->>, Keeps-return}
use distft.Session.Serving.{
  Sound, Sound-Stable, Holds, Holds-Stable, Request, finds_node, finds_value, inits_store, stores,
  pings, skip, serve, Keeps-skip, serve-Keeps, set-Keeps, get-Keeps, cleanup_pass-Keeps,
  find_node-serves, find_value-serves, store_init-serves, ping-serves,
}

-- What happens to a session: a request of a peer, a call of the client, or a pass of one of its threads.
pub data Act : Type 0 where
  serves : Request → Act
  sets : Key → Text → Bool → Act
  gets : Key → Act
  cleans republishes : Act
  refreshes : (ℕ → ℕ) → ℕ → Act

abbrev pub act : (net : Network) → Act → M (net.World) (Unit {0})
act net (serves r) = serve net r
act net (sets k d force) = set net k d force
act net (gets k) = skip (get net k)
act net cleans = cleanup_pass net
act net republishes = republish_pass net
act net (refreshes rand later) = refresh_pass net rand later

abbrev pub run_acts : (net : Network) → List Act → M (net.World) (Unit {0})
run_acts net [] = return tt
run_acts net (a ∷ acts) = act net a >> run_acts net acts

module _ (net : Network) (P : Session → Type 0) (stable : Stable P)
    (put : (m : ChunkMap) → Keeps {W = net.World} P (set_chunks m)) where
  open net use {World}

  act-Keeps : (a : Act) → Keeps P (act net a)
  act-Keeps (serves r) = serve-Keeps net P stable put r
  act-Keeps (sets k d force) = set-Keeps net P stable put k d force
  act-Keeps (gets k) = Keeps-skip P (get-Keeps net P stable put k)
  act-Keeps cleans = cleanup_pass-Keeps net P stable put
  act-Keeps republishes = republish_pass-Keeps net P stable put
  act-Keeps (refreshes rand later) = refresh_pass-Keeps net P stable rand later

  pub acts-Keeps : (acts : List Act) → Keeps P (run_acts net acts)
  acts-Keeps [] = Keeps-return P tt
  acts-Keeps (a ∷ acts) = Keeps->> P (act-Keeps a) (acts-Keeps acts)

module _ (net : Network) where
  open net use {World}

  -- Whatever requests, calls of the client and passes of its threads a session goes through, and whatever
  -- the network answers, its router stays valid and out of its own table, if it was so and no fault
  -- occurs.
  pub run_acts-Inv :
      (acts : List Act) (s s' : Env World)
      → Inv s.session.router
      → run_acts net acts s ≡ ok (tt, s')
      → Inv s'.session.router
  run_acts-Inv acts s s' v h =
      subst (After Sound) h
        ((acts-Keeps net Sound Sound-Stable (λ m. record { run = λ s h. h }) acts).run s v)

abbrev pub is_store : Request → Bool
is_store (finds_node r) = false
is_store (finds_value r) = false
is_store (inits_store r) = false
is_store (stores r) = true
is_store (pings r) = false

module _ (net : Network) (m : ChunkMap) where
  open net use {World}

  serve-Holds : (r : Request) → is_store r ≡ false → Keeps (Holds m) (serve net r)
  serve-Holds (finds_node r) e =
      Keeps-skip (Holds m) (find_node-serves net (Holds m) (Holds-Stable m) r)
  serve-Holds (finds_value r) e =
      Keeps-skip (Holds m) (find_value-serves net (Holds m) (Holds-Stable m) r)
  serve-Holds (inits_store r) e =
      Keeps-skip (Holds m) (store_init-serves net (Holds m) (Holds-Stable m) r)
  serve-Holds (stores r) e = cc
  serve-Holds (pings r) e = Keeps-skip (Holds m) (ping-serves net (Holds m) (Holds-Stable m) r)

-- No request but a `Store` changes the chunks of a session, whatever the network answers meanwhile.
pub serve-chunks :
    (net : Network) (r : Request) (s s' : Env (net.World))
    → is_store r ≡ false
    → serve net r s ≡ ok (tt, s')
    → s'.session.chunks ≡ s.session.chunks
serve-chunks net r s s' e h =
    subst (After (Holds s.session.chunks)) h ((serve-Holds net s.session.chunks r e).run s refl)

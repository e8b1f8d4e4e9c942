-- ===== src/Client/Sessions.antt =====
-- The sessions of src/dht/session.cpp as the cluster that src/client/cmd.cpp calls. What the requests that
-- they serve meanwhile do to the other sessions is an argument.
use distft.Prelude.{ℕ, ◌≡◌, refl, ap, ◌∙◌, Bool, true, false, Option, ite, ℕ_discrete}
use distft.Key.{Key, Text}
use distft.Session.Network.{Network}
use distft.Session.{Session}
use distft.Session.Local.{content_at}
use distft.Session.Files.{
  Backed, running, faulted, held, set_backed, get_backed, held-set_backed, held-get_backed, quiet,
}
use distft.Client.Control.{Cluster}
use distft.Client.Memory.{ite_yes}

-- The sessions and the network, or what the sessions hold when a fault has ended the program, with what was
-- set later.
pub data Sessions (W : Type 0) : Type 0 where
  up : (ℕ → Session) → W → Sessions W
  fallen : (ℕ → Key → Option Text) → Sessions W

module _ (net : Network) (served : net.World → ℕ → Session → Session) where
  open net use {World}

  unfoldable pub view : ℕ → Sessions World → Backed World
  view i (up ss w) = running (record { session = ss i; world = w })
  view i (fallen m) = faulted (m i)

  -- A session after its call, and the others.
  unfoldable pub merge : ℕ → Sessions World → Backed World → Sessions World
  merge i (up ss w) (running s) =
      up (λ j. ite (ℕ_discrete i j) s.session (served s.world j (ss j))) s.world
  merge i (up ss w) (faulted m) =
      fallen (λ j. ite (ℕ_discrete i j) m (λ k. content_at k (ss j).chunks))
  merge i (fallen n) b = fallen (λ j. ite (ℕ_discrete i j) (held net b) (n j))

  pub view-merge :
      (i : ℕ) (r : Sessions World) (b : Backed World) (k : Key)
      → held net (view i (merge i r b)) k ≡ held net b k
  unfolding view merge held
  view-merge i (up ss w) (running s) k =
      ap (λ (t : Session). content_at k t.chunks)
        (ite_yes s.session (served s.world i (ss i)) (ℕ_discrete i i) refl)
  view-merge i (up ss w) (faulted m) k =
      ap (λ (f : Key → Option Text). f k)
        (ite_yes m (λ j. content_at j (ss i).chunks) (ℕ_discrete i i) refl)
  view-merge i (fallen n) b k =
      ap (λ (f : Key → Option Text). f k) (ite_yes (held net b) (n i) (ℕ_discrete i i) refl)

  abbrev pub is_fallen : Sessions World → Bool
  is_fallen (up ss w) = false
  is_fallen (fallen m) = true

  -- They keep the promises of `Cluster`.
  abbrev pub sessions_cluster : Cluster
  sessions_cluster = record {
    State = Sessions World;
    ended = is_fallen;
    set = λ i r k d force. merge i r (set_backed net (view i r) k d force);
    get = λ i r k. ((get_backed net (view i r) k).0, merge i r (get_backed net (view i r) k).1);
    at_hand = λ i r k. held net (view i r) k;
    at_hand-set = λ i r k d force j.
        view-merge i r (set_backed net (view i r) k d force) j
        ∙ held-set_backed net (view i r) k d force j;
    get-at_hand = λ i r k d h. ap (λ o. o.0) (quiet net (view i r) k d h);
    at_hand-get = λ i r k j.
        view-merge i r (get_backed net (view i r) k).1 j ∙ held-get_backed net (view i r) k j;
  }

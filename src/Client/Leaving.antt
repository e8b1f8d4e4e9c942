-- ===== src/Client/Leaving.antt =====
-- src/client/cmd.cpp: the end of `exit_cmd`, which tears down the sessions of a cluster. Each thread is one step, in
-- an order that is that of the list.
use distft.Prelude.{◌≡◌, refl, false, List, [], ◌∷◌}
use distft.Session.Network.{Network}
use distft.Session.{Session, Result, ok, err}
use distft.Session.Life.{teardown, close_down}

module _ (net : Network) where
  open net use {World}

  -- The threads of `exit_cmd`, which delete their sessions: the network that they leave.
  unfoldable pub tear_down_all : List Session → World → Result World
  tear_down_all [] w = ok w
  tear_down_all (s ∷ sessions) w = elim (teardown net false (record { session = s; world = w })) [
    | err e ↦ err e
    | ok (dropped, left) ↦ tear_down_all sessions left
  ]

  -- `exit_cmd` tears its sessions down without an exception, and calls no peer, so that no chunk is handed over.
  pub tear_down_all-ended : (sessions : List Session) (w : World) → tear_down_all sessions w ≡ ok w
  unfolding tear_down_all teardown close_down
  tear_down_all-ended [] w = refl
  tear_down_all-ended (s ∷ sessions) w = tear_down_all-ended sessions w

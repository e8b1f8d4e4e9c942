-- ===== src/Client/Boot.antt =====
-- src/client/cmd.cpp: `bootstrap_cmd`, `join_cmd`, and a round of the thread that `start_background_strain_reliever_cmd`
-- starts.
use distft.Prelude.{
  ℕ, zero, suc, ◌+◌, ◌%◌, Bool, true, false, not, ◌&&◌, List, [], ◌∷◌, Option, none, some, length,
  leb, ltb,
}
use distft.Key.{Key, Text}
use distft.File.{init_index_file}
use distft.Client.Control.{Cluster, Client, ascii, chosen}

-- `endpoints[i]` with `endpoints[(i + 1) % endpoints.size()]`, for each `i`.
unfoldable pub pairs : Text → List Text → List (Text × Text)
pairs first [] = []
pairs first (ep ∷ []) = (ep, first) ∷ []
pairs first (ep ∷ next ∷ eps) = (ep, next) ∷ pairs first (next ∷ eps)

unfoldable pub ring : List Text → List (Text × Text)
unfolding pairs
ring [] = []
ring (ep ∷ eps) = pairs ep (ep ∷ eps)

-- `max_dummy_chunks`
abbrev pub max_dummy_chunks : ℕ
max_dummy_chunks = 10

-- The condition under which the strain reliever waits.
unfoldable pub strain_waits : Bool → ℕ → ℕ → Bool
strain_waits dying dead_peers dead_peers_thresh = not dying && leb dead_peers_thresh dead_peers

module _ (c : Cluster) (sha1 : Text → List ℕ) (rand : ℕ → ℕ) (local : Text → Option Text)
    (order : List Text → List Text) (opens : Text → Bool) where
  open c use {State}

  -- `bootstrap_cmd`. What the startups of the ring leave is an argument; `none` is a startup that throws or
  -- never ends, and so is the result.
  unfoldable pub bootstrap_cmd :
      (List (Text × Text) → Option State) → List Text → Client State → Option (Bool × Client State)
  unfolding ring
  bootstrap_cmd start endpoints d = elim (start (ring endpoints)) [
    | none ↦ none
    | some sessions ↦
        let d1 = record d { cluster = sessions; sessions = length endpoints } in
        let d2 = record d1 {
          cluster = init_index_file (chosen c sha1 rand local order opens d1) sha1 d1.cluster;
          draws = d1.draws + 1;
        } in
        some (
          true,
          record d2 { cmd_out = ascii "Initialized sessions and index file for new cluster." },
        )
  ]

  -- `join_cmd`: one session, which starts up with the endpoint that it joins.
  unfoldable pub join_cmd :
      (Text → Text → State → Option State)
      → Text
      → Text
      → Client State
      → Option (Bool × Client State)
  join_cmd start my_endpoint ext_endpoint d = elim (start my_endpoint ext_endpoint d.cluster) [
    | none ↦ none
    | some sessions ↦ some (
      true,
      record d {
        cluster = sessions;
        sessions = d.sessions + 1;
        cmd_out = ascii "Joined external session successfully.";
      },
    )
  ]

  -- The loop of the strain reliever: the random number is drawn anew before each dummy chunk. `none` is a
  -- loop out of rounds.
  unfoldable pub dummy_loop : (ℕ → Key) → ℕ → ℕ → Client State → Option (Client State)
  dummy_loop random_key zero i d = none
  dummy_loop random_key (suc rounds) i d =
      let d1 = record d { draws = d.draws + 1 } in
      elim (ltb i (rand d.draws % max_dummy_chunks)) [
        | false ↦ some d1
        | true ↦ dummy_loop random_key rounds (i + 1) (record d1 {
          cluster =
              (chosen c sha1 rand local order opens d1).set d1.cluster (random_key i) [] false;
          draws = d1.draws + 1;
        })
      ]

-- ===== src/Client/Cases.antt =====
-- The theorems on the strain reliever and on the states of a daemon, at small runs.
use distft.Prelude.{◌≡◌, refl, true, [], ◌∷◌, arith, List}
use distft.Client.Boot.{strain_waits}
use distft.Client.Strain.{
  Strain, testing, deciding, waiting, notified, Event, thread, session, exiting, lock, stay, count,
  wait, Run, here, next, just_started, moved, is_locked, sessions,
}
use distft.Client.Relief.{is_held, is_held-relieved, is_steady, notify-waiting}

-- 15 dead peers have been counted.
abbrev strained : Strain
strained = just_started 15

-- The thread looks at the counter and waits, and one more peer dies.
abbrev waited : Strain
waited = record strained { dead_peers = 16; place = waiting }

looks : Run (thread ∷ thread ∷ thread ∷ session ∷ []) strained waited
unfolding strain_waits is_locked
looks = next (lock strained refl) (
    next (stay (moved testing strained) refl refl) (
      next (wait (moved deciding strained) refl)
        (next (count (moved waiting strained) refl) (here waited))))

is_held-relieved_example : waited.relieved ≡ strained.relieved
unfolding is_held sessions
is_held-relieved_example = is_held-relieved looks refl (omega arith) (omega arith)

-- The thread has tested `dying`, and not yet begun to wait.
abbrev deciding_still : Strain
deciding_still = moved deciding strained

notify-waiting_example :
    (t : Strain) × Run (exiting ∷ exiting ∷ thread ∷ []) deciding_still t
    × ((es : List Event) (u : Strain)
        → Run es t u
        → is_steady es ≡ true
        → (u.place ≡ waiting) × (u.exit ≡ notified))
notify-waiting_example = notify-waiting deciding_still refl refl

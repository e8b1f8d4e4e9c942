-- ===== src/Client/Strain.antt =====
-- src/client/cmd.cpp: the thread that `start_background_strain_reliever_cmd` starts, beside `exit_cmd` and
-- the sessions, which count dead peers (`update_peer` in dht/rpc.cpp). Each step is what one thread
-- does between two points where another may run.
use distft.Prelude.{ℕ, suc, ◌+◌, ◌%◌, ◌^◌, ◌≡◌, Bool, true, false, List, [], ◌∷◌}
use distft.Client.Boot.{strain_waits}

-- `dead_peers_thresh`
abbrev pub dead_peers_thresh : ℕ
dead_peers_thresh = 15

-- Where the thread stands. From `testing` to `resetting` it holds `meta_lock`.
pub data Place : Type 0 where
  locking testing deciding waiting resetting checking relieving ended : Place

-- How far `exit_cmd` is: not called, `dying` is set, all waiting threads are notified, the thread is joined.
pub data Exit : Type 0 where
  running marked notified joined : Exit

-- `relieved` counts the rounds of dummy chunks.
pub record Strain : Type 0 where
  pub dying : Bool
  pub dead_peers : ℕ
  pub place : Place
  pub exit : Exit
  pub relieved : ℕ

unfoldable pub is_locked : Place → Bool
is_locked locking = false
is_locked testing = true
is_locked deciding = true
is_locked waiting = false
is_locked resetting = true
is_locked checking = false
is_locked relieving = false
is_locked ended = false

-- `dead_cv.notify_all()`: a thread that waits goes on to lock again.
unfoldable pub woken : Place → Place
woken locking = locking
woken testing = testing
woken deciding = deciding
woken waiting = locking
woken resetting = resetting
woken checking = checking
woken relieving = relieving
woken ended = ended

abbrev pub moved : Place → Strain → Strain
moved p s = record s { place = p }

-- Who takes a step: the thread, a session that counts a dead peer, `exit_cmd`, or nobody (the wait
-- of a condition variable may end by itself).
pub data Event : Type 0 where
  thread session exiting spurious : Event

pub data Step : Event → Strain → Strain → Type 0 where
  lock : (s : Strain) → s.place ≡ locking → Step thread s (moved testing s)
  stay :
      (s : Strain)
      → s.place ≡ testing
      → strain_waits s.dying s.dead_peers dead_peers_thresh ≡ true
      → Step thread s (moved deciding s)
  go :
      (s : Strain)
      → s.place ≡ testing
      → strain_waits s.dying s.dead_peers dead_peers_thresh ≡ false
      → Step thread s (moved resetting s)
  wait : (s : Strain) → s.place ≡ deciding → Step thread s (moved waiting s)
  reset :
      (s : Strain)
      → s.place ≡ resetting
      → Step thread s (record s { place = checking; dead_peers = 0 })
  return : (s : Strain) → s.place ≡ checking → s.dying ≡ true → Step thread s (moved ended s)
  relieve :
      (s : Strain)
      → s.place ≡ checking
      → s.dying ≡ false
      → Step thread s (record s { place = relieving; relieved = s.relieved + 1 })
  again : (s : Strain) → s.place ≡ relieving → Step thread s (moved locking s)
  wake : (s : Strain) → s.place ≡ waiting → Step spurious s (moved locking s)
  count :
      (s : Strain)
      → is_locked s.place ≡ false
      → Step session s (record s { dead_peers = (s.dead_peers + 1) % 2 ^ 32 })
  mark : (s : Strain) → s.exit ≡ running → Step exiting s (record s { dying = true; exit = marked })
  notify :
      (s : Strain)
      → s.exit ≡ marked
      → Step exiting s (record s { place = woken s.place; exit = notified })
  join :
      (s : Strain)
      → s.exit ≡ notified
      → s.place ≡ ended
      → Step exiting s (record s { exit = joined })

-- The steps in the order in which they were taken.
pub data Run : List Event → Strain → Strain → Type 0 where
  here : (s : Strain) → Run [] s s
  next : {e : Event} {es : List Event} {s t u : Strain} → Step e s t → Run es t u → Run (e ∷ es) s u

-- How many dead peers the sessions count.
unfoldable pub sessions : List Event → ℕ
sessions [] = 0
sessions (thread ∷ es) = sessions es
sessions (session ∷ es) = suc (sessions es)
sessions (exiting ∷ es) = sessions es
sessions (spurious ∷ es) = sessions es

unfoldable pub is_spurious : Event → Bool
is_spurious thread = false
is_spurious session = false
is_spurious exiting = false
is_spurious spurious = true

-- The thread has just been started. `new session_metadata` leaves the counter as it is.
abbrev pub just_started : ℕ → Strain
just_started dead_peers = record {
  dying = false;
  dead_peers = dead_peers;
  place = locking;
  exit = running;
  relieved = 0;
}

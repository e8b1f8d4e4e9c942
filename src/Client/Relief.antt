-- ===== src/Client/Relief.antt =====
-- What the strain reliever's thread does among the other threads of a client (src/client/cmd.cpp).
use distft.Prelude.{
  ℕ, ◌+◌, ◌^◌, ◌≡◌, ◌≤◌, ◌<◌, Bool, true, false, List, [], ◌∷◌, refl, ◌∙◌, not, ◌&&◌, arith,
}
use distft.Client.Boot.{strain_waits}
use distft.Client.Strain.{
  dead_peers_thresh, Place, locking, testing, deciding, waiting, resetting, checking, relieving,
  ended, running, notified, joined, Strain, woken, Event, thread, exiting, Step, lock, stay, go,
  wait, reset, return, relieve, again, wake, count, mark, notify, join, Run, here, next, sessions,
  is_spurious, just_started,
}

-- The places between `lock` and `go`.
unfoldable pub is_held : Place → Bool
is_held locking = true
is_held testing = true
is_held deciding = true
is_held waiting = true
is_held resetting = false
is_held checking = false
is_held relieving = false
is_held ended = false

woken-is_held : (p : Place) → is_held (woken p) ≡ is_held p
unfolding is_held woken
woken-is_held locking = refl
woken-is_held testing = refl
woken-is_held deciding = refl
woken-is_held waiting = refl
woken-is_held resetting = refl
woken-is_held checking = refl
woken-is_held relieving = refl
woken-is_held ended = refl

woken-ended : (p : Place) → woken p ≡ ended → p ≡ ended
unfolding woken
woken-ended locking e = ground arith
woken-ended testing e = ground arith
woken-ended deciding e = ground arith
woken-ended waiting e = ground arith
woken-ended resetting e = ground arith
woken-ended checking e = ground arith
woken-ended relieving e = ground arith
woken-ended ended e = refl

-- The thread is held while the counter does not wrap, or is about to end.
data Held (n : ℕ) (s : Strain) : Type 0 where
  held : is_held s.place ≡ true → 15 ≤ s.dead_peers → s.dead_peers + n < 2 ^ 32 → Held n s
  leaving : s.dying ≡ true → Held n s

Step-Held :
    {e : Event} {s t : Strain} (es : List Event)
    → Step e s t
    → Held (sessions (e ∷ es)) s
    → Held (sessions es) t × (t.relieved ≡ s.relieved)
unfolding sessions is_held strain_waits
Step-Held es (lock s p) (held a b c) = (held refl b c, refl)
Step-Held es (lock s p) (leaving d) = (leaving d, refl)
Step-Held es (stay s p w) (held a b c) = (held refl b c, refl)
Step-Held es (stay s p w) (leaving d) = (leaving d, refl)
Step-Held es (go s p w) (held a b c) = (leaving (ground arith), refl)
Step-Held es (go s p w) (leaving d) = (leaving d, refl)
Step-Held es (wait s p) (held a b c) = (held refl b c, refl)
Step-Held es (wait s p) (leaving d) = (leaving d, refl)
Step-Held es (reset s p) (held a b c) = (leaving (ground arith), refl)
Step-Held es (reset s p) (leaving d) = (leaving d, refl)
Step-Held es (return s p d) h = (leaving d, refl)
Step-Held es (relieve s p d) (held a b c) = (ground arith, ground arith)
Step-Held es (relieve s p d) (leaving e) = (leaving e, ground arith)
Step-Held es (again s p) (held a b c) = (held refl b c, refl)
Step-Held es (again s p) (leaving d) = (leaving d, refl)
Step-Held es (wake s p) (held a b c) = (held refl b c, refl)
Step-Held es (wake s p) (leaving d) = (leaving d, refl)
Step-Held es (count s p) (held a b c) = (held a (ground arith) (ground arith), refl)
Step-Held es (count s p) (leaving d) = (leaving d, refl)
Step-Held es (mark s p) h = (leaving refl, refl)
Step-Held es (notify s p) (held a b c) = (held (woken-is_held s.place ∙ a) b c, refl)
Step-Held es (notify s p) (leaving d) = (leaving d, refl)
Step-Held es (join s p q) (held a b c) = (held a b c, refl)
Step-Held es (join s p q) (leaving d) = (leaving d, refl)

Run-Held :
    {es : List Event} {s t : Strain} → Run es s t → Held (sessions es) s → t.relieved ≡ s.relieved
unfolding sessions
Run-Held (here s) h = refl
Run-Held (next {es} x r) h = let (h', e) = Step-Held es x h in Run-Held r h' ∙ e

-- In any run of the thread, the sessions and `exit_cmd`, ends of a wait by itself included: when at least
-- `dead_peers_thresh` dead peers are counted while the thread is at its lock, its test or its wait,
-- and the sessions do not count so many that the 32-bit counter wraps, the thread sends
-- no dummy chunks in the rest of the run.
pub is_held-relieved :
    {es : List Event} {s t : Strain}
    → Run es s t
    → is_held s.place ≡ true
    → dead_peers_thresh ≤ s.dead_peers
    → s.dead_peers + sessions es < 2 ^ 32
    → t.relieved ≡ s.relieved
is_held-relieved r p many few = Run-Held r (held p many few)

-- The thread has ended once `exit_cmd` has joined it.
data Joins (s : Strain) : Type 0 where
  joins : (s.exit ≡ joined → s.place ≡ ended) → (s.place ≡ ended → s.dying ≡ true) → Joins s

Step-Joins : {e : Event} {s t : Strain} → Step e s t → Joins s → Joins t
Step-Joins (lock s p) (joins a b) = joins (λ x. ground arith) (λ x. ground arith)
Step-Joins (stay s p w) (joins a b) = joins (λ x. ground arith) (λ x. ground arith)
Step-Joins (go s p w) (joins a b) = joins (λ x. ground arith) (λ x. ground arith)
Step-Joins (wait s p) (joins a b) = joins (λ x. ground arith) (λ x. ground arith)
Step-Joins (reset s p) (joins a b) = joins (λ x. ground arith) (λ x. ground arith)
Step-Joins (return s p d) (joins a b) = joins (λ x. refl) (λ x. d)
Step-Joins (relieve s p d) (joins a b) = joins (λ x. ground arith) (λ x. ground arith)
Step-Joins (again s p) (joins a b) = joins (λ x. ground arith) (λ x. ground arith)
Step-Joins (wake s p) (joins a b) = joins (λ x. ground arith) (λ x. ground arith)
Step-Joins (count s p) (joins a b) = joins a b
Step-Joins (mark s p) (joins a b) = joins (λ x. ground arith) (λ x. refl)
Step-Joins (notify s p) (joins a b) = joins (λ x. ground arith) (λ x. b (woken-ended s.place x))
Step-Joins (join s p q) (joins a b) = joins (λ x. q) b

Run-Joins : {es : List Event} {s t : Strain} → Run es s t → Joins s → Joins t
Run-Joins (here s) j = j
Run-Joins (next x r) j = Run-Joins r (Step-Joins x j)

-- In every state that is reached after the thread was started: once `exit_cmd` has joined the thread, `dying`
-- is set and the thread has ended, so that nothing uses the sessions that `exit_cmd` tears down next.
pub Run-joined :
    {es : List Event} {s : Strain} {n : ℕ}
    → Run es (just_started n) s
    → s.exit ≡ joined
    → (s.place ≡ ended) × (s.dying ≡ true)
Run-joined {s} r j = elim (Run-Joins r (joins (λ x. ground arith) (λ x. ground arith))) [
  | joins a b ↦ (a j, b (a j))
]

-- No wait ends by itself.
unfoldable pub is_steady : List Event → Bool
is_steady [] = true
is_steady (e ∷ es) = not (is_spurious e) && is_steady es

Step-waiting :
    {e : Event} {s t : Strain}
    → Step e s t
    → is_spurious e ≡ false
    → s.place ≡ waiting
    → s.exit ≡ notified
    → (t.place ≡ waiting) × (t.exit ≡ notified)
unfolding is_spurious
Step-waiting (lock s p) q w x = ground arith
Step-waiting (stay s p r) q w x = ground arith
Step-waiting (go s p r) q w x = ground arith
Step-waiting (wait s p) q w x = ground arith
Step-waiting (reset s p) q w x = ground arith
Step-waiting (return s p d) q w x = ground arith
Step-waiting (relieve s p d) q w x = ground arith
Step-waiting (again s p) q w x = ground arith
Step-waiting (wake s p) q w x = ground arith
Step-waiting (count s p) q w x = (w, x)
Step-waiting (mark s p) q w x = ground arith
Step-waiting (notify s p) q w x = ground arith
Step-waiting (join s p r) q w x = ground arith

Run-waiting :
    {es : List Event} {s t : Strain}
    → Run es s t
    → is_steady es ≡ true
    → s.place ≡ waiting
    → s.exit ≡ notified
    → (t.place ≡ waiting) × (t.exit ≡ notified)
unfolding is_steady
Run-waiting (here s) q w x = (w, x)
Run-waiting (next {e} y r) q w x =
    let (w', x') = Step-waiting y (ground arith) w x in Run-waiting r (ground arith) w' x'

-- When `exit_cmd` is called while the thread has tested `dying` and not yet begun to wait, there is a run in
-- which `exit_cmd` sets `dying` and notifies before the thread waits; after it, in every run in which no
-- wait ends by itself, the thread waits and `exit_cmd` is not past the join.
pub notify-waiting :
    (s : Strain)
    → s.place ≡ deciding
    → s.exit ≡ running
    → (t : Strain) × Run (exiting ∷ exiting ∷ thread ∷ []) s t
      × ((es : List Event) (u : Strain)
          → Run es t u
          → is_steady es ≡ true
          → (u.place ≡ waiting) × (u.exit ≡ notified))
unfolding woken
notify-waiting s p x = (
  _,
  next (mark s x) (next (notify _ refl) (next (wait _ (rw (p, woken))) (here _))),
  λ es u r q. Run-waiting r q refl refl,
)

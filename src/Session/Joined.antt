-- ===== src/Session/Joined.antt =====
-- Whether the `teardown` of a session gets past its threads.
use mathlib.Core.Path.{subst}
use distft.Prelude.{ℕ, ◌≡◌, ◌≢◌, ◌⊎◌, inl, inr, refl, Bool, List, [], ◌∷◌, arith}
use distft.Session.Threads.{
  Thread, stuck, goes_on, goes_due, returns, ends, sticks, Turns, first, later, down, Threads, Step,
  runs, marks, joins, leaves, Run, here, next,
}

-- One of the threads is stuck.
abbrev Stuck : List Thread → Type 0
Stuck [] = ⊥
Stuck (t ∷ ts) = (t ≡ stuck) ⊎ Stuck ts

Turns-Stuck : {dying : Bool} {ts us : List Thread} → Turns dying ts us → Stuck ts → Stuck us
Turns-Stuck (first (goes_on j d)) (inl e) = ground arith
Turns-Stuck (first (goes_due j d m)) (inl e) = ground arith
Turns-Stuck (first (returns j d)) (inl e) = ground arith
Turns-Stuck (first (ends j)) (inl e) = ground arith
Turns-Stuck (first (sticks j)) h = inl refl
Turns-Stuck (first (goes_on j d)) (inr h) = inr h
Turns-Stuck (first (goes_due j d m)) (inr h) = inr h
Turns-Stuck (first (returns j d)) (inr h) = inr h
Turns-Stuck (first (ends j)) (inr h) = inr h
Turns-Stuck (later t) (inl e) = inl e
Turns-Stuck (later t) (inr h) = inr (Turns-Stuck t h)

Held : Threads → Type 0
Held s = Stuck s.rpc_threads × (s.ending ≢ down)

Step-Held : {s t : Threads} → Step s t → Held s → Held t
unfolding Held
Step-Held (runs s ts t) (h, n) = (Turns-Stuck t h, n)
Step-Held (marks s a) (h, n) = (h, λ e. ground arith)
Step-Held (joins s ts j e) (h, n) =
    (elim (subst Stuck e h) [ inl i ↦ absurd (ground arith) | inr i ↦ i ], n)
Step-Held (leaves s j e) (h, n) = absurd (subst Stuck e h)

Run-Held : {n : ℕ} {s t : Threads} → Run n s t → Held s → Held t
Run-Held (here s) h = h
Run-Held (next x r) h = Run-Held r (Step-Held x h)

-- When a pass is stuck before `teardown` is past the threads, it never gets past them, however the threads
-- run on.
pub Stuck-down :
    {n : ℕ} {s t : Threads} → Run n s t → Stuck s.rpc_threads → s.ending ≢ down → t.ending ≢ down
unfolding Held
Stuck-down {s} {t} r h n =
    let before : Held s = (h, n) in let after : Held t = Run-Held r before in after.1

-- ===== src/Session/Calls.antt =====
-- What the client of a session sees of it: a map that keeps what it is given.
use mathlib.Core.Path.{subst}
use distft.Prelude.{◌≡◌, refl, sym, ◌∙◌, Bool, List, [], ◌∷◌, Option, some, ite, arith}
use distft.Key.{Key, Key-discrete, Text}
use distft.Session.Network.{Network}
use distft.Session.{ChunkMap, Env, M, Result, ok, err, return, ◌>>=◌, ◌>>◌, find_chunk}
use distft.Session.Chunks.{set, get}
use distft.Session.Keeps.{Keeps, After, Keeps->>=, Keeps-Option, Keeps-return, Keeps-get_session}
use distft.Session.Traffic.{value_lookup-Keeps}
use distft.Session.Serving.{Holds, Holds-Stable}
use distft.Session.Local.{content_at, set-content, get-content_at}

-- A call of the client.
pub data Call : Type 0 where
  sets : Key → Text → Bool → Call
  gets : Key → Call

-- The calls, one after the other, with the results of the `gets`.
abbrev pub run_calls : (net : Network) → List Call → M (net.World) (List (Option Text))
run_calls net [] = return []
run_calls net (sets k d force ∷ calls) = set net k d force >> run_calls net calls
run_calls net (gets k ∷ calls) = get net k >>= λ r. run_calls net calls >>= λ rs. return (r ∷ rs)

-- A map of contents, and what it is after one is put.
abbrev pub put : Key → Text → (Key → Option Text) → Key → Option Text
put k d m j = ite (Key-discrete k j) (some d) (m j)

-- What a map allows as results: what it has under a key is what is got.
abbrev pub Allows : List Call → (Key → Option Text) → List (Option Text) → Type 0
Allows [] m [] = Unit {0}
Allows [] m (r ∷ rs) = ⊥
Allows (sets k d force ∷ calls) m rs = Allows calls (put k d m) rs
Allows (gets k ∷ calls) m [] = ⊥
Allows (gets k ∷ calls) m (r ∷ rs) = ((d : Text) → m k ≡ some d → r ≡ some d) × Allows calls m rs

ends :
    {W A : Type 0} {a b : A} {s t : Env W}
    → ◌≡◌ {A = Result (A × Env W)} (ok (a, s)) (ok (b, t))
    → a ≡ b
ends h = ground arith

found_first :
    {W : Type 0} {d : Text} {r : Option Text} {s t : Env W}
    → ◌≡◌ {A = Result (Option Text × Env W)} (ok (some d, s)) (ok (r, t))
    → r ≡ some d
found_first h = sym (ends h)

-- A call that is followed by others, and ends with them.
bind_ends :
    {W A B : Type 0} (r : Result (A × Env W)) (f : A → M W B) (b : B) (s' : Env W)
    → elim r as (λ x. Result (B × Env W)) [ err e ↦ err e | ok (a, s) ↦ f a s ] ≡ ok (b, s')
    → (a : A) × (s : Env W) × (r ≡ ok (a, s)) × (f a s ≡ ok (b, s'))
bind_ends (ok (a, s)) f b s' h = (a, s, refl, h)
bind_ends (err e) f b s' h = absurd (ground arith)

module _ (net : Network) where
  open net use {World}

  -- A `get` leaves the chunks, and finds what is there.
  pub get-Holds : (m : ChunkMap) (k : Key) → Keeps (Holds m) (get net k)
  unfolding get
  get-Holds m k = Keeps->>= (Holds m) (Keeps-get_session (Holds m)) (λ s.
      Keeps-Option (Holds m) (find_chunk k s.chunks)
        (value_lookup-Keeps net (Holds m) (Holds-Stable m) k)
        (λ chunk. Keeps-return (Holds m) (some chunk.content)))

  -- What a map has, the session has.
  abbrev Within : (Key → Option Text) → Env World → Type 0
  Within m s = (j : Key) (d : Text) → m j ≡ some d → content_at j s.session.chunks ≡ some d

  set-Within :
      (m : Key → Option Text) (k : Key) (d : Text) (force : Bool) (s s' : Env World)
      → Within m s
      → set net k d force s ≡ ok (tt, s')
      → Within (put k d m) s'
  set-Within m k d force s s' w h j e i = ground (arith, set-content net k j d force s s' h, w j e)

  get-Within :
      (m : Key → Option Text) (k : Key) (r : Option Text) (s s' : Env World)
      → Within m s
      → get net k s ≡ ok (r, s')
      → Within m s'
  get-Within m k r s s' w h j e i =
      let same : s'.session.chunks ≡ s.session.chunks =
        subst (After (Holds s.session.chunks)) h ((get-Holds s.session.chunks k).run s refl) in
      rw same (w j e i)

  allowed :
      (calls : List Call) (m : Key → Option Text) (rs : List (Option Text)) (s s' : Env World)
      → Within m s
      → run_calls net calls s ≡ ok (rs, s')
      → Allows calls m rs
  allowed [] m [] s s' w h = tt
  allowed [] m (r ∷ rs) s s' w h = absurd (ground arith)
  allowed (sets k d force ∷ calls) m rs s s' w h =
      let (a, s1, e, f) = bind_ends (set net k d force s) (λ _. run_calls net calls) rs s' h in
      allowed calls (put k d m) rs s1 s' (set-Within m k d force s s1 w e) f
  allowed (gets k ∷ calls) m rs s s' w h =
      let (r, s1, e, f) =
        bind_ends (get net k s) (λ r. run_calls net calls >>= λ rs. return (r ∷ rs)) rs s' h in
      let (rs1, s2, e1, f1) =
        bind_ends (run_calls net calls s1) (λ rs1. return (r ∷ rs1)) rs s' f in
      subst (Allows (gets k ∷ calls) m) (ends f1) (
        (λ d i. let found = get-content_at net k d s (w k d i) in found_first (sym found ∙ e)),
        allowed calls m rs1 s1 s2 (get-Within m k r s s1 w e) e1,
      )

  -- Any calls of a client that all end, with whatever the network answers, have the results that a finite map
  -- allows: from the contents of the session on, a `set` puts a content under its key, and a `get` of a
  -- key that the map has returns what the map has.
  pub run_calls-Allows :
      (calls : List Call) (rs : List (Option Text)) (s s' : Env World)
      → run_calls net calls s ≡ ok (rs, s')
      → Allows calls (λ k. content_at k s.session.chunks) rs
  run_calls-Allows calls rs s s' h =
      allowed calls (λ k. content_at k s.session.chunks) rs s s' (λ j d e. e) h

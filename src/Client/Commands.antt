-- ===== src/Client/Commands.antt =====
-- The grammar of the command line of src/client/founder.cpp.
use distft.Prelude.{
  ℕ, ◌%◌, ◌≤◌, ◌≡◌, ◌≢◌, refl, Bool, true, false, List, [], ◌∷◌, some, arith, length, ltb, All,
  Bool-cases, Option-cases, inl, inr, ◌⊎◌, ℕ_discrete,
}
use distft.Key.{Text, Text-discrete}
use distft.Client.Control.{ascii}
use distft.Client.Founder.{
  Action, usage, helps, interacts, setup_fails, not_found, unknown, throws, starts, exits, lists,
  stores, loads, same_text, all_digits, all_endpoints, stoi, with_session, command, main, has_flag,
}
use distft.Client.Endpoints.{Endpoint, all_endpoints-read, all_endpoints-written}

-- The command line names this running session.
abbrev pub Names : (ℕ → Bool) → Text → ℕ → Type 0
Names running arg id = (all_digits arg ≡ true) × (stoi arg ≡ some id) × (running id ≡ true)

-- What the commands mean.
pub data Means (running : ℕ → Bool) : Text → List Text → Action → Type 0 where
  start :
      (eps : List Text)
      → 2 ≤ length eps
      → All Endpoint eps
      → Means running (ascii "start") eps (starts eps)
  exit :
      (arg : Text) (rest : List Text) (id : ℕ)
      → Names running arg id
      → Means running (ascii "exit") (arg ∷ rest) (exits id)
  list :
      (arg : Text) (rest : List Text) (id : ℕ)
      → Names running arg id
      → Means running (ascii "list") (arg ∷ rest) (lists id)
  store :
      (arg : Text) (files : List Text) (id : ℕ)
      → 1 ≤ length files
      → Names running arg id
      → Means running (ascii "store") (arg ∷ files) (stores id (length files % 256) files)
  load :
      (arg : Text) (files : List Text) (id : ℕ)
      → 2 ≤ length files
      → Names running arg id
      → Means running (ascii "load") (arg ∷ files) (loads id (length files % 256) files)

-- An exit with a message, known command or not, or an exception.
abbrev pub Refused : Action → Type 0
Refused (usage t) = Unit {0}
Refused not_found = Unit {0}
Refused throws = Unit {0}
Refused unknown = Unit {0}
Refused helps = ⊥
Refused interacts = ⊥
Refused setup_fails = ⊥
Refused (starts eps) = ⊥
Refused (exits n) = ⊥
Refused (lists n) = ⊥
Refused (stores n m files) = ⊥
Refused (loads n m files) = ⊥

pub at_least : (n m : ℕ) → m ≤ n → ltb n m ≡ false
at_least n m h = ground arith

different : (s t : Text) → s ≢ t → same_text s t ≡ false
unfolding same_text
different s t n = ground arith

module _ (running : ℕ → Bool) where
  named :
      (arg : Text) (id : ℕ) (k : ℕ → Action)
      → Names running arg id
      → with_session running arg k ≡ k id
  unfolding with_session
  named arg id k (d, s, r) = rw (d, s, r) refl

  -- A command line that means something is understood so: the code does what it means.
  pub command-means :
      (cmd : Text) (args : List Text) (a : Action)
      → Means running cmd args a
      → command running cmd args ≡ a
  unfolding command same_text ascii Text-discrete ℕ_discrete
  command-means cmd args a (start eps l e) = rw (all_endpoints-written eps e) (ground arith)
  command-means cmd args a (exit arg rest id n) = named arg id exits n
  command-means cmd args a (list arg rest id n) = named arg id lists n
  command-means cmd args a (store arg files id l n) =
      rw (at_least (length files) 1 l) (named arg id (λ i. stores i (length files % 256) files) n)
  command-means cmd args a (load arg files id l n) =
      rw (at_least (length files) 2 l) (named arg id (λ i. loads i (length files % 256) files) n)

  -- What a session's argument comes to.
  session_named :
      (arg : Text) (k : ℕ → Action)
      → Refused (with_session running arg k)
        ⊎ ((id : ℕ) × Names running arg id × (with_session running arg k ≡ k id))
  unfolding with_session
  session_named arg k = elim (Bool-cases (all_digits arg)) [
    | inr d ↦ rw (d, with_session) (inl tt)
    | inl d ↦ elim (Option-cases (stoi arg)) [
      | inl e ↦ rw (d, e, with_session) (inl tt)
      | inr (id, e) ↦ elim (Bool-cases (running id)) [
        | inr r ↦ rw (d, e, r, with_session) (inl tt)
        | inl r ↦ inr (id, (d, e, r), rw (d, e, r, with_session) refl)
      ]
    ]
  ]

  -- A command line is refused, or means what is done.
  abbrev Understood : Text → List Text → Type 0
  Understood cmd args =
      Refused (command running cmd args) ⊎ Means running cmd args (command running cmd args)

  start-Understood : (args : List Text) → Understood (ascii "start") args
  unfolding command same_text ascii Text-discrete ℕ_discrete
  start-Understood args = elim (Bool-cases (ltb (length args) 2)) [
    | inl l ↦ rw (l, command) (inl tt)
    | inr l ↦ elim (Bool-cases (all_endpoints args)) [
      | inl e ↦ rw (l, e, command) (inr (start args (ground arith) (all_endpoints-read args e)))
      | inr e ↦ rw (l, e, command) (inl tt)
    ]
  ]

  exit-Understood : (args : List Text) → Understood (ascii "exit") args
  unfolding command same_text ascii Text-discrete ℕ_discrete
  exit-Understood [] = inl tt
  exit-Understood (arg ∷ rest) = elim (session_named arg exits) [
    | inl r ↦ inl r
    | inr (id, n, e) ↦ inr (rw e (exit arg rest id n))
  ]

  list-Understood : (args : List Text) → Understood (ascii "list") args
  unfolding command same_text ascii Text-discrete ℕ_discrete
  list-Understood [] = inl tt
  list-Understood (arg ∷ rest) = elim (session_named arg lists) [
    | inl r ↦ inl r
    | inr (id, n, e) ↦ inr (rw e (list arg rest id n))
  ]

  store-Understood : (args : List Text) → Understood (ascii "store") args
  unfolding command same_text ascii Text-discrete ℕ_discrete
  store-Understood [] = inl tt
  store-Understood (arg ∷ files) = elim (Bool-cases (ltb (length files) 1)) [
    | inl l ↦ rw (l, command) (inl tt)
    | inr l ↦ elim (session_named arg (λ n. stores n (length files % 256) files)) [
      | inl r ↦ rw (l, command) (inl r)
      | inr (id, n, e) ↦ rw (l, command) (inr (rw e (store arg files id (ground arith) n)))
    ]
  ]

  load-Understood : (args : List Text) → Understood (ascii "load") args
  unfolding command same_text ascii Text-discrete ℕ_discrete
  load-Understood [] = inl tt
  load-Understood (arg ∷ files) = elim (Bool-cases (ltb (length files) 2)) [
    | inl l ↦ rw (l, command) (inl tt)
    | inr l ↦ elim (session_named arg (λ n. loads n (length files % 256) files)) [
      | inl r ↦ rw (l, command) (inl r)
      | inr (id, n, e) ↦ rw (l, command) (inr (rw e (load arg files id (ground arith) n)))
    ]
  ]

  -- What is done is refused, or what the command line means: nothing else is ever done.
  pub command-Understood : (cmd : Text) (args : List Text) → Understood cmd args
  unfolding command
  command-Understood cmd args = elim (Text-discrete cmd (ascii "start")) [
    | yes e ↦ rw e (start-Understood args)
    | no n0 ↦ elim (Text-discrete cmd (ascii "exit")) [
      | yes e ↦ rw e (exit-Understood args)
      | no n1 ↦ elim (Text-discrete cmd (ascii "list")) [
        | yes e ↦ rw e (list-Understood args)
        | no n2 ↦ elim (Text-discrete cmd (ascii "store")) [
          | yes e ↦ rw e (store-Understood args)
          | no n3 ↦ elim (Text-discrete cmd (ascii "load")) [
            | yes e ↦ rw e (load-Understood args)
            | no n4 ↦
                rw
                  (
                    different cmd (ascii "start") n0,
                    different cmd (ascii "exit") n1,
                    different cmd (ascii "list") n2,
                    different cmd (ascii "store") n3,
                    different cmd (ascii "load") n4,
                    command,
                  )
                  (inl tt)
          ]
        ]
      ]
    ]
  ]

-- A command line without the flags for help and for the interactive client, that means something, is
-- understood so by `main`, if the client's directory can be set up: the program goes on to do what
-- it means.
pub main-means :
    (running : ℕ → Bool) (cmd : Text) (args : List Text) (a : Action)
    → has_flag (ascii "-h") (ascii "--help") (cmd ∷ args) ≡ false
    → has_flag (ascii "-i") (ascii "--interactive") (cmd ∷ args) ≡ false
    → Means running cmd args a
    → main running true (cmd ∷ args) ≡ a
unfolding main
main-means running cmd args a h i m = rw (h, i) (command-means running cmd args a m)

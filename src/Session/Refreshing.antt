-- ===== src/Session/Refreshing.antt =====
-- What the refreshes of a session come to: the pass of the background thread, and the last part of
-- `self_lookup`.
use distft.Prelude.{ℕ, ◌-◌, ◌/◌, ◌<◌, ◌≡◌, refl, ◌∙◌, List, [], Option, none, some, arith}
use distft.Key.{Key, Peer, Text}
use distft.Router.{Router, random_per_bucket_peers}
use distft.Tree.{second}
use distft.Tree.Refresh.{HasEmpty, accessed, refresh-nothing, refresh-fault}
use distft.Session.Network.{Network}
use distft.Session.{Env, M, Result, Fault, ok, err, undefined, ◌>>=◌}
use distft.Session.Lookup.{lookup_helper, node_query}
use distft.Session.Passes.{random_peers, lookup_all, refresh_pass}
use distft.Session.Life.{self_lookup}

-- What follows on a call that ends, or that does not.
bind_ok :
    {W A B : Type 0} (r : Result (A × Env W)) (f : A → M W B) (a : A) (s : Env W)
    → r ≡ ok (a, s)
    → elim r as (λ x. Result (B × Env W)) [ err e ↦ err e | ok (b, t) ↦ f b t ] ≡ f a s
bind_ok r f a s e = rw e refl

bind_err :
    {W A B : Type 0} (r : Result (A × Env W)) (f : A → M W B) (e : Fault)
    → r ≡ err e
    → elim r as (λ x. Result (B × Env W)) [ err e' ↦ err e' | ok (b, t) ↦ f b t ] ≡ err e
bind_err r f e h = rw h refl

nothing_drawn :
    (rand : ℕ → ℕ) (r : Router) (now later unaccessed : ℕ)
    → (later - now) / second < unaccessed
    → random_per_bucket_peers rand r now later unaccessed
      ≡ some ([], record r { table = accessed now r.table })
unfolding random_per_bucket_peers
nothing_drawn rand r now later unaccessed h =
    rw (refresh-nothing rand now later unaccessed r.table 0 h, random_per_bucket_peers) refl

empty_drawn :
    (rand : ℕ → ℕ) (r : Router) (now later : ℕ)
    → HasEmpty r.table
    → random_per_bucket_peers rand r now later 0 ≡ none
unfolding random_per_bucket_peers
empty_drawn rand r now later h =
    rw (refresh-fault rand now later 0 r.table 0 (omega arith) h, random_per_bucket_peers) refl

module _ (net : Network) where
  open net use {World, clock}

  -- A pass of the refreshing thread in which less than an hour goes by between the two readings of the
  -- clock looks up no peer and calls nobody: it only marks every bucket as accessed.
  pub refresh_pass-idle :
      (rand : ℕ → ℕ) (later : ℕ) (s : Env World)
      → (later - clock s.world) / second < 3600
      → refresh_pass net rand later s
        ≡ ok (
          tt,
          record s {
            session = record (s.session) {
              router = record (s.session.router) {
                table = accessed (clock s.world) s.session.router.table;
              };
            };
          },
        )
  unfolding refresh_pass random_peers lookup_all
  refresh_pass-idle rand later s h =
      bind_ok (random_peers net rand later 3600 s) (λ ps. lookup_all net ps) []
        (record s {
          session = record (s.session) {
            router = record (s.session.router) {
              table = accessed (clock s.world) s.session.router.table;
            };
          };
        })
        (rw (nothing_drawn rand s.session.router (clock s.world) later 3600 h, random_peers) refl)

  -- A lookup of the session's own key, whose searches leave an empty bucket in the router, ends in a
  -- division by zero.
  pub self_lookup-fault :
      (rand : ℕ → ℕ) (later : ℕ) (k : Key) (s s' : Env World) (found : Option Text × List Peer)
      → lookup_helper net k (node_query net k) s ≡ ok (found, s')
      → HasEmpty s'.session.router.table
      → self_lookup net rand later k s ≡ err undefined
  unfolding self_lookup random_peers
  self_lookup-fault rand later k s s' found e h =
      bind_ok (lookup_helper net k (node_query net k) s)
        (λ r. random_peers net rand later 0 >>= λ ps. lookup_all net ps) found s' e
      ∙ bind_err (random_peers net rand later 0 s') (λ ps. lookup_all net ps) undefined
          (rw (empty_drawn rand s'.session.router (clock s'.world) later h, random_peers) refl)

-- ===== src/Session/Files.antt =====
-- A session as `file.cpp` uses it: the interface `Store`, given by `set` and `get` of src/dht/session.cpp.
use mathlib.Core.Path.{subst}
use mathlib.Core.List.{Permᴰ, append-nil}
use distft.Prelude.{
  ℕ, ◌≡◌, refl, ◌∙◌, ap, Bool, true, false, List, [], ◌∷◌, Option, none, some, ite, length,
}
use distft.Key.{Key, Key-discrete, Text}
use distft.Session.Network.{Network}
use distft.Session.{Env, Result, ok, err}
use distft.Session.Chunks.{set, get}
use distft.Session.Keeps.{After}
use distft.Session.Serving.{Holds}
use distft.Session.Local.{content_at, set-content, get-content_at}
use distft.Session.Calls.{get-Holds, put}
use distft.File.{Store, write_from_file, read_in_files}
use distft.File.Content.{pieces, Apart, Stored, write_from_file-Stored}
use distft.File.Pieces.{concat}
use distft.File.Quiet.{read_in_files_quiet}

-- A session that runs, or one that an exception has ended, with what it would hold without that.
pub data Backed (W : Type 0) : Type 0 where
  running : Env W → Backed W
  faulted : (Key → Option Text) → Backed W

abbrev pub is_faulted : {W : Type 0} → Backed W → Bool
is_faulted (running s) = false
is_faulted (faulted m) = true

module _ (net : Network) where
  open net use {World}

  unfoldable pub held : Backed World → Key → Option Text
  held (running s) k = content_at k s.session.chunks
  held (faulted m) k = m k

  -- What a `set` of the session leaves.
  unfoldable pub after_set : (Key → Option Text) → Result (Unit {0} × Env World) → Backed World
  after_set m (ok (a, s)) = running s
  after_set m (err e) = faulted m

  unfoldable pub set_backed : Backed World → Key → Text → Bool → Backed World
  unfolding after_set
  set_backed (running s) k d force =
      after_set (put k d (λ j. content_at j s.session.chunks)) (set net k d force s)
  set_backed (faulted m) k d force = faulted (put k d m)

  unfoldable pub after_get :
      (Key → Option Text) → Result (Option Text × Env World) → Option Text × Backed World
  after_get m (ok (found, s)) = (found, running s)
  after_get m (err e) = (none, faulted m)

  unfoldable pub get_backed : Backed World → Key → Option Text × Backed World
  unfolding after_get
  get_backed (running s) k = after_get (λ j. content_at j s.session.chunks) (get net k s)
  get_backed (faulted m) k = (m k, faulted m)

  held-after_set :
      (m : Key → Option Text) (r : Result (Unit {0} × Env World)) (j : Key) (o : Option Text)
      → ((s : Env World) → r ≡ ok (tt, s) → content_at j s.session.chunks ≡ o)
      → m j ≡ o
      → held (after_set m r) j ≡ o
  unfolding held after_set
  held-after_set m (ok (a, s)) j o h e = h s refl
  held-after_set m (err x) j o h e = e

  pub held-set_backed :
      (b : Backed World) (k : Key) (d : Text) (force : Bool) (j : Key)
      → held (set_backed b k d force) j ≡ ite (Key-discrete k j) (some d) (held b j)
  unfolding held set_backed
  held-set_backed (running s) k d force j =
      held-after_set _ (set net k d force s) j _ (set-content net k j d force s) refl
  held-set_backed (faulted m) k d force j = refl

  pub quiet :
      (b : Backed World) (k : Key) (d : Text) → held b k ≡ some d → get_backed b k ≡ (some d, b)
  unfolding held get_backed
  quiet (running s) k d h = rw (get-content_at net k d s h, get_backed) refl
  quiet (faulted m) k d h = rw (h, get_backed) refl

  held-after_get :
      (m : Key → Option Text) (r : Result (Option Text × Env World)) (j : Key)
      → ((a : Option Text) (s : Env World) → r ≡ ok (a, s) → content_at j s.session.chunks ≡ m j)
      → held (after_get m r).1 j ≡ m j
  unfolding held after_get
  held-after_get m (ok (a, s)) j h = h a s refl
  held-after_get m (err x) j h = refl

  pub held-get_backed : (b : Backed World) (k j : Key) → held (get_backed b k).1 j ≡ held b j
  unfolding held get_backed
  held-get_backed (running s) k j =
      held-after_get (λ i. content_at i s.session.chunks) (get net k s) j
        (λ a s' e. ap (content_at j) (
          subst (After (Holds s.session.chunks)) e ((get-Holds net s.session.chunks k).run s refl)))
  held-get_backed (faulted m) k j = refl

  -- The session keeps the promises of `Store`.
  abbrev pub session_store : Store
  session_store = record {
    State = Backed World;
    set = set_backed;
    get = get_backed;
    at_hand = held;
    at_hand-set = held-set_backed;
    get-at_hand = λ s k d h. ap (λ r. r.0) (quiet s k d h);
    at_hand-get = held-get_backed;
  }

  -- Over a hash with digests of 20 bytes that tells the pieces of the file apart from each other and from
  -- the name, and with threads that set the pieces in any order: a file that `write_from_file` writes
  -- into a session whose sets all end without an exception reads back from that session. `read_in_files` of its
  -- name returns its content, and leaves the session, the network and the clock as they are.
  pub session-read-write :
      (sha1 : Text → List ℕ) (s s' : Env World) (content name : Text)
      (order : List Text → List Text)
      → ((d : Text) → length (sha1 d) ≡ 20)
      → Permᴰ (order (pieces content)) (pieces content)
      → Apart session_store sha1 name (order (pieces content))
      → (write_from_file session_store sha1 (running s) (some content) name order).1 ≡ running s'
      → read_in_files session_store sha1 (running s') (name ∷ [])
        ≡ (some (some content), running s')
  unfolding concat
  session-read-write sha1 s s' content name order digest p a e =
      let stored =
        (write_from_file-Stored session_store sha1 (running s) content name order p a).1 in
      read_in_files_quiet sha1 digest session_store quiet (running s') (name ∷ []) (content ∷ [])
        (subst (λ b. Stored session_store sha1 b name content) e stored, tt)
      ∙ rw (append-nil content) refl

-- ===== src/Session/Cleanup.antt =====
-- What the pass over the expired chunks removes.
use distft.Prelude.{ℕ, ◌≤◌, ◌≡◌, refl, [], ◌∷◌, arith, All}
use distft.Key.{Key}
use distft.Session.Network.{Network}
use distft.Session.{Chunk, ChunkMap, Env, ok}
use distft.Session.Chunks.{is_expired, expired_keys, erase_all, cleanup_pass}

expired_keys-past :
    (now : ℕ) (m : ChunkMap)
    → All (λ (e : Key × Chunk). e.1.original_publish ≤ now) m
    → expired_keys now m ≡ []
unfolding expired_keys is_expired
expired_keys-past now [] h = refl
expired_keys-past now ((k, c) ∷ m) h = ground (arith, expired_keys-past now m h.1)

-- If no chunk was published in the future, the pass over the expired chunks changes nothing, however old
-- the chunks are.
pub cleanup_pass-keeps :
    (net : Network) (s : Env (net.World))
    → All (λ (e : Key × Chunk). e.1.original_publish ≤ net.clock s.world) s.session.chunks
    → cleanup_pass net s ≡ ok (tt, s)
unfolding cleanup_pass erase_all
cleanup_pass-keeps net s h = rw (expired_keys-past (net.clock s.world) s.session.chunks h) refl

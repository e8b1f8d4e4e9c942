-- ===== src/Client/Endpoints.antt =====
-- What `valid_endpoint` of src/client/founder.cpp takes for an endpoint.
use distft.Prelude.{
  ℕ, ◌≡◌, ◌≢◌, refl, ap, true, ◌&&◌, List, [], ◌∷◌, ◌++◌, arith, length, ltb, ◌==◌, All, Bool-cases,
  inl, inr,
}
use distft.Key.{Text}
use distft.Client.Founder.{all_digits, valid_endpoint, all_endpoints}

-- A character that the dot of a regular expression matches.
abbrev pub OnLine : ℕ → Type 0
OnLine c = (c ≢ b'\n') × (c ≢ b'\r')

-- An address, a colon and a port.
abbrev pub Endpoint : Text → Type 0
Endpoint ep =
    (address : Text) × (port : Text) × (ep ≡ address ++ b':' ∷ port)
    × All OnLine address
    × (port ≢ [])
    × (all_digits port ≡ true)

valid_endpoint-read : (ep : Text) → valid_endpoint ep ≡ true → Endpoint ep
unfolding valid_endpoint
valid_endpoint-read [] h = absurd (ground arith)
valid_endpoint-read (c ∷ cs) h =
    elim (Bool-cases (c == b':' && ltb 0 (length cs) && all_digits cs)) [
      | inl e ↦ ([], cs, ground arith, tt, λ i. ground arith, ground arith)
      | inr e ↦
          let (address, port, eq, on, n, digits) = valid_endpoint-read cs (ground arith) in
          (c ∷ address, port, ap (λ (t : Text). c ∷ t) eq, (ground arith, on), n, digits)
    ]

valid_endpoint-written :
    (address port : Text)
    → All OnLine address
    → port ≢ []
    → all_digits port ≡ true
    → valid_endpoint (address ++ b':' ∷ port) ≡ true
unfolding valid_endpoint
valid_endpoint-written [] [] h n d = absurd (n refl)
valid_endpoint-written [] (p ∷ port) h n d = ground arith
valid_endpoint-written (c ∷ address) port h n d =
    ground (arith, valid_endpoint-written address port h.1 n d)

pub all_endpoints-read : (eps : List Text) → all_endpoints eps ≡ true → All Endpoint eps
unfolding all_endpoints
all_endpoints-read [] h = tt
all_endpoints-read (ep ∷ eps) h =
    (valid_endpoint-read ep (ground arith), all_endpoints-read eps (ground arith))

pub all_endpoints-written : (eps : List Text) → All Endpoint eps → all_endpoints eps ≡ true
unfolding all_endpoints
all_endpoints-written [] h = refl
all_endpoints-written (ep ∷ eps) ((address, port, eq, on, n, digits), h) =
    rw (eq, valid_endpoint-written address port on n digits) (all_endpoints-written eps h)

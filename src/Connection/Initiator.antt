-- ===== src/Connection/Initiator.antt =====
-- The class TCPConnectionInitiator of modules/communicator/tcp_connection_initiator.cpp: which
-- endpoints are tried, and how often. An endpoint is a number; what the resolver gives and which
-- endpoints accept a connection are arguments.

pub mod Port
use paracooba.Prelude.{
  ℕ, suc, ◌+◌, ◌-◌, ◌≤◌, ◌<◌, ◌≡◌, refl, ap, ◌∙◌, Bool, true, false, not, ◌&&◌, Option, none, some,
  List, [], ◌∷◌, ◌++◌, length, append-nil, append_assoc, ltb, if◌then◌else◌, arith,
}

-- What one try came to: the endpoint of the connection, whether to try again, and the endpoints
-- that were asked.
pub record Attempt : Type 0 where
  pub connected : Option ℕ
  pub retry : Bool
  pub asked : List ℕ

-- What a try meets: the target's endpoints, none if the host cannot be resolved, which of them is
-- this node itself, and which accept.
pub record Network : Type 0 where
  pub resolved : Option (List ℕ)
  pub is_local : ℕ → Bool
  pub accepts : ℕ → Bool

-- The loop over the endpoints of a host.
unfoldable pub try_endpoints : Network → (asked left : List ℕ) → Attempt
try_endpoints w asked [] = record { connected = none; retry = true; asked = asked }
try_endpoints w asked (e ∷ es) =
    let rest = try_endpoints w (asked ++ e ∷ []) es in
    if w.is_local e
    then record { connected = none; retry = false; asked = asked }
    else if w.accepts e
    then record { connected = some e; retry = false; asked = asked ++ e ∷ [] }
    else rest

-- try_connecting_to_host
unfoldable pub try_connecting_to_host : Network → Attempt
unfolding try_endpoints
try_connecting_to_host w = elim w.resolved [
  | none ↦ record { connected = none; retry = false; asked = [] }
  | some es ↦ try_endpoints w [] es
]

-- try_connecting_to_endpoint
unfoldable pub try_connecting_to_endpoint : Network → ℕ → Attempt
try_connecting_to_endpoint w e =
    if w.is_local e
    then record { connected = none; retry = false; asked = [] }
    else if w.accepts e
    then record { connected = some e; retry = false; asked = e ∷ [] }
    else record { connected = none; retry = true; asked = e ∷ [] }

-- What the callback is told: a connection to an endpoint, or that there is none.
pub data Told : Type 0 where
  established : ℕ → Told
  not_established : Told

-- The state of a try that failed calls back when it is destroyed, also if there is another try.
unfoldable pub told_of : Option ℕ → (again : Bool) → (rest : List Told) → List Told
told_of (some e) again rest = established e ∷ []
told_of none again rest = not_established ∷ (if again then rest else [])

-- The tries one after the other, from number n on, with what each meets: what the callback is
-- told.
unfoldable pub initiate : (retries n : ℕ) → List Network → List Told
unfolding try_connecting_to_host told_of
initiate retries n [] = []
initiate retries n (w ∷ ws) =
    let a = try_connecting_to_host w in
    let rest = initiate retries (suc n) ws in told_of a.connected (a.retry && ltb n retries) rest

-- An endpoint is passed over if it is not this node and does not accept.
abbrev pub AllPassed : Network → List ℕ → Type 0
AllPassed w [] = Unit {0}
AllPassed w (e ∷ es) = (w.is_local e ≡ false) × (w.accepts e ≡ false) × AllPassed w es

try_endpoints-passed :
    (w : Network) (asked es rest : List ℕ)
    → AllPassed w es
    → try_endpoints w asked (es ++ rest) ≡ try_endpoints w (asked ++ es) rest
unfolding try_endpoints
try_endpoints-passed w asked [] rest p = rw (append-nil asked) refl
try_endpoints-passed w asked (e ∷ es) rest p =
    rw (p.0, p.1)
      (try_endpoints-passed w (asked ++ e ∷ []) es rest p.2
        ∙ ap (λ ys. try_endpoints w ys rest) (append_assoc asked (e ∷ []) es))

-- If a host resolves to endpoints of which the first ones are not this node and do not accept,
-- and the next is not this node and accepts, then a try connects to that one, is not to be
-- repeated, and asked the endpoints up to it, each once and in their order.
pub try_connecting_to_host-first :
    (w : Network) (es rest : List ℕ) (e : ℕ)
    → w.resolved ≡ some (es ++ e ∷ rest)
    → AllPassed w es
    → w.is_local e ≡ false
    → w.accepts e ≡ true
    → try_connecting_to_host w ≡ record { connected = some e; retry = false; asked = es ++ e ∷ [] }
unfolding try_connecting_to_host try_endpoints
try_connecting_to_host-first w es rest e h p l a =
    rw (try_connecting_to_host, h) (try_endpoints-passed w [] es (e ∷ rest) p ∙ rw (l, a) refl)

told_of-bounded :
    (o : Option ℕ) (again : Bool) (rest : List Told) (m : ℕ)
    → (again ≡ true → length rest ≤ m)
    → length (told_of o again rest) ≤ suc m
unfolding told_of
told_of-bounded (some e) again rest m h = omega arith
told_of-bounded none true rest m h = omega (arith, h refl)
told_of-bounded none false rest m h = omega arith

-- The callback is called at most once for each try that the service allows.
pub initiate-bounded :
    (retries n : ℕ) (ws : List Network) → length (initiate retries n ws) ≤ suc (retries - n)
unfolding initiate
initiate-bounded retries n [] = omega arith
initiate-bounded retries n (w ∷ ws) =
    let a = try_connecting_to_host w in
    let more = initiate-bounded retries (suc n) ws in
    told_of-bounded a.connected (a.retry && ltb n retries) (initiate retries (suc n) ws)
      (retries - n) (λ h. let lt : n < retries = ground (arith, h) in omega (arith, more, lt))

-- ===== src/Tests/Initiators.antt =====
-- The theorems on establishing a connection at concrete strings and endpoints.
use paracooba.Prelude.{◌≡◌, refl, false, some, [], ◌∷◌, ◌++◌, ◌==◌, ltb, arith}
use paracooba.Qdimacs.Text.{digits}
use paracooba.Connection.Initiator.{Network, try_connecting_to_host, try_connecting_to_host-first}
use paracooba.Connection.Initiator.Port.{extract_port, extract_port-digits}

-- The endpoint 4 does not accept, 9 does.
abbrev network : Network
network = record {
  resolved = some (4 ∷ 9 ∷ 2 ∷ []);
  is_local = λ e. e == 2;
  accepts = λ e. ltb 8 e;
}

try_connecting_to_host-first_example :
    try_connecting_to_host network
    ≡ record { connected = some 9; retry = false; asked = (4 ∷ []) ++ 9 ∷ [] }
try_connecting_to_host-first_example =
    try_connecting_to_host-first network (4 ∷ []) (2 ∷ []) 9 refl (refl, refl, tt) refl refl

-- "n1:80"
extract_port-digits_example :
    extract_port 18001 ((110 ∷ 49 ∷ []) ++ 58 ∷ digits (8 ∷ 0 ∷ [])) ≡ (110 ∷ 49 ∷ [], 80)
extract_port-digits_example =
    extract_port-digits 18001 8 (110 ∷ 49 ∷ []) (0 ∷ [])
      (
        λ e. omega (arith, e),
        λ e. omega (arith, e),
        λ e. omega (arith, e),
        (λ e. omega (arith, e), λ e. omega (arith, e), λ e. omega (arith, e), tt),
      )
      (omega arith, (omega arith, tt)) (omega arith) (omega arith)

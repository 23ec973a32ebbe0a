-- ===== src/Tests/Paths.antt =====
-- The theorems on paths at the path of depth two that goes right and then left.
use paracooba.Prelude.{ℕ, zero, suc, ◌+◌, ◌≡◌, refl, some, List, [], ◌∷◌, arith}
use paracooba.Status.{ok}
use paracooba.Path.{Rep, length_field, get_next, get_parent}
use paracooba.Path.Family.{get_next-get_parent-get_next}
use paracooba.Path.Fields.{decisions}
use paracooba.Path.Text.{c_string, to_str, from_str}
use paracooba.Path.Text.RoundTrip.{from_str-to_str}

-- 2 ^ 63 + 2
abbrev right_left : Rep
right_left = 9223372036854775810

abbrev decimal : ℕ → List ℕ
decimal n = (48 + n) ∷ []

abbrev cells : ℕ → List ℕ
cells zero = []
cells (suc n) = 7 ∷ cells n

abbrev buffer : List ℕ
buffer = cells 59

from_str-to_str_example :
    (q : Rep) × (from_str (c_string (to_str decimal right_left buffer)) 5 ≡ some (ok, q))
    × (length_field q ≡ length_field right_left)
    × (decisions q ≡ decisions right_left)
unfolding paracooba.Path.is_overlength paracooba.Path.is_extended
from_str-to_str_example =
    from_str-to_str decimal right_left 5 buffer (omega arith) (omega arith) refl refl refl

-- From the right child of the path to its left one.
get_next-get_parent-get_next_example :
    get_next (get_parent (get_next right_left 1)) 0 ≡ get_next right_left 0
get_next-get_parent-get_next_example = get_next-get_parent-get_next right_left 1 0 (omega arith)

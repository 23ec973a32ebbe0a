-- ===== src/Assignment.antt =====
-- The packed assignments of modules/solver/solver_assignment.hpp (class SolverAssignment). The source
-- has the same class in modules/solver_qbf.
use paracooba.Prelude.{
  ℕ, zero, suc, ◌+◌, ◌-◌, ◌*◌, ◌/◌, ◌%◌, ◌^◌, Bool, not, ◌==◌, ltb, if◌then◌else◌, Option, none,
  some, List, [], ◌∷◌, ◌++◌, get_elem?,
}
use paracooba.Words.{bit, bit_at, bit_and}
pub mod RoundTrip

-- PC_SHIFT(0) | ... | PC_SHIFT(7) at i. The bits are disjoint, so the sum is the bitwise or.
-- `g i` is `getter(i) & 1`.
abbrev pub full_byte : (ℕ → Bool) → ℕ → ℕ
full_byte g i =
    bit (g (i + 0)) * 128
    + (bit (g (i + 1)) * 64
        + (bit (g (i + 2)) * 32
            + (bit (g (i + 3)) * 16
                + (bit (g (i + 4)) * 8
                    + (bit (g (i + 5)) * 4 + (bit (g (i + 6)) * 2 + bit (g (i + 7)) * 1))))))

-- The loop over the full blocks: n of them, from index i on.
unfoldable pub full_blocks : (ℕ → Bool) → ℕ → ℕ → List ℕ
full_blocks g i zero = []
full_blocks g i (suc n) = full_byte g i ∷ full_blocks g (i + 8) n

-- The cases PC_SHIFT_CASE(k) down to PC_SHIFT_CASE(1) with their fallthrough.
unfoldable pub tail_byte : (ℕ → Bool) → (remaining : ℕ) → ℕ → ℕ → ℕ
tail_byte g remaining i zero = 0
tail_byte g remaining i (suc k) =
    bit (g i) * 2 ^ (7 - i % 8 - (8 - remaining)) + tail_byte g remaining (suc i) k

-- SerializeAssignment: the packed vector. Its size is (var_count - 1) / 8 + 1.
unfoldable pub serialize_assignment : (var_count : ℕ) → (ℕ → Bool) → List ℕ
unfolding full_blocks tail_byte
serialize_assignment var_count g =
    let i = var_count / 8 * 8 in
    let remaining = var_count - i in
    full_blocks g 0 (var_count / 8)
    ++ (if remaining == 0 then [] else tail_byte g remaining i remaining ∷ [])

-- The pushes of `case n` down to `case 1`.
unfoldable pub push_bits : ℕ → ℕ → List Bool
unfolding bit_at
push_bits zero next = []
push_bits (suc n) next = bit_at n next ∷ push_bits n next

-- DeSerializeSingleToAssignment: the default case pushes eight.
unfoldable pub deserialize_single : ℕ → ℕ → List Bool
unfolding push_bits
deserialize_single next n = push_bits (if ltb n 8 then n else 8) next

abbrev pub prepend : List Bool → Option (List Bool × ℕ) → Option (List Bool × ℕ)
prepend bs none = none
prepend bs (some (cs, m)) = some (bs ++ cs, m)

-- DeSerializeToAssignment: the assignment and the value that `m_varCount` has afterwards; none if it
-- reads past the vector.
unfoldable pub deserialize_to_assignment : (var_count : ℕ) → List ℕ → Option (List Bool × ℕ)
unfolding deserialize_single
deserialize_to_assignment var_count [] = none
deserialize_to_assignment var_count (b ∷ bs) =
    let rest = deserialize_to_assignment (var_count - 8) bs in
    if ltb 8 var_count
    then prepend (deserialize_single b var_count) rest
    else some (deserialize_single b var_count, var_count)

-- The byte that is read, under a mask; none past the vector.
abbrev pub read_masked : Option ℕ → ℕ → Option Bool
read_masked none mask = none
read_masked (some b) mask = some (not (bit_and 8 b mask == 0))

-- isSet for a literal l ≥ 1: the mask is the position in the byte, not the bit at that position.
unfoldable pub is_set : List ℕ → ℕ → Option Bool
is_set bytes l = read_masked (get_elem? bytes ((l - 1) / 8)) ((l - 1) % 8)

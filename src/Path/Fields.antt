-- ===== src/Path/Fields.antt =====
-- The bits of a path (`modules/commonc/path.c`) and its low six bits do not disturb one another.
use paracooba.Prelude.{
  ℕ, zero, suc, ◌+◌, ◌-◌, ◌*◌, ◌/◌, ◌%◌, ◌^◌, ◌≤◌, ◌<◌, ◌≡◌, refl, ap, Bool, ◌++◌, List, [], ◌∷◌,
  arith, ◌==◌, if◌then◌else◌,
}
use paracooba.Words.{bit_at, put_bit, put_bit-lt, bit_at-put_bit_self, bit_at-put_bit_ne}
use paracooba.Path.{Rep, max_length, length_field, path_field, get_assignment, set_assignment}

bit_at_six : (k x : ℕ) → bit_at (suc (suc (suc (suc (suc (suc k)))))) x ≡ bit_at k (x / 64)
unfolding bit_at
bit_at_six k x = let e : x / 2 / 2 / 2 / 2 / 2 / 2 ≡ x / 64 = omega arith in rw e

put_bit_six :
    (k : ℕ) (v : Bool) (x : ℕ)
    → put_bit (suc (suc (suc (suc (suc (suc k)))))) v x ≡ put_bit k v (x / 64) * 64 + x % 64
unfolding put_bit
put_bit_six k v x = let e : x / 2 / 2 / 2 / 2 / 2 / 2 ≡ x / 64 = omega arith in rw e (omega arith)

position :
    (d : ℕ) → 1 ≤ d → d ≤ max_length → 63 - (d - 1) ≡ suc (suc (suc (suc (suc (suc (58 - d))))))
position d h k = omega arith

-- The positions of the source, seen from the field `path_`.
pub get_assignment_lem :
    (p d : ℕ) → 1 ≤ d → d ≤ max_length → get_assignment p d ≡ bit_at (58 - d) (path_field p)
unfolding get_assignment
get_assignment_lem p d h k = rw (position d h k) (bit_at_six (58 - d) p)

pub set_assignment_lem :
    (p d : ℕ) (v : Bool)
    → 1 ≤ d
    → d ≤ max_length
    → set_assignment p d v ≡ put_bit (58 - d) v (path_field p) * 64 + length_field p
unfolding set_assignment
set_assignment_lem p d v h k = rw (position d h k) (put_bit_six (58 - d) v p)

pub length-set_assignment :
    (p d : ℕ) (v : Bool)
    → 1 ≤ d
    → d ≤ max_length
    → length_field (set_assignment p d v) ≡ length_field p
length-set_assignment p d v h k = omega (arith, set_assignment_lem p d v h k)

pub path-set_assignment :
    (p d : ℕ) (v : Bool)
    → 1 ≤ d
    → d ≤ max_length
    → path_field (set_assignment p d v) ≡ put_bit (58 - d) v (path_field p)
path-set_assignment p d v h k = omega (arith, set_assignment_lem p d v h k)

pub set_assignment-lt :
    (p d : ℕ) (v : Bool) → 1 ≤ d → d ≤ max_length → p < 2 ^ 64 → set_assignment p d v < 2 ^ 64
set_assignment-lt p d v h k l = omega (
  arith,
  set_assignment_lem p d v h k,
  put_bit-lt 58 (58 - d) v (path_field p) (omega arith) (omega arith),
)

-- The bits depend on `path_` alone.
pub get_assignment-congr :
    (p q d : ℕ)
    → 1 ≤ d
    → d ≤ max_length
    → path_field p ≡ path_field q
    → get_assignment p d ≡ get_assignment q d
get_assignment-congr p q d h k e = rw (get_assignment_lem p d h k, get_assignment_lem q d h k, e)

-- For positions from 1 to 58, writing the decision at d changes the decision at d to the value
-- written, and no other.
pub get_assignment-set_assignment :
    (p d e : ℕ) (v : Bool)
    → 1 ≤ d
    → d ≤ max_length
    → 1 ≤ e
    → e ≤ max_length
    → get_assignment (set_assignment p d v) e ≡ (if d == e then v else get_assignment p e)
get_assignment-set_assignment p d e v hd kd he ke = ground (
  arith,
  get_assignment_lem (set_assignment p d v) e he ke,
  get_assignment_lem p e he ke,
  path-set_assignment p d v hd kd,
  bit_at-put_bit_self (58 - d) v (path_field p),
  bit_at-put_bit_ne (58 - d) (58 - e) v (path_field p),
)

-- The decisions at the first n positions, from the root on.
abbrev pub assignments : Rep → ℕ → List Bool
assignments p zero = []
assignments p (suc n) = assignments p n ++ get_assignment p (suc n) ∷ []

abbrev pub decisions : Rep → List Bool
decisions p = assignments p (length_field p)

-- A path that is neither overlength nor extended nor a special value, in a 64-bit word.
pub record IsNormal (p : Rep) : Type 0 where
  pub short : length_field p ≤ max_length
  pub word : p < 2 ^ 64

pub assignments-congr :
    (p q n : ℕ) → n ≤ max_length → path_field p ≡ path_field q → assignments p n ≡ assignments q n
assignments-congr p q zero h e = refl
assignments-congr p q (suc n) h e =
    rw (assignments-congr p q n (omega arith) e, get_assignment-congr p q (suc n) (omega arith) h e)

pub assignments-set_assignment :
    (p n d : ℕ) (v : Bool)
    → n < d
    → d ≤ max_length
    → assignments (set_assignment p d v) n ≡ assignments p n
assignments-set_assignment p zero d v h k = refl
assignments-set_assignment p (suc n) d v h k =
    rw (assignments-set_assignment p n d v (omega arith) k) (
      ap (λ b. assignments p n ++ b ∷ [])
        (ground (arith, get_assignment-set_assignment p d (suc n) v)))

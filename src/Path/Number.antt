-- ===== src/Path/Number.antt =====
-- A path as a number, and the bits beyond its end (modules/commonc/path.c, and `parac_path_build`
-- of include/paracooba/common/path.h).
use paracooba.Prelude.{
  ℕ, zero, suc, ◌+◌, ◌-◌, ◌*◌, ◌/◌, ◌%◌, ◌^◌, ◌≤◌, ◌<◌, ◌≡◌, refl, sym, ap, ◌∙◌, Bool, false, ◌++◌,
  List, [], ◌∷◌, arith, ◌==◌, leb, if◌then◌else◌, Bool-cases, inl, inr,
}
use paracooba.Words.{
  bit, clear_low, bit_at-clear_low_lt, bit_at, bit_at-clear_low_ge, bit_at_high, shift_right,
  shift_right_lem,
}
use paracooba.Path.{
  max_length, length_field, set_length_field, path_field, get_assignment, cleanup,
  get_depth_shifted, build,
}
use paracooba.Path.Fields.{IsNormal, decisions, assignments, get_assignment_lem}

-- The number that a list of decisions spells, the first decision being the highest digit.
unfoldable pub value : ℕ → List Bool → ℕ
value acc [] = acc
value acc (b ∷ bs) = value (2 * acc + bit b) bs

pub value-append :
    (acc : ℕ) (xs : List Bool) (b : Bool) → value acc (xs ++ b ∷ []) ≡ 2 * value acc xs + bit b
unfolding value
value-append acc [] b = refl
value-append acc (x ∷ xs) b = value-append (2 * acc + bit x) xs b

shift_right_step : (k x : ℕ) → shift_right k x ≡ 2 * shift_right (suc k) x + bit (bit_at k x)
unfolding shift_right bit_at
shift_right_step zero x = ground arith
shift_right_step (suc k) x = shift_right_step k (x / 2)

value-assignments :
    (p n : ℕ)
    → p < 2 ^ 64
    → n ≤ max_length
    → value 0 (assignments p n) ≡ shift_right (58 - n) (path_field p)
unfolding value
value-assignments p zero w h = omega (arith, shift_right_lem 58 (path_field p))
value-assignments p (suc n) w h =
    value-append 0 (assignments p n) (get_assignment p (suc n))
    ∙ rw (value-assignments p n w (omega arith), get_assignment_lem p (suc n) (omega arith) h, next)
        (sym (shift_right_step (58 - suc n) (path_field p)))
  where
    next : 58 - n ≡ suc (58 - suc n)
    next = omega arith

shift_six :
    (p n : ℕ) → n ≤ max_length → shift_right (64 - n) p ≡ shift_right (58 - n) (path_field p)
unfolding shift_right
shift_six p n h =
    let e : 64 - n ≡ suc (suc (suc (suc (suc (suc (58 - n)))))) = omega arith in
    let k : p / 2 / 2 / 2 / 2 / 2 / 2 ≡ p / 64 = omega arith in rw e (ap (shift_right (58 - n)) k)

-- On a normal path, `parac_path_get_depth_shifted` is the number that the decisions spell in
-- binary, the first one being the highest digit.
pub get_depth_shifted-value : (p : ℕ) → IsNormal p → get_depth_shifted p ≡ value 0 (decisions p)
unfolding get_depth_shifted value
get_depth_shifted-value p v = elim (Bool-cases (length_field p == 0)) [
  | inl e ↦ let z : length_field p ≡ 0 = ground arith in rw (e, z) refl
  | inr e ↦ rw e (
      shift_six p (length_field p) v.short
      ∙ sym (value-assignments p (length_field p) v.word v.short))
]

cleanup_lem :
    (p : ℕ)
    → length_field p ≤ max_length
    → cleanup p ≡ set_length_field (length_field p) (clear_low (64 - length_field p) p)
unfolding cleanup
cleanup_lem p h = ground arith

-- For a path of at most the maximal length, `parac_path_cleanup` keeps the length and the
-- decisions up to it, and clears the bits after it.
pub cleanup-clean :
    (p d : ℕ)
    → length_field p ≤ max_length
    → 1 ≤ d
    → d ≤ max_length
    → (length_field (cleanup p) ≡ length_field p)
      × (get_assignment (cleanup p) d
          ≡ (if leb d (length_field p) then get_assignment p d else false))
unfolding get_assignment
cleanup-clean p d h l k = (
  omega (arith, cleanup_lem p h),
  rw (cleanup_lem p h) (
      bit_at_high (63 - (d - 1)) _ cleared (omega arith) (omega arith)
      ∙ ground (
        arith,
        bit_at-clear_low_ge (64 - length_field p) (63 - (d - 1)) p,
        bit_at-clear_low_lt (64 - length_field p) (63 - (d - 1)) p,
      )),
)
  where
    cleared : ℕ
    cleared = clear_low (64 - length_field p) p

-- A path that is built with a length of at most 58 has that length, and no bit set beyond it.
pub build-clean :
    (bytes n l d : ℕ)
    → l ≤ max_length
    → l < d
    → d ≤ max_length
    → (length_field (build bytes n l) ≡ l) × (get_assignment (build bytes n l) d ≡ false)
unfolding build
build-clean bytes n l d h k m =
    let w : ℕ = n * 2 ^ ((8 - bytes) * 8) % 2 ^ 64 in
    let len : length_field (set_length_field l w) ≡ l = omega arith in
    let c = cleanup-clean (set_length_field l w) d (omega arith) (omega arith) m in
    (omega (arith, c.0), c.1 ∙ rw len (ground arith))

-- ===== src/SatCubes/Below.antt =====
-- Which nodes of the tree have a pregenerated cube below them (modules/solver/cube_source.cpp).
use native.Mathlib.Nat.{pow-suc, mul_assoc, mul-one, add-zero, add-suc, pow-le-pow_right}
use paracooba.Prelude.{
  ℕ, zero, suc, ◌+◌, ◌-◌, ◌*◌, ◌%◌, ◌^◌, ◌<◌, ◌≤◌, ◌≡◌, ◌↔◌, refl, sym, ap, ◌∙◌, true, false, ltb,
  arith,
}
use paracooba.Words.{bit}
use paracooba.Path.{
  Rep, get_assignment, length_field, max_length, path_length, get_next, get_next_left,
  get_next_right, is_overlength, get_depth_shifted, truth,
}
use paracooba.Path.Fields.{IsNormal, decisions, assignments}
use paracooba.Path.Next.{length-get_next, get_next-IsNormal, decisions-get_next}
use paracooba.Path.Number.{value, value-append, get_depth_shifted-value}
use paracooba.SatCubes.{Pregenerated, shift_left, split_between, split_path_defined}

-- The cubes under a node are numbered from d * 2 ^ s on, where d is the node's number in its level
-- and s the number of levels below it.
pub record HasCube (d s count : ℕ) : Type 0 where
  pub index : ℕ
  pub from : d * 2 ^ s ≤ index
  pub upto : index < suc d * 2 ^ s
  pub exists : index < count

positive_power : (s : ℕ) → 1 ≤ 2 ^ s
positive_power zero = omega arith
positive_power (suc s) = omega (arith, positive_power s, pow-suc 2 s)

suc-mul : (d k : ℕ) → suc d * k ≡ k + d * k
suc-mul d k = ground arith

-- The first of these cubes exists exactly if one of them does.
first_cube : (d s count : ℕ) → (ltb (d * 2 ^ s) count ≡ true) ↔ HasCube d s count
first_cube d s count = (
  (λ h. record {
    index = d * 2 ^ s;
    from = omega arith;
    upto = omega (arith, positive_power s, suc-mul d (2 ^ s));
    exists = ground (arith, h);
  }),
  (λ h. ground (arith, h.from, h.exists)),
)

-- A number below 2 ^ n, shifted by s, is below 2 ^ (n + s).
shifted_room : (d n s : ℕ) → d < 2 ^ n → d * 2 ^ s < 2 ^ (n + s)
shifted_room d n zero h = rw (mul-one d, add-zero n) h
shifted_room d n (suc s) h =
    let more : d * 2 ^ suc s ≡ d * 2 ^ s * 2 =
      ap (λ k. d * k) (pow-suc 2 s) ∙ sym (mul_assoc d (2 ^ s) 2) in
    let power : 2 ^ (n + suc s) ≡ 2 ^ (n + s) * 2 =
      ap (λ k. 2 ^ k) (add-suc n s) ∙ pow-suc 2 (n + s) in
    omega (arith, more, power, shifted_room d n s h)

value-assignments_room : (p n : ℕ) → value 0 (assignments p n) < 2 ^ n
unfolding value
value-assignments_room p zero = omega arith
value-assignments_room p (suc n) = ground (
  arith,
  value-append 0 (assignments p n) (get_assignment p (suc n)),
  value-assignments_room p n,
  pow-suc 2 n,
)

-- A child of a node with room, and its number.
child_number :
    (p n : ℕ)
    → IsNormal p
    → length_field p < max_length
    → get_depth_shifted (get_next p n) ≡ 2 * value 0 (decisions p) + bit (truth n)
child_number p n v h =
    get_depth_shifted-value (get_next p n) (get_next-IsNormal p n h v)
    ∙ ap (value 0) (decisions-get_next p n h)
    ∙ value-append 0 (decisions p) (truth n)

-- What holds on the side n.
child_exists :
    (p n : ℕ) (h : Pregenerated)
    → IsNormal p
    → length_field p < max_length
    → length_field p < h.normalized_path_length
    → h.normalized_path_length ≤ max_length
    → let s = h.normalized_path_length - suc (length_field p) in
      shift_left (get_depth_shifted (get_next p n)) s
      ≡ (2 * value 0 (decisions p) + bit (truth n)) * 2 ^ s
child_exists p n h v room l m =
    let s = h.normalized_path_length - suc (length_field p) in
    let d = 2 * value 0 (decisions p) + bit (truth n) in
    let small : d < 2 ^ suc (length_field p) =
      ground (arith, value-assignments_room p (length_field p), pow-suc 2 (length_field p)) in
    let whole : suc (length_field p) + s ≡ h.normalized_path_length = omega arith in
    let bound : 2 ^ h.normalized_path_length ≤ 2 ^ 58 = pow-le-pow_right (omega arith) m in
    let shifted : d * 2 ^ s < 2 ^ 64 =
      omega (arith, shifted_room d (suc (length_field p)) s small, ap (λ k. 2 ^ k) whole, bound) in
    ap (λ k. k * 2 ^ s % 2 ^ 64) (child_number p n v room) ∙ omega (arith, shifted)

pub path_length-normal : (p : ℕ) → length_field p ≤ max_length → path_length p ≡ length_field p
unfolding path_length
path_length-normal p h = ground arith

is_overlength-normal : (p : ℕ) → length_field p ≤ max_length → is_overlength p ≡ false
unfolding is_overlength
is_overlength-normal p h = ground arith

-- The decisions, where nothing ends the split early.
split_between-open :
    (p l r n dl dr : ℕ) (h : Pregenerated)
    → path_length p ≡ n
    → path_length l ≡ suc n
    → is_overlength l ≡ false
    → is_overlength r ≡ false
    → n < h.normalized_path_length
    → let s = h.normalized_path_length - suc n in
      shift_left (get_depth_shifted l) s ≡ dl
      → shift_left (get_depth_shifted r) s ≡ dr
      → split_between p l r h ≡ (ltb dl h.count, ltb dr h.count)
unfolding split_between
split_between-open p l r n dl dr h e f ol or k el er =
    let enough : ltb h.normalized_path_length (n + 1) ≡ false = ground arith in
    rw (e, f, enough, el, er, ol, or) refl

-- On a normal path shorter than the normalized path length, which is at most 58, the split along
-- pregenerated cubes offers the left child exactly if one of the cubes below it exists, and
-- likewise the right child: the cubes below the node with number d, s levels above the cubes, are
-- those from d times 2 to the power of s up to the next node's.
pub split_path_defined-HasCube :
    (p : Rep) (h : Pregenerated)
    → IsNormal p
    → length_field p < h.normalized_path_length
    → h.normalized_path_length ≤ max_length
    → let s = h.normalized_path_length - suc (length_field p) in
      (((split_path_defined p h).0 ≡ true) ↔ HasCube (2 * value 0 (decisions p)) s h.count)
      × (((split_path_defined p h).1 ≡ true) ↔ HasCube (suc (2 * value 0 (decisions p))) s h.count)
unfolding split_path_defined get_next_left get_next_right
split_path_defined-HasCube p h v l m =
    let room : length_field p < max_length = omega arith in
    let len = length-get_next p 0 room in
    let short = path_length-normal p v.short in
    let left_ok = is_overlength-normal (get_next p 0) (get_next-IsNormal p 0 room v).short in
    let right_ok = is_overlength-normal (get_next p 1) (get_next-IsNormal p 1 room v).short in
    let child_len = path_length-normal (get_next p 0) (get_next-IsNormal p 0 room v).short ∙ len in
    let left : 2 * value 0 (decisions p) + bit (truth 0) ≡ 2 * value 0 (decisions p) =
      omega arith in
    let right : 2 * value 0 (decisions p) + bit (truth 1) ≡ suc (2 * value 0 (decisions p)) =
      omega arith in
    let s = h.normalized_path_length - suc (length_field p) in
    let both =
      split_between-open p (get_next p 0) (get_next p 1) (length_field p) _ _ h short child_len
        left_ok right_ok l (child_exists p 0 h v room l m) (child_exists p 1 h v room l m) in
    rw (both, left, right)
      (
        first_cube (2 * value 0 (decisions p)) s h.count,
        first_cube (suc (2 * value 0 (decisions p))) s h.count,
      )

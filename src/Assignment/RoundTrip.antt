-- ===== src/Assignment/RoundTrip.antt =====
-- Deserialising what was serialised (modules/solver/solver_assignment.hpp).
use paracooba.Prelude.{
  ℕ, zero, suc, ◌+◌, ◌-◌, ◌*◌, ◌/◌, ◌%◌, ◌^◌, ◌<◌, ◌≤◌, ◌≡◌, refl, ap, ◌∙◌, Bool, true, false,
  arith, if◌then◌else◌, ltb, some, List, [], ◌∷◌, ◌++◌, inl, inr, ltb→lt, ◌==◌, get_elem?,
  Bool-cases,
}
use paracooba.Words.{bit, bit_at-mul_add, pow_two_suc, bit_and-zero}
use paracooba.Assignment.{
  full_byte, full_blocks, tail_byte, serialize_assignment, push_bits, deserialize_single,
  deserialize_to_assignment, is_set,
}

-- The values of the getter from index i on.
unfoldable pub values : (ℕ → Bool) → ℕ → ℕ → List Bool
values g i zero = []
values g i (suc n) = g i ∷ values g (suc i) n

-- The number whose n digits are the values from i on, the first one the highest.
packed : (ℕ → Bool) → ℕ → ℕ → ℕ
packed g i zero = 0
packed g i (suc n) = bit (g i) * 2 ^ n + packed g (suc i) n

bit_scaled : (b : Bool) (m : ℕ) → bit b * m ≤ m
bit_scaled true m = omega arith
bit_scaled false m = omega arith

packed-lt : (g : ℕ → Bool) (i n : ℕ) → packed g i n < 2 ^ n
unfolding packed
packed-lt g i zero = omega arith
packed-lt g i (suc n) =
    omega (arith, pow_two_suc n, packed-lt g (suc i) n, bit_scaled (g i) (2 ^ n))

bit_odd : (b : Bool) (d : ℕ) → (d * 2 + bit b) % 2 == 1 ≡ b
bit_odd true d = ground arith
bit_odd false d = ground arith

push_bits-packed :
    (g : ℕ → Bool) (i n d : ℕ) → push_bits n (d * 2 ^ n + packed g i n) ≡ values g i n
unfolding push_bits packed values
push_bits-packed g i zero d = refl
push_bits-packed g i (suc n) d =
    let shape : d * 2 ^ suc n + (bit (g i) * 2 ^ n + packed g (suc i) n)
        ≡ (d * 2 + bit (g i)) * 2 ^ n + packed g (suc i) n =
      rw (pow_two_suc n) (grind arith) in
    rw
      (
        shape,
        bit_at-mul_add n (d * 2 + bit (g i)) (packed g (suc i) n) (packed-lt g (suc i) n),
        bit_odd (g i) d,
        push_bits-packed g (suc i) n (d * 2 + bit (g i)),
      )
      refl

full_byte-packed : (g : ℕ → Bool) (i : ℕ) → full_byte g i ≡ packed g i 8
unfolding packed
full_byte-packed g i =
    let e0 : i + 0 ≡ i = omega arith in
    let e1 : i + 1 ≡ suc i = omega arith in
    let e2 : i + 2 ≡ suc (suc i) = omega arith in
    let e3 : i + 3 ≡ suc (suc (suc i)) = omega arith in
    let e4 : i + 4 ≡ suc (suc (suc (suc i))) = omega arith in
    let e5 : i + 5 ≡ suc (suc (suc (suc (suc i)))) = omega arith in
    let e6 : i + 6 ≡ suc (suc (suc (suc (suc (suc i))))) = omega arith in
    let e7 : i + 7 ≡ suc (suc (suc (suc (suc (suc (suc i)))))) = omega arith in
    rw (e0, e1, e2, e3, e4, e5, e6, e7) (omega arith)

tail_byte-packed :
    (g : ℕ → Bool) (r k i : ℕ) → r < 8 → k ≤ r → i % 8 + k ≡ r → tail_byte g r i k ≡ packed g i k
unfolding tail_byte packed
tail_byte-packed g r zero i l h e = refl
tail_byte-packed g r (suc zero) i l h e =
    let shift : 7 - i % 8 - (8 - r) ≡ 0 = omega arith in rw shift refl
tail_byte-packed g r (suc (suc k)) i l h e =
    let shift : 7 - i % 8 - (8 - r) ≡ suc k = omega arith in
    rw (shift, tail_byte-packed g r (suc k) (suc i) l (omega arith) (omega arith)) refl

push_bits-values : (g : ℕ → Bool) (i n : ℕ) → push_bits n (packed g i n) ≡ values g i n
push_bits-values g i n =
    let e : packed g i n ≡ 0 * 2 ^ n + packed g i n = omega arith in rw e (push_bits-packed g i n 0)

single-short : (g : ℕ → Bool) (i n : ℕ) → n < 8 → deserialize_single (packed g i n) n ≡ values g i n
unfolding deserialize_single
single-short g i n h = let test : ltb n 8 ≡ true = ground arith in rw test (push_bits-values g i n)

single-full : (g : ℕ → Bool) (i n : ℕ) → 8 ≤ n → deserialize_single (full_byte g i) n ≡ values g i 8
unfolding deserialize_single
single-full g i n h =
    let test : ltb n 8 ≡ false = ground arith in
    rw (test, full_byte-packed g i) (push_bits-values g i 8)

values-append : (g : ℕ → Bool) (i m n : ℕ) → values g i m ++ values g (i + m) n ≡ values g i (m + n)
unfolding values
values-append g i zero n =
    let e : i + 0 ≡ i = omega arith in let f : 0 + n ≡ n = omega arith in rw (e, f) refl
values-append g i (suc m) n =
    let e : i + suc m ≡ suc i + m = omega arith in
    let f : suc m + n ≡ suc (m + n) = omega arith in rw (e, f, values-append g (suc i) m n) refl

-- The byte after the full blocks, if there is one.
last_byte : (ℕ → Bool) → ℕ → ℕ → List ℕ
last_byte g r i = if r == 0 then [] else tail_byte g r i r ∷ []

last_byte-back :
    (g : ℕ → Bool) (r i : ℕ)
    → r < 8
    → 0 < r
    → i % 8 ≡ 0
    → deserialize_to_assignment r (last_byte g r i) ≡ some (values g i r, suc ((r - 1) % 8))
unfolding last_byte deserialize_to_assignment
last_byte-back g r i l p a =
    let some_left : (r == 0) ≡ false = ground arith in
    let test : ltb 8 r ≡ false = ground arith in
    let count : suc ((r - 1) % 8) ≡ r = omega arith in
    rw
      (
        some_left,
        count,
        tail_byte-packed g r r i l (omega arith) (omega arith),
        test,
        single-short g i r l,
      )
      refl

blocks-back :
    (g : ℕ → Bool) (k r i n : ℕ)
    → n ≡ 8 * k + r
    → r < 8
    → 0 < n
    → i % 8 ≡ 0
    → deserialize_to_assignment n (full_blocks g i k ++ last_byte g r (i + 8 * k))
      ≡ some (values g i n, suc ((n - 1) % 8))
unfolding full_blocks deserialize_to_assignment
blocks-back g zero r i n e l p a =
    let here : i + 8 * 0 ≡ i = omega arith in
    let all : n ≡ r = omega arith in rw (here, all) (last_byte-back g r i l (omega arith) a)
blocks-back g (suc k) r i n e l p a = elim (Bool-cases (ltb 8 n)) [
  | inl more ↦
      let lt : 8 < n = ltb→lt 8 n more in
      let next : i + 8 * suc k ≡ i + 8 + 8 * k = omega arith in
      let count : (n - 8 - 1) % 8 ≡ (n - 1) % 8 = omega arith in
      let size : 8 + (n - 8) ≡ n = omega arith in
      let rest : deserialize_to_assignment (n - 8)
            (full_blocks g (i + 8) k ++ last_byte g r (i + 8 + 8 * k))
          ≡ some (values g (i + 8) (n - 8), suc ((n - 8 - 1) % 8)) =
        blocks-back g k r (i + 8) (n - 8) (omega arith) l (omega arith) (omega arith) in
      let both : values g i 8 ++ values g (i + 8) (n - 8) ≡ values g i n =
        values-append g i 8 (n - 8) ∙ ap (values g i) size in
      rw (more, next, rest, single-full g i n (omega arith))
        (ap (λ vs. some (vs, suc ((n - 8 - 1) % 8))) both
          ∙ ap (λ m. some (values g i n, suc m)) count)
  | inr last ↦
      let le : ¬ (8 < n) = λ h. ground arith in
      let eight : n ≡ 8 = omega arith in rw (last, single-full g i n (omega arith), eight) refl
]

-- For at least one variable, deserialising a serialised assignment gives the values that the
-- getter gave, in order, and leaves the number of variables of the last byte in the variable
-- count.
pub deserialize-serialize :
    (var_count : ℕ) (g : ℕ → Bool)
    → 0 < var_count
    → deserialize_to_assignment var_count (serialize_assignment var_count g)
      ≡ some (values g 0 var_count, suc ((var_count - 1) % 8))
unfolding serialize_assignment last_byte
deserialize-serialize n g p =
    let rem : n - n / 8 * 8 ≡ n % 8 = omega arith in
    let at : n / 8 * 8 ≡ 0 + 8 * (n / 8) = omega arith in
    rw (rem, at) (blocks-back g (n / 8) (n % 8) 0 n (omega arith) (omega arith) p refl)

-- A literal that is the first of a byte within the vector is reported as not set, whatever the
-- byte.
pub is_set-first :
    (bytes : List ℕ) (k b : ℕ)
    → get_elem? bytes k ≡ some b
    → is_set bytes (suc (8 * k)) ≡ some false
unfolding is_set
is_set-first bytes k b e =
    let byte : (suc (8 * k) - 1) / 8 ≡ k = omega arith in
    let mask : (suc (8 * k) - 1) % 8 ≡ 0 = omega arith in rw (byte, mask, e, bit_and-zero 8 b) refl

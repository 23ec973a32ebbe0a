-- ===== src/Words.antt =====
-- The bit operations that `modules/commonc/path.c` writes with shifts and masks, digit by digit.
use native.Mathlib.Nat.{pow-succ', div-div-eq-div-mul}
use paracooba.Prelude.{
  ℕ, zero, suc, ◌+◌, ◌*◌, ◌/◌, ◌%◌, ◌^◌, ◌≤◌, ◌<◌, ◌≡◌, refl, ◌≢◌, Bool, true, false, arith, ◌==◌,
}

-- The number that a Boolean is converted to.
abbrev pub bit : Bool → ℕ
bit true = 1
bit false = 0

-- x & (1 << k), as a truth value.
unfoldable pub bit_at : ℕ → ℕ → Bool
bit_at zero x = x % 2 == 1
bit_at (suc k) x = bit_at k (x / 2)

-- (x & ~(1 << k)) | (v << k)
unfoldable pub put_bit : ℕ → Bool → ℕ → ℕ
put_bit zero v x = x / 2 * 2 + bit v
put_bit (suc k) v x = put_bit k v (x / 2) * 2 + x % 2

-- x & ~((1 << k) - 1)
unfoldable pub clear_low : ℕ → ℕ → ℕ
clear_low zero x = x
clear_low (suc k) x = clear_low k (x / 2) * 2

-- x >> k
unfoldable pub shift_right : ℕ → ℕ → ℕ
shift_right zero x = x
shift_right (suc k) x = shift_right k (x / 2)

-- x & y, on the w low bits.
unfoldable pub bit_and : (w x y : ℕ) → ℕ
bit_and zero x y = 0
bit_and (suc w) x y = bit_and w (x / 2) (y / 2) * 2 + x % 2 * (y % 2)

pub bit_at-put_bit_self : (k : ℕ) (v : Bool) (x : ℕ) → bit_at k (put_bit k v x) ≡ v
unfolding bit_at put_bit
bit_at-put_bit_self zero true x = ground arith
bit_at-put_bit_self zero false x = ground arith
bit_at-put_bit_self (suc k) v x =
    let half : (put_bit k v (x / 2) * 2 + x % 2) / 2 ≡ put_bit k v (x / 2) = omega arith in
    rw half (bit_at-put_bit_self k v (x / 2))

pub bit_at-put_bit_ne : (k j : ℕ) (v : Bool) (x : ℕ) → k ≢ j → bit_at j (put_bit k v x) ≡ bit_at j x
unfolding bit_at put_bit
bit_at-put_bit_ne zero zero v x h = absurd (h refl)
bit_at-put_bit_ne zero (suc j) true x h =
    let half : (x / 2 * 2 + 1) / 2 ≡ x / 2 = omega arith in rw half
bit_at-put_bit_ne zero (suc j) false x h =
    let half : (x / 2 * 2 + 0) / 2 ≡ x / 2 = omega arith in rw half
bit_at-put_bit_ne (suc k) zero v x h =
    let low : (put_bit k v (x / 2) * 2 + x % 2) % 2 ≡ x % 2 = omega arith in rw low
bit_at-put_bit_ne (suc k) (suc j) v x h =
    let half : (put_bit k v (x / 2) * 2 + x % 2) / 2 ≡ put_bit k v (x / 2) = omega arith in
    rw half (bit_at-put_bit_ne k j v (x / 2) (λ e. h (omega arith)))

pub put_bit-bit_at : (k x : ℕ) → put_bit k (bit_at k x) x ≡ x
unfolding bit_at put_bit
put_bit-bit_at zero x = ground arith
put_bit-bit_at (suc k) x = omega (arith, put_bit-bit_at k (x / 2))

pub put_bit-put_bit : (k : ℕ) (v w : Bool) (x : ℕ) → put_bit k v (put_bit k w x) ≡ put_bit k v x
unfolding put_bit
put_bit-put_bit zero v true x = omega arith
put_bit-put_bit zero v false x = omega arith
put_bit-put_bit (suc k) v w x =
    let half : (put_bit k w (x / 2) * 2 + x % 2) / 2 ≡ put_bit k w (x / 2) = omega arith in
    rw half (omega (arith, put_bit-put_bit k v w (x / 2)))

pub bit_at-clear_low_ge : (k j x : ℕ) → k ≤ j → bit_at j (clear_low k x) ≡ bit_at j x
unfolding bit_at clear_low
bit_at-clear_low_ge zero j x h = refl
bit_at-clear_low_ge (suc k) zero x h = absurd (omega arith)
bit_at-clear_low_ge (suc k) (suc j) x h =
    let half : clear_low k (x / 2) * 2 / 2 ≡ clear_low k (x / 2) = omega arith in
    rw half (bit_at-clear_low_ge k j (x / 2) (omega arith))

pub bit_at-clear_low_lt : (k j x : ℕ) → j < k → bit_at j (clear_low k x) ≡ false
unfolding bit_at clear_low
bit_at-clear_low_lt zero j x h = absurd (omega arith)
bit_at-clear_low_lt (suc k) zero x h =
    let low : clear_low k (x / 2) * 2 % 2 ≡ 0 = omega arith in rw low
bit_at-clear_low_lt (suc k) (suc j) x h =
    let half : clear_low k (x / 2) * 2 / 2 ≡ clear_low k (x / 2) = omega arith in
    rw half (bit_at-clear_low_lt k j (x / 2) (omega arith))

-- The six low bits, where a path keeps its length.
pub put_bit-low_six : (k : ℕ) (v : Bool) (x : ℕ) → 6 ≤ k → put_bit k v x % 64 ≡ x % 64
unfolding put_bit
put_bit-low_six (suc (suc (suc (suc (suc (suc k)))))) v x h = omega arith
put_bit-low_six _ v x h = absurd (omega arith)

pub clear_low-low_six : (k x : ℕ) → 6 ≤ k → clear_low k x % 64 ≡ 0
unfolding clear_low
clear_low-low_six (suc (suc (suc (suc (suc (suc k)))))) x h = omega arith
clear_low-low_six _ x h = absurd (omega arith)

-- A number with the same bits from the sixth on differs only in the low six.
pub bit_at_high : (k x y : ℕ) → 6 ≤ k → x / 64 ≡ y / 64 → bit_at k x ≡ bit_at k y
unfolding bit_at
bit_at_high (suc (suc (suc (suc (suc (suc k)))))) x y h e =
    let same : x / 2 / 2 / 2 / 2 / 2 / 2 ≡ y / 2 / 2 / 2 / 2 / 2 / 2 = omega arith in rw same
bit_at_high _ x y h e = absurd (omega arith)

pub pow_two_suc : (n : ℕ) → 2 ^ suc n ≡ 2 * 2 ^ n
pow_two_suc n = pow-succ' 2 n

pub put_bit-lt : (n k : ℕ) (v : Bool) (x : ℕ) → k < n → x < 2 ^ n → put_bit k v x < 2 ^ n
unfolding put_bit
put_bit-lt zero k v x h b = absurd (omega arith)
put_bit-lt (suc n) zero true x h b = omega (arith, pow_two_suc n)
put_bit-lt (suc n) zero false x h b = omega (arith, pow_two_suc n)
put_bit-lt (suc n) (suc k) v x h b =
    omega
      (arith, pow_two_suc n, put_bit-lt n k v (x / 2) (omega arith) (omega (arith, pow_two_suc n)))

pub clear_low-le : (k x : ℕ) → clear_low k x ≤ x
unfolding clear_low
clear_low-le zero x = omega arith
clear_low-le (suc k) x = omega (arith, clear_low-le k (x / 2))

-- Two numbers below 2 ^ n with the same n bits are equal.
pub eq_of_bits :
    (n x y : ℕ) → x < 2 ^ n → y < 2 ^ n → ((k : ℕ) → k < n → bit_at k x ≡ bit_at k y) → x ≡ y
unfolding bit_at
eq_of_bits zero x y hx hy h = omega arith
eq_of_bits (suc n) x y hx hy h = omega (
  arith,
  pow_two_suc n,
  eq_of_bits n (x / 2) (y / 2) (omega (arith, pow_two_suc n)) (omega (arith, pow_two_suc n))
      (λ k l. h (suc k) (omega arith)),
  low_bit x y (h 0 (omega arith)),
)
  where
    low_bit : (a b : ℕ) → (a % 2 == 1) ≡ (b % 2 == 1) → a % 2 ≡ b % 2
    low_bit a b e = ground arith

pub shift_right_lem : (k x : ℕ) → shift_right k x ≡ x / 2 ^ k
unfolding shift_right
shift_right_lem zero x = omega arith
shift_right_lem (suc k) x =
    rw (shift_right_lem k (x / 2), pow_two_suc k) (div-div-eq-div-mul x 2 (2 ^ k))

-- The bit above a remainder.
pub bit_at-mul_add : (n d r : ℕ) → r < 2 ^ n → bit_at n (d * 2 ^ n + r) ≡ (d % 2 == 1)
unfolding bit_at
bit_at-mul_add zero d r h = let e : d * 1 + r ≡ d = omega arith in rw e
bit_at-mul_add (suc n) d r h =
    let half : (d * 2 ^ suc n + r) / 2 ≡ d * 2 ^ n + r / 2 = rw (pow_two_suc n) (grind arith) in
    rw half (bit_at-mul_add n d (r / 2) (omega (arith, pow_two_suc n)))

pub bit_and-zero : (w x : ℕ) → bit_and w x 0 ≡ 0
unfolding bit_and
bit_and-zero zero x = refl
bit_and-zero (suc w) x = omega (arith, bit_and-zero w (x / 2))

pub bit_at_lem : (k x : ℕ) → bit_at k x ≡ (x / 2 ^ k % 2 == 1)
unfolding bit_at
bit_at_lem zero x = let e : x / 1 ≡ x = omega arith in rw e refl
bit_at_lem (suc k) x = rw (bit_at_lem k (x / 2), pow_two_suc k, div-div-eq-div-mul x 2 (2 ^ k)) refl

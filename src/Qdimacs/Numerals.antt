-- ===== src/Qdimacs/Numerals.antt =====
-- The automaton on the digits of a number (modules/solver_qbf/parser_qbf.cpp).
use paracooba.Prelude.{
  ℕ, ◌+◌, ◌-◌, ◌*◌, ◌^◌, ◌≤◌, ◌<◌, ◌≡◌, refl, ◌∙◌, Bool, true, false, not, ◌&&◌, List, [], ◌∷◌,
  ◌++◌, ◌==◌, ltb, arith,
}
use paracooba.Qdimacs.{
  Parser, Mode, literal, next, minus, run, step, is_digit, is_blank, add_digit, end_literal,
  take_number, at_next, at_number, none, is_none, new_line, goes_on,
}
use paracooba.Qdimacs.Text.{Numeral, value_from, value, AllDigits, IsNumeral, digits, numeral_text}

pub value_from-le : (n : ℕ) (ds : List ℕ) → n ≤ value_from n ds
value_from-le n [] = omega arith
value_from-le n (d ∷ ds) = omega (arith, value_from-le (10 * n + d) ds)

pub is_digit-digit : (d : ℕ) → d ≤ 9 → is_digit (48 + d) ≡ true
unfolding is_digit
is_digit-digit d h = ground arith

-- A step on a digit in the three modes that read numbers.
pub add_digit-digit :
    (n d : ℕ) (mode : ℕ → Mode) (p : Parser)
    → 10 * n + d < 2 ^ 31
    → add_digit n (48 + d) mode p ≡ goes_on (mode (10 * n + d)) p
add_digit-digit n d mode p h =
    let e : 10 * n + (48 + d - 48) ≡ 10 * n + d = omega arith in
    let small : ltb (10 * n + d) (2 ^ 31) ≡ true = ground arith in rw (e, small) refl

-- One character.
pub run-step :
    (force : Bool) (mode : Mode) (ch : ℕ) (t : List ℕ) (p : Parser) (mode2 : Mode) (q : Parser)
    → step force mode ch p ≡ goes_on mode2 q
    → run force mode (ch ∷ t) p ≡ run force mode2 t q
unfolding run
run-step force mode ch t p mode2 q e = rw (run, e) refl

-- Digits in any of them.
pub run-digits :
    (force : Bool) (mode : ℕ → Mode) (n : ℕ) (ds t : List ℕ) (p : Parser)
    → ((k ch : ℕ) → is_digit ch ≡ true → step force (mode k) ch p ≡ add_digit k ch mode p)
    → AllDigits ds
    → value_from n ds < 2 ^ 31
    → run force (mode n) (digits ds ++ t) p ≡ run force (mode (value_from n ds)) t p
run-digits force mode n [] t p s a h = refl
run-digits force mode n (d ∷ ds) t p s a h =
    let e = add_digit-digit n d mode p (omega (arith, value_from-le (10 * n + d) ds)) in
    run-step force (mode n) (48 + d) _ p _ p (s n (48 + d) (is_digit-digit d a.0) ∙ e)
    ∙ run-digits force mode (10 * n + d) ds t p s a.1 h

run-literal :
    (force negative : Bool) (n : ℕ) (ds t : List ℕ) (p : Parser)
    → AllDigits ds
    → value_from n ds < 2 ^ 31
    → run force (literal negative n) (digits ds ++ t) p
      ≡ run force (literal negative (value_from n ds)) t p
unfolding step
run-literal force negative n ds t p =
    run-digits force (literal negative) n ds t p (λ k ch e. rw e refl)

-- The state has room for this number.
pub record Accepts (force : Bool) (n : ℕ) (p : Parser) : Type 0 where
  pub bounded : n ≤ p.num_vars
  pub room : (not force && is_none p.quantifying && p.clauses_read == p.num_clauses) ≡ false

pub end_literal-Accepts :
    (force negative : Bool) (n : ℕ) (p : Parser)
    → Accepts force n p
    → end_literal force negative n p ≡ goes_on next (take_number p.quantifying negative n p)
unfolding end_literal
end_literal-Accepts force negative n p a =
    let b : ltb p.num_vars n ≡ false = ground (arith, a.bounded) in rw (b, a.room) refl

-- The first digit of a number.
at_number-digit :
    (negative : Bool) (d : ℕ) (p : Parser)
    → d ≤ 9
    → at_number negative (48 + d) p ≡ goes_on (literal negative d) p
unfolding at_number
at_number-digit negative d p h =
    let e : (48 + d == 101) ≡ false = ground arith in
    let a : (48 + d == 97) ≡ false = ground arith in
    let s : 48 + d - 48 ≡ d = omega arith in rw (e, a, is_digit-digit d h, s) refl

at_next-digit : (d : ℕ) (p : Parser) → d ≤ 9 → at_next (48 + d) p ≡ goes_on (literal false d) p
unfolding at_next is_blank
at_next-digit d p h =
    let a : (48 + d == 10) ≡ false = ground arith in
    let b : (48 + d == 32) ≡ false = ground arith in
    let c : (48 + d == 9) ≡ false = ground arith in
    let e : (48 + d == 13) ≡ false = ground arith in
    let f : (48 + d == 99) ≡ false = ground arith in
    let g : (48 + d == 45) ≡ false = ground arith in
    rw (a, b, c, e, f, g) (at_number-digit false d p h)

-- A number and a space.
pub run-number :
    (force : Bool) (n : Numeral) (t : List ℕ) (p : Parser)
    → IsNumeral n
    → Accepts force (value n) p
    → run force next (numeral_text n (32 ∷ t)) p
      ≡ run force next t (take_number p.quantifying false (value n) p)
unfolding step is_blank
run-number force n t p h a =
    run-step force next (48 + n.first) _ p _ p (at_next-digit n.first p h.first)
    ∙ run-literal force false n.first n.rest (32 ∷ t) p h.rest h.small
    ∙ run-step force (literal false (value n)) 32 t p _ _
        (end_literal-Accepts force false (value n) p a)

-- The same with a sign.
pub run-negative :
    (force : Bool) (n : Numeral) (t : List ℕ) (p : Parser)
    → IsNumeral n
    → 1 ≤ n.first
    → p.quantifying ≡ none
    → Accepts force (value n) p
    → run force next (45 ∷ numeral_text n (32 ∷ t)) p
      ≡ run force next t (take_number p.quantifying true (value n) p)
unfolding step is_blank at_next
run-negative force n t p h l q a =
    let zero_not : (48 + n.first == 48) ≡ false = ground arith in
    run-step force next 45 _ p minus p (simp q refl)
    ∙ run-step force minus (48 + n.first) _ p _ p
        (rw zero_not (at_number-digit true n.first p h.first))
    ∙ run-literal force true n.first n.rest (32 ∷ t) p h.rest h.small
    ∙ run-step force (literal true (value n)) 32 t p _ _
        (end_literal-Accepts force true (value n) p a)

-- The zero that ends a block or a clause, with the end of the line.
pub run-zero :
    (force : Bool) (t : List ℕ) (p : Parser)
    → Accepts force 0 p
    → run force next (48 ∷ 10 ∷ t) p
      ≡ run force next t (take_number p.quantifying false 0 (new_line p))
unfolding step is_blank
run-zero force t p a =
    run-step force next 48 _ p _ p (at_next-digit 0 p (omega arith))
    ∙ run-step force (literal false 0) 10 t p _ _ (
        end_literal-Accepts force false 0 (new_line p)
          (record { bounded = a.bounded; room = a.room }))

-- ===== src/Cubes/Children.antt =====
-- The cubes of the children of a source (modules/solver_qbf/qbf_cube_source.cpp).
use paracooba.Prelude.{
  ℕ, zero, suc, ◌+◌, ◌^◌, ◌<◌, ◌≤◌, ◌≡◌, ◌≢◌, refl, sym, ap, ◌∙◌, Bool, true, false, Option, none,
  some, List, [], ◌∷◌, ◌++◌, length, get_elem?, arith, Bool-cases, inl, inr, if◌then◌else◌, ◌==◌,
  ◌⊎◌, ◌/◌, ◌%◌, map, length-map,
}
use paracooba.Words.{bit_at, bit_at_lem, eq_of_bits}
use paracooba.Cubes.{
  ℤ, pos, negsuc, make_lit_pos, make_lit_neg, Source, children, children_from,
  assign_to_splitting_literals,
}

-- The cube of an entry of a list of sources.
abbrev pub cube_of : Option Source → Option (List ℤ)
cube_of none = none
cube_of (some s) = some s.current_cube

sign : Bool → ℤ → ℤ
sign b l = if b then make_lit_pos l else make_lit_neg l

sign-sign : (a b : Bool) (l : ℤ) → sign a (sign b l) ≡ sign a l
unfolding sign
sign-sign true true (pos zero) = refl
sign-sign true true (pos (suc n)) = refl
sign-sign true true (negsuc n) = refl
sign-sign true false (pos zero) = refl
sign-sign true false (pos (suc n)) = refl
sign-sign true false (negsuc n) = refl
sign-sign false true (pos zero) = refl
sign-sign false true (pos (suc n)) = refl
sign-sign false true (negsuc n) = refl
sign-sign false false (pos zero) = refl
sign-sign false false (pos (suc n)) = refl
sign-sign false false (negsuc n) = refl

pub length-assign : (n : ℕ) (ls : List ℤ) → length (assign_to_splitting_literals n ls) ≡ length ls
unfolding assign_to_splitting_literals
length-assign n [] = refl
length-assign n (l ∷ ls) = ap suc (length-assign n ls)

assign-assign :
    (n m : ℕ) (ls : List ℤ)
    → assign_to_splitting_literals n (assign_to_splitting_literals m ls)
      ≡ assign_to_splitting_literals n ls
unfolding assign_to_splitting_literals sign
assign-assign n m [] = refl
assign-assign n m (l ∷ ls) =
    rw
      (
        length-assign m ls,
        assign-assign n m ls,
        sign-sign (bit_at (length ls) n) (bit_at (length ls) m) l,
      )
      refl

children_from-cube :
    (k first i : ℕ) (s : Source)
    → i < k
    → cube_of (get_elem? (children_from k first s).0 i)
      ≡ some (s.current_cube ++ assign_to_splitting_literals (first + i) s.splitting_literals)
unfolding children_from
children_from-cube zero first i s h = absurd (omega arith)
children_from-cube (suc k) first zero s h = let e : first + 0 ≡ first = omega arith in rw e refl
children_from-cube (suc k) first (suc i) s h =
    let e : first + suc i ≡ suc first + i = omega arith in
    rw e (
      children_from-cube k (suc first) i
        (record s { splitting_literals = assign_to_splitting_literals first s.splitting_literals })
        (omega arith)
      ∙ ap (λ ls. some (s.current_cube ++ ls))
          (assign-assign (suc first + i) first s.splitting_literals))

children-assigned :
    (s : Source) (i : ℕ)
    → i < s.split_count
    → cube_of (get_elem? (children s).0 i)
      ≡ some (s.current_cube ++ assign_to_splitting_literals i s.splitting_literals)
unfolding children
children-assigned s i h =
    children_from-cube s.split_count 0 i s h
    ∙ ap (λ n. some (s.current_cube ++ assign_to_splitting_literals n s.splitting_literals))
        (omega arith)

-- The variable of a literal.
unfoldable pub variable : ℤ → ℕ
variable (pos n) = n
variable (negsuc n) = suc n

-- The variable n, or its negation.
unfoldable pub literal : (positive : Bool) → ℕ → ℤ
literal true n = pos n
literal false zero = pos zero
literal false (suc n) = negsuc n

-- The variables with the signs of the binary digits of i, the first one's being the highest.
unfoldable pub with_digits : ℕ → List ℕ → List ℤ
unfolding literal
with_digits i [] = []
with_digits i (v ∷ vs) = literal (i / 2 ^ length vs % 2 == 1) v ∷ with_digits i vs

sign-literal : (b : Bool) (l : ℤ) → sign b l ≡ literal b (variable l)
unfolding sign literal variable
sign-literal true (pos n) = refl
sign-literal true (negsuc n) = refl
sign-literal false (pos zero) = refl
sign-literal false (pos (suc n)) = refl
sign-literal false (negsuc n) = refl

assign-with_digits :
    (i : ℕ) (ls : List ℤ) → assign_to_splitting_literals i ls ≡ with_digits i (map variable ls)
unfolding assign_to_splitting_literals with_digits sign
assign-with_digits i [] = refl
assign-with_digits i (l ∷ ls) =
    rw (assign-with_digits i ls, length-map ls variable, ← (bit_at_lem (length ls) i))
      (ap (λ x. x ∷ with_digits i (map variable ls)) (sign-literal (bit_at (length ls) i) l))

-- For each i below the split count, child i of a source carries the cube of the source followed
-- by the variables of the splitting literals, in their order, each of them positive if its binary
-- digit of i is 1 and negated if it is 0, where the first one has the highest digit; whatever
-- signs the literals had.
pub children-cube :
    (s : Source) (i : ℕ)
    → i < s.split_count
    → cube_of (get_elem? (children s).0 i)
      ≡ some (s.current_cube ++ with_digits i (map variable s.splitting_literals))
children-cube s i h =
    children-assigned s i h
    ∙ ap (λ ls. some (s.current_cube ++ ls)) (assign-with_digits i s.splitting_literals)

children_from-length : (k first : ℕ) (s : Source) → length (children_from k first s).0 ≡ k
unfolding children_from
children_from-length zero first s = refl
children_from-length (suc k) first s = ap suc (
    children_from-length k (suc first)
      (record s { splitting_literals = assign_to_splitting_literals first s.splitting_literals }))

pub length-children : (s : Source) → length (children s).0 ≡ s.split_count
unfolding children
length-children s = children_from-length s.split_count 0 s

-- Every literal of the list is a variable, that is, not 0.
pub data AllNonzero : List ℤ → Type 0 where
  no_literal : AllNonzero []
  one_literal : {l : ℤ} {ls : List ℤ} → l ≢ pos 0 → AllNonzero ls → AllNonzero (l ∷ ls)

sign-injective : (a b : Bool) (l : ℤ) → l ≢ pos 0 → sign a l ≡ sign b l → a ≡ b
unfolding sign
sign-injective true true l h e = refl
sign-injective false false l h e = refl
sign-injective a b (pos zero) h e = absurd (h refl)
sign-injective true false (pos (suc n)) h e = cc
sign-injective false true (pos (suc n)) h e = cc
sign-injective true false (negsuc n) h e = cc
sign-injective false true (negsuc n) h e = cc

head_or : ℤ → List ℤ → ℤ
head_or d [] = d
head_or d (l ∷ ls) = l

tail_of : List ℤ → List ℤ
tail_of [] = []
tail_of (l ∷ ls) = ls

option_or : List ℤ → Option (List ℤ) → List ℤ
option_or d none = d
option_or d (some c) = c

Nat-cases : (k n : ℕ) → (k ≡ n) ⊎ (k ≢ n)
Nat-cases k n = elim (Bool-cases (k == n)) [
  | inl same ↦ inl (ground arith)
  | inr other ↦ inr (λ e. ground arith)
]

assign-bits :
    (ls : List ℤ) (n m k : ℕ)
    → AllNonzero ls
    → assign_to_splitting_literals n ls ≡ assign_to_splitting_literals m ls
    → k < length ls
    → bit_at k n ≡ bit_at k m
unfolding assign_to_splitting_literals head_or tail_of sign
assign-bits [] n m k a e h = absurd (omega arith)
assign-bits (l ∷ ls) n m k (one_literal p a) e h = elim (Nat-cases k (length ls)) [
  | inl last ↦
      rw last (sign-injective (bit_at (length ls) n) (bit_at (length ls) m) l p (ap (head_or l) e))
  | inr other ↦ assign-bits ls n m k a (ap tail_of e) (omega arith)
]

append-left : (xs ys zs : List ℤ) → xs ++ ys ≡ xs ++ zs → ys ≡ zs
unfolding tail_of
append-left [] ys zs e = e
append-left (x ∷ xs) ys zs e = append-left xs ys zs (ap tail_of e)

assign-injective :
    (ls : List ℤ) (n m : ℕ)
    → AllNonzero ls
    → n < 2 ^ length ls
    → m < 2 ^ length ls
    → assign_to_splitting_literals n ls ≡ assign_to_splitting_literals m ls
    → n ≡ m
assign-injective ls n m a hn hm e =
    eq_of_bits (length ls) n m hn hm (λ k h. assign-bits ls n m k a e h)

-- Provided that the splitting literals are not 0 and that there are at most 2 to the power of
-- their number of children, two children with the same cube are the same child.
pub children-distinct :
    (s : Source) (i j : ℕ)
    → AllNonzero s.splitting_literals
    → s.split_count ≤ 2 ^ length s.splitting_literals
    → i < s.split_count
    → j < s.split_count
    → cube_of (get_elem? (children s).0 i) ≡ cube_of (get_elem? (children s).0 j)
    → i ≡ j
unfolding option_or
children-distinct s i j a c hi hj e =
    assign-injective s.splitting_literals i j a (omega arith) (omega arith) (
      append-left s.current_cube (assign_to_splitting_literals i s.splitting_literals)
        (assign_to_splitting_literals j s.splitting_literals)
        (ap (option_or s.current_cube)
          (sym (children-assigned s i hi) ∙ e ∙ children-assigned s j hj)))

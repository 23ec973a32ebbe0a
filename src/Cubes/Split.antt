-- ===== src/Cubes/Split.antt =====
-- What a split of the quantifier tree offers (modules/solver_qbf/qbf_cube_source.cpp).
use paracooba.Prelude.{
  ℕ, zero, suc, ◌+◌, ◌<◌, ◌≤◌, ◌≡◌, refl, ap, ◌∙◌, inl, inr, true, false, Option, none, some, List,
  [], ◌∷◌, ◌++◌, length, drop, get_elem?, ltb, ltb→lt, arith, Bool-cases, if◌then◌else◌,
}
use paracooba.Cubes.{
  ℤ, pos, negsuc, neg, Quantifier, Source, SplitResult, split_length, split_once, split_many,
  split_by, split, collect, is_empty, left_child_source, right_child_source, current_index,
}
use paracooba.Cubes.Children.{cube_of}

-- A result is that of the split on one literal, or offers extended children.
data Offers (s : Source) (qs : List Quantifier) (r : SplitResult) : Type 0 where
  pair : r ≡ split_once s (drop (length s.current_cube) qs) → Offers s qs r
  many :
      r.has_split ≡ true
      → r.left ≡ false
      → r.right ≡ false
      → r.extended ≡ true
      → length s.current_cube < length qs
      → Offers s qs r

split_many-offers :
    (count n : ℕ) (s : Source) (qs : List Quantifier)
    → length s.current_cube < length qs
    → Offers s qs (split_many count n s (drop (length s.current_cube) qs))
unfolding split_many
split_many-offers count n s qs h =
    elim (is_empty (collect n (drop (length s.current_cube) qs)))
      as (λ b. Offers s qs (
        if b then split_once s (drop (length s.current_cube) qs) else record {
          source = record s {
            splitting_literals = collect n (drop (length s.current_cube) qs);
            split_count = count;
          };
          has_split = true;
          left = false;
          right = false;
          extended = true;
        })) [ true ↦ pair refl | false ↦ many refl refl refl refl h ]

split_by-offers : (e : Option ℤ) (qs : List Quantifier) (s : Source) → Offers s qs (split_by e qs s)
unfolding split_by
split_by-offers none qs s = pair refl
split_by-offers (some (pos zero)) qs s = pair refl
split_by-offers (some (negsuc n)) qs s = pair refl
split_by-offers (some (pos (suc n))) qs s =
    elim (Bool-cases (ltb (length s.current_cube + split_length (pos (suc n))) (length qs))) [
      | inl fits ↦ rw fits (
          split_many-offers (suc n) (split_length (pos (suc n))) s qs (
            omega (
              arith,
              ltb→lt (length s.current_cube + split_length (pos (suc n))) (length qs) fits,
            )))
      | inr short ↦ rw short (pair refl)
    ]

offers-left :
    (s : Source) (qs : List Quantifier) (r : SplitResult)
    → Offers s qs r
    → r.left ≡ true
    → r ≡ split_once s (drop (length s.current_cube) qs)
offers-left s qs r (pair e) l = e
offers-left s qs r (many a b c d h) l = cc

option_or : Quantifier → Option Quantifier → Quantifier
option_or d none = d
option_or d (some q) = q

drop-head :
    (n : ℕ) (qs : List Quantifier) (q : Quantifier)
    → get_elem? qs n ≡ some q
    → drop n qs ≡ q ∷ drop (suc n) qs
unfolding option_or
drop-head n [] q e = cc
drop-head zero (x ∷ qs) q e = ap (λ hd. hd ∷ qs) (ap (option_or x) e)
drop-head (suc n) (x ∷ qs) q e = drop-head n qs q e

-- A split that offers a left child, at a depth where the prefix has a quantifier, splits on that
-- quantifier: the cube of the left child ends with the negated literal, that of the right child
-- with the literal itself.
pub split-children :
    (int_splits : List ℤ) (qs : List Quantifier) (s : Source) (q : Quantifier)
    → (split int_splits qs s).left ≡ true
    → get_elem? qs (length s.current_cube) ≡ some q
    → (cube_of (left_child_source (split int_splits qs s).source)
        ≡ some (s.current_cube ++ (neg q.alit ∷ [])))
      × (cube_of (right_child_source (split int_splits qs s).source)
          ≡ some (s.current_cube ++ (q.alit ∷ [])))
unfolding split left_child_source right_child_source split_once
split-children int_splits qs s q l e =
    let entry = get_elem? int_splits (current_index 0 int_splits (length s.current_cube)) in
    let once : split_by entry qs s ≡ split_once s (q ∷ drop (suc (length s.current_cube)) qs) =
      offers-left s qs (split_by entry qs s) (split_by-offers entry qs s) l
      ∙ ap (split_once s) (drop-head (length s.current_cube) qs q e) in
    (
      ap (λ r. cube_of (left_child_source r.source)) once,
      ap (λ r. cube_of (right_child_source r.source)) once,
    )

drop-all : (n : ℕ) (qs : List Quantifier) → length qs ≤ n → drop n qs ≡ []
drop-all zero [] h = refl
drop-all (suc n) [] h = refl
drop-all zero (q ∷ qs) h = absurd (omega arith)
drop-all (suc n) (q ∷ qs) h = drop-all n qs (omega arith)

-- Once the cube has at least as many literals as the prefix has quantifiers, a split is refused,
-- offers no child and changes nothing.
pub split-end :
    (int_splits : List ℤ) (qs : List Quantifier) (s : Source)
    → length qs ≤ length s.current_cube
    → split int_splits qs s
      ≡ record { source = s; has_split = false; left = false; right = false; extended = false }
unfolding split split_once
split-end int_splits qs s h =
    elim (split_by-offers
      (get_elem? int_splits (current_index 0 int_splits (length s.current_cube))) qs s) [
        | pair e ↦ e ∙ ap (split_once s) (drop-all (length s.current_cube) qs h)
        | many a b c d l ↦ absurd (omega arith)
      ]

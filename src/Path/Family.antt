-- ===== src/Path/Family.antt =====
-- Parents and siblings (modules/commonc/path.c).
use paracooba.Prelude.{
  ℕ, suc, ◌-◌, ◌≤◌, ◌<◌, ◌≡◌, refl, sym, ap, ◌∙◌, Bool, true, false, not, arith,
}
use paracooba.Words.{put_bit, put_bit-put_bit, put_bit-bit_at}
use paracooba.Path.{
  max_length, length_field, path_field, truth, get_assignment, get_parent, get_sibling, get_next,
}
use paracooba.Path.Fields.{
  decisions, assignments, assignments-congr, get_assignment-congr, get_assignment_lem,
  length-set_assignment, path-set_assignment, get_assignment-set_assignment,
}
use paracooba.Path.Next.{path-get_next, length-get_next, last_decision, assignments-get_next}

eq_of_fields : (p q : ℕ) → length_field p ≡ length_field q → path_field p ≡ path_field q → p ≡ q
eq_of_fields p q l e = omega arith

length-get_parent : (p : ℕ) → length_field (get_parent p) ≡ length_field p - 1
unfolding get_parent
length-get_parent p = omega arith

path-get_parent : (p : ℕ) → path_field (get_parent p) ≡ path_field p
unfolding get_parent
path-get_parent p = omega arith

-- The parent of a child of a path with room has the length and the decisions of the path.
pub get_parent-get_next :
    (p n : ℕ)
    → length_field p < max_length
    → (length_field (get_parent (get_next p n)) ≡ length_field p)
      × (decisions (get_parent (get_next p n)) ≡ decisions p)
get_parent-get_next p n h = (
  same_length,
  ap (assignments (get_parent (get_next p n))) same_length
      ∙ (assignments-congr (get_parent (get_next p n)) (get_next p n) (length_field p) (omega arith)
            (path-get_parent (get_next p n))
          ∙ assignments-get_next p n h),
)
  where
    same_length : length_field (get_parent (get_next p n)) ≡ length_field p
    same_length = omega (arith, length-get_parent (get_next p n), length-get_next p n h)

-- For a path with room, a step from the parent of a child gives the same path as that step from
-- the path itself.
pub get_next-get_parent-get_next :
    (p n m : ℕ)
    → length_field p < max_length
    → get_next (get_parent (get_next p n)) m ≡ get_next p m
get_next-get_parent-get_next p n m h =
    eq_of_fields _ _ (omega (arith, length-get_next q m room, length-get_next p m h, same_length)) (
      path-get_next q m room
      ∙ (rw (same_length, path-get_parent (get_next p n), path-get_next p n h)
            (put_bit-put_bit (58 - suc (length_field p)) (truth m) (truth n) (path_field p))
          ∙ sym (path-get_next p m h)))
  where
    q : ℕ
    q = get_parent (get_next p n)

    same_length : length_field (get_parent (get_next p n)) ≡ length_field p
    same_length = (get_parent-get_next p n h).0

    room : length_field (get_parent (get_next p n)) < max_length
    room = omega (arith, same_length)

-- The parent of a child of a path with room still has the bit of the side that was left, after
-- its end.
pub get_parent_keeps_bit :
    (p n : ℕ)
    → length_field p < max_length
    → get_assignment (get_parent (get_next p n)) (suc (length_field p)) ≡ truth n
get_parent_keeps_bit p n h =
    get_assignment-congr (get_parent (get_next p n)) (get_next p n) (suc (length_field p))
      (omega arith) (omega arith) (path-get_parent (get_next p n))
    ∙ last_decision p n h

module _ (p : ℕ) (low : 1 ≤ length_field p) (high : length_field p ≤ max_length) where
  length-get_sibling : length_field (get_sibling p) ≡ length_field p
  unfolding get_sibling
  length-get_sibling = length-set_assignment p (length_field p) _ low high

  path-get_sibling :
      path_field (get_sibling p)
      ≡ put_bit (58 - length_field p) (not (get_assignment p (length_field p))) (path_field p)
  unfolding get_sibling
  path-get_sibling = path-set_assignment p (length_field p) _ low high

  decision-get_sibling :
      get_assignment (get_sibling p) (length_field p) ≡ not (get_assignment p (length_field p))
  unfolding get_sibling
  decision-get_sibling = ground (
    arith,
    get_assignment-set_assignment p (length_field p) (length_field p)
        (not (get_assignment p (length_field p))) low high low high,
  )

not-truth : (n : ℕ) → n < 2 → not (truth n) ≡ truth (1 - n)
not-truth n b = ground arith

-- For a path with room, the sibling of the child on the side 0 or 1 is the child on the other
-- side.
pub get_sibling-get_next :
    (p n : ℕ)
    → length_field p < max_length
    → n < 2
    → get_sibling (get_next p n) ≡ get_next p (1 - n)
get_sibling-get_next p n h b =
    eq_of_fields _ _
      (omega
        (arith, length-get_sibling c low high, length-get_next p n h, length-get_next p (1 - n) h))
      (path-get_sibling c low high
        ∙ (rw (len, last_decision p n h, path-get_next p n h, not-truth n b)
              (put_bit-put_bit (58 - suc (length_field p)) (truth (1 - n)) (truth n) (path_field p))
            ∙ sym (path-get_next p (1 - n) h)))
  where
    c : ℕ
    c = get_next p n

    len : length_field (get_next p n) ≡ suc (length_field p)
    len = length-get_next p n h

    low : 1 ≤ length_field (get_next p n)
    low = omega (arith, len)

    high : length_field (get_next p n) ≤ max_length
    high = omega (arith, len)

not-not : (b : Bool) → not (not b) ≡ b
not-not true = refl
not-not false = refl

-- Taking the sibling twice changes nothing.
pub get_sibling-get_sibling :
    (p : ℕ) → 1 ≤ length_field p → length_field p ≤ max_length → get_sibling (get_sibling p) ≡ p
get_sibling-get_sibling p low high =
    eq_of_fields _ _ (omega (arith, len, length-get_sibling (get_sibling p) low' high')) (
      path-get_sibling (get_sibling p) low' high'
      ∙ rw
          (
            len,
            decision-get_sibling p low high,
            path-get_sibling p low high,
            not-not,
            get_assignment_lem p (length_field p) low high,
          )
          (put_bit-put_bit (58 - length_field p) _ _ (path_field p)
            ∙ put_bit-bit_at (58 - length_field p) (path_field p)))
  where
    len : length_field (get_sibling p) ≡ length_field p
    len = length-get_sibling p low high

    low' : 1 ≤ length_field (get_sibling p)
    low' = omega (arith, len)

    high' : length_field (get_sibling p) ≤ max_length
    high' = omega (arith, len)

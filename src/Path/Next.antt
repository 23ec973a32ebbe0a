-- ===== src/Path/Next.antt =====
-- The step from a task to its children, `parac_path_get_next` of `modules/commonc/path.c`.
use mathlib.Core.Path.{ap₂}
use native.Mathlib.Decide.{dec_lt}
use paracooba.Prelude.{
  ℕ, suc, ◌+◌, ◌-◌, ◌*◌, ◌/◌, ◌%◌, ◌^◌, ◌≤◌, ◌<◌, ◌≡◌, ap, ◌∙◌, true, ◌||◌, ◌++◌, [], ◌∷◌, arith,
  ◌==◌, Bool-cases, inl, inr, ◌⊎◌,
}
use paracooba.Words.{put_bit}
use paracooba.Path.{
  Rep, max_length, overlength_tag, length_field, set_length_field, path_field, overlength_length,
  left_right, set_left_right, set_overlength_length, truth, is_overlength, is_extended, path_length,
  get_assignment, set_assignment, get_next,
}
use paracooba.Path.Fields.{
  IsNormal, decisions, assignments, assignments-congr, assignments-set_assignment,
  get_assignment-congr, path-set_assignment, set_assignment-lt, get_assignment-set_assignment,
}

-- What `get_next` does at a path that still has room.
pub get_next_normal :
    (p n : ℕ)
    → length_field p < max_length
    → get_next p n
      ≡ set_length_field (suc (length_field p)) (set_assignment p (suc (length_field p)) (truth n))
unfolding get_next
get_next_normal p n h =
    let e : length_field p + 1 ≡ suc (length_field p) = omega arith in ground (arith, e)

module _ (p n : ℕ) (h : length_field p < max_length) where
  child_bits :
      path_field (get_next p n) ≡ path_field (set_assignment p (suc (length_field p)) (truth n))
  child_bits = omega (arith, get_next_normal p n h)

  pub path-get_next :
      path_field (get_next p n) ≡ put_bit (58 - suc (length_field p)) (truth n) (path_field p)
  path-get_next =
      child_bits
      ∙ path-set_assignment p (suc (length_field p)) (truth n) (omega arith) (omega arith)

  pub length-get_next : length_field (get_next p n) ≡ suc (length_field p)
  length-get_next = omega (arith, get_next_normal p n h)

  pub get_next-IsNormal : IsNormal p → IsNormal (get_next p n)
  get_next-IsNormal v = record {
    short = omega (arith, length-get_next);
    word =
        let s : set_assignment p (suc (length_field p)) (truth n) < 2 ^ 64 =
          set_assignment-lt p _ (truth n) (omega arith) (omega arith) v.word in
        omega (arith, get_next_normal p n h, s);
  }

  pub last_decision : get_assignment (get_next p n) (suc (length_field p)) ≡ truth n
  last_decision =
      get_assignment-congr (get_next p n) (set_assignment p (suc (length_field p)) (truth n))
        (suc (length_field p)) (omega arith) (omega arith) child_bits
      ∙ (get_assignment-set_assignment p (suc (length_field p)) (suc (length_field p)) (truth n)
            (omega arith) (omega arith) (omega arith) (omega arith)
          ∙ ground arith)

  pub assignments-get_next : assignments (get_next p n) (length_field p) ≡ decisions p
  assignments-get_next =
      assignments-congr (get_next p n) _ (length_field p) (omega arith) child_bits
      ∙ assignments-set_assignment p (length_field p) (suc (length_field p)) (truth n) (omega arith)
          (omega arith)

  -- For a path with room for another decision, the child's decisions are the parent's followed by
  -- the side taken.
  pub decisions-get_next : decisions (get_next p n) ≡ decisions p ++ truth n ∷ []
  decisions-get_next =
      ap (assignments (get_next p n)) length-get_next
      ∙ ap₂ (λ bs b. bs ++ b ∷ []) assignments-get_next last_decision

-- A step beyond a full path: the length lives in the overlength field from here on.
full_rep :
    (p n : ℕ)
    → length_field p ≡ max_length
    → get_next p n
      ≡ set_left_right n
          (set_overlength_length (max_length + 1) (set_length_field overlength_tag p))
unfolding get_next
full_rep p n h = ground arith

pub get_next_full :
    (p n : ℕ)
    → length_field p ≡ max_length
    → n < 2
    → (length_field (get_next p n) ≡ overlength_tag)
      × (overlength_length (get_next p n) ≡ max_length + 1)
      × (left_right (get_next p n) ≡ n)
get_next_full p n h b =
    (omega (arith, full_rep p n h), omega (arith, full_rep p n h), omega (arith, full_rep p n h))

long_rep :
    (p n : ℕ)
    → (is_overlength p || is_extended p) ≡ true
    → get_next p n
      ≡ set_left_right n
          (set_overlength_length (overlength_length p + 1) (set_length_field overlength_tag p))
unfolding get_next is_overlength is_extended
long_rep p n long = elim (Bool-cases (p % 64 == 60)) [
  | inl e ↦ ground arith
  | inr e ↦
      let tag : p % 64 ≡ 59 = ground arith in
      let same : p / 64 * 64 + 59 ≡ p = omega arith in rw same (ground arith)
]

-- A step from an overlength or extended path counts on; the result is overlength.
pub get_next_long :
    (p n : ℕ)
    → (is_overlength p || is_extended p) ≡ true
    → overlength_length p + 1 < 2 ^ 57
    → n < 2
    → (length_field (get_next p n) ≡ overlength_tag)
      × (overlength_length (get_next p n) ≡ overlength_length p + 1)
      × (left_right (get_next p n) ≡ n)
get_next_long p n long h b = (
  omega (arith, long_rep p n long),
  omega (arith, long_rep p n long),
  omega (arith, long_rep p n long),
)

-- Paths that have a child: normal ones, and the long ones whose count does not wrap.
abbrev pub CanStep : Rep → Type 0
CanStep p =
    (length_field p ≤ max_length)
    ⊎ (((is_overlength p || is_extended p) ≡ true) × (overlength_length p + 1 < 2 ^ 57))

-- A step to the side 0 or 1 adds one to `parac_path_length`, from a normal path and from an
-- overlength or extended one whose count does not wrap.
pub path_length-get_next :
    (p n : ℕ) → CanStep p → n < 2 → path_length (get_next p n) ≡ path_length p + 1
unfolding path_length
path_length-get_next p n (inl h) b = elim (dec_lt (length_field p) max_length) [
  | yes l ↦ ground (arith, length-get_next p n l)
  | no l ↦ ground (arith, get_next_full p n (omega arith) b)
]
path_length-get_next p n (inr (long, h)) b = ground (arith, get_next_long p n long h b)

-- ===== src/Cubes/Depth.antt =====
-- The depth of the realised tree and the entry that a cube's length selects
-- (modules/solver_qbf/solver_qbf_config.cpp).
use paracooba.Prelude.{
  ℕ, zero, suc, ◌+◌, ◌-◌, ◌<◌, ◌≤◌, ◌≡◌, ◌∙◌, false, List, [], ◌∷◌, length, ltb, arith,
}
use paracooba.Cubes.{ℤ, split_length, current_index, fully_realized_tree_depth}

-- Every entry splits on at least one literal, that is, no entry is 1.
pub data AllSplit : List ℤ → Type 0 where
  none_left : AllSplit []
  one_more : {e : ℤ} {es : List ℤ} → 0 < split_length e → AllSplit es → AllSplit (e ∷ es)

index_at :
    (i d : ℕ) (es : List ℤ)
    → AllSplit es
    → d ≤ length es
    → current_index i es (fully_realized_tree_depth d es) ≡ i + d
unfolding current_index fully_realized_tree_depth
index_at i zero [] a h = omega arith
index_at i (suc d) [] a h = absurd (omega arith)
index_at i zero (e ∷ es) (one_more p a) h = ground arith
index_at i (suc d) (e ∷ es) (one_more p a) h =
    let l = split_length e in
    let sub : split_length e + fully_realized_tree_depth d es - split_length e
        ≡ fully_realized_tree_depth d es =
      omega arith in
    let ih = index_at (suc i) d es a (omega arith) in
    let test : ltb (split_length e + fully_realized_tree_depth d es) (split_length e) ≡ false =
      ground arith in
    rw (test, sub, ih) (omega arith)

-- If every entry splits on at least one literal, a cube as long as the realised tree is deep at
-- level d is given the entry d, for d up to the number of entries.
pub current_index-fully_realized_tree_depth :
    (d : ℕ) (es : List ℤ)
    → AllSplit es
    → d ≤ length es
    → current_index 0 es (fully_realized_tree_depth d es) ≡ d
current_index-fully_realized_tree_depth d es a h = index_at 0 d es a h ∙ (omega arith)

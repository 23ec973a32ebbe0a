-- ===== src/Tests/Solvers.antt =====
-- The theorems on packed assignments and on cubes.
use paracooba.Prelude.{
  ℕ, suc, ◌-◌, ◌*◌, ◌%◌, ◌≡◌, refl, Bool, true, false, some, List, [], ◌∷◌, ◌++◌, ◌==◌, map,
  get_elem?, arith,
}
use paracooba.Assignment.{serialize_assignment, deserialize_to_assignment, is_set}
use paracooba.Assignment.RoundTrip.{values, deserialize-serialize, is_set-first}
use paracooba.Cubes.{
  ℤ, pos, negsuc, neg, Quantifier, Source, children, split, left_child_source, right_child_source,
  current_index, fully_realized_tree_depth,
}
use paracooba.Cubes.Children.{cube_of, variable, with_digits, children-cube}
use paracooba.Cubes.Split.{split-children}
use paracooba.Cubes.Depth.{one_more, none_left, current_index-fully_realized_tree_depth}

abbrev even : ℕ → Bool
even n = n % 2 == 0

deserialize-serialize_example :
    deserialize_to_assignment 19 (serialize_assignment 19 even)
    ≡ some (values even 0 19, suc ((19 - 1) % 8))
deserialize-serialize_example = deserialize-serialize 19 even (omega arith)

is_set-first_example : is_set (255 ∷ 255 ∷ []) (suc (8 * 1)) ≡ some false
is_set-first_example = is_set-first (255 ∷ 255 ∷ []) 1 255 refl

abbrev source : Source
source = record {
  current_cube = negsuc 0 ∷ [];
  splitting_literals = pos 2 ∷ pos 3 ∷ [];
  split_count = 3;
}

children-cube_example :
    cube_of (get_elem? (children source).0 2)
    ≡ some (source.current_cube ++ with_digits 2 (map variable source.splitting_literals))
children-cube_example = children-cube source 2 (omega arith)

abbrev quantifiers : List Quantifier
quantifiers =
    record { existential = true; alit = pos 1 } ∷ record { existential = false; alit = pos 2 } ∷ []

abbrev wide : List ℤ
wide = pos 4 ∷ pos 2 ∷ []

-- At the second quantifier there is a split in two.
abbrev root : Source
root = record { current_cube = negsuc 0 ∷ []; splitting_literals = []; split_count = 0 }

split-children_example :
    (cube_of (left_child_source (split [] quantifiers root).source)
      ≡ some (root.current_cube ++ (neg (pos 2) ∷ [])))
    × (cube_of (right_child_source (split [] quantifiers root).source)
        ≡ some (root.current_cube ++ (pos 2 ∷ [])))
unfolding split paracooba.Cubes.split_by paracooba.Cubes.split_once paracooba.Cubes.current_index
split-children_example =
    split-children [] quantifiers root (record { existential = false; alit = pos 2 }) refl refl

-- The first entry splits on two literals, so the second is reached below them.
current_index-fully_realized_tree_depth_example :
    current_index 0 wide (fully_realized_tree_depth 1 wide) ≡ 1
unfolding paracooba.Cubes.ceil_log2
current_index-fully_realized_tree_depth_example =
    current_index-fully_realized_tree_depth 1 wide
      (one_more (omega arith) (one_more (omega arith) none_left)) (omega arith)

-- ===== src/Cubes.antt =====
-- The cubes of a quantifier tree: modules/solver_qbf/qbf_cube_source.cpp, and the tree's shape in
-- modules/solver_qbf/solver_qbf_config.cpp.
use paracooba.Prelude.{
  ℕ, zero, suc, ◌+◌, ◌-◌, ◌*◌, ◌/◌, ◌^◌, Bool, true, false, not, ◌==◌, ltb, if◌then◌else◌, Option,
  none, some, List, [], ◌∷◌, ◌++◌, length, drop, get_elem?,
}
use paracooba.Words.{bit_at, bit_and}
pub mod Children
pub mod Depth
pub mod Split

-- A literal, and a signed integer of the configuration.
pub data ℤ : Type 0 where
  pos negsuc : ℕ → ℤ

-- -x
abbrev pub neg : ℤ → ℤ
neg (pos zero) = pos zero
neg (pos (suc n)) = negsuc n
neg (negsuc n) = pos (suc n)

-- makeLitNeg
abbrev pub make_lit_neg : ℤ → ℤ
make_lit_neg (pos n) = neg (pos n)
make_lit_neg (negsuc n) = negsuc n

-- makeLitPos
abbrev pub make_lit_pos : ℤ → ℤ
make_lit_pos (pos n) = pos n
make_lit_pos (negsuc n) = neg (negsuc n)

-- A quantifier of the prefix, with its literal `alit()`.
pub record Quantifier : Type 0 where
  pub existential : Bool
  pub alit : ℤ

-- ceil_log2: step i halves the window j; the mask t[i] has the j bits above the lowest j.
ceil_log2_loop : (steps j x : ℕ) → ℕ
ceil_log2_loop zero j x = 0
ceil_log2_loop (suc i) j x =
    let k = if bit_and 64 x ((2 ^ j - 1) * 2 ^ j) == 0 then 0 else j in
    k + ceil_log2_loop i (j / 2) (x / 2 ^ k)

unfoldable pub ceil_log2 : ℕ → ℕ
unfolding ceil_log2_loop bit_and
ceil_log2 x = (if bit_and 64 x (x - 1) == 0 then 0 else 1) + ceil_log2_loop 6 32 x

-- The conversion of an `int` to `unsigned long long`.
abbrev pub to_unsigned : ℤ → ℕ
to_unsigned (pos n) = n
to_unsigned (negsuc n) = 2 ^ 64 - suc n

-- SolverConfig::integerBasedSplitsCurrentLength, on the entry.
abbrev pub split_length : ℤ → ℕ
split_length (pos zero) = 1
split_length (pos (suc n)) = ceil_log2 (suc n)
split_length (negsuc n) = ceil_log2 (to_unsigned (negsuc n))

-- SolverConfig::integerBasedSplitsCurrentIndex: the entries from index i on.
unfoldable pub current_index : ℕ → List ℤ → ℕ → ℕ
current_index i [] cube_length = i
current_index i (e ∷ es) cube_length =
    let rest = current_index (suc i) es (cube_length - split_length e) in
    if ltb cube_length (split_length e) then i else rest

-- SolverConfig::fullyRealizedTreeDepth
unfoldable pub fully_realized_tree_depth : ℕ → List ℤ → ℕ
fully_realized_tree_depth zero es = 0
fully_realized_tree_depth (suc d) [] = suc (fully_realized_tree_depth d [])
fully_realized_tree_depth (suc d) (e ∷ es) = split_length e + fully_realized_tree_depth d es

-- QuantifierTreeCubes
pub record Source : Type 0 where
  pub current_cube : List ℤ
  pub splitting_literals : List ℤ
  pub split_count : ℕ

pub record SplitResult : Type 0 where
  pub source : Source
  pub has_split : Bool
  pub left : Bool
  pub right : Bool
  pub extended : Bool

abbrev pub same_type : Bool → Bool → Bool
same_type true b = b
same_type false b = not b

-- The loop that collects n splitting literals; a quantifier of another type empties them.
collect_from : Bool → ℕ → List Quantifier → Option (List ℤ)
collect_from type zero qs = some []
collect_from type (suc n) [] = none
collect_from type (suc n) (q ∷ qs) =
    let rest = collect_from type n qs in
    if same_type type q.existential
    then elim rest [ none ↦ none | some ls ↦ some (q.alit ∷ ls) ]
    else none

unfoldable pub collect : ℕ → List Quantifier → List ℤ
unfolding collect_from
collect n [] = []
collect n (q ∷ qs) = elim (collect_from q.existential n (q ∷ qs)) [ none ↦ [] | some ls ↦ ls ]

-- The split on one literal; the split on none is the end of the prefix.
unfoldable pub split_once : Source → List Quantifier → SplitResult
split_once s [] = record {
  source = s;
  has_split = false;
  left = false;
  right = false;
  extended = false;
}
split_once s (q ∷ qs) = record {
  source = record s { splitting_literals = q.alit ∷ [] };
  has_split = true;
  left = true;
  right = true;
  extended = false;
}

abbrev pub is_empty {ℓ} : {A : Type ℓ} → List A → Bool
is_empty [] = true
is_empty (x ∷ xs) = false

-- The integer based split by `count`, where its literals are of one quantifier.
unfoldable pub split_many : ℕ → ℕ → Source → List Quantifier → SplitResult
unfolding collect split_once
split_many count n s rest =
    let ls = collect n rest in
    if is_empty ls then split_once s rest else record {
      source = record s { splitting_literals = ls; split_count = count };
      has_split = true;
      left = false;
      right = false;
      extended = true;
    }

-- The split by the entry for the current layer, if there is one.
unfoldable pub split_by : Option ℤ → List Quantifier → Source → SplitResult
unfolding split_once split_many
split_by none quantifiers s = split_once s (drop (length s.current_cube) quantifiers)
split_by (some (pos zero)) quantifiers s = split_once s (drop (length s.current_cube) quantifiers)
split_by (some (negsuc n)) quantifiers s = split_once s (drop (length s.current_cube) quantifiers)
split_by (some (pos (suc n))) quantifiers s =
    let size = length s.current_cube in
    let rest = drop size quantifiers in
    if ltb (size + split_length (pos (suc n))) (length quantifiers)
    then split_many (suc n) (split_length (pos (suc n))) s rest
    else split_once s rest

-- QuantifierTreeCubes::split, with the entries of `integerBasedSplits`.
unfoldable pub split : List ℤ → List Quantifier → Source → SplitResult
unfolding split_by current_index
split int_splits quantifiers s =
    split_by (get_elem? int_splits (current_index 0 int_splits (length s.current_cube))) quantifiers
      s

-- leftChild and rightChild; none where the source's assertion fails.
unfoldable pub left_child_source : Source → Option Source
left_child_source s = elim s.splitting_literals [
  | l ∷ [] ↦
      some (record s {
        current_cube = s.current_cube ++ (neg l ∷ []);
        splitting_literals = pos 0 ∷ [];
      })
  | _ ↦ none
]

unfoldable pub right_child_source : Source → Option Source
right_child_source s = elim s.splitting_literals [
  | l ∷ [] ↦
      some (record s { current_cube = s.current_cube ++ (l ∷ []); splitting_literals = pos 0 ∷ [] })
  | _ ↦ none
]

-- assignToSplittingLiterals: the entry with k entries after it gets the sign of bit k of n.
unfoldable pub assign_to_splitting_literals : ℕ → List ℤ → List ℤ
unfolding bit_at
assign_to_splitting_literals n [] = []
assign_to_splitting_literals n (l ∷ ls) =
    (if bit_at (length ls) n then make_lit_pos l else make_lit_neg l)
    ∷ assign_to_splitting_literals n ls

-- The loop of `children` for k splits from `first` on. The source is its own `selfSource`, so a
-- child is a copy of it with the literals of the round before, and the signs are assigned in place.
unfoldable pub children_from : ℕ → ℕ → Source → List Source × Source
unfolding assign_to_splitting_literals
children_from zero first s = ([], s)
children_from (suc k) first s =
    let literals = assign_to_splitting_literals first s.splitting_literals in
    let child = record s { current_cube = s.current_cube ++ literals } in
    let rest = children_from k (suc first) (record s { splitting_literals = literals }) in
    (child ∷ rest.0, rest.1)

-- QuantifierTreeCubes::children: the children, and the source afterwards.
unfoldable pub children : Source → List Source × Source
unfolding children_from
children s = children_from s.split_count 0 s

-- ===== src/SatCubes.antt =====
-- The cube sources of the SAT solver, modules/solver/cube_source.cpp and .hpp, and the pregenerated
-- cubes of modules/solver/cadical_handle.cpp. What CaDiCaL answers is an argument.
pub mod Below
pub mod Jumplist
use paracooba.Prelude.{
  ℕ, ◌+◌, ◌-◌, ◌*◌, ◌%◌, ◌^◌, ◌==◌, suc, leb, Option, none, some, get_elem?, take, drop, Bool, true,
  false, ◌||◌, List, [], ◌∷◌, ◌++◌, ltb, if◌then◌else◌, length,
}
use paracooba.Status.{Status, splitted, ◌is◌}
use paracooba.Path.{
  Rep, path_length, get_next_left, get_next_right, is_overlength, get_depth_shifted,
}
use paracooba.Cubes.{ℤ, pos, negsuc, neg}

-- What the handle of the parsed formula says of the cubes that came with it.
pub record Pregenerated : Type 0 where
  pub count : ℕ
  pub normalized_path_length : ℕ

-- x << s, on 64 bits
abbrev pub shift_left : ℕ → ℕ → ℕ
shift_left x s = x * 2 ^ s % 2 ^ 64

-- The decisions of PathDefined::split on the children l and r of p.
unfoldable pub split_between : (p l r : Rep) → Pregenerated → Bool × Bool
unfolding path_length is_overlength get_depth_shifted
split_between p l r h =
    let s = h.normalized_path_length - path_length l in
    if ltb h.normalized_path_length (path_length p + 1)
    then (false, false)
    else if is_overlength l || is_overlength r
    then (false, false)
    else (
      ltb (shift_left (get_depth_shifted l) s) h.count,
      ltb (shift_left (get_depth_shifted r) s) h.count,
    )

-- PathDefined::split: which children there are.
unfoldable pub split_path_defined : Rep → Pregenerated → Bool × Bool
unfolding split_between get_next_left get_next_right
split_path_defined p h = split_between p (get_next_left p) (get_next_right p) h

-- What `split` returns.
abbrev pub has_child : Bool × Bool → Bool
has_child (left, right) = left || right

-- CaDiCaLCubes
pub record CadicalCubes : Type 0 where
  pub splitting_literal : ℤ
  pub current_cube : List ℤ
  pub concurrent_cube_tree_number : ℕ

abbrev pub is_zero : ℤ → Bool
is_zero (pos n) = ltb n 1
is_zero (negsuc n) = false

-- CaDiCaLCubes::split; `resplit` is the answer of resplitCube for this cube.
unfoldable pub split_cadical :
    (initial_minimal_cube_depth : ℕ)
    → (resplit : Status × ℤ) → CadicalCubes
    → CadicalCubes × (Bool × Bool)
split_cadical depth (status, lit) c =
    if is_zero c.splitting_literal
    then (if ltb (length c.current_cube) depth
        then (if status is splitted
            then (record c { splitting_literal = lit }, (true, true))
            else (c, (false, false)))
        else (c, (false, false)))
    else (c, (true, true))

-- leftChild and rightChild
unfoldable pub left_child : CadicalCubes → CadicalCubes
left_child c = record c {
  current_cube = c.current_cube ++ neg c.splitting_literal ∷ [];
  splitting_literal = pos 0;
}

unfoldable pub right_child : CadicalCubes → CadicalCubes
right_child c = record c {
  current_cube = c.current_cube ++ c.splitting_literal ∷ [];
  splitting_literal = pos 0;
}

-- CaDiCaLHandle's parsed cubes: each ends with a 0.
pub record Handle : Type 0 where
  pub pregenerated_cubes : List ℤ
  pub pregenerated_cubes_jumplist : List ℕ
  pub pregenerated : Pregenerated

-- The loop of generateJumplist at position i: what is pushed, and the last start.
unfoldable pub starts : (i last_start : ℕ) → List ℤ → List ℕ × ℕ
starts i last_start [] = ([], last_start)
starts i last_start (lit ∷ lits) =
    let rest = starts (suc i) (if is_zero lit then suc i else last_start) lits in
    (if is_zero lit then last_start ∷ rest.0 else rest.0, rest.1)

-- generateJumplist; `ceil_log2f` stands for the library's log2f and ceil.
unfoldable pub generate_jumplist : (ceil_log2f : ℕ → ℕ) → List ℤ → Handle
unfolding starts
generate_jumplist ceil_log2f cubes =
    let (pushed, last_start) = starts 0 0 cubes in
    let count = length pushed in
    record {
      pregenerated_cubes = cubes;
      pregenerated_cubes_jumplist = pushed ++ last_start ∷ [];
      pregenerated = record { count = count; normalized_path_length = ceil_log2f count };
    }

-- The cells from `from` up to the one before the 0 at `to` - 1; none is a read out of bounds.
cut : (from to : Option ℕ) → List ℤ → Option (List ℤ)
cut (some from) (some to) cubes = some (take (to - 1 - from) (drop from cubes))
cut _ _ cubes = none

-- getCubeFromId
unfoldable pub get_cube_from_id : ℕ → Handle → Option (List ℤ)
unfolding cut
get_cube_from_id id h =
    if leb h.pregenerated.count id
    then some []
    else cut (get_elem? h.pregenerated_cubes_jumplist id)
        (get_elem? h.pregenerated_cubes_jumplist (suc id)) h.pregenerated_cubes

-- getCubeFromPath
unfoldable pub get_cube_from_path : Rep → Handle → Option (List ℤ)
unfolding get_cube_from_id path_length get_depth_shifted
get_cube_from_path p h =
    if path_length p == h.pregenerated.normalized_path_length
    then get_cube_from_id (get_depth_shifted p) h
    else some []

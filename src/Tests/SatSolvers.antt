-- ===== src/Tests/SatSolvers.antt =====
-- The theorems on the SAT solver's cubes at concrete cubes.
use paracooba.Prelude.{get_elem?, ℕ, suc, ◌*◌, ◌≡◌, ◌↔◌, refl, true, List, [], ◌∷◌, arith}
use paracooba.Cubes.{ℤ, pos, negsuc}
use paracooba.Words.{bit_at}
use paracooba.Path.{get_assignment}
use paracooba.Path.Fields.{IsNormal, decisions}
use paracooba.Path.Number.{value}
use paracooba.SatCubes.{Pregenerated, split_path_defined, generate_jumplist, get_cube_from_path}
use paracooba.SatCubes.Below.{HasCube, split_path_defined-HasCube}
use paracooba.SatCubes.Jumplist.{flatten, get_cube_from_path-generate_jumplist}

-- Three cubes, in a tree of depth 2: the right child of the path R has no cube.
abbrev three_cubes : Pregenerated
three_cubes = record { count = 3; normalized_path_length = 2 }

abbrev right_side : ℕ
right_side = 9223372036854775809

right_side-IsNormal : IsNormal right_side
right_side-IsNormal = record { short = omega arith; word = omega arith }

split_path_defined-HasCube_example :
    (((split_path_defined right_side three_cubes).0 ≡ true)
      ↔ HasCube (2 * value 0 (decisions right_side)) 0 3)
    × (((split_path_defined right_side three_cubes).1 ≡ true)
        ↔ HasCube (suc (2 * value 0 (decisions right_side))) 0 3)
split_path_defined-HasCube_example =
    split_path_defined-HasCube right_side three_cubes right_side-IsNormal (omega arith)
      (omega arith)

abbrev cubes : List (List ℤ)
cubes = (pos 1 ∷ negsuc 1 ∷ []) ∷ (pos 3 ∷ []) ∷ []

right_side-value : value 0 (decisions right_side) ≡ 1
unfolding value get_assignment bit_at
right_side-value = refl

get_cube_from_path-generate_jumplist_example :
    get_cube_from_path right_side (generate_jumplist (λ n. 1) (flatten cubes))
    ≡ get_elem? cubes (value 0 (decisions right_side))
get_cube_from_path-generate_jumplist_example =
    get_cube_from_path-generate_jumplist (λ n. 1) cubes right_side
      ((refl, (refl, tt)), ((refl, tt), tt)) right_side-IsNormal refl
      (omega (arith, right_side-value))

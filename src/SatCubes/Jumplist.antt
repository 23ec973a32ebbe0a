-- ===== src/SatCubes/Jumplist.antt =====
-- The jumplist leads to each of the supplied cubes (modules/solver/cadical_handle.cpp).
use paracooba.Prelude.{
  if_intro, ◌==◌, sym, true, Option, ℕ, zero, suc, ◌+◌, ◌-◌, ◌<◌, ◌≡◌, refl, ap, ◌∙◌, false, some,
  List, [], ◌∷◌, ◌++◌, leb, length, length-append, get_elem?, append_assoc, arith, take-append,
  drop-append,
}
use paracooba.Path.{Rep, length_field, path_length}
use paracooba.Path.Fields.{IsNormal, decisions}
use paracooba.Path.Number.{value, get_depth_shifted-value}
use paracooba.SatCubes.Below.{path_length-normal}
use paracooba.Cubes.{ℤ, pos}
use paracooba.SatCubes.{
  is_zero, starts, generate_jumplist, cut, get_cube_from_id, get_cube_from_path,
}

-- The file's cubes, one after the other.
abbrev pub flatten : List (List ℤ) → List ℤ
flatten [] = []
flatten (c ∷ cs) = c ++ pos 0 ∷ flatten cs

abbrev pub NoZero : List ℤ → Type 0
NoZero [] = Unit {0}
NoZero (lit ∷ lits) = (is_zero lit ≡ false) × NoZero lits

abbrev pub AllNoZero : List (List ℤ) → Type 0
AllNoZero [] = Unit {0}
AllNoZero (c ∷ cs) = NoZero c × AllNoZero cs

-- Where the cubes begin, and the end.
abbrev offsets : ℕ → List (List ℤ) → List ℕ
offsets i [] = i ∷ []
offsets i (c ∷ cs) = i ∷ offsets (suc (i + length c)) cs

starts-cube :
    (i last_start : ℕ) (c rest : List ℤ)
    → NoZero c
    → let next = suc (i + length c) in
      starts i last_start (c ++ pos 0 ∷ rest)
      ≡ (last_start ∷ (starts next next rest).0, (starts next next rest).1)
unfolding starts
starts-cube i last_start [] rest z = let e : i + 0 ≡ i = omega arith in rw e refl
starts-cube i last_start (lit ∷ c) rest z =
    let e : suc i + length c ≡ i + suc (length c) = omega arith in
    rw z.0 (starts-cube (suc i) last_start c rest z.1 ∙ rw e refl)

length-starts :
    (i : ℕ) (cs : List (List ℤ)) → AllNoZero cs → length (starts i i (flatten cs)).0 ≡ length cs
unfolding starts
length-starts i [] z = refl
length-starts i (c ∷ cs) z =
    ap (λ s. length s.0) (starts-cube i i c (flatten cs) z.0)
    ∙ ap suc (length-starts (suc (i + length c)) cs z.1)

starts-flatten :
    (i : ℕ) (cs : List (List ℤ))
    → AllNoZero cs
    → (starts i i (flatten cs)).0 ++ (starts i i (flatten cs)).1 ∷ [] ≡ offsets i cs
unfolding starts
starts-flatten i [] z = refl
starts-flatten i (c ∷ cs) z =
    ap (λ s. s.0 ++ s.1 ∷ []) (starts-cube i i c (flatten cs) z.0)
    ∙ ap (λ os. i ∷ os) (starts-flatten (suc (i + length c)) cs z.1)

first_offset : (i : ℕ) (cs : List (List ℤ)) → get_elem? (offsets i cs) 0 ≡ some i
first_offset i [] = refl
first_offset i (c ∷ cs) = refl

cut-offsets :
    (xs : List ℤ) (cs : List (List ℤ)) (k : ℕ)
    → k < length cs
    → cut
        (get_elem? (offsets (length xs) cs) k)
        (get_elem? (offsets (length xs) cs) (suc k))
        (xs ++ flatten cs)
      ≡ get_elem? cs k
unfolding cut
cut-offsets xs [] k h = absurd (omega arith)
cut-offsets xs (c ∷ cs) zero h =
    let size : suc (length xs + length c) - 1 - length xs ≡ length c = omega arith in
    rw (first_offset (suc (length xs + length c)) cs)
      (rw (size, drop-append xs (flatten (c ∷ cs)), take-append c (pos 0 ∷ flatten cs)) refl)
cut-offsets xs (c ∷ cs) (suc k) h =
    let ys = xs ++ (c ++ pos 0 ∷ []) in
    let size : length ys ≡ suc (length xs + length c) =
      omega (arith, length-append xs (c ++ pos 0 ∷ []), length-append c (pos 0 ∷ [])) in
    let whole : ys ++ flatten cs ≡ xs ++ flatten (c ∷ cs) =
      append_assoc xs (c ++ pos 0 ∷ []) (flatten cs)
      ∙ ap (λ zs. xs ++ zs) (append_assoc c (pos 0 ∷ []) (flatten cs)) in
    rw (← size, ← whole) (cut-offsets ys cs k (omega arith))

-- The cube with a number.
pub get_cube_from_id-generate_jumplist :
    (ceil_log2f : ℕ → ℕ) (cs : List (List ℤ)) (k : ℕ)
    → AllNoZero cs
    → k < length cs
    → get_cube_from_id k (generate_jumplist ceil_log2f (flatten cs)) ≡ get_elem? cs k
unfolding get_cube_from_id generate_jumplist
get_cube_from_id-generate_jumplist f cs k z h =
    let count = length-starts 0 cs z in
    let known : leb (length cs) k ≡ false = ground arith in
    rw (count, known, starts-flatten 0 cs z) (cut-offsets [] cs k h)

-- Of cubes without the literal 0 that are written one after the other, each ended by a 0, once
-- the jumplist was generated, `getCubeFromPath` gives for a normal path of the length that the
-- logarithm gave, whose decisions spell a number k in binary below the number of cubes, cube k.
pub get_cube_from_path-generate_jumplist :
    (ceil_log2f : ℕ → ℕ) (cs : List (List ℤ)) (p : Rep)
    → AllNoZero cs
    → IsNormal p
    → length_field p ≡ ceil_log2f (length cs)
    → value 0 (decisions p) < length cs
    → get_cube_from_path p (generate_jumplist ceil_log2f (flatten cs))
      ≡ get_elem? cs (value 0 (decisions p))
unfolding get_cube_from_path generate_jumplist
get_cube_from_path-generate_jumplist f cs p z v e h =
    let h0 = generate_jumplist f (flatten cs) in
    let n : h0.pregenerated.normalized_path_length ≡ path_length p =
      ap f (length-starts 0 cs z) ∙ sym e ∙ sym (path_length-normal p v.short) in
    let at_end : (path_length p == h0.pregenerated.normalized_path_length) ≡ true =
      ground (arith, n) in
    if_intro (λ (o : Option (List ℤ)). o ≡ get_elem? cs (value 0 (decisions p)))
      (path_length p == h0.pregenerated.normalized_path_length) _ _
      (λ _.
        ap (λ k. get_cube_from_id k h0) (get_depth_shifted-value p v)
        ∙ get_cube_from_id-generate_jumplist f cs (value 0 (decisions p)) z h)
      (λ b. cc)

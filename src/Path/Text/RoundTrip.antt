-- ===== src/Path/Text/RoundTrip.antt =====
-- Printing a path and reading it back (modules/commonc/path.c).
use mathlib.Core.List.{map-append, append-nil, append_assoc}
use paracooba.Prelude.{
  ℕ, zero, suc, ◌+◌, ◌≤◌, ◌<◌, ◌≡◌, refl, sym, ap, ◌∙◌, Bool, true, false, ◌||◌, ◌==◌, if_true,
  ◌++◌, List, [], ◌∷◌, arith, some, if◌then◌else◌, ltb, leb, ◌&&◌, set, get_elem?, length,
  length-set, length-append, length-map, get_elem?-set_self, get_elem?-set_ne, take, map,
}
use native.Mathlib.Decide.{ℕ_discrete}
use paracooba.Status.{ok}
use paracooba.Path.{
  is_overlength, is_extended, overlength_tag, extended_tag, Rep, max_length, length_field,
  set_length_field, get_assignment, set_assignment,
}
use paracooba.Path.Fields.{
  decisions, assignments, assignments-congr, assignments-set_assignment,
  get_assignment-set_assignment, length-set_assignment,
}
use paracooba.Path.Text.{
  digit, digits_loop, to_str, c_string, from_str_loop, from_str, may_assign, finished,
}

get_elem?-digits_loop :
    (p i n j : ℕ) (out : List ℕ)
    → i + n ≤ length out
    → get_elem? (digits_loop p i n out) j ≡ (
        if leb i j && ltb j (i + n)
        then some (digit (get_assignment p (suc j)))
        else get_elem? out j)
unfolding digits_loop
get_elem?-digits_loop p i zero j out h = ground arith
get_elem?-digits_loop p i (suc n) j out h = elim (ℕ_discrete i j) [
  | yes e ↦ rw (← e) (
      ground (
        arith,
        get_elem?-digits_loop p (suc i) n i (set out i (digit (get_assignment p (suc i)))),
        length-set out i (digit (get_assignment p (suc i))),
        get_elem?-set_self out i (digit (get_assignment p (suc i))),
      ))
  | no e ↦ ground (
    arith,
    get_elem?-digits_loop p (suc i) n j (set out i (digit (get_assignment p (suc i)))),
    length-set out i (digit (get_assignment p (suc i))),
    get_elem?-set_ne out {i = i} {j = j} (digit (get_assignment p (suc i))) e,
  )
]

length-digits_loop : (p i n : ℕ) (out : List ℕ) → length (digits_loop p i n out) ≡ length out
unfolding digits_loop
length-digits_loop p i zero out = refl
length-digits_loop p i (suc n) out =
    length-digits_loop p (suc i) n _ ∙ length-set out i (digit (get_assignment p (suc i)))

c_string-take :
    (n : ℕ) (out : List ℕ)
    → ((i : ℕ) → i < n → (c : ℕ) × (get_elem? out i ≡ some c) × (0 < c))
    → get_elem? out n ≡ some 0
    → c_string out ≡ take n out
c_string-take n [] h e = cc
c_string-take zero (c ∷ cs) h e = ground arith
c_string-take (suc n) (c ∷ cs) h e =
    ground (arith, h 0 (omega arith), c_string-take n cs (λ i l. h (suc i) (omega arith)) e)

take-suc :
    (n : ℕ) (xs : List ℕ) (x : ℕ) → get_elem? xs n ≡ some x → take (suc n) xs ≡ take n xs ++ x ∷ []
take-suc n [] x e = cc
take-suc zero (y ∷ ys) x e = ground arith
take-suc (suc n) (y ∷ ys) x e = ap (λ l. y ∷ l) (take-suc n ys x e)

take-assignments :
    (p n : ℕ) (out : List ℕ)
    → ((i : ℕ) → i < n → get_elem? out i ≡ some (digit (get_assignment p (suc i))))
    → take n out ≡ map digit (assignments p n)
take-assignments p zero out h = refl
take-assignments p (suc n) out h =
    take-suc n out _ (h n (omega arith))
    ∙ rw (take-assignments p n out (λ i l. h i (omega arith)))
        (sym (map-append digit (assignments p n) (get_assignment p (suc n) ∷ [])))

length-assignments : (p n : ℕ) → length (assignments p n) ≡ n
length-assignments p zero = refl
length-assignments p (suc n) =
    omega (
      arith,
      length-append (assignments p n) (get_assignment p (suc n) ∷ []),
      length-assignments p n,
    )

-- In a buffer of 59 cells, whatever they hold, `parac_path_to_str` leaves the decisions of a path
-- of length 1 to 58 as a string of the digits 0 and 1.
pub to_str-digits :
    (decimal : ℕ → List ℕ) (p : Rep) (out : List ℕ)
    → 1 ≤ length_field p
    → length_field p ≤ max_length
    → length out ≡ max_length + 1
    → c_string (to_str decimal p out) ≡ map digit (decisions p)
unfolding to_str
to_str-digits decimal p out low high size =
    ap c_string normal_branch
    ∙ (c_string-take l buf (λ i h. (digit (get_assignment p (suc i)), cell i h, omega arith)) stop
        ∙ take-assignments p l buf cell)
  where
    l : ℕ
    l = length_field p

    buf : List ℕ
    buf = set (digits_loop p 0 max_length out) (length_field p) 0

    normal_branch : to_str decimal p out ≡ buf
    normal_branch = ground arith

    cell : (i : ℕ) → i < l → get_elem? buf i ≡ some (digit (get_assignment p (suc i)))
    cell i h =
        get_elem?-set_ne (digits_loop p 0 max_length out) {i = l} {j = i} 0 (λ e. omega arith)
        ∙ ground (arith, get_elem?-digits_loop p 0 max_length i out)

    stop : get_elem? buf l ≡ some 0
    stop =
        get_elem?-set_self (digits_loop p 0 max_length out) l 0
          (omega (arith, length-digits_loop p 0 max_length out))

-- The target is neither overlength nor extended.
abbrev IsPlain : Rep → Type 0
IsPlain p = (is_overlength p || is_extended p) ≡ false

IsPlain-set_assignment :
    (p : Rep) (i : ℕ) (b : Bool)
    → suc i ≤ max_length
    → IsPlain p
    → IsPlain (set_assignment p (suc i) b)
unfolding is_overlength is_extended
IsPlain-set_assignment p i b h e =
    ap (λ l. (l == overlength_tag) || (l == extended_tag))
      (length-set_assignment p (suc i) b (omega arith) h)
    ∙ e

from_str_loop-digit :
    (i : ℕ) (b : Bool) (cs : List ℕ) (p : Rep)
    → suc i ≤ max_length
    → IsPlain p
    → from_str_loop i (digit b ∷ cs) p ≡ from_str_loop (suc i) cs (set_assignment p (suc i) b)
unfolding from_str_loop may_assign
from_str_loop-digit i true cs p h e = if_true (may_assign p (suc i)) _ _ (rw e (ground arith))
from_str_loop-digit i false cs p h e = if_true (may_assign p (suc i)) _ _ (rw e (ground arith))

from_str_loop-digits :
    (i : ℕ) (bs : List Bool) (p : Rep)
    → i + length bs ≤ max_length
    → IsPlain p
    → (q : Rep) × (from_str_loop i (map digit bs) p ≡ finished q)
      × (assignments q (i + length bs) ≡ assignments p i ++ bs)
unfolding from_str_loop
from_str_loop-digits i [] p h e = (
  p,
  refl,
  ap (assignments p) (let e : i + 0 ≡ i = omega arith in e) ∙ sym (append-nil (assignments p i)),
)
from_str_loop-digits i (b ∷ bs) p h e =
    let p' = set_assignment p (suc i) b in
    let plain = IsPlain-set_assignment p i b (omega arith) e in
    let (q, r, a) = from_str_loop-digits (suc i) bs p' (omega arith) plain in
    (
      q,
      from_str_loop-digit i b (map digit bs) p (omega arith) e ∙ r,
      ap (assignments q) (let e : i + suc (length bs) ≡ suc i + length bs = omega arith in e)
          ∙ (a
              ∙ rw (assignments-set_assignment p i (suc i) b (omega arith) (omega arith), written)
                  (append_assoc (assignments p i) (b ∷ []) bs)),
    )
  where
    written : get_assignment (set_assignment p (suc i) b) (suc i) ≡ b
    written = ground (arith, get_assignment-set_assignment p (suc i) (suc i) b)

-- Where the target is neither overlength nor extended, `parac_path_from_str` reads such a string
-- back to the decisions that it spells, with their number as the length.
pub from_str-digits :
    (bs : List Bool) (tgt : Rep)
    → length bs ≤ max_length
    → IsPlain tgt
    → (q : Rep) × (from_str (map digit bs) tgt ≡ some (ok, q))
      × (length_field q ≡ length bs)
      × (decisions q ≡ bs)
unfolding from_str
from_str-digits bs tgt h plain =
    let (q, e, a) = from_str_loop-digits 0 bs tgt (omega arith) plain in
    let len : length_field (set_length_field (length bs) q) ≡ length bs = omega arith in
    (
      set_length_field (length bs) q,
      rw (e, from_str) (ap (λ n. some (ok, set_length_field n q)) (length-map bs digit)),
      len,
      ap (assignments (set_length_field (length bs) q)) len
          ∙ (assignments-congr (set_length_field (length bs) q) q (length bs) h (omega arith)
              ∙ (ap (assignments q) (let z : length bs ≡ 0 + length bs = omega arith in z) ∙ a)),
    )

-- A path of length 1 to 58 that is printed into a buffer of 59 cells is read back, whatever the
-- buffer held and for a target that is neither overlength nor extended, without a failing
-- assertion, as a path with the same length and decisions.
pub from_str-to_str :
    (decimal : ℕ → List ℕ) (p tgt : Rep) (out : List ℕ)
    → 1 ≤ length_field p
    → length_field p ≤ max_length
    → length out ≡ max_length + 1
    → is_overlength tgt ≡ false
    → is_extended tgt ≡ false
    → (q : Rep) × (from_str (c_string (to_str decimal p out)) tgt ≡ some (ok, q))
      × (length_field q ≡ length_field p)
      × (decisions q ≡ decisions p)
from_str-to_str decimal p tgt out low high size o x =
    let n = length-assignments p (length_field p) in
    let (q, e, l, d) = from_str-digits (decisions p) tgt (omega (arith, n)) (rw (o, x) refl) in
    (q, rw (to_str-digits decimal p out low high size) e, l ∙ n, d)

-- ===== src/Path/Text.antt =====
-- `parac_path_to_str` and `parac_path_from_str` of `modules/commonc/path.c`. A C string is the
-- list of the codes in its buffer, read up to the first 0. What `%lu` prints for a number is the
-- argument `decimal`.
pub mod RoundTrip
use Prim.Native.Char.{code}
use Prim.Native.String.{String}
use paracooba.Prelude.{
  ℕ, zero, suc, ◌+◌, ◌-◌, Bool, true, false, not, ◌||◌, ◌&&◌, leb, ◌++◌, List, [], ◌∷◌, ◌==◌,
  Option, none, some, if◌then◌else◌, ltb, set, length, take,
}
use paracooba.Words.{bit}
use paracooba.Status.{Status, ok, invalid_char_encountered}
use paracooba.Path.{
  Rep, max_length, length_field, set_length_field, explicitly_unknown, parser_path,
  overlength_length, left_right, is_root, is_overlength, is_extended, path_length, get_assignment,
  set_assignment,
}

-- The codes of a string literal.
abbrev codes : String → List ℕ
codes String.[] = []
codes (String.◌∷◌ c s) = code c ∷ codes s

-- out_str[i++] = c, for each c in turn.
write : ℕ → List ℕ → List ℕ → List ℕ
write i [] out = out
write i (c ∷ cs) out = write (suc i) cs (set out i c)

-- snprintf writes at most n - 1 characters and a 0; the source then writes a 0 at the full length.
print_bounded : ℕ → List ℕ → List ℕ → List ℕ
unfolding write
print_bounded n cs out = set (write 0 (take (n - 1) cs ++ 0 ∷ []) out) (length cs) 0

abbrev pub digit : Bool → ℕ
digit b = bit b + b'0'

-- for(i; n rounds left; ++i) out_str[i] = parac_path_get_assignment(p, i + 1) + '0'
digits_loop : Rep → ℕ → ℕ → List ℕ → List ℕ
digits_loop p i zero out = out
digits_loop p i (suc n) out = digits_loop p (suc i) n (set out i (digit (get_assignment p (suc i))))

pub to_str : (ℕ → List ℕ) → Rep → List ℕ → List ℕ
unfolding write print_bounded digits_loop is_root is_extended is_overlength
to_str decimal p out =
    if is_root p
    then write 0 (codes "(root)" ++ 0 ∷ []) out
    else if length_field p == explicitly_unknown
    then write 0 (codes "(explicitly unknown)" ++ 0 ∷ []) out
    else if length_field p == parser_path
    then write 0 (codes "(parser)" ++ 0 ∷ []) out
    else if is_extended p
    then print_bounded max_length (codes "(extended | " ++ decimal (path_length p) ++ codes ")") out
    else if is_overlength p
    then print_bounded max_length
        (codes "(overlength | "
          ++ decimal (overlength_length p)
          ++ codes " | l/r "
          ++ decimal (left_right p)
          ++ codes ")")
        out
    else if ltb max_length (length_field p)
    then write 0 (codes "(invalid path)" ++ 0 ∷ []) out
    else set (digits_loop p 0 max_length out) (length_field p) 0

-- What a reader of the buffer sees.
abbrev pub c_string : List ℕ → List ℕ
c_string [] = []
c_string (c ∷ cs) = if c == 0 then [] else c ∷ c_string cs

-- The assertions of parac_path_set_assignment.
unfoldable pub may_assign : Rep → ℕ → Bool
unfolding is_overlength is_extended
may_assign p d = not (is_overlength p || is_extended p) && leb 1 d && leb d max_length

-- How the loop ends: at the end of the string, at another character, or at an assertion.
pub data Reading : Type 0 where
  finished : Rep → Reading
  invalid_char assertion_failed : Reading

from_str_loop : ℕ → List ℕ → Rep → Reading
unfolding may_assign
from_str_loop i [] p = finished p
from_str_loop i (c ∷ cs) p =
    if c == b'0'
    then (if may_assign p (suc i)
        then from_str_loop (suc i) cs (set_assignment p (suc i) false)
        else assertion_failed)
    else if c == b'1'
    then (if may_assign p (suc i)
        then from_str_loop (suc i) cs (set_assignment p (suc i) true)
        else assertion_failed)
    else invalid_char

-- `*tgt` is written at the end only; there is no result if an assertion fails.
pub from_str : List ℕ → Rep → Option (Status × Rep)
unfolding from_str_loop
from_str str tgt = elim (from_str_loop 0 str tgt) [
  | assertion_failed ↦ none
  | invalid_char ↦ some (invalid_char_encountered, tgt)
  | finished p ↦ some (ok, set_length_field (length str) p)
]

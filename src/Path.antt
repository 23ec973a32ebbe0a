-- ===== src/Path.antt =====
-- modules/commonc/path.c and include/paracooba/common/path.h: the address of a task in the tree of
-- splits. A `parac_path` is its 64-bit representation `rep`; the bit fields of its union are read
-- and written by the functions below, the first field in the low bits. An assertion of the source
-- is a hypothesis of the theorems.
pub mod Fields
pub mod Next
pub mod Family
pub mod Number
pub mod Text
use paracooba.Prelude.{ℕ, ◌+◌, ◌-◌, ◌*◌, ◌/◌, ◌%◌, ◌^◌, Bool, not, ◌||◌, ◌==◌, if◌then◌else◌}
use paracooba.Words.{bit_at, put_bit, clear_low, shift_right}

-- `rep`
abbrev pub Rep : Type 0
Rep = ℕ

abbrev pub max_length : ℕ
max_length = 58

abbrev pub explicitly_unknown : ℕ
explicitly_unknown = 62

abbrev pub parser_path : ℕ
parser_path = 61

abbrev pub extended_tag : ℕ
extended_tag = 60

abbrev pub overlength_tag : ℕ
overlength_tag = 59

-- `length_` and `overlength_tag_` are one field, the low six bits.
abbrev pub length_field : Rep → ℕ
length_field p = p % 64

abbrev pub set_length_field : ℕ → Rep → Rep
set_length_field l p = p / 64 * 64 + l % 64

-- `path_`
abbrev pub path_field : Rep → ℕ
path_field p = p / 64

-- `overlength_length_`: 57 bits above the tag.
abbrev pub overlength_length : Rep → ℕ
overlength_length p = p / 64 % 2 ^ 57

abbrev pub set_overlength_length : ℕ → Rep → Rep
set_overlength_length l p = p / 2 ^ 63 * 2 ^ 63 + l % 2 ^ 57 * 64 + p % 64

-- `overlength_left_right`: the top bit.
abbrev pub left_right : Rep → ℕ
left_right p = p / 2 ^ 63

abbrev pub set_left_right : ℕ → Rep → Rep
set_left_right n p = n % 2 * 2 ^ 63 + p % 2 ^ 63

unfoldable pub is_overlength : Rep → Bool
is_overlength p = length_field p == overlength_tag

unfoldable pub is_extended : Rep → Bool
is_extended p = length_field p == extended_tag

unfoldable pub is_root : Rep → Bool
is_root p = length_field p == 0

-- parac_path_length
unfoldable pub path_length : Rep → ℕ
unfolding is_overlength is_extended
path_length p = if is_overlength p || is_extended p then overlength_length p else length_field p

-- The bit of position d is 64 - 1 - (d - 1); the assertions give 1 ≤ d ≤ 58.
unfoldable pub get_assignment : Rep → ℕ → Bool
get_assignment p d = bit_at (63 - (d - 1)) p

unfoldable pub set_assignment : Rep → ℕ → Bool → Rep
set_assignment p d v = put_bit (63 - (d - 1)) v p

-- parac_path_cleanup
unfoldable pub cleanup : Rep → Rep
unfolding is_overlength
cleanup p =
    if is_overlength p
    then p
    else set_length_field (length_field p) (clear_low (64 - length_field p) p)

-- path_ << 6, in a 64-bit word
unfoldable pub left_aligned : Rep → ℕ
left_aligned p = path_field p * 64 % 2 ^ 64

unfoldable pub get_shifted : Rep → ℕ
get_shifted p = shift_right 6 p

unfoldable pub get_depth_shifted : Rep → ℕ
get_depth_shifted p = if length_field p == 0 then 0 else shift_right (64 - length_field p) p

-- The cleaned path that `parac_path_cleanup(p)` returns is dropped by the source.
unfoldable pub get_parent : Rep → Rep
get_parent p = set_length_field (length_field p - 1) p

unfoldable pub get_sibling : Rep → Rep
unfolding get_assignment set_assignment
get_sibling p = set_assignment p (length_field p) (not (get_assignment p (length_field p)))

-- The first statement of parac_path_get_next: an extended path becomes an overlength one.
unfoldable pub drop_extended : Rep → Rep
unfolding is_extended
drop_extended p = if is_extended p then set_length_field overlength_tag p else p

abbrev pub truth : ℕ → Bool
truth n = not (n == 0)

unfoldable pub get_next_plain : Rep → ℕ → Rep
unfolding set_assignment
get_next_plain p n =
    let depth = length_field p + 1 in
    if depth == max_length + 1
    then set_left_right n (set_overlength_length depth (set_length_field overlength_tag p))
    else set_length_field depth (set_assignment p depth (truth n))

-- `++overlength_length_` wraps in its 57 bits.
unfoldable pub get_next : Rep → ℕ → Rep
unfolding is_overlength drop_extended get_next_plain
get_next p n =
    let q = drop_extended p in
    if is_overlength q
    then set_left_right n (set_overlength_length (overlength_length q + 1) q)
    else get_next_plain q n

unfoldable pub get_next_left : Rep → Rep
unfolding get_next
get_next_left p = get_next p 0

unfoldable pub get_next_right : Rep → Rep
unfolding get_next
get_next_right p = get_next p 1

unfoldable pub get_next_extended : Rep → Rep
unfolding path_length
get_next_extended p = set_overlength_length (path_length p + 1) (set_length_field extended_tag p)

unfoldable pub unknown : Rep
unknown = explicitly_unknown

-- Both fields are written, so nothing of the uninitialised `p` is left.
unfoldable pub root : Rep
root = 0

-- parac_path_build for a type of `bytes` bytes.
unfoldable pub build : (bytes p l : ℕ) → Rep
unfolding cleanup
build bytes p l = cleanup (set_length_field l (p * 2 ^ ((8 - bytes) * 8) % 2 ^ 64))

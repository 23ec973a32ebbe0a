-- ===== src/Qdimacs.antt =====
-- The parser of QDIMACS files, modules/solver_qbf/parser_qbf.cpp: the labels and loops of
-- Parser::parse are the modes of an automaton that reads one character after the other.
pub mod Text
pub mod Numerals
pub mod Clauses
pub mod Prefix
pub mod RoundTrip
use paracooba.Prelude.{
  ℕ, zero, suc, ◌+◌, ◌-◌, ◌*◌, ◌^◌, Bool, true, false, not, ◌&&◌, ◌||◌, List, [], ◌∷◌, ◌++◌, ◌==◌,
  ltb, leb, if◌then◌else◌,
}
use paracooba.Cubes.{ℤ, pos, negsuc}

-- The messages of `parse`. An int that overflows has no defined value; `undefined` stands for it.
pub data ParseError : Type 0 where
  invalid_or_missing_header end_of_file_in_comment clauses_missing : ParseError
  negative_number_in_prefix minus_followed_by_zero e_after_clause zero_missing_after_e : ParseError
  a_after_clause zero_missing_after_a expected_digit expected_space_after_literal : ParseError
  maximum_variable_index_exceeded too_many_clauses undefined : ParseError

-- The variable q of `parse`.
pub data Quantifying : Type 0 where
  none exists forall : Quantifying

-- `has_lits` is whether the vector `lits` has any cells; `lits` are those before `num_lits`.
pub record Parser : Type 0 where
  pub lineno : ℕ
  pub num_vars : ℕ
  pub num_clauses : ℕ
  pub clauses_read : ℕ
  pub lits_read : ℕ
  pub quantifying : Quantifying
  pub quantifiers : List ℤ
  pub existential_vars : ℕ
  pub universal_vars : ℕ
  pub has_lits : Bool
  pub lits : List ℤ
  pub literals : List ℤ
  pub highest_lit : ℕ
  pub clause_count : ℕ

-- Where in `parse` the next character is read. `count` and `lit` are numbers read so far.
pub data Mode : Type 0 where
  skip header_comment after_p before_c after_c after_n after_f before_vars : Mode
  vars : ℕ → Mode
  before_clauses : Mode
  clauses : ℕ → Mode
  header_end next comment minus : Mode
  literal : (negative : Bool) → ℕ → Mode

pub data Outcome : Type 0 where
  goes_on : Mode → Parser → Outcome
  fails : ParseError → Outcome

-- `ch == ' ' || ch == '\t' || ch == '\r'`
unfoldable pub is_blank : ℕ → Bool
is_blank ch = ch == 32 || ch == 9 || ch == 13

-- isdigit
unfoldable pub is_digit : ℕ → Bool
is_digit ch = leb 48 ch && leb ch 57

abbrev pub new_line : Parser → Parser
new_line p = record p { lineno = suc p.lineno }

-- One more digit of an int.
abbrev pub add_digit : ℕ → ℕ → (ℕ → Mode) → Parser → Outcome
add_digit n ch mode p =
    let m = 10 * n + (ch - 48) in if ltb m (2 ^ 31) then goes_on (mode m) p else fails undefined

-- One of the header's characters.
expect : ℕ → Mode → ℕ → Parser → Outcome
expect c mode ch p = if ch == c then goes_on mode p else fails invalid_or_missing_header

-- From the label SKIP on.
at_skip : ℕ → Parser → Outcome
at_skip ch p =
    if ch == 10
    then goes_on skip (new_line p)
    else if is_blank ch
    then goes_on skip p
    else if ch == 99
    then goes_on header_comment p
    else if ch == 112
    then goes_on after_p p
    else fails invalid_or_missing_header

-- The loop that ends the header.
at_header_end : ℕ → Parser → Outcome
at_header_end ch p =
    if ch == 10
    then goes_on next (new_line p)
    else if is_blank ch
    then goes_on header_end p
    else fails invalid_or_missing_header

header_number : ℕ → (ℕ → Mode) → Parser → Outcome
header_number ch mode p =
    if is_digit ch then goes_on (mode (ch - 48)) p else fails invalid_or_missing_header

-- What follows the optional '-'.
at_number : Bool → ℕ → Parser → Outcome
at_number negative ch p =
    if ch == 101
    then (if ltb 0 p.lits_read then fails e_after_clause else elim p.quantifying [
      | none ↦ goes_on next (record p { quantifying = exists })
      | _ ↦ fails zero_missing_after_e
    ])
    else if ch == 97
    then (if ltb 0 p.lits_read then fails a_after_clause else elim p.quantifying [
      | none ↦ goes_on next (record p { quantifying = forall })
      | _ ↦ fails zero_missing_after_a
    ])
    else if is_digit ch
    then goes_on (literal negative (ch - 48)) p
    else fails expected_digit

-- From the label NEXT on.
at_next : ℕ → Parser → Outcome
at_next ch p =
    if ch == 10
    then goes_on next (new_line p)
    else if is_blank ch
    then goes_on next p
    else if ch == 99
    then goes_on comment p
    else if ch == 45
    then elim p.quantifying [ none ↦ goes_on minus p | _ ↦ fails negative_number_in_prefix ]
    else at_number false ch p

abbrev pub signed : Bool → ℕ → ℤ
signed true zero = pos zero
signed true (suc n) = negsuc n
signed false n = pos n

-- add_quantifier, with the counters.
unfoldable pub add_quantifier : Quantifying → ℕ → Parser → Parser
add_quantifier none n p = p
add_quantifier exists n p = record p {
  quantifiers = p.quantifiers ++ signed false n ∷ [];
  existential_vars = suc p.existential_vars;
}
add_quantifier forall n p = record p {
  quantifiers = p.quantifiers ++ signed true n ∷ [];
  universal_vars = suc p.universal_vars;
}

-- push_literal
unfoldable pub push_literal : Bool → ℕ → Parser → Parser
push_literal negative n p = record p {
  lits_read = suc p.lits_read;
  has_lits = true;
  lits = p.lits ++ signed negative n ∷ [];
  highest_lit = if ltb p.highest_lit n then n else p.highest_lit;
}

-- add_clause: the clause is not counted if there is no cell yet.
unfoldable pub add_clause : Parser → Parser
add_clause p =
    let p1 = record p { clauses_read = suc p.clauses_read } in
    if p.has_lits
    then record p1 {
      literals = p.literals ++ (p.lits ++ pos 0 ∷ []);
      lits = [];
      clause_count = suc p.clause_count;
    }
    else record p1 { literals = p.literals ++ pos 0 ∷ [] }

-- A number in the prefix or in a clause.
unfoldable pub take_number : Quantifying → Bool → ℕ → Parser → Parser
unfolding add_quantifier push_literal add_clause
take_number none negative zero p = add_clause p
take_number none negative (suc n) p = push_literal negative (suc n) p
take_number q negative zero p = record p { quantifying = none }
take_number q negative (suc n) p = add_quantifier q (suc n) p

abbrev pub is_none : Quantifying → Bool
is_none none = true
is_none _ = false

-- A literal is complete.
unfoldable pub end_literal : (force negative : Bool) → ℕ → Parser → Outcome
unfolding take_number
end_literal force negative n p =
    if ltb p.num_vars n
    then fails maximum_variable_index_exceeded
    else if not force && is_none p.quantifying && p.clauses_read == p.num_clauses
    then fails too_many_clauses
    else goes_on next (take_number p.quantifying negative n p)

-- Reads one character.
unfoldable pub step : (force : Bool) → Mode → ℕ → Parser → Outcome
unfolding expect at_skip at_header_end header_number at_number at_next end_literal is_blank is_digit
step force skip ch p = at_skip ch p
step force header_comment ch p =
    if ch == 10 then goes_on skip (new_line p) else goes_on header_comment p
step force after_p ch p = expect 32 before_c ch p
step force before_c ch p = if ch == 32 then goes_on before_c p else expect 99 after_c ch p
step force after_c ch p = expect 110 after_n ch p
step force after_n ch p = expect 102 after_f ch p
step force after_f ch p = expect 32 before_vars ch p
step force before_vars ch p = if ch == 32 then goes_on before_vars p else header_number ch vars p
step force (vars m) ch p =
    if is_digit ch
    then add_digit m ch vars p
    else expect 32 before_clauses ch (record p { num_vars = m })
step force before_clauses ch p =
    if ch == 32 then goes_on before_clauses p else header_number ch clauses p
step force (clauses n) ch p =
    if is_digit ch
    then add_digit n ch clauses p
    else at_header_end ch (record p { num_clauses = n })
step force header_end ch p = at_header_end ch p
step force next ch p = at_next ch p
step force comment ch p = if ch == 10 then goes_on next (new_line p) else goes_on comment p
step force minus ch p = if ch == 48 then fails minus_followed_by_zero else at_number true ch p
step force (literal negative n) ch p =
    if is_digit ch
    then add_digit n ch (literal negative) p
    else if is_blank ch
    then end_literal force negative n p
    else if ch == 10
    then end_literal force negative n (new_line p)
    else fails expected_space_after_literal

-- The result of `parse`.
pub data ParseResult : Type 0 where
  parsed : Parser → ParseResult
  failed : ParseError → ParseResult

at_end : Bool → Parser → ParseResult
at_end force p =
    if not force && ltb p.clauses_read p.num_clauses then failed clauses_missing else parsed p

end_after : Bool → Outcome → ParseResult
end_after force (goes_on mode p) = at_end force p
end_after force (fails e) = failed e

-- The end of the file in each mode.
unfoldable pub finish : (force : Bool) → Mode → Parser → ParseResult
unfolding at_end end_literal end_after
finish force header_comment p = failed end_of_file_in_comment
finish force comment p = failed end_of_file_in_comment
finish force next p = at_end force p
finish force minus p = failed expected_digit
finish force (literal negative n) p = end_after force (end_literal force negative n p)
finish force _ p = failed invalid_or_missing_header

unfoldable pub run : (force : Bool) → Mode → List ℕ → Parser → ParseResult
unfolding step finish
run force mode [] p = finish force mode p
run force mode (ch ∷ chs) p = elim (step force mode ch p) [
  | goes_on mode' p' ↦ run force mode' chs p'
  | fails e ↦ failed e
]

abbrev pub new_parser : Parser
new_parser = record {
  lineno = 1;
  num_vars = 0;
  num_clauses = 0;
  clauses_read = 0;
  lits_read = 0;
  quantifying = none;
  quantifiers = [];
  existential_vars = 0;
  universal_vars = 0;
  has_lits = false;
  lits = [];
  literals = [];
  highest_lit = 0;
  clause_count = 0;
}

-- Parser::parse(FILE*) of a file with these characters.
unfoldable pub parse : (force : Bool) → List ℕ → ParseResult
unfolding run
parse force chs = run force skip chs new_parser

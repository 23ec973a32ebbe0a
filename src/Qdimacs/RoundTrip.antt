-- ===== src/Qdimacs/RoundTrip.antt =====
-- The parser reads what the text of a formula says (modules/solver_qbf/parser_qbf.cpp).
use paracooba.Prelude.{
  ℕ, ◌+◌, ◌-◌, ◌≤◌, ◌≡◌, refl, sym, ap, ◌∙◌, Bool, false, List, ◌∷◌, ◌++◌, ◌==◌, length, arith,
}
use paracooba.Qdimacs.{
  Parser, Mode, skip, before_vars, vars, before_clauses, clauses, next, run, step, parse, parsed,
  is_digit, new_parser, new_line, goes_on, at_header_end, header_number,
}
use paracooba.Qdimacs.Text.{
  Numeral, value, numeral_text, IsNumeral, text, Formula, IsFormula, prefix, matrix, blocks_text,
  clauses_text, counted_from,
}
use paracooba.Qdimacs.Numerals.{run-digits, run-step, is_digit-digit}
use paracooba.Qdimacs.Clauses.{run-clauses_text}
use paracooba.Qdimacs.Prefix.{run-blocks_text}

-- A number of the header.
header_number-digit :
    (d : ℕ) (mode : ℕ → Mode) (p : Parser)
    → d ≤ 9
    → header_number (48 + d) mode p ≡ goes_on (mode d) p
unfolding header_number
header_number-digit d mode p h =
    let s : 48 + d - 48 ≡ d = omega arith in rw (is_digit-digit d h, s) refl

run-vars :
    (force : Bool) (n : Numeral) (t : List ℕ) (p : Parser)
    → IsNumeral n
    → run force before_vars (numeral_text n (32 ∷ t)) p
      ≡ run force before_clauses t (record p { num_vars = value n })
unfolding step is_digit
run-vars force n t p h =
    let s : (48 + n.first == 32) ≡ false = ground arith in
    run-step force before_vars (48 + n.first) _ p _ p
      (rw s (header_number-digit n.first vars p h.first))
    ∙ run-digits force vars n.first n.rest (32 ∷ t) p (λ k ch e. rw e refl) h.rest h.small
    ∙ run-step force (vars (value n)) 32 t p _ _ refl

run-clauses :
    (force : Bool) (n : Numeral) (t : List ℕ) (p : Parser)
    → IsNumeral n
    → run force before_clauses (numeral_text n (10 ∷ t)) p
      ≡ run force next t (new_line (record p { num_clauses = value n }))
unfolding step is_digit at_header_end
run-clauses force n t p h =
    let s : (48 + n.first == 32) ≡ false = ground arith in
    run-step force before_clauses (48 + n.first) _ p _ p
      (rw s (header_number-digit n.first clauses p h.first))
    ∙ run-digits force clauses n.first n.rest (10 ∷ t) p (λ k ch e. rw e refl) h.rest h.small
    ∙ run-step force (clauses (value n)) 10 t p _ _ refl

-- The characters up to the first number.
run-start :
    (force : Bool) (t : List ℕ) (p : Parser)
    → run force skip (112 ∷ 32 ∷ 99 ∷ 110 ∷ 102 ∷ 32 ∷ t) p ≡ run force before_vars t p
unfolding run step
run-start force t p = refl

-- The text of a formula, with blocks of the prefix and clauses over the variables 1 to m, the
-- number of clauses that the header says, and numbers below 2 to the power of 31 of which the
-- variables have no leading zero, is parsed without an error: the quantifiers are those of the
-- prefix in order, universal ones negated, the literals are those of the clauses in order with a
-- 0 after each clause, the loop has read as many clauses as there are, and the count of clauses
-- that the parser gives is that of the clauses from the first one on that has a literal.
pub parse-text :
    (force : Bool) (f : Formula)
    → IsFormula f
    → (p : Parser) × ((parse force (text f) ≡ parsed p)
        × ((p.quantifiers ≡ prefix f.blocks)
            × ((p.literals ≡ matrix f.clauses)
                × ((p.clauses_read ≡ length f.clauses)
                    × (p.clause_count ≡ counted_from false f.clauses)))))
unfolding parse
parse-text force f v =
    let p0 = record new_parser { num_vars = value f.num_vars } in
    let p1 = new_line (record p0 { num_clauses = value f.num_clauses }) in
    let rest = clauses_text f.clauses in
    let body = blocks_text f.blocks rest in
    let size = numeral_text f.num_clauses (10 ∷ body) in
    let b = run-blocks_text force f.blocks rest p1 v.blocks refl refl in
    let c =
      run-clauses_text force f.clauses b.result (rw b.same.num_vars v.clauses) b.quantifying
        b.same.lits (rw (b.same.clauses_read, b.same.num_clauses) (omega (arith, v.as_many))) in
    (
      c.result,
      (
        run-start force (numeral_text f.num_vars (32 ∷ size)) new_parser
            ∙ run-vars force f.num_vars size new_parser v.num_vars
            ∙ run-clauses force f.num_clauses body p0 v.num_clauses
            ∙ b.run
            ∙ c.run,
        (
          c.quantifiers ∙ b.same.quantifiers,
          (
            c.literals ∙ ap (λ xs. xs ++ matrix f.clauses) b.same.literals,
            (
              c.read ∙ b.same.num_clauses ∙ sym v.as_many,
              c.count ∙ rw (b.same.has_lits, b.same.clause_count) (omega arith),
            ),
          ),
        ),
      ),
    )

-- ===== src/Tests/Parsers.antt =====
-- The theorem on the parser at a concrete file.
use paracooba.Prelude.{ℕ, ◌≡◌, refl, true, false, [], ◌∷◌, arith}
use paracooba.Qdimacs.{Parser, parse, parsed}
use paracooba.Qdimacs.Text.{
  Numeral, IsNumeral, IsVariable, Formula, IsFormula, text, prefix, matrix,
}
use paracooba.Qdimacs.RoundTrip.{parse-text}

abbrev one_digit : ℕ → Numeral
one_digit d = record { first = d; rest = [] }

abbrev twelve : Numeral
twelve = record { first = 1; rest = 2 ∷ [] }

-- p cnf 12 1 / a 1 0 / e 12 0 / 1 -12 0
abbrev small_formula : Formula
small_formula = record {
  num_vars = twelve;
  num_clauses = one_digit 1;
  blocks =
      record { universal = true; variables = one_digit 1 ∷ [] }
      ∷ record { universal = false; variables = twelve ∷ [] }
      ∷ [];
  clauses =
      (record { negative = false; variable = one_digit 1 }
        ∷ record { negative = true; variable = twelve }
        ∷ [])
      ∷ [];
}

twelve-IsNumeral : IsNumeral twelve
twelve-IsNumeral = record { first = omega arith; rest = (omega arith, tt); small = omega arith }

one-IsNumeral : IsNumeral (one_digit 1)
one-IsNumeral = record { first = omega arith; rest = tt; small = omega arith }

twelve-IsVariable : IsVariable 12 twelve
twelve-IsVariable = record {
  numeral = twelve-IsNumeral;
  positive = omega arith;
  bounded = omega arith;
}

one-IsVariable : IsVariable 12 (one_digit 1)
one-IsVariable = record { numeral = one-IsNumeral; positive = omega arith; bounded = omega arith }

small_formula-IsFormula : IsFormula small_formula
small_formula-IsFormula = record {
  num_vars = twelve-IsNumeral;
  num_clauses = one-IsNumeral;
  as_many = refl;
  blocks = ((one-IsVariable, tt), ((twelve-IsVariable, tt), tt));
  clauses = ((one-IsVariable, (twelve-IsVariable, tt)), tt);
}

parse-text_example :
    (p : Parser) × ((parse false (text small_formula) ≡ parsed p)
      × ((p.quantifiers ≡ prefix small_formula.blocks)
          × ((p.literals ≡ matrix small_formula.clauses)
              × ((p.clauses_read ≡ 1) × (p.clause_count ≡ 1)))))
unfolding paracooba.Qdimacs.Text.counted_from
parse-text_example = parse-text false small_formula small_formula-IsFormula

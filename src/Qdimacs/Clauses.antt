-- ===== src/Qdimacs/Clauses.antt =====
-- The automaton on the clauses of a file (modules/solver_qbf/parser_qbf.cpp).
use paracooba.Prelude.{
  ℕ, zero, suc, ◌+◌, ◌≤◌, ◌<◌, ◌≡◌, refl, sym, ap, ◌∙◌, Bool, true, false, not, ◌&&◌, ◌||◌,
  if◌then◌else◌, List, [], ◌∷◌, ◌++◌, ltb, if_intro, length, append_assoc, append-nil, arith,
  Bool-cases, inl, inr,
}
use paracooba.Cubes.{pos}
use paracooba.Qdimacs.{
  Parser, Quantifying, none, exists, forall, next, run, take_number, push_literal, add_clause,
  signed, new_line, parsed, finish,
}
use paracooba.Qdimacs.Text.{
  Numeral, value, Literal, literal_text, clause_text, clauses_text, clause_literals, matrix,
  is_empty, counted_from, AllLiterals, AllClauses, IsVariable,
}
use paracooba.Qdimacs.Numerals.{value_from-le, Accepts, run-number, run-negative, run-zero}

-- The parser after a clause.
abbrev after_clause : List Literal → Parser → Parser
after_clause [] p = add_clause (new_line p)
after_clause (l ∷ ls) p = after_clause ls (push_literal l.negative (value l.variable) p)

take_number-positive :
    (q : Quantifying) (negative : Bool) (n : ℕ) (p : Parser)
    → q ≡ none
    → 1 ≤ n
    → take_number q negative n p ≡ push_literal negative n p
unfolding take_number
take_number-positive none negative zero p e h = absurd (omega arith)
take_number-positive none negative (suc n) p e h = refl
take_number-positive exists negative n p e h = absurd (ground arith)
take_number-positive forall negative n p e h = absurd (ground arith)

pub Accepts-clause :
    (force : Bool) (n : ℕ) (p : Parser)
    → n ≤ p.num_vars
    → p.clauses_read < p.num_clauses
    → Accepts force n p
Accepts-clause force n p h r = record { bounded = h; room = ground (arith, r) }

pub positive_value : (m : ℕ) (n : Numeral) → IsVariable m n → 1 ≤ value n
positive_value m n v = omega (arith, v.positive, value_from-le n.first n.rest)

run-literal_text :
    (force : Bool) (l : Literal) (t : List ℕ) (p : Parser)
    → IsVariable p.num_vars l.variable
    → p.quantifying ≡ none
    → p.clauses_read < p.num_clauses
    → run force next (literal_text l t) p
      ≡ run force next t (push_literal l.negative (value l.variable) p)
run-literal_text force l t p v q r =
    let n = l.variable in
    let a = Accepts-clause force (value n) p v.bounded r in
    let one = positive_value p.num_vars n v in
    elim (Bool-cases l.negative) [
      | inl e ↦
          rw e (run-negative force n t p v.numeral v.positive q a)
          ∙ ap (run force next t) (
              take_number-positive p.quantifying true (value n) p q one
              ∙ ap (λ b. push_literal b (value n) p) (sym e))
      | inr e ↦
          rw e (run-number force n t p v.numeral a)
          ∙ ap (run force next t) (
              take_number-positive p.quantifying false (value n) p q one
              ∙ ap (λ b. push_literal b (value n) p) (sym e))
    ]

run-clause :
    (force : Bool) (c : List Literal) (t : List ℕ) (p : Parser)
    → AllLiterals p.num_vars c
    → p.quantifying ≡ none
    → p.clauses_read < p.num_clauses
    → run force next (clause_text c t) p ≡ run force next t (after_clause c p)
unfolding push_literal add_clause take_number
run-clause force [] t p a q r =
    run-zero force t p (Accepts-clause force 0 p (omega arith) r)
    ∙ ap (λ k. run force next t (take_number k false 0 (new_line p))) q
run-clause force (l ∷ ls) t p a q r =
    run-literal_text force l (clause_text ls t) p a.0 q r
    ∙ run-clause force ls t (push_literal l.negative (value l.variable) p) a.1 q r

-- What a clause changes.
record Pushed (c : List Literal) (p q : Parser) : Type 0 where
  pub num_vars : q.num_vars ≡ p.num_vars
  pub num_clauses : q.num_clauses ≡ p.num_clauses
  pub quantifying : q.quantifying ≡ p.quantifying
  pub quantifiers : q.quantifiers ≡ p.quantifiers
  pub read : q.clauses_read ≡ suc p.clauses_read
  pub lits : q.lits ≡ []
  pub literals : q.literals ≡ p.literals ++ (p.lits ++ clause_literals c)
  pub has_lits : q.has_lits ≡ (p.has_lits || not (is_empty c))
  pub count : q.clause_count ≡ (if p.has_lits || not (is_empty c) then 1 else 0) + p.clause_count

after_clause-Pushed :
    (c : List Literal) (p : Parser)
    → (p.has_lits ≡ false → p.lits ≡ [])
    → Pushed c p (after_clause c p)
unfolding add_clause push_literal
after_clause-Pushed [] p h =
    if_intro (Pushed [] p) p.has_lits _ _
      (λ t. record {
        num_vars = refl;
        num_clauses = refl;
        quantifying = refl;
        quantifiers = refl;
        read = refl;
        lits = refl;
        literals = refl;
        has_lits = rw t refl;
        count = rw t (omega arith);
      })
      (λ f. record {
        num_vars = refl;
        num_clauses = refl;
        quantifying = refl;
        quantifiers = refl;
        read = refl;
        lits = h f;
        literals = ap (λ xs. p.literals ++ (xs ++ pos 0 ∷ [])) (sym (h f));
        has_lits = rw f refl;
        count = rw f (omega arith);
      })
after_clause-Pushed (l ∷ ls) p h =
    let k = after_clause-Pushed ls (push_literal l.negative (value l.variable) p) (λ f. cc) in
    record {
      num_vars = k.num_vars;
      num_clauses = k.num_clauses;
      quantifying = k.quantifying;
      quantifiers = k.quantifiers;
      read = k.read;
      lits = k.lits;
      literals =
          k.literals
          ∙ ap (λ xs. p.literals ++ xs)
              (append_assoc p.lits (signed l.negative (value l.variable) ∷ [])
                (clause_literals ls));
      has_lits = k.has_lits ∙ ground arith;
      count = k.count ∙ ground arith;
    }

-- What the clauses up to the end of the file make of p.
pub record ReadsClauses (force : Bool) (cs : List (List Literal)) (p : Parser) : Type 0 where
  pub result : Parser
  pub run : run force next (clauses_text cs) p ≡ parsed result
  pub literals : result.literals ≡ p.literals ++ matrix cs
  pub quantifiers : result.quantifiers ≡ p.quantifiers
  pub read : result.clauses_read ≡ p.num_clauses
  pub count : result.clause_count ≡ p.clause_count + counted_from p.has_lits cs

pub run-clauses_text :
    (force : Bool) (cs : List (List Literal)) (p : Parser)
    → AllClauses p.num_vars cs
    → p.quantifying ≡ none
    → p.lits ≡ []
    → p.clauses_read + length cs ≡ p.num_clauses
    → ReadsClauses force cs p
unfolding run finish counted_from
run-clauses_text force [] p a q l n =
    let whole : (not force && ltb p.clauses_read p.num_clauses) ≡ false = ground (arith, n) in
    record {
      result = p;
      run = rw whole refl;
      literals = sym (append-nil p.literals);
      quantifiers = refl;
      read = omega (arith, n);
      count = omega arith;
    }
run-clauses_text force (c ∷ cs) p a q l n =
    let p1 = after_clause c p in
    let k = after_clause-Pushed c p (λ _. l) in
    let rest =
      run-clauses_text force cs p1 (rw k.num_vars a.1) (k.quantifying ∙ q) k.lits
        (rw (k.read, k.num_clauses) (omega (arith, n))) in
    record {
      result = rest.result;
      run = run-clause force c (clauses_text cs) p a.0 q (omega (arith, n)) ∙ rest.run;
      literals =
          rest.literals
          ∙ rw (k.literals, l) (append_assoc p.literals (clause_literals c) (matrix cs));
      quantifiers = rest.quantifiers ∙ k.quantifiers;
      read = rest.read ∙ k.num_clauses;
      count =
          rest.count
          ∙ ap (λ b. p1.clause_count + counted_from b cs) k.has_lits
          ∙ omega (arith, k.count);
    }

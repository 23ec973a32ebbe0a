-- ===== src/Qdimacs/Prefix.antt =====
-- The automaton on the prefix of a file (modules/solver_qbf/parser_qbf.cpp).
use paracooba.Prelude.{
  ℕ, zero, suc, ◌≤◌, ◌≡◌, refl, sym, ap, ◌∙◌, Bool, true, false, List, [], ◌∷◌, ◌++◌, if◌then◌else◌,
  append_assoc, append-nil, arith,
}
use paracooba.Cubes.{ℤ}
use paracooba.Qdimacs.{
  Parser, Quantifying, none, exists, forall, next, run, step, take_number, add_quantifier, signed,
  new_line, at_next, at_number, is_blank,
}
use paracooba.Qdimacs.Text.{
  Numeral, value, Block, variables_text, blocks_text, bound, prefix, AllVariables, AllBlocks,
}
use paracooba.Qdimacs.Numerals.{Accepts, run-number, run-zero, run-step}
use paracooba.Qdimacs.Clauses.{positive_value}

abbrev kind : Bool → Quantifying
kind true = forall
kind false = exists

-- The parser after the variables of a block.
abbrev after_variables : Bool → List Numeral → Parser → Parser
after_variables u [] p = record (new_line p) { quantifying = none }
after_variables u (n ∷ ns) p = after_variables u ns (add_quantifier (kind u) (value n) p)

Accepts-quantified :
    (force u : Bool) (n : ℕ) (p : Parser)
    → p.quantifying ≡ kind u
    → n ≤ p.num_vars
    → Accepts force n p
Accepts-quantified force true n p q h = record { bounded = h; room = ground (arith, q) }
Accepts-quantified force false n p q h = record { bounded = h; room = ground (arith, q) }

take_number-kind :
    (u : Bool) (n : ℕ) (p : Parser)
    → 1 ≤ n
    → take_number (kind u) false n p ≡ add_quantifier (kind u) n p
unfolding take_number
take_number-kind u zero p h = absurd (omega arith)
take_number-kind true (suc n) p h = refl
take_number-kind false (suc n) p h = refl

take_zero-kind :
    (u : Bool) (p : Parser) → take_number (kind u) false 0 p ≡ record p { quantifying = none }
unfolding take_number
take_zero-kind true p = refl
take_zero-kind false p = refl

-- What a block changes.
pub record Bound (xs : List ℤ) (p q : Parser) : Type 0 where
  pub num_vars : q.num_vars ≡ p.num_vars
  pub num_clauses : q.num_clauses ≡ p.num_clauses
  pub clauses_read : q.clauses_read ≡ p.clauses_read
  pub lits_read : q.lits_read ≡ p.lits_read
  pub lits : q.lits ≡ p.lits
  pub has_lits : q.has_lits ≡ p.has_lits
  pub clause_count : q.clause_count ≡ p.clause_count
  pub literals : q.literals ≡ p.literals
  pub quantifiers : q.quantifiers ≡ p.quantifiers ++ xs

Bound-trans : (xs ys : List ℤ) (p q r : Parser) → Bound xs p q → Bound ys q r → Bound (xs ++ ys) p r
Bound-trans xs ys p q r a b = record {
  num_vars = b.num_vars ∙ a.num_vars;
  num_clauses = b.num_clauses ∙ a.num_clauses;
  clauses_read = b.clauses_read ∙ a.clauses_read;
  lits_read = b.lits_read ∙ a.lits_read;
  lits = b.lits ∙ a.lits;
  has_lits = b.has_lits ∙ a.has_lits;
  clause_count = b.clause_count ∙ a.clause_count;
  literals = b.literals ∙ a.literals;
  quantifiers = b.quantifiers ∙ rw a.quantifiers (append_assoc p.quantifiers xs ys);
}

mode-Bound :
    (k : Quantifying) (n : ℕ) (p : Parser) → Bound [] p (record p { quantifying = k; lineno = n })
mode-Bound k n p = record {
  num_vars = refl;
  num_clauses = refl;
  clauses_read = refl;
  lits_read = refl;
  lits = refl;
  has_lits = refl;
  clause_count = refl;
  literals = refl;
  quantifiers = sym (append-nil p.quantifiers);
}

add_quantifier-Bound :
    (u : Bool) (n : ℕ) (p : Parser) → Bound (signed u n ∷ []) p (add_quantifier (kind u) n p)
unfolding add_quantifier
add_quantifier-Bound true n p = record {
  num_vars = refl;
  num_clauses = refl;
  clauses_read = refl;
  lits_read = refl;
  lits = refl;
  has_lits = refl;
  clause_count = refl;
  literals = refl;
  quantifiers = refl;
}
add_quantifier-Bound false n p = record {
  num_vars = refl;
  num_clauses = refl;
  clauses_read = refl;
  lits_read = refl;
  lits = refl;
  has_lits = refl;
  clause_count = refl;
  literals = refl;
  quantifiers = refl;
}

quantifying-add_quantifier :
    (u : Bool) (n : ℕ) (p : Parser) → (add_quantifier (kind u) n p).quantifying ≡ p.quantifying
unfolding add_quantifier
quantifying-add_quantifier true n p = refl
quantifying-add_quantifier false n p = refl

after_variables-Bound :
    (u : Bool) (ns : List Numeral) (p : Parser) → Bound (bound u ns) p (after_variables u ns p)
after_variables-Bound u [] p = mode-Bound none (suc p.lineno) p
after_variables-Bound u (n ∷ ns) p =
    let p1 = add_quantifier (kind u) (value n) p in
    Bound-trans (signed u (value n) ∷ []) (bound u ns) p p1 _ (add_quantifier-Bound u (value n) p)
      (after_variables-Bound u ns p1)

quantifying-after_variables :
    (u : Bool) (ns : List Numeral) (p : Parser) → (after_variables u ns p).quantifying ≡ none
quantifying-after_variables u [] p = refl
quantifying-after_variables u (n ∷ ns) p = quantifying-after_variables u ns _

run-variables_text :
    (force u : Bool) (ns : List Numeral) (t : List ℕ) (p : Parser)
    → AllVariables p.num_vars ns
    → p.quantifying ≡ kind u
    → run force next (variables_text ns t) p ≡ run force next t (after_variables u ns p)
run-variables_text force u [] t p a q =
    run-zero force t p (Accepts-quantified force u 0 p q (omega arith))
    ∙ ap (λ k. run force next t (take_number k false 0 (new_line p))) q
    ∙ ap (run force next t) (take_zero-kind u (new_line p))
run-variables_text force u (n ∷ ns) t p a q =
    let p1 = add_quantifier (kind u) (value n) p in
    let same = add_quantifier-Bound u (value n) p in
    run-number force n (variables_text ns t) p a.0.numeral
      (Accepts-quantified force u (value n) p q a.0.bounded)
    ∙ ap (λ k. run force next (variables_text ns t) (take_number k false (value n) p)) q
    ∙ ap (run force next (variables_text ns t))
        (take_number-kind u (value n) p (positive_value p.num_vars n a.0))
    ∙ run-variables_text force u ns t p1 (rw same.num_vars a.1)
        (quantifying-add_quantifier u (value n) p ∙ q)

-- The letter of a block.
run-letter :
    (force u : Bool) (t : List ℕ) (p : Parser)
    → p.quantifying ≡ none
    → p.lits_read ≡ 0
    → run force next ((if u then 97 else 101) ∷ 32 ∷ t) p
      ≡ run force next t (record p { quantifying = kind u })
unfolding step at_next at_number is_blank
run-letter force true t p q c =
    run-step force next 97 _ p next (record p { quantifying = forall }) (simp (q, c) refl)
    ∙ run-step force next 32 t _ next _ refl
run-letter force false t p q c =
    run-step force next 101 _ p next (record p { quantifying = exists }) (simp (q, c) refl)
    ∙ run-step force next 32 t _ next _ refl

-- What the prefix makes of p.
pub record ReadsPrefix (force : Bool) (bs : List Block) (t : List ℕ) (p : Parser) : Type 0 where
  pub result : Parser
  pub run : run force next (blocks_text bs t) p ≡ run force next t result
  pub same : Bound (prefix bs) p result
  pub quantifying : result.quantifying ≡ none

pub run-blocks_text :
    (force : Bool) (bs : List Block) (t : List ℕ) (p : Parser)
    → AllBlocks p.num_vars bs
    → p.quantifying ≡ none
    → p.lits_read ≡ 0
    → ReadsPrefix force bs t p
run-blocks_text force [] t p a q c = record {
  result = p;
  run = refl;
  same = mode-Bound p.quantifying p.lineno p;
  quantifying = q;
}
run-blocks_text force (b ∷ bs) t p a q c =
    let p0 = record p { quantifying = kind b.universal } in
    let p1 = after_variables b.universal b.variables p0 in
    let more = blocks_text bs t in
    let k = after_variables-Bound b.universal b.variables p0 in
    let block =
      Bound-trans [] (bound b.universal b.variables) p p0 p1
        (mode-Bound (kind b.universal) p.lineno p) k in
    let rest =
      run-blocks_text force bs t p1 (rw k.num_vars a.1)
        (quantifying-after_variables b.universal b.variables p0) (k.lits_read ∙ c) in
    record {
      result = rest.result;
      run =
          run-letter force b.universal (variables_text b.variables more) p q c
          ∙ run-variables_text force b.universal b.variables more p0 a.0 refl
          ∙ rest.run;
      same =
          Bound-trans (bound b.universal b.variables) (prefix bs) p p1 rest.result block rest.same;
      quantifying = rest.quantifying;
    }

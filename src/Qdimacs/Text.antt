-- ===== src/Qdimacs/Text.antt =====
-- What a QDIMACS file says, and its text: an independent description of what the parser of
-- modules/solver_qbf/parser_qbf.cpp reads.
use paracooba.Prelude.{
  ℕ, ◌+◌, ◌*◌, ◌^◌, ◌≤◌, ◌<◌, ◌≡◌, Bool, true, false, not, ◌||◌, List, [], ◌∷◌, ◌++◌, if◌then◌else◌,
  length,
}
use paracooba.Cubes.{ℤ, pos}
use paracooba.Qdimacs.{signed}

-- A number in decimal digits.
pub record Numeral : Type 0 where
  pub first : ℕ
  pub rest : List ℕ

-- The number that further digits make of n.
abbrev pub value_from : ℕ → List ℕ → ℕ
value_from n [] = n
value_from n (d ∷ ds) = value_from (10 * n + d) ds

abbrev pub value : Numeral → ℕ
value n = value_from n.first n.rest

abbrev pub AllDigits : List ℕ → Type 0
AllDigits [] = Unit {0}
AllDigits (d ∷ ds) = (d ≤ 9) × AllDigits ds

pub record IsNumeral (n : Numeral) : Type 0 where
  pub first : n.first ≤ 9
  pub rest : AllDigits n.rest
  pub small : value n < 2 ^ 31

abbrev pub digits : List ℕ → List ℕ
digits [] = []
digits (d ∷ ds) = (48 + d) ∷ digits ds

-- The digits, and what comes after them.
abbrev pub numeral_text : Numeral → List ℕ → List ℕ
numeral_text n t = (48 + n.first) ∷ digits n.rest ++ t

-- A literal is a variable or its negation; a block of the prefix binds variables.
pub record Literal : Type 0 where
  pub negative : Bool
  pub variable : Numeral

pub record Block : Type 0 where
  pub universal : Bool
  pub variables : List Numeral

pub record Formula : Type 0 where
  pub num_vars : Numeral
  pub num_clauses : Numeral
  pub blocks : List Block
  pub clauses : List (List Literal)

-- Each text is followed by t.
abbrev pub literal_text : Literal → List ℕ → List ℕ
literal_text l t =
    if l.negative then 45 ∷ numeral_text l.variable (32 ∷ t) else numeral_text l.variable (32 ∷ t)

abbrev pub clause_text : List Literal → List ℕ → List ℕ
clause_text [] t = 48 ∷ 10 ∷ t
clause_text (l ∷ ls) t = literal_text l (clause_text ls t)

abbrev pub clauses_text : List (List Literal) → List ℕ
clauses_text [] = []
clauses_text (c ∷ cs) = clause_text c (clauses_text cs)

abbrev pub variables_text : List Numeral → List ℕ → List ℕ
variables_text [] t = 48 ∷ 10 ∷ t
variables_text (n ∷ ns) t = numeral_text n (32 ∷ variables_text ns t)

abbrev pub blocks_text : List Block → List ℕ → List ℕ
blocks_text [] t = t
blocks_text (b ∷ bs) t =
    (if b.universal then 97 else 101) ∷ 32 ∷ variables_text b.variables (blocks_text bs t)

-- "p cnf ", the two numbers, the prefix and the clauses.
abbrev pub text : Formula → List ℕ
text f =
    112
    ∷ 32
    ∷ 99
    ∷ 110
    ∷ 102
    ∷ 32
    ∷ numeral_text f.num_vars
        (32 ∷ numeral_text f.num_clauses (10 ∷ blocks_text f.blocks (clauses_text f.clauses)))

-- What the parser is to make of it.
abbrev pub clause_literals : List Literal → List ℤ
clause_literals [] = pos 0 ∷ []
clause_literals (l ∷ ls) = signed l.negative (value l.variable) ∷ clause_literals ls

abbrev pub matrix : List (List Literal) → List ℤ
matrix [] = []
matrix (c ∷ cs) = clause_literals c ++ matrix cs

abbrev pub bound : Bool → List Numeral → List ℤ
bound universal [] = []
bound universal (n ∷ ns) = signed universal (value n) ∷ bound universal ns

abbrev pub prefix : List Block → List ℤ
prefix [] = []
prefix (b ∷ bs) = bound b.universal b.variables ++ prefix bs

-- Variables are numbered from 1 to m and written without leading zeros.
pub record IsVariable (m : ℕ) (n : Numeral) : Type 0 where
  pub numeral : IsNumeral n
  pub positive : 1 ≤ n.first
  pub bounded : value n ≤ m

abbrev pub AllVariables : ℕ → List Numeral → Type 0
AllVariables m [] = Unit {0}
AllVariables m (n ∷ ns) = IsVariable m n × AllVariables m ns

abbrev pub AllBlocks : ℕ → List Block → Type 0
AllBlocks m [] = Unit {0}
AllBlocks m (b ∷ bs) = AllVariables m b.variables × AllBlocks m bs

abbrev pub AllLiterals : ℕ → List Literal → Type 0
AllLiterals m [] = Unit {0}
AllLiterals m (l ∷ ls) = IsVariable m l.variable × AllLiterals m ls

abbrev pub AllClauses : ℕ → List (List Literal) → Type 0
AllClauses m [] = Unit {0}
AllClauses m (c ∷ cs) = AllLiterals m c × AllClauses m cs

pub record IsFormula (f : Formula) : Type 0 where
  pub num_vars : IsNumeral f.num_vars
  pub num_clauses : IsNumeral f.num_clauses
  pub as_many : length f.clauses ≡ value f.num_clauses
  pub blocks : AllBlocks (value f.num_vars) f.blocks
  pub clauses : AllClauses (value f.num_vars) f.clauses

abbrev pub is_empty : List Literal → Bool
is_empty [] = true
is_empty (l ∷ ls) = false

-- The clauses from the first one on that has a literal; `started` is whether it is past.
unfoldable pub counted_from : (started : Bool) → List (List Literal) → ℕ
counted_from started [] = 0
counted_from started (c ∷ cs) =
    let s = started || not (is_empty c) in (if s then 1 else 0) + counted_from s cs

-- ===== src/Connection/Initiator/Port.antt =====
-- ExtractPortFromConnectionString of modules/communicator/tcp_connection_initiator.cpp. A string is
-- a list of character codes: 58 is the colon, 91 and 93 are the square brackets.
use paracooba.Prelude.{
  ℕ, ◌+◌, ◌-◌, ◌*◌, ◌^◌, ◌≤◌, ◌<◌, ◌≡◌, ◌≢◌, ◌⊎◌, inl, inr, refl, ap, ◌∙◌, true, false, ◌&&◌, ◌||◌,
  Option, none, some, List, [], ◌∷◌, ◌++◌, ltb, leb, ◌==◌, if◌then◌else◌, if_false, arith,
}
use paracooba.Qdimacs.Text.{value_from, AllDigits, digits}

-- rfind of one character: what stands before and after its last occurrence.
unfoldable pub split_last : (c : ℕ) → List ℕ → Option (List ℕ × List ℕ)
split_last c [] = none
split_last c (x ∷ xs) = elim (split_last c xs) [
  | some (a, b) ↦ some (x ∷ a, b)
  | none ↦ if x == c then some ([], xs) else none
]

-- rfind of "]:"; the bracket stays before.
unfoldable pub split_bracket : List ℕ → Option (List ℕ × List ℕ)
split_bracket [] = none
split_bracket (x ∷ xs) = elim (split_bracket xs) [
  | some (a, b) ↦ some (x ∷ a, b)
  | none ↦ elim xs [ [] ↦ none | y ∷ ys ↦ if x == 93 && y == 58 then some (x ∷ [], ys) else none ]
]

-- The first occurrence of a character is erased.
unfoldable pub erase_first : (c : ℕ) → List ℕ → List ℕ
erase_first c [] = []
erase_first c (x ∷ xs) = if x == c then xs else x ∷ erase_first c xs

-- The digits that a text begins with, after the number n.
unfoldable pub read_digits : (n : ℕ) → List ℕ → ℕ
read_digits n [] = n
read_digits n (x ∷ xs) =
    let rest = read_digits (10 * n + (x - 48)) xs in if leb 48 x && leb x 57 then rest else n

-- atoi, where a number that does not fit in an int keeps its value, and a negative one counts as 0;
-- neither is a port.
unfoldable pub atoi : List ℕ → ℕ
unfolding read_digits
atoi [] = 0
atoi (x ∷ xs) =
    let rest = atoi xs in
    if x == 32 || leb 9 x && leb x 13
    then rest
    else if x == 43
    then read_digits 0 xs
    else read_digits 0 (x ∷ xs)

-- What the text before the port becomes.
unfoldable pub strip_brackets : List ℕ → List ℕ
unfolding erase_first
strip_brackets host = erase_first 93 (erase_first 91 host)

-- The port is taken if it is one; otherwise the string stays as it is.
unfoldable pub take_port : (default : ℕ) → (whole host port : List ℕ) → List ℕ × ℕ
unfolding atoi strip_brackets
take_port default whole host port =
    let n = atoi port in
    if ltb n 1 || ltb (2 ^ 16 - 1) n then (whole, default) else (strip_brackets host, n)

-- ExtractPortFromConnectionString: the connection string without the port, and the port. With no
-- colon the default port is written as a text and read again.
unfoldable pub extract_port : (default : ℕ) → List ℕ → List ℕ × ℕ
unfolding split_last split_bracket take_port strip_brackets
extract_port default s = elim (split_bracket s) [
  | some (host, port) ↦ take_port default s host port
  | none ↦ elim (split_last 58 s) [
    | some (host, port) ↦ take_port default s host port
    | none ↦ (if ltb default 1 then s else strip_brackets s, default)
  ]
]

-- No colon and no bracket.
abbrev pub AllPlain : List ℕ → Type 0
AllPlain [] = Unit {0}
AllPlain (x ∷ xs) = (x ≢ 58) × (x ≢ 91) × (x ≢ 93) × AllPlain xs

digits-none : (ds : List ℕ) → AllDigits ds → split_last 58 (digits ds) ≡ none
unfolding split_last
digits-none [] a = refl
digits-none (d ∷ ds) a =
    let e : (48 + d == 58) ≡ false = ground (arith, a.0) in
    rw (split_last, digits-none ds a.1, e) refl

split_last-colon :
    (host ds : List ℕ)
    → AllPlain host
    → AllDigits ds
    → split_last 58 (host ++ 58 ∷ digits ds) ≡ some (host, digits ds)
unfolding split_last
split_last-colon [] ds p a = rw (split_last, digits-none ds a) refl
split_last-colon (x ∷ xs) ds p a = rw (split_last, split_last-colon xs ds p.3 a) refl

erase_first-plain :
    (c : ℕ) (xs : List ℕ) → ((c ≡ 91) ⊎ (c ≡ 93)) → AllPlain xs → erase_first c xs ≡ xs
unfolding erase_first
erase_first-plain c [] h p = refl
erase_first-plain c (x ∷ xs) h p =
    let e : (x == c) ≡ false = ground (arith, p.1, p.2, h) in
    rw e (ap (λ ys. x ∷ ys) (erase_first-plain c xs h p.3))

read_digits-digits :
    (n : ℕ) (ds : List ℕ) → AllDigits ds → read_digits n (digits ds) ≡ value_from n ds
unfolding read_digits
read_digits-digits n [] a = refl
read_digits-digits n (d ∷ ds) a =
    let e : (leb 48 (48 + d) && leb (48 + d) 57) ≡ true = ground (arith, a.0) in
    let k : 10 * n + (48 + d - 48) ≡ 10 * n + d = omega arith in
    rw (e, k) (read_digits-digits (10 * n + d) ds a.1)

split_bracket-step :
    (x : ℕ) (xs : List ℕ) → x ≢ 93 → split_bracket xs ≡ none → split_bracket (x ∷ xs) ≡ none
unfolding split_bracket
split_bracket-step x [] p h = refl
split_bracket-step x (y ∷ ys) p h =
    let e : (x == 93) ≡ false = ground (arith, p) in rw (split_bracket, h, e) refl

split_bracket-digits : (ds : List ℕ) → AllDigits ds → split_bracket (digits ds) ≡ none
unfolding split_bracket
split_bracket-digits [] a = refl
split_bracket-digits (d ∷ ds) a =
    split_bracket-step (48 + d) (digits ds) (λ e. omega (arith, e, a.0))
      (split_bracket-digits ds a.1)

split_bracket-plain :
    (host ds : List ℕ)
    → AllPlain host
    → AllDigits ds
    → split_bracket (host ++ 58 ∷ digits ds) ≡ none
split_bracket-plain [] ds p a =
    split_bracket-step 58 (digits ds) (λ e. omega (arith, e)) (split_bracket-digits ds a)
split_bracket-plain (x ∷ xs) ds p a =
    split_bracket-step x (xs ++ 58 ∷ digits ds) p.2 (split_bracket-plain xs ds p.3 a)

atoi-digits :
    (d : ℕ) (ds : List ℕ) → AllDigits (d ∷ ds) → atoi (digits (d ∷ ds)) ≡ value_from 0 (d ∷ ds)
unfolding atoi
atoi-digits d ds a =
    let blank : (48 + d == 32 || leb 9 (48 + d) && leb (48 + d) 13) ≡ false = ground (arith, a.0) in
    let plus : (48 + d == 43) ≡ false = ground (arith, a.0) in
    if_false (48 + d == 32 || leb 9 (48 + d) && leb (48 + d) 13) _ _ blank
    ∙ if_false (48 + d == 43) _ _ plus
    ∙ read_digits-digits 0 (d ∷ ds) a

-- Of a connection string that is a host without colons and square brackets, a colon and the
-- digits of a port from 1 to 65535, the port is taken, and the string that is left is the host.
pub extract_port-digits :
    (default d : ℕ) (host ds : List ℕ)
    → AllPlain host
    → AllDigits (d ∷ ds)
    → 1 ≤ value_from 0 (d ∷ ds)
    → value_from 0 (d ∷ ds) < 2 ^ 16
    → extract_port default (host ++ 58 ∷ digits (d ∷ ds)) ≡ (host, value_from 0 (d ∷ ds))
unfolding extract_port take_port strip_brackets
extract_port-digits default d host ds p a low high =
    let port = digits (d ∷ ds) in
    let n = atoi-digits d ds a in
    let valid : (ltb (atoi port) 1 || ltb (2 ^ 16 - 1) (atoi port)) ≡ false =
      ground (arith, n, low, high) in
    let opened = erase_first-plain 91 host (inl refl) p in
    let plain = ap (erase_first 93) opened ∙ erase_first-plain 93 host (inr refl) p in
    rw (extract_port, split_bracket-plain host (d ∷ ds) p a, split_last-colon host (d ∷ ds) p a)
      (if_false (ltb (atoi port) 1 || ltb (2 ^ 16 - 1) (atoi port)) _ _ valid
        ∙ ap (λ h. (h, atoi port)) plain
        ∙ ap (λ m. (host, m)) n)

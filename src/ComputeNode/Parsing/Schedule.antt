-- ===== src/ComputeNode/Parsing/Schedule.antt =====
-- Each schedule of the two threads ends (modules/broker/broker_compute_node.cpp).
use paracooba.Prelude.{ℕ, suc, ◌+◌, ◌≤◌, ◌≡◌, refl, false, List, [], ◌∷◌, if_intro, arith}
use paracooba.ComputeNode.{is_parsed}
use paracooba.ComputeNode.Parsing.{
  Waiter, at_first_check, at_registration, at_second_check, returned, Parser, at_mark, at_callbacks,
  finished, Threads, waiter_step, parser_step, Turn, wait, parse, run, call,
}
use paracooba.ComputeNode.Parsing.Called.{count, IsSound, IsOnTheWay, run-IsSound}

-- The numbers of turns that the threads still need.
abbrev pub waiter_left : Waiter → ℕ
waiter_left at_first_check = 3
waiter_left at_registration = 2
waiter_left at_second_check = 1
waiter_left returned = 0

abbrev pub parser_left : Parser → ℕ
parser_left at_mark = 2
parser_left at_callbacks = 1
parser_left finished = 0

-- The turns of each thread.
abbrev pub waits : List Turn → ℕ
waits [] = 0
waits (wait ∷ ts) = suc (waits ts)
waits (parse ∷ ts) = waits ts

abbrev pub parses : List Turn → ℕ
parses [] = 0
parses (wait ∷ ts) = parses ts
parses (parse ∷ ts) = suc (parses ts)

waiter_left-step :
    (id cb : ℕ) (w : Waiter) (s : Threads) (k : ℕ)
    → s.waiter ≡ w
    → waiter_left w ≤ suc k
    → waiter_left (waiter_step id cb w s).waiter ≤ k
unfolding waiter_step call
waiter_left-step id cb at_first_check s k e h =
    if_intro (λ (r : Threads). waiter_left r.waiter ≤ k) (is_parsed id s.status) _ _
      (λ _. omega arith) (λ _. omega arith)
waiter_left-step id cb at_registration s k e h = omega arith
waiter_left-step id cb at_second_check s k e h =
    if_intro (λ (r : Threads). waiter_left r.waiter ≤ k) (is_parsed id s.status) _ _
      (λ _. omega arith) (λ _. omega arith)
waiter_left-step id cb returned s k e h = rw e (omega arith)

parser-waiter_step :
    (id cb : ℕ) (w : Waiter) (s : Threads) → (waiter_step id cb w s).parser ≡ s.parser
unfolding waiter_step call
parser-waiter_step id cb at_first_check s =
    if_intro (λ (r : Threads). r.parser ≡ s.parser) (is_parsed id s.status) _ _ (λ _. refl)
      (λ _. refl)
parser-waiter_step id cb at_registration s = refl
parser-waiter_step id cb at_second_check s =
    if_intro (λ (r : Threads). r.parser ≡ s.parser) (is_parsed id s.status) _ _ (λ _. refl)
      (λ _. refl)
parser-waiter_step id cb returned s = refl

waiter-parser_step : (id : ℕ) (p : Parser) (s : Threads) → (parser_step id p s).waiter ≡ s.waiter
unfolding parser_step
waiter-parser_step id at_mark s = refl
waiter-parser_step id at_callbacks s = refl
waiter-parser_step id finished s = refl

parser_left-step :
    (id : ℕ) (p : Parser) (s : Threads) (k : ℕ)
    → s.parser ≡ p
    → parser_left p ≤ suc k
    → parser_left (parser_step id p s).parser ≤ k
unfolding parser_step
parser_left-step id at_mark s k e h = omega arith
parser_left-step id at_callbacks s k e h = omega arith
parser_left-step id finished s k e h = rw e (omega arith)

none_left : (w : Waiter) → waiter_left w ≤ 0 → w ≡ returned
none_left at_first_check h = absurd (omega arith)
none_left at_registration h = absurd (omega arith)
none_left at_second_check h = absurd (omega arith)
none_left returned h = refl

none_left_to_parse : (p : Parser) → parser_left p ≤ 0 → p ≡ finished
none_left_to_parse at_mark h = absurd (omega arith)
none_left_to_parse at_callbacks h = absurd (omega arith)
none_left_to_parse finished h = refl

run-ends :
    (id cb : ℕ) (ts : List Turn) (s : Threads)
    → waiter_left s.waiter ≤ waits ts
    → parser_left s.parser ≤ parses ts
    → ((run id cb ts s).waiter ≡ returned) × ((run id cb ts s).parser ≡ finished)
unfolding run
run-ends id cb [] s w p = (none_left s.waiter w, none_left_to_parse s.parser p)
run-ends id cb (wait ∷ ts) s w p =
    run-ends id cb ts _ (waiter_left-step id cb s.waiter s (waits ts) refl w)
      (rw (parser-waiter_step id cb s.waiter s) p)
run-ends id cb (parse ∷ ts) s w p =
    run-ends id cb ts _ (rw (waiter-parser_step id s.parser s) w)
      (parser_left-step id s.parser s (parses ts) refl p)

ended_way :
    (w : Waiter) (p : Parser) (n both : ℕ)
    → w ≡ returned
    → p ≡ finished
    → IsOnTheWay w p n both
    → (1 ≤ n) × (both ≤ 2)
ended_way w p n both e f h = rw (e, f) at h

-- Whatever the order of the two threads, if runCBAfterParsingOfFormulaIsDone has three turns and
-- formulaParsed two, both return, and the callback was called once or twice, provided that the
-- formula was not parsed and the callback neither called nor registered at the start.
pub run-calls :
    (id cb : ℕ) (ts : List Turn) (s : Threads)
    → s.waiter ≡ at_first_check
    → s.parser ≡ at_mark
    → is_parsed id s.status ≡ false
    → count cb s.called + count cb (s.callbacks id) ≡ 0
    → 3 ≤ waits ts
    → 2 ≤ parses ts
    → let r = run id cb ts s in
      ((r.waiter ≡ returned) × (r.parser ≡ finished))
      × ((1 ≤ count cb r.called) × (count cb r.called ≤ 2))
run-calls id cb ts s w p f z hw hp =
    let ends = run-ends id cb ts s (rw w hw) (rw p hp) in
    let start : IsSound id cb s = record { marked = rw p f; way = rw w z } in
    let way = ended_way _ _ _ _ ends.0 ends.1 (run-IsSound id cb ts s start).way in
    (ends, (way.0, omega (arith, way.1)))

-- ===== src/ComputeNode/Parsing/Called.antt =====
-- A waiting callback is called under each interleaving (modules/broker/broker_compute_node.cpp).
use paracooba.Prelude.{
  ℕ, suc, ◌+◌, ◌≤◌, ◌≡◌, refl, sym, ap, ◌∙◌, Bool, true, false, List, [], ◌∷◌, ◌++◌, ◌==◌,
  if◌then◌else◌, if_intro, arith,
}
use paracooba.Store.State.{update, update_self}
use paracooba.ComputeNode.{NodeStatus, is_parsed, mark_parsed}
use paracooba.ComputeNode.Work.{find-write}
use paracooba.ComputeNode.Parsing.{
  Waiter, at_first_check, at_registration, at_second_check, returned, Parser, at_mark, at_callbacks,
  finished, Threads, waiter_step, parser_step, Turn, wait, parse, run, call,
}

-- How often the callback is in the list.
abbrev pub count : ℕ → List ℕ → ℕ
count cb [] = 0
count cb (x ∷ xs) = (if x == cb then 1 else 0) + count cb xs

count-append : (cb : ℕ) (xs ys : List ℕ) → count cb (xs ++ ys) ≡ count cb xs + count cb ys
count-append cb [] ys = omega arith
count-append cb (x ∷ xs) ys = omega (arith, count-append cb xs ys)

count-one : (cb : ℕ) (xs : List ℕ) → count cb (xs ++ cb ∷ []) ≡ suc (count cb xs)
count-one cb xs = ground (arith, count-append cb xs (cb ∷ []))

is_parsed-mark_parsed : (id : ℕ) (s : NodeStatus) → is_parsed id (mark_parsed id s) ≡ true
unfolding is_parsed mark_parsed
is_parsed-mark_parsed id s =
    let e = find-write id (λ i. record i { formula_parsed = true }) s.solver_instances in
    rw (is_parsed, e) refl

-- How often the callback was called or waits, by the place of its thread; n counts the calls alone.
abbrev pub IsOnTheWay : Waiter → Parser → (n both : ℕ) → Type 0
IsOnTheWay at_first_check p n both = both ≡ 0
IsOnTheWay at_registration p n both = both ≡ 0
IsOnTheWay at_second_check p n both = both ≡ 1
IsOnTheWay returned finished n both = (1 ≤ n) × (both ≤ 2)
IsOnTheWay returned p n both = (1 ≤ both) × (both ≤ 2)

abbrev pub has_marked : Parser → Bool
has_marked at_mark = false
has_marked p = true

pub record IsSound (id cb : ℕ) (s : Threads) : Type 0 where
  pub marked : is_parsed id s.status ≡ has_marked s.parser
  pub way :
      IsOnTheWay s.waiter s.parser
        (count cb s.called)
        (count cb s.called + count cb (s.callbacks id))

call-IsSound :
    (id cb : ℕ) (s : Threads)
    → count cb s.called + count cb (s.callbacks id) ≤ 1
    → is_parsed id s.status ≡ has_marked s.parser
    → IsSound id cb (call cb s)
unfolding call
call-IsSound id cb s h m = record { marked = m; way = go s.parser (count-one cb s.called) }
  where
    go :
        (p : Parser)
        → count cb (s.called ++ cb ∷ []) ≡ suc (count cb s.called)
        → IsOnTheWay returned p
            (count cb (s.called ++ cb ∷ []))
            (count cb (s.called ++ cb ∷ []) + count cb (s.callbacks id))
    go at_mark e = (omega (arith, e), omega (arith, e, h))
    go at_callbacks e = (omega (arith, e), omega (arith, e, h))
    go finished e = (omega (arith, e), omega (arith, e, h))

-- The second check, or the first one, finds the formula not parsed.
leave-IsSound :
    (id cb : ℕ) (s : Threads)
    → count cb s.called + count cb (s.callbacks id) ≡ 1
    → is_parsed id s.status ≡ has_marked s.parser
    → has_marked s.parser ≡ false
    → IsSound id cb (record s { waiter = returned })
leave-IsSound id cb s h m f = record { marked = m; way = go s.parser f }
  where
    go :
        (p : Parser)
        → has_marked p ≡ false
        → IsOnTheWay returned p (count cb s.called) (count cb s.called + count cb (s.callbacks id))
    go at_mark e = (omega (arith, h), omega (arith, h))
    go at_callbacks e = absurd (ground (arith, e))
    go finished e = absurd (ground (arith, e))

waiter_step-IsSound :
    (id cb : ℕ) (w : Waiter) (s : Threads)
    → s.waiter ≡ w
    → IsSound id cb s
    → IsSound id cb (waiter_step id cb w s)
unfolding waiter_step
waiter_step-IsSound id cb at_first_check s e v =
    let none_yet : count cb s.called + count cb (s.callbacks id) ≡ 0 = rw e at v.way in
    if_intro (IsSound id cb) (is_parsed id s.status) _ _
      (λ _. call-IsSound id cb s (omega (arith, none_yet)) v.marked)
      (λ _. record { marked = v.marked; way = none_yet })
waiter_step-IsSound id cb at_registration s e v =
    let none_yet : count cb s.called + count cb (s.callbacks id) ≡ 0 = rw e at v.way in
    record {
      marked = v.marked;
      way =
          ap (λ xs. count cb s.called + count cb xs)
            (update_self s.callbacks id (s.callbacks id ++ cb ∷ []))
          ∙ omega (arith, count-one cb (s.callbacks id), none_yet);
    }
waiter_step-IsSound id cb at_second_check s e v =
    let once : count cb s.called + count cb (s.callbacks id) ≡ 1 = rw e at v.way in
    if_intro (IsSound id cb) (is_parsed id s.status) _ _
      (λ _. call-IsSound id cb s (omega (arith, once)) v.marked)
      (λ f. leave-IsSound id cb s once v.marked (sym v.marked ∙ f))
waiter_step-IsSound id cb returned s e v = v

-- The numbers stay, the parser goes on.
mark_way :
    (w : Waiter) (n both : ℕ) → IsOnTheWay w at_mark n both → IsOnTheWay w at_callbacks n both
mark_way at_first_check n both h = h
mark_way at_registration n both h = h
mark_way at_second_check n both h = h
mark_way returned n both h = h

finish_way :
    (w : Waiter) (n both n2 both2 : ℕ)
    → n2 ≡ both
    → both2 ≡ both
    → IsOnTheWay w at_callbacks n both
    → IsOnTheWay w finished n2 both2
finish_way at_first_check n both n2 both2 e f h = f ∙ h
finish_way at_registration n both n2 both2 e f h = f ∙ h
finish_way at_second_check n both n2 both2 e f h = f ∙ h
finish_way returned n both n2 both2 e f h = (omega (arith, h.0), omega (arith, h.1))

parser_step-IsSound :
    (id cb : ℕ) (p : Parser) (s : Threads)
    → s.parser ≡ p
    → IsSound id cb s
    → IsSound id cb (parser_step id p s)
unfolding parser_step
parser_step-IsSound id cb at_mark s e v = record {
  marked = is_parsed-mark_parsed id s.status;
  way = mark_way s.waiter _ _ (rw e at v.way);
}
parser_step-IsSound id cb at_callbacks s e v =
    let called = count-append cb s.called (s.callbacks id) in
    let empty : count cb (update s.callbacks id [] id) ≡ 0 =
      ap (count cb) (update_self s.callbacks id []) in
    record {
      marked = v.marked ∙ ap has_marked e;
      way = finish_way s.waiter _ _ _ _ called (omega (arith, called, empty)) (rw e at v.way);
    }
parser_step-IsSound id cb finished s e v = v

pub run-IsSound :
    (id cb : ℕ) (ts : List Turn) (s : Threads) → IsSound id cb s → IsSound id cb (run id cb ts s)
unfolding run
run-IsSound id cb [] s v = v
run-IsSound id cb (wait ∷ ts) s v =
    run-IsSound id cb ts _ (waiter_step-IsSound id cb s.waiter s refl v)
run-IsSound id cb (parse ∷ ts) s v =
    run-IsSound id cb ts _ (parser_step-IsSound id cb s.parser s refl v)

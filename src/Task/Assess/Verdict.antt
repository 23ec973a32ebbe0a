-- ===== src/Task/Assess/Verdict.antt =====
-- What the assessments of modules/commonc/task.c decide, against the rule of an OR node and of an
-- AND node in the tree of splits.
use paracooba.Prelude.{
  ℕ, suc, ◌+◌, ◌≡◌, ◌≤◌, refl, Bool, true, false, not, ◌&&◌, ◌||◌, Option, none, some, List, [],
  ◌∷◌, ◌==◌, length, if◌then◌else◌, arith,
}
use paracooba.Status.{Status, ◌is◌, sat, unsat}
use paracooba.Task.{Task, Heap}
use paracooba.Task.Assess.{
  is_some, existential_assess, universal_assess, scan_results, assess_extended,
}

abbrev pub any_is : Status → List Status → Bool
any_is a [] = false
any_is a (r ∷ rs) = (r is a) || any_is a rs

abbrev pub all_are : Status → List Status → Bool
all_are a [] = true
all_are a (r ∷ rs) = (r is a) && all_are a rs

-- One child that is `by` decides; all children together decide when they are `other`.
abbrev pub rule : (by other : Status) → List Status → Option Status
rule by other rs = if any_is by rs then some by else if all_are other rs then some other else none

abbrev pub decided_or : Option Status → Status → Status
decided_or none r = r
decided_or (some d) r = d

-- `existential_assess` sets the result as an OR node of the two results does: SAT if one is SAT,
-- UNSAT if both are UNSAT, and otherwise it stays; there is news exactly when one of the two
-- rules applies.
pub existential_assess-rule :
    (heap : Heap) (t : Task) (terminate_children : Bool)
    → let a = existential_assess heap t terminate_children in
      let d = rule sat unsat (t.left_result ∷ t.right_result ∷ []) in
      (a.task ≡ record t { result = decided_or d t.result }) × (a.notify ≡ is_some d)
unfolding existential_assess
existential_assess-rule heap t c = ground arith

-- `universal_assess` sets the result as an AND node does: UNSAT if one of the two results is
-- UNSAT, SAT if both are SAT, and otherwise it stays; there is news exactly when one of the two
-- rules applies.
pub universal_assess-rule :
    (heap : Heap) (t : Task) (terminate_children : Bool)
    → let a = universal_assess heap t terminate_children in
      let d = rule unsat sat (t.left_result ∷ t.right_result ∷ []) in
      (a.task ≡ record t { result = decided_or d t.result }) × (a.notify ≡ is_some d)
unfolding universal_assess
universal_assess-rule heap t c = ground arith

abbrev count_is : Status → List Status → ℕ
count_is a [] = 0
count_is a (r ∷ rs) = if r is a then suc (count_is a rs) else count_is a rs

scan-found :
    (by other : Status) (k : ℕ) (rs : List Status) → (scan_results by other k rs).0 ≡ any_is by rs
unfolding scan_results
scan-found by other k [] = refl
scan-found by other k (r ∷ rs) =
    ground (arith, scan-found by other (if r is other then suc k else k) rs)

scan-count :
    (by other : Status) (k : ℕ) (rs : List Status)
    → any_is by rs ≡ false
    → (scan_results by other k rs).1 ≡ k + count_is other rs
unfolding scan_results
scan-count by other k [] h = omega arith
scan-count by other k (r ∷ rs) h =
    ground (arith, scan-count by other (if r is other then suc k else k) rs)

count-le : (a : Status) (rs : List Status) → count_is a rs ≤ length rs
count-le a [] = omega arith
count-le a (r ∷ rs) = ground (arith, count-le a rs)

count-all : (a : Status) (rs : List Status) → (count_is a rs == length rs) ≡ all_are a rs
count-all a [] = refl
count-all a (r ∷ rs) = ground (arith, count-all a rs, count-le a rs)

-- The loops over an array of child results decide by the same rule for any number of children,
-- provided that the task has no verdict yet; a verdict of SAT or UNSAT that stands is never
-- changed, and nothing is reported then.
pub assess_extended-rule :
    (by other : Status) (heap : Heap) (t : Task) (terminate_children : Bool)
    → let a = assess_extended by other heap t terminate_children in
      let d = rule by other t.extended_children_results in
      let fixed = (t.result is sat) || (t.result is unsat) in
      (a.task ≡ (if fixed then t else record t { result = decided_or d t.result }))
      × (a.notify ≡ (not fixed && is_some d))
unfolding assess_extended
assess_extended-rule by other heap t c = ground (
  arith,
  scan-found by other 0 t.extended_children_results,
  scan-count by other 0 t.extended_children_results,
  count-all other t.extended_children_results,
)

-- ===== src/Store/Queue/Last.antt =====
-- The search of `pop_offload` (modules/broker/broker_task_store.cpp) from the back of the queue.
use paracooba.Prelude.{
  suc, ◌≡◌, refl, ap, inl, inr, Bool, true, false, none, some, List, [], ◌∷◌, ◌++◌, ◌==◌,
  if◌then◌else◌, length, Option-cases, arith,
}
use paracooba.Task.{Ptr, Task, Heap}
use paracooba.Store.State.{has}
use paracooba.Store.Queue.{take_last}
use paracooba.Store.Queue.Order.{NoneBefore, IsOrdered}
use paracooba.Store.Queue.Counts.{IsDistinct}

abbrev pub NonePasses : (Ptr → Bool) → List Ptr → Type 0
NonePasses ok [] = Unit {0}
NonePasses ok (x ∷ xs) = (ok x ≡ false) × NonePasses ok xs

-- The list splits at an entry that passes the test, and none behind it does.
pub record TakenLast (ok : Ptr → Bool) (xs : List Ptr) (p : Ptr) (rest : List Ptr) : Type 0 where
  pub front : List Ptr
  pub back : List Ptr
  pub splits : xs ≡ front ++ p ∷ back
  pub leaves : rest ≡ front ++ back
  pub passes : ok p ≡ true
  pub last : NonePasses ok back

pub take_last-none : (ok : Ptr → Bool) (xs : List Ptr) → take_last ok xs ≡ none → NonePasses ok xs
unfolding take_last
take_last-none ok [] e = tt
take_last-none ok (x ∷ xs) e = elim (Option-cases (take_last ok xs)) [
  | inl n ↦ (ground arith, take_last-none ok xs n)
  | inr ((y, ys), s) ↦ absurd (ground arith)
]

pub take_last-some :
    (ok : Ptr → Bool) (xs : List Ptr) (p : Ptr) (rest : List Ptr)
    → take_last ok xs ≡ some (p, rest)
    → TakenLast ok xs p rest
unfolding take_last
take_last-some ok [] p rest e = cc
take_last-some ok (x ∷ xs) p rest e = elim (Option-cases (take_last ok xs)) [
  | inl n ↦ record {
    front = [];
    back = xs;
    splits = ground arith;
    leaves = ground arith;
    passes = ground arith;
    last = take_last-none ok xs n;
  }
  | inr ((y, ys), s) ↦
      let r = take_last-some ok xs y ys s in
      record {
        front = x ∷ r.front;
        back = r.back;
        splits = ground (arith, r.splits);
        leaves = ground (arith, r.leaves);
        passes = ground (arith, r.passes);
        last = r.last;
      }
]

pub length-middle : (p : Ptr) (xs ys : List Ptr) → length (xs ++ p ∷ ys) ≡ suc (length (xs ++ ys))
length-middle p [] ys = refl
length-middle p (x ∷ xs) ys = ap suc (length-middle p xs ys)

pub has-middle :
    (p q : Ptr) (xs ys : List Ptr)
    → has q (xs ++ p ∷ ys) ≡ (if q == p then true else has q (xs ++ ys))
has-middle p q [] ys = refl
has-middle p q (x ∷ xs) ys = ground (arith, has-middle p q xs ys)

pub IsDistinct-middle :
    (p : Ptr) (xs ys : List Ptr)
    → IsDistinct (xs ++ p ∷ ys)
    → (has p (xs ++ ys) ≡ false) × IsDistinct (xs ++ ys)
IsDistinct-middle p [] ys d = d
IsDistinct-middle p (x ∷ xs) ys d =
    let ih = IsDistinct-middle p xs ys d.1 in
    let m = has-middle p x xs ys in (ground (arith, d.0, ih.0), (ground (arith, d.0), ih.1))

NoneBefore-middle :
    (heap : Heap) (t : Task) (p : Ptr) (xs ys : List Ptr)
    → NoneBefore heap t (xs ++ p ∷ ys)
    → NoneBefore heap t (xs ++ ys)
NoneBefore-middle heap t p [] ys n = n.1
NoneBefore-middle heap t p (x ∷ xs) ys n = (n.0, NoneBefore-middle heap t p xs ys n.1)

pub IsOrdered-middle :
    (heap : Heap) (p : Ptr) (xs ys : List Ptr)
    → IsOrdered heap (xs ++ p ∷ ys)
    → IsOrdered heap (xs ++ ys)
IsOrdered-middle heap p [] ys o = o.1
IsOrdered-middle heap p (x ∷ xs) ys o =
    (NoneBefore-middle heap (heap x) p xs ys o.0, IsOrdered-middle heap p xs ys o.1)

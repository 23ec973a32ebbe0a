-- ===== src/Store/Queue/Counts.antt =====
-- What keeps the containers of modules/broker/broker_task_store.cpp in step with one another.
use paracooba.Prelude.{
  suc, ◌≡◌, refl, ◌∙◌, inl, inr, true, false, List, [], ◌∷◌, ◌==◌, if◌then◌else◌, length,
  Bool-cases, arith,
}
use paracooba.Task.{Ptr, Heap, compare}
use paracooba.Store.State.{has, erase}
use paracooba.Store.Queue.{insert_ordered}

-- No pointer stands in the list twice.
abbrev pub IsDistinct : List Ptr → Type 0
IsDistinct [] = Unit {0}
IsDistinct (x ∷ xs) = (has x xs ≡ false) × IsDistinct xs

pub length-insert_ordered :
    (heap : Heap) (p : Ptr) (xs : List Ptr) → length (insert_ordered heap p xs) ≡ suc (length xs)
unfolding insert_ordered
length-insert_ordered heap p [] = refl
length-insert_ordered heap p (x ∷ xs) = ground (arith, length-insert_ordered heap p xs)

pub has-insert_ordered :
    (heap : Heap) (p q : Ptr) (xs : List Ptr)
    → has q (insert_ordered heap p xs) ≡ (if q == p then true else has q xs)
unfolding insert_ordered
has-insert_ordered heap p q [] = refl
has-insert_ordered heap p q (x ∷ xs) = ground (arith, has-insert_ordered heap p q xs)

pub insert_ordered-IsDistinct :
    (heap : Heap) (p : Ptr) (xs : List Ptr)
    → has p xs ≡ false
    → IsDistinct xs
    → IsDistinct (insert_ordered heap p xs)
unfolding insert_ordered
insert_ordered-IsDistinct heap p [] h d = (refl, tt)
insert_ordered-IsDistinct heap p (x ∷ xs) h d =
    let rest : (p == x) ≡ false = ground arith in
    let out : has p xs ≡ false = ground arith in
    elim (Bool-cases (compare (heap x) (heap p))) [
      | inl e ↦ rw e (
        has-insert_ordered heap p x xs ∙ ground arith,
        insert_ordered-IsDistinct heap p xs out d.1,
      )
      | inr e ↦ rw e (h, d)
    ]

pub has-erase :
    (p q : Ptr) (xs : List Ptr)
    → IsDistinct xs
    → has q (erase p xs) ≡ (if q == p then false else has q xs)
has-erase p q [] d = ground arith
has-erase p q (x ∷ xs) d = ground (arith, has-erase p q xs d.1)

pub erase-IsDistinct : (p : Ptr) (xs : List Ptr) → IsDistinct xs → IsDistinct (erase p xs)
erase-IsDistinct p [] d = tt
erase-IsDistinct p (x ∷ xs) d = elim (Bool-cases (p == x)) [
  | inl e ↦ rw e d.1
  | inr e ↦ rw e (ground (arith, has-erase p x xs d.1), erase-IsDistinct p xs d.1)
]

pub length-erase :
    (p : Ptr) (xs : List Ptr) → has p xs ≡ true → length xs ≡ suc (length (erase p xs))
length-erase p [] h = cc
length-erase p (x ∷ xs) h = ground (arith, length-erase p xs)

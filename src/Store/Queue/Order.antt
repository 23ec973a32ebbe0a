-- ===== src/Store/Queue/Order.antt =====
-- The work queue of modules/broker/broker_task_store.cpp stays ordered by `parac_task_compare`.
use mathlib.Core.Path.{subst}
use native.Mathlib.Decide.{ℕ_discrete}
use paracooba.Prelude.{◌≡◌, refl, sym, ◌∙◌, inl, inr, false, List, [], ◌∷◌, ◌==◌, Bool-cases}
use paracooba.Task.{Ptr, Task, Heap, compare}
use paracooba.Task.Order.{compare_asym, compare_total}
use paracooba.Store.State.{update, update_self, update_ne, erase}
use paracooba.Store.Queue.{insert_ordered}

-- No task of the list goes before t.
abbrev pub NoneBefore : Heap → Task → List Ptr → Type 0
NoneBefore heap t [] = Unit {0}
NoneBefore heap t (y ∷ ys) = (compare (heap y) t ≡ false) × NoneBefore heap t ys

abbrev pub IsOrdered : Heap → List Ptr → Type 0
IsOrdered heap [] = Unit {0}
IsOrdered heap (x ∷ xs) = NoneBefore heap (heap x) xs × IsOrdered heap xs

NoneBefore-mono :
    (heap : Heap) (t u : Task) (xs : List Ptr)
    → compare u t ≡ false
    → NoneBefore heap u xs
    → NoneBefore heap t xs
NoneBefore-mono heap t u [] h n = tt
NoneBefore-mono heap t u (x ∷ xs) h n =
    (compare_total (heap x) u t n.0 h, NoneBefore-mono heap t u xs h n.1)

NoneBefore-insert :
    (heap : Heap) (t : Task) (p : Ptr) (xs : List Ptr)
    → compare (heap p) t ≡ false
    → NoneBefore heap t xs
    → NoneBefore heap t (insert_ordered heap p xs)
unfolding insert_ordered
NoneBefore-insert heap t p [] h n = (h, tt)
NoneBefore-insert heap t p (x ∷ xs) h n = elim (Bool-cases (compare (heap x) (heap p))) [
  | inl e ↦ rw e (n.0, NoneBefore-insert heap t p xs h n.1)
  | inr e ↦ rw e (h, n)
]

-- Insertion at the place that the comparison of tasks gives keeps a sorted queue sorted.
pub insert_ordered-IsOrdered :
    (heap : Heap) (p : Ptr) (xs : List Ptr)
    → IsOrdered heap xs
    → IsOrdered heap (insert_ordered heap p xs)
unfolding insert_ordered
insert_ordered-IsOrdered heap p [] o = (tt, tt)
insert_ordered-IsOrdered heap p (x ∷ xs) o = elim (Bool-cases (compare (heap x) (heap p))) [
  | inl e ↦ rw e (
    NoneBefore-insert heap (heap x) p xs (compare_asym (heap x) (heap p) e) o.0,
    insert_ordered-IsOrdered heap p xs o.1,
  )
  | inr e ↦ rw e ((e, NoneBefore-mono heap (heap p) (heap x) xs e o.0), o)
]

-- Two tasks that `parac_task_compare` cannot tell apart.
pub record SameKey (t u : Task) : Type 0 where
  pub pre : t.pre_path_sorting_critereon ≡ u.pre_path_sorting_critereon
  pub post : t.post_path_sorting_critereon ≡ u.post_path_sorting_critereon
  pub path : t.path ≡ u.path

compare-congr : (a b c d : Task) → SameKey a b → SameKey c d → compare a c ≡ compare b d
unfolding compare
compare-congr a b c d h k = rw (h.pre, h.post, h.path, k.pre, k.post, k.path)

NoneBefore-congr :
    (g h : Heap) (t u : Task) (xs : List Ptr)
    → ((p : Ptr) → SameKey (g p) (h p))
    → SameKey t u
    → NoneBefore g t xs
    → NoneBefore h u xs
NoneBefore-congr g h t u [] k e n = tt
NoneBefore-congr g h t u (x ∷ xs) k e n =
    (sym (compare-congr (g x) (h x) t u (k x) e) ∙ n.0, NoneBefore-congr g h t u xs k e n.1)

pub IsOrdered-congr :
    (g h : Heap) (xs : List Ptr)
    → ((p : Ptr) → SameKey (g p) (h p))
    → IsOrdered g xs
    → IsOrdered h xs
IsOrdered-congr g h [] k o = tt
IsOrdered-congr g h (x ∷ xs) k o =
    (NoneBefore-congr g h (g x) (h x) xs k (k x) o.0, IsOrdered-congr g h xs k o.1)

pub SameKey-refl : (t : Task) → SameKey t t
SameKey-refl t = record { pre = refl; post = refl; path = refl }

pub SameKey-update :
    (heap : Heap) (p : Ptr) (t : Task)
    → SameKey (heap p) t
    → (q : Ptr) → SameKey (heap q) (update heap p t q)
SameKey-update heap p t k q = elim (ℕ_discrete p q) [
  | yes e ↦ subst (λ r. SameKey (heap r) (update heap p t r)) e (rw (update_self heap p t) k)
  | no e ↦ rw (update_ne heap p q t e) (SameKey-refl (heap q))
]

NoneBefore-erase :
    (heap : Heap) (t : Task) (p : Ptr) (xs : List Ptr)
    → NoneBefore heap t xs
    → NoneBefore heap t (erase p xs)
NoneBefore-erase heap t p [] n = tt
NoneBefore-erase heap t p (x ∷ xs) n = elim (Bool-cases (p == x)) [
  | inl e ↦ rw e n.1
  | inr e ↦ rw e (n.0, NoneBefore-erase heap t p xs n.1)
]

pub erase-IsOrdered :
    (heap : Heap) (p : Ptr) (xs : List Ptr) → IsOrdered heap xs → IsOrdered heap (erase p xs)
erase-IsOrdered heap p [] o = tt
erase-IsOrdered heap p (x ∷ xs) o = elim (Bool-cases (p == x)) [
  | inl e ↦ rw e o.1
  | inr e ↦ rw e (NoneBefore-erase heap (heap x) p xs o.0, erase-IsOrdered heap p xs o.1)
]

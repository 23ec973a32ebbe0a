-- ===== src/ComputeNode/Equality.antt =====
-- The comparison of two statuses finds each difference (modules/broker/broker_compute_node.cpp).
use paracooba.Prelude.{ℕ, ◌≡◌, refl, sym, Bool, true, false, [], ◌∷◌, arith}
use paracooba.ComputeNode.{SolverInstance, Instances, same, same_instance, same_instances}

same_equal : (a b : Bool) → same a b ≡ true → a ≡ b
unfolding same
same_equal true true h = refl
same_equal true false h = sym h
same_equal false true h = h
same_equal false false h = refl

same_instance-equal : (x y : ℕ × SolverInstance) → same_instance x y ≡ true → x ≡ y
unfolding same_instance
same_instance-equal (k, i) (l, j) h =
    let received = same_equal i.formula_received j.formula_received (ground arith) in
    let parsed = same_equal i.formula_parsed j.formula_parsed (ground arith) in
    let size : i.work_queue_size ≡ j.work_queue_size = ground arith in
    let key : k ≡ l = ground arith in
    λ t. (
      key t,
      record { formula_received = received t; formula_parsed = parsed t; work_queue_size = size t },
    )

pub same_instances-equal : (xs ys : Instances) → same_instances xs ys ≡ true → xs ≡ ys
unfolding same_instances
same_instances-equal [] [] h = refl
same_instances-equal [] (y ∷ ys) h = absurd (ground arith)
same_instances-equal (x ∷ xs) [] h = absurd (ground arith)
same_instances-equal (x ∷ xs) (y ∷ ys) h =
    let head = same_instance-equal x y (ground arith) in
    let tail = same_instances-equal xs ys (ground arith) in rw (head, tail) refl

-- ===== src/Task/Order.antt =====
-- `parac_task_compare` of modules/commonc/task.c is a strict weak order, as `std::lower_bound` asks.
use paracooba.Prelude.{◌≡◌, true, false, arith}
use paracooba.Task.{Task, compare}

pub compare_irrefl : (a : Task) → compare a a ≡ false
unfolding compare
compare_irrefl a = ground arith

pub compare_trans : (a b c : Task) → compare a b ≡ true → compare b c ≡ true → compare a c ≡ true
unfolding compare
compare_trans a b c p q = ground arith

pub compare_asym : (a b : Task) → compare a b ≡ true → compare b a ≡ false
unfolding compare
compare_asym a b p = ground arith

-- If a does not go before b and b does not go before c in the work queue, then a does not go
-- before c.
pub compare_total : (a b c : Task) → compare a b ≡ false → compare b c ≡ false → compare a c ≡ false
unfolding compare
compare_total a b c p q = ground arith

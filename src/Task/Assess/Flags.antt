-- ===== src/Task/Assess/Flags.antt =====
-- What an assessment of modules/commonc/task.c does to the state flags, and what it reports to the
-- node that a task came from.
use paracooba.Prelude.{
  ℕ, ◌≡◌, ◌≢◌, true, false, not, ◌&&◌, none, some, [], ◌∷◌, if◌then◌else◌, arith,
}
use paracooba.Status.{◌is◌, pending, sat, unsat, aborted}
use paracooba.Task.{Task, Heap, default_assess, AssessFunc, state_is_done}
use paracooba.Task.Assess.{is_some, existential_assess, run_assess}
use paracooba.Task.Assess.Verdict.{rule}

-- A split task with a pending result, without the flags splits_done, work_available and working,
-- is done after `parac_task_default_assess` exactly when its two children decide, and it stops
-- waiting for them then.
pub run_assess-done :
    (heap : Heap) (t : Task)
    → t.state.splitted ≡ true
    → t.state.splits_done ≡ false
    → t.state.work_available ≡ false
    → t.state.working ≡ false
    → t.result ≡ pending
    → let u = (run_assess default_assess heap t).task in
      let d = rule sat unsat (t.left_result ∷ t.right_result ∷ []) in
      (state_is_done u.state ≡ is_some d)
      × (u.state.waiting_for_splits ≡ (t.state.waiting_for_splits && not (is_some d)))
unfolding run_assess state_is_done existential_assess
run_assess-done heap t s d w k p = ground arith

-- An unsplit task that came from no other node and has a result is marked done by each
-- assessment, is no longer available, keeps the result and causes no message.
pub run_assess-local :
    (f : AssessFunc) (heap : Heap) (t : Task)
    → t.state.splitted ≡ false
    → t.received_from ≡ none
    → t.result ≢ pending
    → let a = run_assess f heap t in
      (a.task.state.done ≡ true)
      × (a.task.state.work_available ≡ false)
      × (a.task.result ≡ t.result)
      × (a.messages ≡ [])
unfolding run_assess
run_assess-local default_assess heap t s l r = ground arith
run_assess-local _ heap t s l r = ground arith

-- An unsplit task that came from node n and has a result stays as it is under each assessment;
-- unless the result is aborted, it is reported to n, under the pointer that the task's parent has
-- there.
pub run_assess-remote :
    (f : AssessFunc) (heap : Heap) (t : Task) (n : ℕ)
    → t.state.splitted ≡ false
    → t.received_from ≡ some n
    → t.result ≢ pending
    → let a = run_assess f heap t in
      (a.task ≡ t)
      × (a.messages ≡ (
          if t.result is aborted
          then []
          else record {
            to = n;
            task_ptr = t.parent_task;
            result = t.result;
            originator = t.originator;
          }
            ∷ []))
unfolding run_assess
run_assess-remote default_assess heap t n s l r = ground arith
run_assess-remote _ heap t n s l r = ground arith

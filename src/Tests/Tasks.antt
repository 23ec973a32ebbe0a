-- ===== src/Tests/Tasks.antt =====
-- The theorems on the assessment of a task.
use paracooba.Prelude.{◌≡◌, refl, true, not, ◌&&◌, ◌||◌, none, some, [], ◌∷◌, if◌then◌else◌}
use paracooba.Status.{pending, sat, unsat, ◌is◌}
use paracooba.Task.{Task, state_is_done, default_assess}
use paracooba.Task.Assess.{
  existential_assess, universal_assess, assess_extended, run_assess, is_some,
}
use paracooba.Tests.Data.{new_task, split_flags, done_heap}
use paracooba.Task.Assess.Verdict.{
  rule, decided_or, existential_assess-rule, universal_assess-rule, assess_extended-rule,
}
use paracooba.Task.Assess.Flags.{run_assess-done}

-- A split task whose left child found a model.
abbrev left_sat : Task
left_sat = record new_task {
  state = split_flags;
  left_child = some 1;
  right_child = some 2;
  left_result = sat;
}

-- A task of four children, of which one is decided.
abbrev many : Task
many = record new_task {
  extended_children_count = some 4;
  extended_children = none ∷ none ∷ some 3 ∷ none ∷ [];
  extended_children_results = sat ∷ sat ∷ unsat ∷ pending ∷ [];
}

abbrev solved : Task
solved = record new_task { result = unsat; originator = 9 }

abbrev from_remote : Task
from_remote = record solved { received_from = some 4; parent_task = some 77 }

existential_assess-rule_example :
    ((existential_assess done_heap left_sat true).task
      ≡ record left_sat { result = decided_or (rule sat unsat (sat ∷ pending ∷ [])) pending })
    × ((existential_assess done_heap left_sat true).notify
        ≡ is_some (rule sat unsat (sat ∷ pending ∷ [])))
existential_assess-rule_example = existential_assess-rule done_heap left_sat true

universal_assess-rule_example :
    ((universal_assess done_heap left_sat true).task
      ≡ record left_sat { result = decided_or (rule unsat sat (sat ∷ pending ∷ [])) pending })
    × ((universal_assess done_heap left_sat true).notify
        ≡ is_some (rule unsat sat (sat ∷ pending ∷ [])))
universal_assess-rule_example = universal_assess-rule done_heap left_sat true

assess_extended-rule_example :
    ((assess_extended unsat sat done_heap many true).task ≡ (
      if (many.result is sat) || (many.result is unsat) then many else record many {
        result = decided_or (rule unsat sat many.extended_children_results) many.result;
      }))
    × ((assess_extended unsat sat done_heap many true).notify ≡ (
        not ((many.result is sat) || (many.result is unsat))
        && is_some (rule unsat sat many.extended_children_results)))
assess_extended-rule_example = assess_extended-rule unsat sat done_heap many true

run_assess-done_example :
    (state_is_done (run_assess default_assess done_heap left_sat).task.state
      ≡ is_some (rule sat unsat (sat ∷ pending ∷ [])))
    × ((run_assess default_assess done_heap left_sat).task.state.waiting_for_splits
        ≡ (true && not (is_some (rule sat unsat (sat ∷ pending ∷ [])))))
run_assess-done_example = run_assess-done done_heap left_sat refl refl refl refl refl

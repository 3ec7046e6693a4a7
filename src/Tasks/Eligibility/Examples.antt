-- ===== src/Tasks/Eligibility/Examples.antt =====
-- The qualification of a task on a small goal, and its theorem there.
use fast_task.Base.{
  String, true, false, Option, none, some, List, [], ◌∷◌, ◌≡◌, ◌⊎◌, refl, trim_space,
}
use fast_task.Tasks.Model.{Task, zero_task, Index}
use fast_task.Tasks.Dependencies.{task_dependency_graph_valid}
use fast_task.Tasks.Eligibility.{
  ancestors_open, prerequisites_satisfied, executable_task_eligibility,
}
use fast_task.Tasks.Eligibility.Decides.{IsExecutable, executable_task_eligibility_decides}

abbrev row : String → Option String → List String → String → Task
row id parent deps status = record zero_task {
  id = id;
  user_id = "u";
  goal_id = "g";
  parent_id = parent;
  depends_on = deps;
  status = status;
}

abbrev goal : Index
goal =
    ("paper", row "paper" none [] "in_progress")
    ∷ ("write", row "write" (some "paper") ("data" ∷ []) "ready")
    ∷ ("edit", row "edit" (some "paper") ("write" ∷ []) "ready")
    ∷ ("data", row "data" (some "paper") [] "completed")
    ∷ []

ready_to_write :
    executable_task_eligibility (row "write" (some "paper") ("data" ∷ []) "ready") goal ≡ some true
unfolding executable_task_eligibility task_dependency_graph_valid ancestors_open
    prerequisites_satisfied trim_space
ready_to_write = refl

too_early_to_edit :
    executable_task_eligibility (row "edit" (some "paper") ("write" ∷ []) "ready") goal ≡ some false
unfolding executable_task_eligibility task_dependency_graph_valid ancestors_open
    prerequisites_satisfied trim_space
too_early_to_edit = refl

executable_task_eligibility_decides_example :
    let task = row "edit" (some "paper") ("write" ∷ []) "ready" in
    ((executable_task_eligibility task goal ≡ some true) × IsExecutable task goal)
    ⊎ ((executable_task_eligibility task goal ≡ some false) × (¬ IsExecutable task goal))
executable_task_eligibility_decides_example =
    executable_task_eligibility_decides (row "edit" (some "paper") ("write" ∷ []) "ready") goal

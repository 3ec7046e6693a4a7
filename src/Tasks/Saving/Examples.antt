-- ===== src/Tasks/Saving/Examples.antt =====
-- Tests of the check of a task before it is saved, and its theorems at some of them.
use fast_task.Base.{String, Option, none, some, List, [], ◌∷◌, ◌≡◌, ◌≢◌, refl, ℤ, pos}
use fast_task.Plans.Model.{Goal}
use fast_task.Tasks.Saving.Rows.{IsLiveGoal, IsCandidateIndex}
use fast_task.Tasks.Model.{Index, Task, zero_task}
use fast_task.Tasks.Dependencies.Graph.{IsValidGraph}
use fast_task.Tasks.Saving.{validate_task_dependencies, accepted, refused, unfinished, err_graph}
use fast_task.Tasks.Saving.Ends.{validate_task_dependencies_ends}
use fast_task.Tasks.Saving.Graphs.{validate_task_dependencies-IsValidGraph}

abbrev thesis : Goal
thesis = record {
  id = "g";
  user_id = "ann";
  title = "Thesis";
  description = "";
  success_criteria = "";
  status = "active";
  target_date = none;
  revision = pos 1;
  created_at = 5;
  updated_at = 5;
  deleted_at = none;
  deletion_id = "";
}

abbrev task : String → List String → Task
task id deps = record zero_task { id = id; user_id = "ann"; goal_id = "g"; depends_on = deps }

abbrev stored : List Task
stored = task "read" [] ∷ task "write" ("read" ∷ []) ∷ []

accepts : validate_task_dependencies (thesis ∷ []) stored (task "print" ("write" ∷ [])) ≡ accepted
unfolding validate_task_dependencies fast_task.Tasks.Dependencies.task_dependency_graph_valid
    fast_task.Base.trim_space
accepts = refl

refuses_cycle :
    validate_task_dependencies (thesis ∷ []) stored (task "read" ("write" ∷ [])) ≡ refused err_graph
unfolding validate_task_dependencies fast_task.Tasks.Dependencies.task_dependency_graph_valid
    fast_task.Base.trim_space
refuses_cycle = refl

validate_task_dependencies-IsValidGraph_example :
    (validate_task_dependencies (thesis ∷ []) stored (task "print" ("write" ∷ [])) ≡ accepted
      → ((goal : Goal) × IsLiveGoal (thesis ∷ []) "ann" "g" goal)
        × ((index : Index) × IsCandidateIndex stored (task "print" ("write" ∷ [])) index
            × IsValidGraph (task "print" ("write" ∷ [])) index))
    × ((goal : Goal)
        → IsLiveGoal (thesis ∷ []) "ann" "g" goal
        → ((index : Index)
            → IsCandidateIndex stored (task "print" ("write" ∷ [])) index
            → ¬ IsValidGraph (task "print" ("write" ∷ [])) index)
        → validate_task_dependencies (thesis ∷ []) stored (task "print" ("write" ∷ []))
          ≡ refused err_graph)
validate_task_dependencies-IsValidGraph_example =
    validate_task_dependencies-IsValidGraph (thesis ∷ []) stored (task "print" ("write" ∷ []))

validate_task_dependencies_ends_example :
    validate_task_dependencies (thesis ∷ []) stored (task "read" ("write" ∷ [])) ≢ unfinished
validate_task_dependencies_ends_example =
    validate_task_dependencies_ends (thesis ∷ []) stored (task "read" ("write" ∷ []))

-- ===== src/Tasks/Dependencies/Examples.antt =====
-- The prerequisite checks on a small goal, and their theorems there.
use fast_task.Base.{String, true, false, Option, none, some, List, [], ◌∷◌, ◌≡◌, ◌⊎◌, refl}
use fast_task.Tasks.Model.{Task, zero_task, Index}
use fast_task.Tasks.Dependencies.{task_dependency_graph_valid}
use fast_task.Tasks.Dependencies.Graph.{IsValidGraph}
use fast_task.Tasks.Dependencies.Valid.{task_dependency_graph_valid_decides}
use fast_task.Base.{trim_space}

abbrev row : String → Option String → List String → String → Task
row id parent deps status = record zero_task {
  id = id;
  user_id = "u";
  goal_id = "g";
  parent_id = parent;
  depends_on = deps;
  status = status;
}

-- "write" is a child of "paper" and waits for "data"; "data" waits for "plan".
abbrev goal : Index
goal =
    ("paper", row "paper" none [] "in_progress")
    ∷ ("write", row "write" (some "paper") ("data" ∷ []) "ready")
    ∷ ("data", row "data" (some "paper") ("plan" ∷ []) "completed")
    ∷ ("plan", row "plan" none [] "completed")
    ∷ []

accepts :
    task_dependency_graph_valid (row "write" (some "paper") ("data" ∷ []) "ready") goal ≡ some true
unfolding task_dependency_graph_valid trim_space
accepts = refl

-- A plan that waits for the writing closes a cycle.
refuses_cycle :
    task_dependency_graph_valid (row "plan" none ("write" ∷ []) "ready") goal ≡ some false
unfolding task_dependency_graph_valid trim_space
refuses_cycle = refl

-- A task cannot wait for its own parent.
refuses_ancestor :
    task_dependency_graph_valid (row "write" (some "paper") ("paper" ∷ []) "ready") goal
    ≡ some false
unfolding task_dependency_graph_valid trim_space
refuses_ancestor = refl

task_dependency_graph_valid_decides_example :
    let task = row "write" (some "paper") ("data" ∷ []) "ready" in
    ((task_dependency_graph_valid task goal ≡ some true) × IsValidGraph task goal)
    ⊎ ((task_dependency_graph_valid task goal ≡ some false) × (¬ IsValidGraph task goal))
task_dependency_graph_valid_decides_example =
    task_dependency_graph_valid_decides (row "write" (some "paper") ("data" ∷ []) "ready") goal

-- ===== src/Tasks/Saving/Graphs.antt =====
-- What a saved task's graph satisfies.
use fast_task.Base.{List, ◌≡◌, inl, inr, refl, Option-cases}
use fast_task.Plans.Model.{Goal}
use fast_task.Tasks.Model.{Task, Index}
use fast_task.Tasks.Dependencies.Graph.{IsValidGraph}
use fast_task.Tasks.Dependencies.Valid.{task_dependency_graph_valid_decides}
use fast_task.Tasks.Saving.Rows.{
  IsLiveGoal, IsCandidateIndex, require_live_goal-IsLiveGoal, require_live_goal_of_IsLiveGoal,
  index_with-IsCandidateIndex,
}
use fast_task.Tasks.Saving.{
  require_live_goal, index_with, siblings, validate_task_dependencies, accepted, refused, err_graph,
}

-- A task is accepted only if its goal is stored, belongs to its owner and is not deleted, and the graph of its
-- prerequisites is valid in an index that finds the task itself under its ID, and otherwise the rows of its
-- owner and goal and no others; and under such a goal a task whose graph is invalid in every such index is
-- refused.
pub validate_task_dependencies-IsValidGraph :
    (goals : List Goal) (rows : List Task) (task : Task)
    → (validate_task_dependencies goals rows task ≡ accepted
        → ((goal : Goal) × IsLiveGoal goals task.user_id task.goal_id goal)
          × ((index : Index) × IsCandidateIndex rows task index × IsValidGraph task index))
      × ((goal : Goal)
          → IsLiveGoal goals task.user_id task.goal_id goal
          → ((index : Index) → IsCandidateIndex rows task index → ¬ IsValidGraph task index)
          → validate_task_dependencies goals rows task ≡ refused err_graph)
unfolding validate_task_dependencies
validate_task_dependencies-IsValidGraph goals rows task = (λ h. only h, λ g e n. never g e n)
  where
    only :
        validate_task_dependencies goals rows task ≡ accepted
        → ((goal : Goal) × IsLiveGoal goals task.user_id task.goal_id goal)
          × ((index : Index) × IsCandidateIndex rows task index × IsValidGraph task index)
    only h = elim (Option-cases (require_live_goal goals task.user_id task.goal_id)) [
      | inl e ↦ cc (rw (validate_task_dependencies, e) at h)
      | inr (goal, e) ↦
          elim (task_dependency_graph_valid_decides task (index_with task (siblings rows task))) [
            | inl (t, v) ↦ (
              (goal, require_live_goal-IsLiveGoal goals task.user_id task.goal_id e),
              (index_with task (siblings rows task), index_with-IsCandidateIndex rows task, v),
            )
            | inr (t, v) ↦ cc (rw (validate_task_dependencies, e, t) at h)
          ]
    ]

    never :
        (goal : Goal)
        → IsLiveGoal goals task.user_id task.goal_id goal
        → ((index : Index) → IsCandidateIndex rows task index → ¬ IsValidGraph task index)
        → validate_task_dependencies goals rows task ≡ refused err_graph
    never goal l n =
        let (other, e) = require_live_goal_of_IsLiveGoal goals task.user_id task.goal_id goal l in
        elim (task_dependency_graph_valid_decides task (index_with task (siblings rows task))) [
          | inl (t, v) ↦
              absurd
                (n (index_with task (siblings rows task)) (index_with-IsCandidateIndex rows task) v)
          | inr (t, v) ↦ rw (validate_task_dependencies, e, t) refl
        ]

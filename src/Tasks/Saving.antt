-- ===== src/Tasks/Saving.antt =====
-- validateTaskDependenciesTx of internal/application/taskdependencies.go, with RequireLiveGoalTx of
-- lifecycle.go: the check of a task before it is saved. The recursion takes fuel; `none` means that it ran
-- out.
pub mod Ends
pub mod Graphs
pub mod Rows
mod Examples
use fast_task.Base.{
  ℕ, zero, suc, ◌+◌, String, Bool, true, false, not, ◌&&◌, ◌||◌, Option, none, some, List, [], ◌∷◌,
  if◌then◌else◌, str_eq, any, keep, length, is_none, map,
}
use fast_task.Jobs.Model.{Failure, first, err_not_found, invalid}
use fast_task.Plans.Model.{Goal}
use fast_task.Tasks.Model.{Task, Index, Dict, find}
use fast_task.Tasks.Dependencies.{task_dependency_graph_valid}

-- "id = ? AND user_id = ? AND deleted_at IS NULL".
unfoldable pub require_live_goal : List Goal → String → String → Option Goal
require_live_goal goals user_id id =
    first (λ g. str_eq g.id id && str_eq g.user_id user_id && is_none g.deleted_at) goals

-- "user_id = ? AND goal_id = ?".
abbrev pub siblings : List Task → Task → List Task
siblings rows task = keep (λ t. str_eq t.user_id task.user_id && str_eq t.goal_id task.goal_id) rows

-- The index of the rows, in which the candidate takes the place of its own row.
abbrev pub index_with : Task → List Task → Index
index_with task tasks = (task.id, task) ∷ map (λ t. (t.id, t)) tasks

module _ (task : Task) (by_id : Index) where
  -- The loop over the prerequisites: the first one that reaches the candidate ends it.
  unfoldable pub any_reaches :
      (String → List String → Option (Bool × List String))
      → List String
      → List String
      → Option (Bool × List String)
  any_reaches next [] seen = some (false, seen)
  any_reaches next (d ∷ ds) seen = elim (next d seen) [
    | none ↦ none
    | some (true, seen') ↦ some (true, seen')
    | some (false, seen') ↦ any_reaches next ds seen'
  ]

  -- Whether a path of parents and prerequisites leads to the candidate, and the tasks seen so far.
  unfoldable pub reaches_candidate : ℕ → String → List String → Option (Bool × List String)
  unfolding any_reaches
  reaches_candidate zero id seen = none
  reaches_candidate (suc fuel) id seen =
      if str_eq id task.id
      then some (true, seen)
      else if any (λ s. str_eq s id) seen
      then some (false, seen)
      else elim (find id by_id) [
        | none ↦ some (false, id ∷ seen)
        | some node ↦ elim node.parent_id [
          | none ↦ any_reaches (reaches_candidate fuel) node.depends_on (id ∷ seen)
          | some parent ↦ elim (reaches_candidate fuel parent (id ∷ seen)) [
            | none ↦ none
            | some (true, seen') ↦ some (true, seen')
            | some (false, seen') ↦ any_reaches (reaches_candidate fuel) node.depends_on seen'
          ]
        ]
      ]

  -- One row of the last loop: it passes unless it reaches the candidate and its own graph is invalid.
  unfoldable pub row_passes : Task → Option Bool
  unfolding reaches_candidate
  row_passes current =
      if str_eq current.id task.id || not (is_none current.deleted_at)
      then some true
      else elim (reaches_candidate (length by_id + 2) current.id []) [
        | none ↦ none
        | some (false, seen) ↦ some true
        | some (true, seen) ↦ task_dependency_graph_valid current by_id
      ]

  unfoldable pub rows_pass : List Task → Option Bool
  unfolding row_passes
  rows_pass [] = some true
  rows_pass (current ∷ rest) = elim (row_passes current) [
    | none ↦ none
    | some false ↦ some false
    | some true ↦ rows_pass rest
  ]

pub data Verdict : Type 0 where
  accepted unfinished : Verdict
  refused : Failure → Verdict

abbrev pub err_graph : Failure
err_graph = record {
  cause = invalid;
  text =
      "validation failed: prerequisites must be live tasks in the same goal, without self-reference, cycles or conflicting ancestry";
}

abbrev pub err_inherited : Failure
err_inherited = record {
  cause = invalid;
  text = "validation failed: this change creates an invalid inherited prerequisite graph";
}

unfoldable pub validate_task_dependencies : List Goal → List Task → Task → Verdict
unfolding require_live_goal rows_pass
validate_task_dependencies goals rows task =
    elim (require_live_goal goals task.user_id task.goal_id) [
      | none ↦ refused err_not_found
      | some goal ↦ elim (task_dependency_graph_valid task (index_with task (siblings rows task))) [
        | none ↦ unfinished
        | some false ↦ refused err_graph
        | some true ↦
            elim (rows_pass task (index_with task (siblings rows task)) (siblings rows task)) [
              | none ↦ unfinished
              | some false ↦ refused err_inherited
              | some true ↦ accepted
            ]
      ]
    ]

-- ===== src/Tasks/Eligibility.antt =====
-- executableTaskEligibility of internal/application/taskdependencies.go: whether a task may be
-- scheduled or started.
mod Prerequisites
pub mod Decides
mod Examples
use fast_task.Base.{
  ℕ, zero, suc, ◌+◌, String, Bool, true, false, not, ◌&&◌, ◌||◌, Option, none, some, List, [], ◌∷◌,
  if◌then◌else◌, str_eq, any, length,
}
use fast_task.Tasks.Model.{Task, zero_task, Index, find}
use fast_task.Tasks.Dependencies.{
  Outcome, passed, failed, exhausted, and_then, task_dependency_graph_valid,
}

module _ (task : Task) (by_id : Index) where
  -- The lookup of this function: a missing key gives the zero row.
  unfoldable pub row_of : String → Task
  row_of id =
      if str_eq id task.id
      then task
      else elim (find id by_id) [ none ↦ zero_task | some node ↦ node ]

  abbrev pub is_open : Task → Bool
  is_open node = str_eq node.status "ready" || str_eq node.status "in_progress"

  -- The loop from the task up through its ancestors.
  unfoldable pub ancestors_open : ℕ → Task → Option Bool
  unfolding row_of
  ancestors_open zero node = none
  ancestors_open (suc fuel) node = if not (is_open node) then some false else elim node.parent_id [
    | none ↦ some true
    | some parent ↦ ancestors_open fuel (row_of parent)
  ]

  module _ (next : Task → List String → Outcome (List String)) where
    unfoldable pub dependencies_satisfied : List String → List String → Outcome (List String)
    unfolding row_of
    dependencies_satisfied [] checked = passed checked
    dependencies_satisfied (d ∷ ds) checked =
        if not (str_eq (row_of d).status "completed")
        then failed
        else and_then (next (row_of d) checked) (λ checked'. dependencies_satisfied ds checked')

    unfoldable pub parent_satisfied : Option String → List String → Outcome (List String)
    unfolding row_of
    parent_satisfied none checked = passed checked
    parent_satisfied (some parent) checked = next (row_of parent) checked

  -- `checked` holds the IDs whose prerequisites are known to be satisfied.
  unfoldable pub prerequisites_satisfied : ℕ → Task → List String → Outcome (List String)
  unfolding dependencies_satisfied parent_satisfied
  prerequisites_satisfied zero node checked = exhausted
  prerequisites_satisfied (suc fuel) node checked =
      if any (λ c. str_eq c node.id) checked
      then passed checked
      else (and_then (dependencies_satisfied (prerequisites_satisfied fuel) node.depends_on checked)
          (λ c1.
            and_then (parent_satisfied (prerequisites_satisfied fuel) node.parent_id c1)
              (λ c2. passed (node.id ∷ c2))))

  -- The three checks in the order of the source.
  unfoldable pub executable_task_eligibility : Option Bool
  executable_task_eligibility = elim (task_dependency_graph_valid task by_id) [
    | none ↦ none
    | some false ↦ some false
    | some true ↦ elim (ancestors_open (length by_id + 2) task) [
      | none ↦ none
      | some false ↦ some false
      | some true ↦ elim (prerequisites_satisfied (length by_id + 2) task []) [
        | passed checked ↦ some true
        | failed ↦ some false
        | exhausted ↦ none
      ]
    ]
  ]

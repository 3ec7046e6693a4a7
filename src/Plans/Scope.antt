-- ===== src/Plans/Scope.antt =====
-- The walks up the task tree that planning takes: planningStateReady of planning_guard.go, taskDescendsFrom
-- of planning_task_edits.go, and protectedPlanParentIDs of planning_selection_scope.go, all in
-- internal/application. A walk takes fuel; `none` means that it ran out.
use fast_task.Base.{
  ℕ, zero, suc, ◌+◌, String, Bool, true, false, not, ◌&&◌, ◌||◌, Option, none, some, List, [], ◌∷◌,
  if◌then◌else◌, str_eq, any, length, is_none,
}
use fast_task.Tasks.Model.{Task, Index, find}
use fast_task.Plans.Model.{DailyPlanItem}

-- A row that planning may not walk through.
abbrev pub is_held : Task → Task → Bool
is_held task current =
    not (is_none current.deleted_at)
    || not (str_eq current.user_id task.user_id)
    || not (str_eq current.goal_id task.goal_id)
    || not (str_eq current.status "ready") && not (str_eq current.status "in_progress")

unfoldable pub state_ready_from : ℕ → Task → Index → List String → Task → Option Bool
state_ready_from zero task by_id seen current = none
state_ready_from (suc fuel) task by_id seen current =
    if any (λ s. str_eq s current.id) seen || is_held task current
    then some false
    else elim current.parent_id [
      | none ↦ some true
      | some id ↦ elim (find id by_id) [
        | none ↦ some false
        | some parent ↦ state_ready_from fuel task by_id (current.id ∷ seen) parent
      ]
    ]

unfoldable pub planning_state_ready : Task → Index → Option Bool
unfolding state_ready_from
planning_state_ready task by_id = state_ready_from (length by_id + 2) task by_id [] task

unfoldable pub descends_from : ℕ → List String → Index → List String → Task → Option Bool
descends_from zero protected by_id seen task = none
descends_from (suc fuel) protected by_id seen task = elim task.parent_id [
  | none ↦ some false
  | some id ↦
      if any (λ s. str_eq s task.id) seen
      then some false
      else if any (λ p. str_eq p id) protected
      then some true
      else elim (find id by_id) [
        | none ↦ some false
        | some parent ↦ descends_from fuel protected by_id (task.id ∷ seen) parent
      ]
]

unfoldable pub task_descends_from : Task → List String → Index → Option Bool
unfolding descends_from
task_descends_from task protected by_id = descends_from (length by_id + 2) protected by_id [] task

-- The IDs that a live task names as its parent.
abbrev pub parents_in_use : Index → List String
parents_in_use [] = []
parents_in_use ((key, task) ∷ rest) =
    if str_eq task.status "cancelled" || str_eq task.status "superseded"
    then parents_in_use rest
    else elim task.parent_id [
      | none ↦ parents_in_use rest
      | some parent ↦ parent ∷ parents_in_use rest
    ]

abbrev pub is_running_item : DailyPlanItem → Bool
is_running_item item =
    str_eq item.status "planned"
    || str_eq item.status "in_progress"
    || str_eq item.status "satisfied"

unfoldable pub protected_plan_parent_ids :
    List DailyPlanItem → (String → Bool) → Index → List String
protected_plan_parent_ids [] protected by_id = []
protected_plan_parent_ids (item ∷ items) protected by_id =
    let rest = protected_plan_parent_ids items protected by_id in
    elim item.task_id [
      | none ↦ rest
      | some id ↦
          if str_eq item.kind "core"
            && any (λ p. str_eq p id) (parents_in_use by_id)
            && protected item.id
            && is_running_item item
          then id ∷ rest
          else rest
    ]

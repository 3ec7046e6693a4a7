-- ===== src/Progress/Live.antt =====
-- The guards that progress shares: RequireLiveTaskTx of internal/application/lifecycle.go,
-- taskExecutableTx of taskexecution.go, and completeTaskFromDailyEligibleTx and actionablePlanItem of
-- planprogress.go. The walk up the tasks takes fuel.
pub mod Chain
pub mod Ends
use fast_task.Base.{
  ℕ, zero, suc, ◌+◌, String, Bool, true, false, not, ◌&&◌, ◌||◌, Option, none, some, List, [], ◌∷◌,
  if◌then◌else◌, str_eq, str_lt, any, length, is_none, map, is_blank, leb,
}
use fast_task.Jobs.Model.{Failure, Result, ok, err, first, count, err_not_found, err_conflict}
use fast_task.Jobs.Support.{eq_ℤ}
use fast_task.Plans.Model.{User, DailyPlan, DailyPlanItem, Goal}
use fast_task.Tasks.Model.{Task, Index}
use fast_task.Tasks.Saving.{require_live_goal, siblings}
use fast_task.Tasks.Eligibility.{executable_task_eligibility}
use fast_task.Errors.{◌>>=◌, ◌>>◌, guard, or_err}
use fast_task.Progress.Model.{Db, Env, err_unfinished}

abbrev pub is_live_task : String → String → Task → Bool
is_live_task user_id id t = str_eq t.id id && str_eq t.user_id user_id && is_none t.deleted_at

abbrev pub is_live_parent : String → String → String → Task → Bool
is_live_parent user_id goal_id id t =
    str_eq t.id id && str_eq t.user_id user_id && str_eq t.goal_id goal_id && is_none t.deleted_at

-- The loop up the parents.
unfoldable pub live_ancestors :
    ℕ → List Task → String → String → List String → Option String → Result (Unit {0})
live_ancestors fuel tasks user_id goal_id seen none = ok tt
live_ancestors zero tasks user_id goal_id seen (some id) = err err_unfinished
live_ancestors (suc fuel) tasks user_id goal_id seen (some id) =
    if any (λ s. str_eq s id) seen
    then err err_conflict
    else elim (first (is_live_parent user_id goal_id id) tasks) [
      | none ↦ err err_not_found
      | some parent ↦ live_ancestors fuel tasks user_id goal_id (id ∷ seen) parent.parent_id
    ]

unfoldable pub require_live_task : Db → String → String → Result Task
unfolding live_ancestors
require_live_task db user_id id = do
  task ← or_err (first (is_live_task user_id id) db.tasks) err_not_found
  goal ← or_err (require_live_goal db.goals user_id task.goal_id) err_not_found
  live_ancestors (length db.tasks + 1) db.tasks user_id task.goal_id (task.id ∷ []) task.parent_id
  ok task

abbrev pub index_of : List Task → Index
index_of tasks = map (λ t. (t.id, t)) tasks

unfoldable pub task_executable : Db → String → String → Result Bool
task_executable db user_id task_id = do
  task ← require_live_task db user_id task_id
  goal ← or_err (require_live_goal db.goals user_id task.goal_id) err_not_found
  if str_eq goal.status "active"
      then or_err (executable_task_eligibility task (index_of (siblings db.tasks task)))
          err_unfinished
      else ok false

abbrev pub is_child : String → Task → Task → Bool
is_child user_id task t =
    str_eq t.user_id user_id
    && elim t.parent_id [ none ↦ false | some p ↦ str_eq p task.id ]
    && is_none t.deleted_at
    && not (str_eq t.status "cancelled" || str_eq t.status "superseded")

unfoldable pub complete_task_from_daily_eligible : Db → String → Task → Result Bool
complete_task_from_daily_eligible db user_id task =
    if not (str_eq task.user_id user_id)
      || not (str_eq task.kind "action") && not (str_eq task.kind "task")
      || is_blank task.success_criteria
    then ok false
    else if any (is_child user_id task) db.tasks
    then ok false
    else task_executable db user_id task.id

-- The check of an item's task, where it has one.
abbrev pub require_live_optional : Db → String → Option String → Result (Unit {0})
require_live_optional db user_id none = ok tt
require_live_optional db user_id (some id) = require_live_task db user_id id >>= λ _. ok tt

abbrev pub is_plan_of : String → String → DailyPlan → Bool
is_plan_of user_id id p = str_eq p.id id && str_eq p.user_id user_id

unfoldable pub actionable_plan_item : Env → Db → String → DailyPlanItem → Result (Unit {0})
unfolding require_live_task
actionable_plan_item env db user_id item = do
  require_live_optional db user_id item.task_id
  plan ← or_err (first (is_plan_of user_id item.plan_id) db.plans) err_not_found
  guard (str_eq plan.status "active" && eq_ℤ item.plan_revision plan.current_revision) err_conflict
  user ← or_err (first (λ u. str_eq u.id user_id) db.users) err_not_found
  guard (not (str_lt (env.local_date user.timezone env.now) plan.local_date)) err_conflict

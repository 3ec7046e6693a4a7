-- ===== src/Progress/Closing.antt =====
-- The end of a day and of a task: CloseDailyPlan, CompleteTask and completeTaskTx of
-- internal/application/app.go. What follows the completion of a task in other tables (the snapshot of the
-- tree, the release of today's items, the schedule) is a parameter.
pub mod Settled
mod Examples
use fast_task.Base.{
  ℕ, String, Bool, true, false, not, ◌&&◌, ◌||◌, Option, none, some, List, [], ◌∷◌, if◌then◌else◌,
  str_eq, is_blank, any, ◌==◌, ℤ,
}
use fast_task.Jobs.Model.{
  Failure, Result, ok, err, first, count, update, err_not_found, err_conflict, err_revision,
  err_validation,
}
use fast_task.Jobs.Support.{eq_ℤ}
use fast_task.Plans.Model.{DailyPlan, DailyPlanItem}
use fast_task.Tasks.Model.{Task}
use fast_task.Errors.{◌>>=◌, ◌>>◌, guard, or_err}
use fast_task.Progress.Model.{Db, Env, ProgressEvent, create_event, create_outbox}
use fast_task.Progress.Live.{require_live_task, task_executable, is_plan_of}
use fast_task.Progress.Items.{next_revision, err_record}
use fast_task.Progress.Completion.{require_executable}

-- The items that closing settles.
abbrev pub is_unsettled : String → ℤ → DailyPlanItem → Bool
is_unsettled plan_id revision item =
    str_eq item.plan_id plan_id
    && eq_ℤ item.plan_revision revision
    && (str_eq item.status "planned" || str_eq item.status "in_progress")

abbrev pub settled_row : ℕ → DailyPlanItem → DailyPlanItem
settled_row now item = record item {
  status = "not_completed";
  revision = next_revision item.revision;
  updated_at = now;
}

unfoldable pub settle_items : String → DailyPlan → ℕ → Db → Db
settle_items status plan now db =
    if str_eq status "closed"
    then record db {
      items = update (is_unsettled plan.id plan.current_revision) (settled_row now) db.items;
    }
    else db

abbrev pub is_plan_version : String → ℤ → DailyPlan → Bool
is_plan_version id expected plan = str_eq plan.id id && eq_ℤ plan.revision expected

abbrev pub closed_row : String → ℤ → ℕ → DailyPlan → DailyPlan
closed_row status expected now plan = record plan {
  status = status;
  revision = next_revision expected;
  updated_at = now;
}

unfoldable pub write_plan : String → ℤ → (DailyPlan → DailyPlan) → Db → Result Db
write_plan id expected f db =
    if count (is_plan_version id expected) db.plans == 1
    then ok (record db { plans = update (is_plan_version id expected) f db.plans })
    else err err_revision

unfoldable pub close_daily_plan : Env → String → String → ℤ → String → Db → Result (Db × DailyPlan)
unfolding settle_items write_plan
close_daily_plan env user_id plan_id expected status db = do
  plan ← or_err (first (is_plan_of user_id plan_id) db.plans) err_not_found
  guard (eq_ℤ plan.revision expected) err_revision
  guard (any (str_eq status) ("active" ∷ "closed" ∷ "cancelled" ∷ [])) err_validation
  db' ←
      write_plan plan.id expected (closed_row status expected env.now)
        (settle_items status plan env.now db)
  final ← or_err (first (is_plan_of user_id plan.id) db'.plans) err_record
  ok (db', final)

-- The status and the type of the event that the call leads to.
unfoldable pub completion_target :
    Db → String → Task → String → String → Bool → Result (String × String)
completion_target db user_id task kind summary true = do
  guard (str_eq task.status "completed") err_conflict
  ok ("in_progress", "task_reopened")
completion_target db user_id task kind summary false = do
  guard
      (not (
        is_blank summary
        || str_eq task.success_criteria ""
        || not (str_eq kind "result") && not (str_eq kind "step")))
      err_validation
  guard (not (any (str_eq task.status) ("completed" ∷ "cancelled" ∷ "superseded" ∷ [])))
      err_conflict
  require_executable db user_id (some task.id)
  ok ("completed", kind)

abbrev pub is_task_version : String → ℤ → Task → Bool
is_task_version id expected t = str_eq t.id id && eq_ℤ t.revision expected

abbrev pub completed_row : String → ℤ → ℕ → Task → Task
completed_row status expected now t = record t {
  status = status;
  revision = next_revision expected;
  updated_at = now;
}

unfoldable pub write_task : String → ℤ → (Task → Task) → Db → Result Db
write_task id expected f db =
    if count (is_task_version id expected) db.tasks == 1
    then ok (record db { tasks = update (is_task_version id expected) f db.tasks })
    else err err_revision

abbrev pub task_event : Env → String → Task → String → String → String → ProgressEvent
task_event env user_id task kind summary evidence_json = record {
  id = env.progress_id;
  user_id = user_id;
  kind = kind;
  summary = summary;
  evidence_json = evidence_json;
  goal_id = some task.goal_id;
  task_id = some task.id;
  plan_item_id = none;
  occurred_at = env.now;
  created_at = env.now;
}

-- What follows: the snapshot of a goal's tree for an event, the release of today's items of a task and the
-- tasks below it, and the refresh of the user's schedule.
pub record Effects : Type 0 where
  pub snapshot_task_tree : String → String → String → Db → Result Db
  pub release_today_items : String → Task → ℕ → Db → Result Db
  pub refresh_schedule : String → ℕ → Db → Result Db

module _ (effects : Effects) where
  abbrev pub release_unless : Bool → String → Task → ℕ → Db → Result Db
  release_unless true user_id task now db = ok db
  release_unless false user_id task now db = effects.release_today_items user_id task now db

  unfoldable pub complete_task_tx :
      Env → String → String → ℤ → String → String → Bool → String → Db → Result Db
  unfolding completion_target write_task create_event create_outbox
  complete_task_tx env user_id id expected kind summary reopen evidence_json db = do
    task ← require_live_task db user_id id
    guard (eq_ℤ task.revision expected) err_revision
    target ← completion_target db user_id task kind summary reopen
    written ← write_task id expected (completed_row target.0 expected env.now) db
    recorded ← create_event (task_event env user_id task target.1 summary evidence_json) written
    snapshot ← effects.snapshot_task_tree user_id task.goal_id target.1 recorded
    released ← release_unless reopen user_id task env.now snapshot
    refreshed ← effects.refresh_schedule user_id env.now released
    create_outbox env user_id "task.status_changed" (("task_id", id) ∷ ("status", target.0) ∷ [])
        refreshed

  abbrev pub is_owned_task : String → String → Task → Bool
  is_owned_task user_id id t = str_eq t.id id && str_eq t.user_id user_id

  unfoldable pub complete_task :
      Env → String → String → ℤ → String → String → Bool → Db → Result (Db × Task)
  unfolding complete_task_tx
  complete_task env user_id id expected kind summary reopen db = do
    db' ← complete_task_tx env user_id id expected kind summary reopen "[]" db
    final ← or_err (first (is_owned_task user_id id) db'.tasks) err_record
    ok (db', final)

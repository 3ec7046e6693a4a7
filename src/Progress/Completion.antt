-- ===== src/Progress/Completion.antt =====
-- CompletePlanItemWithTask and satisfyItemTx of internal/application/app.go. The completion of the whole
-- task (completeTaskTx) and the plan that it refreshes are a parameter.
pub mod Evidence
use fast_task.Base.{
  ℕ, ◌*◌, String, Bool, true, false, not, ◌&&◌, ◌||◌, Option, none, some, List, [], ◌∷◌,
  if◌then◌else◌, str_eq, is_none, is_blank, trim_space, ltb, ℤ, pos, leb_ℤ,
}
use fast_task.Domain.Rules.{validate_completion_type}
use fast_task.Jobs.Model.{
  Failure, Result, ok, err, first, err_not_found, err_conflict, err_revision, err_validation,
  err_precondition,
}
use fast_task.Jobs.Support.{eq_ℤ}
use fast_task.Plans.Model.{DailyPlanItem}
use fast_task.Plans.Budget.{logical_item_id}
use fast_task.Tasks.Model.{Task}
use fast_task.Errors.{◌>>=◌, ◌>>◌, guard, or_err}
use fast_task.Progress.Model.{Db, Env, ProgressEvent, create_event, create_outbox}
use fast_task.Progress.Live.{
  require_live_task, task_executable, actionable_plan_item, complete_task_from_daily_eligible,
}
use fast_task.Progress.Items.{
  next_revision, touch_plan, completion_sessions, write_item, is_short, err_record,
}

pub record PlanItemCompletionCommand : Type 0 where
  pub plan_id : String
  pub item_id : String
  pub expected : ℤ
  pub kind : String
  pub summary : String
  pub work_session_ids : List String
  pub complete_task : Bool
  pub expected_task : ℤ

abbrev pub satisfied_row : String → String → ℤ → ℕ → DailyPlanItem → DailyPlanItem
satisfied_row completion_type summary expected now item = record item {
  status = "satisfied";
  completion_type = completion_type;
  completion_summary = summary;
  revision = next_revision expected;
  updated_at = now;
}

unfoldable pub satisfy_item : String → ℤ → String → String → ℕ → Db → Result Db
unfolding write_item
satisfy_item item_id expected completion_type summary now db =
    write_item item_id expected (satisfied_row completion_type summary expected now) db

unfoldable pub counted_sessions : Db → String → DailyPlanItem → List String → Result (List String)
unfolding completion_sessions
counted_sessions db user_id item ids = do
  counted ← completion_sessions db user_id item ids
  guard (not (is_short counted.1 item)) err_validation
  ok counted.0

-- The sessions that a completion cites: those that count, for a completion by time.
unfoldable pub cited_sessions :
    Db → String → DailyPlanItem → String → List String → Result (List String)
unfolding counted_sessions
cited_sessions db user_id item completion_type ids =
    if str_eq completion_type "time" then counted_sessions db user_id item ids else ok []

abbrev pub require_executable : Db → String → Option String → Result (Unit {0})
require_executable db user_id none = ok tt
require_executable db user_id (some id) = do
  eligible ← task_executable db user_id id
  guard eligible err_conflict

-- The task that a command completes with the item.
unfoldable pub entire_task :
    Db → String → Option String → PlanItemCompletionCommand → Result (Option Task)
unfolding complete_task_from_daily_eligible
entire_task db user_id none command = if command.complete_task then err err_validation else ok none
entire_task db user_id (some task_id) command = if not command.complete_task then ok none else do
  guard (str_eq command.kind "result") err_validation
  task ← require_live_task db user_id task_id
  guard (not (leb_ℤ command.expected_task (pos 0))) err_precondition
  guard (eq_ℤ task.revision command.expected_task) err_revision
  eligible ← complete_task_from_daily_eligible db user_id task
  guard eligible err_conflict
  ok (some task)

abbrev pub completion_event :
    Env → String → DailyPlanItem → PlanItemCompletionCommand → List String → ProgressEvent
completion_event env user_id item command ids = record {
  id = env.progress_id;
  user_id = user_id;
  kind = command.kind;
  summary = trim_space command.summary;
  evidence_json = env.evidence_text (record {
    logical_id = logical_item_id item;
    work_session_ids = ids;
    reverses_event_id = "";
  });
  goal_id = none;
  task_id = item.task_id;
  plan_item_id = some item.id;
  occurred_at = env.now;
  created_at = env.now;
}

-- The checks before anything is written: the sessions that the completion cites, and the task that it
-- completes. An item that is satisfied already is left to the caller.
unfoldable pub check_completion :
    Env
    → String
    → PlanItemCompletionCommand
    → DailyPlanItem
    → Db
    → Result (List String × Option Task)
unfolding cited_sessions entire_task
check_completion env user_id command item db = do
  guard (str_eq item.status "planned" || str_eq item.status "in_progress") err_conflict
  require_executable db user_id item.task_id
  guard (validate_completion_type command.kind item.allowed_types) err_validation
  ids ← cited_sessions db user_id item command.kind command.work_session_ids
  guard (not (is_blank command.summary)) err_validation
  task ← entire_task db user_id item.task_id command
  ok (ids, task)

-- `complete_task` is completeTaskTx with the type "result": the user, the row, the expected revision, the
-- summary and the evidence.
module _ (complete_task : String → Task → ℤ → String → String → Db → Result Db) where
  abbrev pub complete_entire :
      Env → String → DailyPlanItem → PlanItemCompletionCommand → Option Task → Db → Result Db
  complete_entire env user_id item command none db = ok db
  complete_entire env user_id item command (some task) db =
      complete_task user_id task command.expected_task (trim_space command.summary)
        (env.payload_text (
          ("daily_plan_item_id", item.id)
          ∷ ("daily_completion_event_id", env.progress_id)
          ∷ ("logical_id", logical_item_id item)
          ∷ []))
        db

  unfoldable pub record_completion :
      Env
      → String
      → PlanItemCompletionCommand
      → DailyPlanItem
      → List String
      → Option Task
      → Db
      → Result Db
  unfolding satisfy_item touch_plan create_event create_outbox
  record_completion env user_id command item ids task db = do
    satisfied ←
        satisfy_item command.item_id command.expected command.kind command.summary env.now db
    recorded ← create_event (completion_event env user_id item command ids) satisfied
    completed ←
        complete_entire env user_id item command task (touch_plan item.plan_id env.now recorded)
    create_outbox env user_id "daily_item.satisfied" (("item_id", item.id) ∷ []) completed

  unfoldable pub complete_plan_item_with_task :
      Env → String → PlanItemCompletionCommand → Db → Result (Db × DailyPlanItem)
  unfolding check_completion record_completion actionable_plan_item
  complete_plan_item_with_task env user_id command db = do
    item ←
        or_err (first (λ i. str_eq i.id command.item_id && str_eq i.user_id user_id) db.items)
          err_not_found
    guard (eq_ℤ item.revision command.expected) err_revision
    guard (str_eq command.plan_id "" || str_eq item.plan_id command.plan_id) err_not_found
    actionable_plan_item env db user_id item
    if str_eq item.status "satisfied"
        then if command.complete_task then err err_conflict else ok (db, item)
        else do
          checked ← check_completion env user_id command item db
          db' ← record_completion env user_id command item checked.0 checked.1 db
          final ←
              or_err
                (first (λ i. str_eq i.id command.item_id && str_eq i.user_id user_id) db'.items)
                err_record
          ok (db', final)

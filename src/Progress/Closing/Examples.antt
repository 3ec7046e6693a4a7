-- ===== src/Progress/Closing/Examples.antt =====
-- Tests of closing a day and completing a task.
use fast_task.Base.{
  String, Bool, true, false, ◌≡◌, ◌≢◌, ◌⊎◌, refl, none, some, List, [], ◌∷◌, ◌*◌, pos, All,
  is_blank,
}
use fast_task.Jobs.Model.{ok, first, update}
use fast_task.Jobs.Support.{eq_ℤ}
use fast_task.Plans.Model.{DailyPlan}
use fast_task.Tasks.Model.{Task, zero_task}
use fast_task.Progress.Model.{Db}
use fast_task.Progress.Live.{require_live_task, task_executable, is_plan_of}
use fast_task.Progress.Fixtures.{second, env, today, item, db_with}
use fast_task.Progress.Closing.{
  is_unsettled, is_plan_version, closed_row, close_daily_plan, complete_task_tx, Effects,
}
use fast_task.Progress.Closing.Settled.{close_daily_plan-IsSettled, complete_task_tx-IsEarned}

abbrev closed : DailyPlan
closed = record today { status = "closed"; revision = pos 2; updated_at = 1000 * second }

abbrev evening : Db
evening = record (db_with "not_completed" []) {
  items = record (item "not_completed") { revision = pos 2; updated_at = 1000 * second } ∷ [];
  plans = closed ∷ [];
}

closes :
    close_daily_plan env "ann" "p" (pos 1) "closed" (db_with "in_progress" [])
    ≡ ok (evening, closed)
unfolding close_daily_plan
closes = refl

close_daily_plan-IsSettled_example :
    (plan : DailyPlan) × (first (is_plan_of "ann" "p") (today ∷ []) ≡ some plan)
    × (eq_ℤ plan.revision (pos 1) ≡ true)
    × All (λ i. is_unsettled plan.id plan.current_revision i ≡ false) evening.items
    × (evening.plans
        ≡ update
            (is_plan_version plan.id (pos 1))
            (closed_row "closed" (pos 1) (1000 * second))
            (today ∷ []))
    × (evening.sessions ≡ [])
    × (evening.events ≡ [])
close_daily_plan-IsSettled_example =
    close_daily_plan-IsSettled env "ann" "p" (pos 1) (db_with "in_progress" []) evening closed
      closes

abbrev no_effects : Effects
no_effects = record {
  snapshot_task_tree = λ user goal kind db. ok db;
  release_today_items = λ user task now db. ok db;
  refresh_schedule = λ user now db. ok db;
}

abbrev essay : String → Task
essay status = record zero_task {
  id = "essay";
  user_id = "ann";
  goal_id = "g";
  status = status;
  success_criteria = "sent";
}

abbrev desk : Db
desk = record (db_with "planned" []) { tasks = essay "ready" ∷ [] }

abbrev filed : Db
filed = record desk {
  tasks = record (essay "completed") { revision = pos 1; updated_at = 1000 * second } ∷ [];
  events =
      record {
        id = "e1";
        user_id = "ann";
        kind = "result";
        summary = "sent it";
        evidence_json = "[]";
        goal_id = some "g";
        task_id = some "essay";
        plan_item_id = none;
        occurred_at = 1000 * second;
        created_at = 1000 * second;
      }
      ∷ [];
  outbox =
      record {
        id = "o1";
        user_id = "ann";
        event_type = "task.status_changed";
        payload_json = "{}";
        status = "pending";
        attempts = 0;
        created_at = 1000 * second;
        processed_at = none;
      }
      ∷ [];
}

completes :
    complete_task_tx no_effects env "ann" "essay" (pos 0) "result" "sent it" false "[]" desk
    ≡ ok filed
unfolding complete_task_tx task_executable require_live_task
    fast_task.Tasks.Saving.require_live_goal fast_task.Tasks.Eligibility.executable_task_eligibility
    fast_task.Tasks.Eligibility.ancestors_open fast_task.Tasks.Eligibility.prerequisites_satisfied
    fast_task.Tasks.Dependencies.task_dependency_graph_valid fast_task.Base.trim_space
completes = refl

complete_task_tx-IsEarned_example :
    (task : Task) × (require_live_task desk "ann" "essay" ≡ ok task)
    × (eq_ℤ task.revision (pos 0) ≡ true)
    × (((false ≡ true) × (task.status ≡ "completed"))
        ⊎ ((◌≡◌ {A = Bool} false false)
            × (is_blank "sent it" ≡ false)
            × (task.success_criteria ≢ "")
            × ((◌≡◌ {A = String} "result" "result") ⊎ (◌≡◌ {A = String} "result" "step"))
            × (task.status ≢ "completed")
            × (task.status ≢ "cancelled")
            × (task.status ≢ "superseded")
            × (task_executable desk "ann" task.id ≡ ok true)))
complete_task_tx-IsEarned_example =
    complete_task_tx-IsEarned no_effects env "ann" "essay" (pos 0) "result" "sent it" false "[]"
      desk filed completes

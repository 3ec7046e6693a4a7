-- ===== src/Progress/Examples.antt =====
-- Tests of work sessions and completions on one user's small database.
use fast_task.Base.{
  In, inl, inr, some_eq, ◌-◌, ◌/◌, ℕ, ◌*◌, String, true, false, ◌≡◌, ◌≢◌, ◌⊎◌, refl, Option, none,
  some, List, [], ◌∷◌, pos, arith, trim_space,
}
use fast_task.Domain.Rules.{validate_completion_type}
use fast_task.Jobs.Model.{ok, err, first, err_conflict, err_revision, err_validation}
use fast_task.Jobs.Support.{eq_ℤ}
use fast_task.Plans.Model.{DailyPlanItem, Goal}
use fast_task.Tasks.Model.{Task, Index}
use fast_task.Tasks.Saving.Rows.{IsLiveGoal, IsGoalIndex}
use fast_task.Progress.Live.Chain.{IsLiveTask, LiveChain}
use fast_task.Tasks.Saving.{require_live_goal}
use fast_task.Tasks.Eligibility.{executable_task_eligibility}
use fast_task.Tasks.Eligibility.Decides.{IsExecutable}
use fast_task.Progress.Fixtures.{
  second, env, thesis, read, today, item, session, request, db_with, ended,
}
use fast_task.Progress.Model.{Db, WorkSession, err_unfinished}
use fast_task.Progress.Live.{require_live_task, task_executable, actionable_plan_item}
use fast_task.Progress.Live.Ends.{task_executable_ends, task_executable-IsExecutable}
use fast_task.Progress.Items.{reopen_plan_item, is_item, reopen_plan_item_tx}
use fast_task.Progress.Items.Writes.{Reopened}
use fast_task.Progress.Items.Corrections.{reopen_plan_item-Reopened}
use fast_task.Progress.Sessions.{
  started_row, start_session, transition_session, is_own_session, apply_action, is_time_for, or_now,
  duration,
}
use fast_task.Progress.Sessions.Machine.{
  IsSoundTable, IsNew, starts, start, then_step, run-IsSoundTable,
}
use fast_task.Progress.Sessions.Refusals.{IsOutOfTime, Permitted, actions}
use fast_task.Progress.Sessions.Results.{
  PauseSeconds, transition_session-refused, transition_session-stop,
}
use fast_task.Progress.Completion.{PlanItemCompletionCommand, complete_plan_item_with_task}
use fast_task.Progress.Completion.Evidence.{
  Checked, is_item_of, complete_plan_item_with_task-Checked,
}

executes : task_executable (db_with "planned" []) "ann" "read" ≡ ok true
unfolding task_executable require_live_task require_live_goal executable_task_eligibility
    fast_task.Tasks.Eligibility.ancestors_open fast_task.Tasks.Eligibility.prerequisites_satisfied
    fast_task.Tasks.Dependencies.task_dependency_graph_valid trim_space
executes = refl

begins :
    start_session env "w" "ann" request (db_with "planned" [])
    ≡ ok (db_with "planned" (session "running" (1000 * second) ∷ []))
unfolding start_session task_executable require_live_task require_live_goal
    executable_task_eligibility fast_task.Tasks.Eligibility.ancestors_open
    fast_task.Tasks.Eligibility.prerequisites_satisfied
    fast_task.Tasks.Dependencies.task_dependency_graph_valid trim_space
    fast_task.Progress.Sessions.session_item actionable_plan_item started_row
    fast_task.Progress.Sessions.create_session fast_task.Plans.Budget.logical_item_id
begins = refl

is_new : IsNew request
is_new = record { pauses = refl; work = refl; no_pause = refl; no_end = refl }

run-IsSoundTable_example : IsSoundTable (session "running" (1000 * second) ∷ [])
run-IsSoundTable_example =
    run-IsSoundTable {db = db_with "planned" []}
      {db' = db_with "planned" (session "running" (1000 * second) ∷ [])}
      (then_step start (starts env "w" "ann" request is_new begins))
      (record { single = λ user. omega arith; sound = tt })

abbrev going : Db
going = db_with "planned" (session "running" (900 * second) ∷ [])

abbrev working : WorkSession
working = session "running" (900 * second)

transition_session-refused_example :
    (◌≢◌ {A = ℕ} 1 2 → transition_session env "ann" "w" 2 "resume" "" "" 0 going ≡ err err_revision)
    × (◌≡◌ {A = ℕ} 1 2
        → IsOutOfTime env (1000 * second) working
        → transition_session env "ann" "w" 2 "resume" "" "" 0 going ≡ err err_validation)
    × (◌≡◌ {A = ℕ} 1 2
        → ¬ IsOutOfTime env (1000 * second) working
        → ¬ In "resume" actions
        → transition_session env "ann" "w" 2 "resume" "" "" 0 going ≡ err err_validation)
    × (◌≡◌ {A = ℕ} 1 2
        → ¬ IsOutOfTime env (1000 * second) working
        → In "resume" actions
        → ¬ Permitted "resume" working
        → transition_session env "ann" "w" 2 "resume" "" "" 0 going ≡ err err_conflict)
transition_session-refused_example =
    transition_session-refused env "ann" "w" 2 "resume" "" "" 0 going working refl

on_time : ¬ IsOutOfTime env (1000 * second) working
on_time (inl h) = omega arith
on_time (inr (inl h)) = omega arith
on_time (inr (inr (inl (p, e, h)))) = cc
on_time (inr (inr (inr (l, e, h)))) = let q : 900 * second ≡ l = some_eq e in omega arith

transition_session-stop_example :
    (db' : Db) × (final : WorkSession) × (transition_session env "ann" "w" 1 "stop" "" "" 0 going
      ≡ ok (db', final))
    × In final db'.sessions
    × (final.status ≡ "stopped")
    × (final.ended_at ≡ some (1000 * second))
    × ((pause : ℕ) × PauseSeconds (1000 * second) working pause
        × (final.duration_seconds
            ≡ (1000 * second - 900 * second) / 1000000000 - working.accumulated_seconds - pause))
transition_session-stop_example =
    transition_session-stop env "ann" "w" "" "" going working refl refl refl on_time

task_executable_ends_example : task_executable going "ann" "read" ≢ err err_unfinished
task_executable_ends_example = task_executable_ends going "ann" "read"

task_executable-IsExecutable_example :
    (task : Task) × (goal : Goal) × (index : Index) × IsLiveTask (read ∷ []) "ann" "read" task
    × LiveChain (read ∷ []) "ann" task.goal_id task.parent_id
    × IsLiveGoal (thesis ∷ []) "ann" task.goal_id goal
    × (goal.status ≡ "active")
    × IsGoalIndex (read ∷ []) task index
    × IsExecutable task index
task_executable-IsExecutable_example =
    task_executable-IsExecutable (db_with "planned" []) "ann" "read" executes

abbrev reopened : Db
reopened = record (db_with "planned" (ended ∷ [])) {
  items = record (item "planned") { revision = pos 2; updated_at = 1000 * second } ∷ [];
  plans = record today { revision = pos 2; updated_at = 1000 * second } ∷ [];
  events =
      record {
        id = "e1";
        user_id = "ann";
        kind = "daily_item_reopened";
        summary = "mistake";
        evidence_json = "i";
        goal_id = none;
        task_id = some "read";
        plan_item_id = some "i";
        occurred_at = 1000 * second;
        created_at = 1000 * second;
      }
      ∷ [];
  outbox =
      record {
        id = "o1";
        user_id = "ann";
        event_type = "daily_item.reopened";
        payload_json = "{}";
        status = "pending";
        attempts = 0;
        created_at = 1000 * second;
        processed_at = none;
      }
      ∷ [];
}

reopens :
    reopen_plan_item env "ann" "p" "i" (pos 1) " mistake" (db_with "satisfied" (ended ∷ []))
    ≡ ok (reopened, record (item "planned") { revision = pos 2; updated_at = 1000 * second })
unfolding reopen_plan_item task_executable require_live_task require_live_goal
    executable_task_eligibility fast_task.Tasks.Eligibility.ancestors_open
    fast_task.Tasks.Eligibility.prerequisites_satisfied
    fast_task.Tasks.Dependencies.task_dependency_graph_valid trim_space
    fast_task.Plans.Budget.logical_item_id actionable_plan_item reopen_plan_item_tx
reopens = refl

reopen_plan_item-Reopened_example :
    (i : DailyPlanItem) × (first (is_item "ann" "p" "i") (item "satisfied" ∷ []) ≡ some i)
    × (i.status ≡ "satisfied")
    × (eq_ℤ i.revision (pos 1) ≡ true)
    × (actionable_plan_item env (db_with "satisfied" (ended ∷ [])) "ann" i ≡ ok tt)
    × Reopened env "ann" i " mistake" (db_with "satisfied" (ended ∷ [])) reopened
reopen_plan_item-Reopened_example =
    reopen_plan_item-Reopened env "ann" "p" "i" (pos 1) " mistake"
      (db_with "satisfied" (ended ∷ [])) reopened
      (record (item "planned") { revision = pos 2; updated_at = 1000 * second }) reopens

abbrev by_time : PlanItemCompletionCommand
by_time = record {
  plan_id = "p";
  item_id = "i";
  expected = pos 1;
  kind = "time";
  summary = "read a chapter";
  work_session_ids = "w" ∷ "w" ∷ [];
  complete_task = false;
  expected_task = pos 0;
}

abbrev satisfied : DailyPlanItem
satisfied = record (item "satisfied") {
  completion_type = "time";
  completion_summary = "read a chapter";
  revision = pos 2;
  updated_at = 1000 * second;
}

abbrev completed : Db
completed = record (db_with "planned" (ended ∷ [])) {
  items = satisfied ∷ [];
  plans = record today { revision = pos 2; updated_at = 1000 * second } ∷ [];
  events =
      record {
        id = "e1";
        user_id = "ann";
        kind = "time";
        summary = "read a chapter";
        evidence_json = "i";
        goal_id = none;
        task_id = some "read";
        plan_item_id = some "i";
        occurred_at = 1000 * second;
        created_at = 1000 * second;
      }
      ∷ [];
  outbox =
      record {
        id = "o1";
        user_id = "ann";
        event_type = "daily_item.satisfied";
        payload_json = "{}";
        status = "pending";
        attempts = 0;
        created_at = 1000 * second;
        processed_at = none;
      }
      ∷ [];
}

completes :
    complete_plan_item_with_task
      (λ user task expected summary evidence db. ok db)
      env
      "ann"
      by_time
      (db_with "planned" (ended ∷ []))
    ≡ ok (completed, satisfied)
unfolding complete_plan_item_with_task task_executable require_live_task require_live_goal
    executable_task_eligibility fast_task.Tasks.Eligibility.ancestors_open
    fast_task.Tasks.Eligibility.prerequisites_satisfied
    fast_task.Tasks.Dependencies.task_dependency_graph_valid trim_space
    fast_task.Plans.Budget.logical_item_id actionable_plan_item validate_completion_type
completes = refl

complete_plan_item_with_task-Checked_example :
    (i : DailyPlanItem) × (first (is_item_of "ann" "i") (item "planned" ∷ []) ≡ some i)
    × (eq_ℤ i.revision (pos 1) ≡ true)
    × (actionable_plan_item env (db_with "planned" (ended ∷ [])) "ann" i ≡ ok tt)
    × (((i.status ≡ "satisfied") × (completed ≡ db_with "planned" (ended ∷ [])))
        ⊎ ((ids : List String) × (task : Option Task) × Checked
              (db_with "planned" (ended ∷ []))
              "ann"
              by_time
              i
              ids
              task))
complete_plan_item_with_task-Checked_example =
    complete_plan_item_with_task-Checked (λ user task expected summary evidence db. ok db) env "ann"
      by_time (db_with "planned" (ended ∷ [])) completed satisfied completes

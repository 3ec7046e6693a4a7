-- ===== src/Progress/Fixtures.antt =====
-- One user with a goal, a task, a plan of today and its item, for the tests.
use fast_task.Base.{ℕ, ◌*◌, String, false, none, some, List, [], ◌∷◌, pos}
use fast_task.Plans.Model.{User, DailyPlan, DailyPlanItem, Goal}
use fast_task.Tasks.Model.{Task, zero_task}
use fast_task.Progress.Model.{Db, Env, WorkSession}

abbrev pub second : ℕ
second = 1000000000

abbrev pub env : Env
env = record {
  now = 1000 * second;
  progress_id = "e1";
  event_id = "o1";
  local_date = λ zone now. "2025-03-01";
  evidence_text = λ evidence. evidence.logical_id;
  read_evidence =
      λ text. record { logical_id = text; work_session_ids = []; reverses_event_id = "" };
  payload_text = λ payload. "{}";
}

abbrev pub ann : User
ann = record {
  id = "ann";
  identifier = "ann";
  password_hash = "";
  display_name = "Ann";
  timezone = "UTC";
  locale = "en";
  role = "member";
  status = "active";
  revision = pos 1;
  created_at = 0;
  updated_at = 0;
}

abbrev pub thesis : Goal
thesis = record {
  id = "g";
  user_id = "ann";
  title = "Thesis";
  description = "";
  success_criteria = "done";
  status = "active";
  target_date = none;
  revision = pos 1;
  created_at = 0;
  updated_at = 0;
  deleted_at = none;
  deletion_id = "";
}

abbrev pub read : Task
read = record zero_task { id = "read"; user_id = "ann"; goal_id = "g"; status = "ready" }

abbrev pub today : DailyPlan
today = record {
  id = "p";
  user_id = "ann";
  local_date = "2025-03-01";
  timezone = "UTC";
  status = "active";
  algorithm_version = "";
  current_revision = pos 1;
  revision = pos 1;
  frozen_at = none;
  manual_items_removed = false;
  created_at = 0;
  updated_at = 0;
}

abbrev pub item : String → DailyPlanItem
item status = record {
  id = "i";
  logical_id = "";
  user_id = "ann";
  plan_id = "p";
  task_id = some "read";
  kind = "core";
  title = "Read";
  commitment = "Read";
  minimum_action = "Open";
  allowed_types = "time,result";
  status = status;
  completion_type = "";
  completion_summary = "";
  plan_revision = pos 1;
  target_minutes = pos 1;
  position = pos 1;
  revision = pos 1;
  created_at = 0;
  updated_at = 0;
}

abbrev pub session : String → ℕ → WorkSession
session status started = record {
  id = "w";
  user_id = "ann";
  task_id = "read";
  daily_plan_item_id = some "i";
  daily_plan_item_logical_id = "i";
  session_type = "pomodoro";
  status = status;
  outcome = "";
  note = "";
  target_minutes = pos 25;
  accumulated_seconds = 0;
  duration_seconds = 0;
  revision = 1;
  started_at = started;
  last_transition_at = some started;
  paused_at = none;
  ended_at = none;
  created_at = 1000 * second;
  updated_at = 1000 * second;
}

abbrev pub request : WorkSession
request = record (session "" 0) {
  id = "";
  last_transition_at = none;
  revision = 0;
  created_at = 0;
  updated_at = 0;
}

abbrev pub db_with : String → List WorkSession → Db
db_with status sessions = record {
  users = ann ∷ [];
  goals = thesis ∷ [];
  tasks = read ∷ [];
  plans = today ∷ [];
  items = item status ∷ [];
  sessions = sessions;
  events = [];
  outbox = [];
}

abbrev pub ended : WorkSession
ended = record (session "completed" (900 * second)) {
  duration_seconds = 70;
  ended_at = some (970 * second);
}

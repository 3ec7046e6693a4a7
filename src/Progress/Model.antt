-- ===== src/Progress/Model.antt =====
-- The rows of work sessions and progress events (internal/persistence/models.go) and the tables that
-- progress reads and writes. A time is a number of nanoseconds since Go's zero time.
use fast_task.Base.{
  ℕ, String, Bool, ◌||◌, Option, none, List, [], ◌∷◌, ◌++◌, if◌then◌else◌, str_eq, any, ◌*◌, ℤ,
}
use fast_task.Jobs.Model.{Failure, Result, ok, err, internal}
use fast_task.Plans.Model.{User, DailyPlan, DailyPlanItem, Goal}
use fast_task.Tasks.Model.{Task}

pub record WorkSession : Type 0 where
  pub id : String
  pub user_id : String
  pub task_id : String
  pub daily_plan_item_id : Option String
  pub daily_plan_item_logical_id : String
  pub session_type : String
  pub status : String
  pub outcome : String
  pub note : String
  pub target_minutes : ℤ
  pub accumulated_seconds : ℕ
  pub duration_seconds : ℕ
  pub revision : ℕ
  pub started_at : ℕ
  pub last_transition_at : Option ℕ
  pub paused_at : Option ℕ
  pub ended_at : Option ℕ
  pub created_at : ℕ
  pub updated_at : ℕ

pub record ProgressEvent : Type 0 where
  pub id : String
  pub user_id : String
  pub kind : String
  pub summary : String
  pub evidence_json : String
  pub goal_id : Option String
  pub task_id : Option String
  pub plan_item_id : Option String
  pub occurred_at : ℕ
  pub created_at : ℕ

pub record OutboxEvent : Type 0 where
  pub id : String
  pub user_id : String
  pub event_type : String
  pub payload_json : String
  pub status : String
  pub attempts : ℕ
  pub created_at : ℕ
  pub processed_at : Option ℕ

-- planItemEvidence of internal/application/planprogress.go.
pub record PlanItemEvidence : Type 0 where
  pub logical_id : String
  pub work_session_ids : List String
  pub reverses_event_id : String

pub record Db : Type 0 where
  pub users : List User
  pub goals : List Goal
  pub tasks : List Task
  pub plans : List DailyPlan
  pub items : List DailyPlanItem
  pub sessions : List WorkSession
  pub events : List ProgressEvent
  pub outbox : List OutboxEvent

-- What a call takes from outside: the clock's reading, the IDs that it draws, the date of a time in a
-- zone (Go's time package, with resolveZone's fallback), and the encoders of encoding/json.
-- `read_evidence` is what json.Unmarshal leaves in a zero value.
pub record Env : Type 0 where
  pub now : ℕ
  pub progress_id : String
  pub event_id : String
  pub local_date : String → ℕ → String
  pub evidence_text : PlanItemEvidence → String
  pub read_evidence : String → PlanItemEvidence
  pub payload_text : List (String × String) → String

-- The walk ran out of fuel; no operation returns it.
abbrev pub err_unfinished : Failure
err_unfinished = record { cause = internal; text = "unfinished" }

abbrev pub err_duplicate : Failure
err_duplicate = record { cause = internal; text = "UNIQUE constraint failed" }

-- INSERT of a progress event, under its primary key.
unfoldable pub create_event : ProgressEvent → Db → Result Db
create_event event db =
    if any (λ e. str_eq e.id event.id) db.events
    then err err_duplicate
    else ok (record db { events = db.events ++ event ∷ [] })

unfoldable pub create_outbox : Env → String → String → List (String × String) → Db → Result Db
create_outbox env user_id event_type payload db =
    if any (λ e. str_eq e.id env.event_id) db.outbox
    then err err_duplicate
    else ok (record db {
      outbox =
          db.outbox
          ++ record {
            id = env.event_id;
            user_id = user_id;
            event_type = event_type;
            payload_json = env.payload_text payload;
            status = "pending";
            attempts = 0;
            created_at = env.now;
            processed_at = none;
          }
            ∷ [];
    })

-- The statuses of the partial index idx_one_active_session.
abbrev pub is_active : WorkSession → Bool
is_active session = str_eq session.status "running" || str_eq session.status "paused"

-- Nanoseconds of five seconds, and of one.
abbrev pub clock_skew : ℕ
clock_skew = 5 * 1000000000

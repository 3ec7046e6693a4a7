-- ===== src/Jobs/Model.antt =====
-- The job row (internal/persistence/models.go), the tables that its operations read, the errors of
-- internal/application/app.go, and the SQL statements as functions on lists of rows.
use fast_task.Base.{
  ℕ, suc, String, Bool, ◌&&◌, Option, none, some, List, [], ◌∷◌, ◌++◌, ℤ, if◌then◌else◌, str_eq,
  any,
}
use fast_task.Plans.Model.{User, DailyPlan}

pub record AgentJob : Type 0 where
  pub id : String
  pub user_id : String
  pub kind : String
  pub status : String
  pub retry_of_job_id : Option String
  pub subject_type : String
  pub subject_id : String
  pub input_json : String
  pub output_json : String
  pub error_code : String
  pub error_message : String
  pub locked_by : String
  pub run_token_hash : String
  pub base_revision : ℤ
  pub attempt_count : ℕ
  pub max_attempts : ℕ
  pub lease_version : ℕ
  pub revision : ℕ
  pub cancel_requested : Bool
  pub run_after : ℕ
  pub created_at : ℕ
  pub updated_at : ℕ
  pub locked_until : Option ℕ
  pub started_at : Option ℕ
  pub finished_at : Option ℕ

-- What `errors.Is` tells apart; `internal` is every other error.
pub data Cause : Type 0 where
  not_found conflict too_many_jobs revision_mismatch precondition invalid active_session : Cause
  stale support_before_core_done internal : Cause

-- An error: its cause and the text that it prints.
pub record Failure : Type 0 where
  pub cause : Cause
  pub text : String

abbrev pub err_not_found : Failure
err_not_found = record { cause = not_found; text = "resource not found" }

abbrev pub err_conflict : Failure
err_conflict = record { cause = conflict; text = "resource conflict" }

abbrev pub err_too_many_jobs : Failure
err_too_many_jobs = record {
  cause = too_many_jobs;
  text = "too many unfinished jobs; wait for some to finish";
}

abbrev pub err_revision : Failure
err_revision = record { cause = revision_mismatch; text = "revision mismatch" }

abbrev pub err_precondition : Failure
err_precondition = record { cause = precondition; text = "precondition required" }

abbrev pub err_active_session : Failure
err_active_session = record { cause = active_session; text = "active work session exists" }

abbrev pub err_validation : Failure
err_validation = record { cause = invalid; text = "validation failed" }

abbrev pub err_stale_agent_attempt : Failure
err_stale_agent_attempt = record { cause = stale; text = "stale agent attempt" }

-- An insert of a primary key that the table has.
abbrev pub err_unique : Failure
err_unique = record { cause = internal; text = "UNIQUE constraint failed: agent_jobs.id" }

-- A transaction that returns an error leaves the database as it was.
pub data Result (A : Type 0) : Type 0 where
  ok : A → Result A
  err : Failure → Result A

-- The tables that a materializer may change: plans and users, and `W` for every other one.
pub record Tables (W : Type 0) : Type 0 where
  pub plans : List DailyPlan
  pub users : List User
  pub other : W

pub record Store (W : Type 0) : Type 0 where
  pub jobs : List AgentJob
  pub tables : Tables W

module _ {A : Type 0} where
  -- SELECT ... LIMIT 1 in the order of the table.
  abbrev pub first : (A → Bool) → List A → Option A
  first p [] = none
  first p (x ∷ xs) = if p x then some x else first p xs

  -- SELECT count(*).
  abbrev pub count : (A → Bool) → List A → ℕ
  count p [] = 0
  count p (x ∷ xs) = if p x then suc (count p xs) else count p xs

  -- UPDATE ... SET ... WHERE; `count` of the same condition is the number of rows affected.
  abbrev pub update : (A → Bool) → (A → A) → List A → List A
  update p f [] = []
  update p f (x ∷ xs) = (if p x then f x else x) ∷ update p f xs

abbrev pub has_id : String → AgentJob → Bool
has_id id job = str_eq job.id id

-- "id = ? AND user_id = ?".
abbrev pub is_owned : String → String → AgentJob → Bool
is_owned user_id id job = str_eq job.id id && str_eq job.user_id user_id

-- INSERT, under the primary key.
abbrev pub create : AgentJob → List AgentJob → Result (List AgentJob)
create job jobs = if any (has_id job.id) jobs then err err_unique else ok (jobs ++ job ∷ [])

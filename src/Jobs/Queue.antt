-- ===== src/Jobs/Queue.antt =====
-- internal/application/jobservice.go: the operations of JobService. Each takes the times that it reads
-- from the clock and the IDs that it draws, and gives the database after it.
use fast_task.Base.{
  ℕ, suc, String, Bool, true, false, not, ◌&&◌, ◌||◌, Option, none, some, ℤ, pos, leb_ℤ,
  if◌then◌else◌, str_eq, leb, ◌==◌,
}
use fast_task.Jobs.Model.{
  AgentJob, Result, ok, err, Tables, Store, first, count, update, create, is_owned, err_not_found,
  err_conflict, err_too_many_jobs, err_revision, err_validation, err_stale_agent_attempt,
}
use fast_task.Jobs.Support.{
  capture_support_job_baseline, validate_support_job, support_job_failure_code,
}

-- What the service is given: the digest of a token, the date in a zone, the JSON text of an output ("" if
-- it has none), the materializer of a job type (the "job_materializers" group of the wiring) and the
-- handler of one (the "job_handlers" group), and Go's %q.
pub record Env (W Out : Type 0) : Type 0 where
  pub hash : String → String
  pub local_date : String → ℕ → String
  pub encode : Out → String
  pub materializers : String → Option (AgentJob → Out → ℕ → Tables W → Result (Tables W))
  pub handlers : String → Option (AgentJob → Result Out)
  pub quote : String → String

abbrev pub max_pending_jobs_per_user : ℕ
max_pending_jobs_per_user = 10

abbrev pub is_unfinished : AgentJob → Bool
is_unfinished job = str_eq job.status "queued" || str_eq job.status "running"

-- "user_id = ? AND status IN ('queued','running')".
abbrev pub is_pending_of : String → AgentJob → Bool
is_pending_of user_id job = str_eq job.user_id user_id && is_unfinished job

-- The row of a new job; `encoded` is its input.
abbrev pub new_job : ℕ → String → String → String → String → String → ℤ → String → AgentJob
new_job now id user_id kind subject_type subject_id base_revision encoded = record {
  id = id;
  user_id = user_id;
  kind = kind;
  status = "queued";
  retry_of_job_id = none;
  subject_type = subject_type;
  subject_id = subject_id;
  input_json = encoded;
  output_json = "";
  error_code = "";
  error_message = "";
  locked_by = "";
  run_token_hash = "";
  base_revision = base_revision;
  attempt_count = 0;
  max_attempts = 3;
  lease_version = 0;
  revision = 1;
  cancel_requested = false;
  run_after = now;
  created_at = now;
  updated_at = now;
  locked_until = none;
  started_at = none;
  finished_at = none;
}

-- The copy of a failed job that RetryJob enqueues.
abbrev pub retry_of : ℕ → String → AgentJob → AgentJob
retry_of now id old = record old {
  id = id;
  status = "queued";
  retry_of_job_id = some old.id;
  attempt_count = 0;
  lease_version = 0;
  revision = 1;
  error_code = "";
  error_message = "";
  output_json = "";
  locked_by = "";
  run_token_hash = "";
  locked_until = none;
  started_at = none;
  finished_at = none;
  run_after = now;
  created_at = now;
  updated_at = now;
}

-- The row that a cancellation writes: a queued job ends, a running one is asked to stop.
abbrev pub cancel_row : ℕ → ℕ → AgentJob → AgentJob
cancel_row now expected row = record row {
  cancel_requested = true;
  revision = suc expected;
  updated_at = now;
  status = if str_eq row.status "queued" then "cancelled" else row.status;
  finished_at = if str_eq row.status "queued" then some now else row.finished_at;
}

-- "id = ? AND user_id = ? AND status = 'running' AND attempt_count = ? AND lease_version = ? AND
-- run_token_hash = ?".
abbrev pub is_attempt : String → String → ℕ → ℕ → String → AgentJob → Bool
is_attempt user_id id attempt lease token row =
    is_owned user_id id row
    && str_eq row.status "running"
    && (row.attempt_count == attempt)
    && (row.lease_version == lease)
    && str_eq row.run_token_hash token

-- The row that a callback writes.
abbrev pub callback_row : ℕ → ℕ → String → String → String → String → AgentJob → AgentJob
callback_row now revision status output code message row = record row {
  status = status;
  output_json = output;
  error_code = code;
  error_message = message;
  finished_at = some now;
  locked_by = "";
  locked_until = none;
  run_token_hash = "";
  revision = revision;
  updated_at = now;
}

abbrev pub is_outcome : String → Bool
is_outcome status = str_eq status "succeeded" || str_eq status "failed" || str_eq status "cancelled"

-- CancelJob reads the row and writes it in two statements: `read` is the row that the first one found,
-- `store` the database of the second.
unfoldable pub cancel_write :
    {W : Type 0} → ℕ → String → String → ℕ → AgentJob → Store W → Result (Store W)
cancel_write now user_id id expected read store =
    if not (read.revision == expected)
    then err err_revision
    else if not (is_unfinished read)
    then err err_conflict
    else if count
          (λ row.
            is_owned user_id read.id row
            && str_eq row.status read.status
            && (row.revision == expected))
          store.jobs
        == 1
    then ok (record store {
      jobs =
          update
            (λ row.
              is_owned user_id read.id row
              && str_eq row.status read.status
              && (row.revision == expected))
            (cancel_row now expected) store.jobs;
    })
    else err err_revision

-- `before` is the database that the first statement reads.
unfoldable pub cancel_job :
    {W : Type 0} → ℕ → String → String → ℕ → Store W → Store W → Result (Store W)
unfolding cancel_write
cancel_job now user_id id expected before store = elim (first (is_owned user_id id) before.jobs) [
  | none ↦ err err_not_found
  | some read ↦ cancel_write now user_id id expected read store
]

module _ {W Out : Type 0} (env : Env W Out) where
  -- The part of `enqueue` that every type of job takes.
  unfoldable pub insert_bounded : Store W → AgentJob → Result (Store W)
  insert_bounded store job =
      if leb max_pending_jobs_per_user (count (is_pending_of job.user_id) store.jobs)
      then err err_too_many_jobs
      else elim (create job store.jobs) [
        | err e ↦ err e
        | ok jobs ↦ ok (record store { jobs = jobs })
      ]

  unfoldable pub enqueue : ℕ → Store W → AgentJob → Result (Store W)
  unfolding insert_bounded capture_support_job_baseline
  enqueue now store job =
      if str_eq job.kind "support_generation"
      then elim (capture_support_job_baseline env.local_date store.tables job now) [
        | err e ↦ err e
        | ok based ↦ insert_bounded store based
      ]
      else insert_bounded store job

  -- `input` is the encoded input, or the error of the encoder.
  unfoldable pub create_job :
      ℕ
      → String
      → String
      → String
      → String
      → String
      → ℤ
      → Result String
      → Store W
      → Result (Store W)
  unfolding enqueue
  create_job now id user_id kind subject_type subject_id base_revision (err e) store = err e
  create_job now id user_id kind subject_type subject_id base_revision (ok encoded) store =
      enqueue now store (new_job now id user_id kind subject_type subject_id base_revision encoded)

  unfoldable pub retry_job : ℕ → String → String → String → ℕ → Store W → Result (Store W)
  unfolding enqueue
  retry_job now new_id user_id id expected store = elim (first (is_owned user_id id) store.jobs) [
    | none ↦ err err_not_found
    | some old ↦
        if not (old.revision == expected)
        then err err_revision
        else if not (str_eq old.status "failed")
        then err err_conflict
        else if str_eq old.kind "support_generation" && leb_ℤ old.base_revision (pos 0)
        then err err_revision
        else enqueue now store (retry_of now new_id old)
  ]

  unfoldable pub materialize_job_result : Tables W → AgentJob → Out → ℕ → Result (Tables W)
  materialize_job_result tables job output now = elim (env.materializers job.kind) [
    | none ↦ ok tables
    | some materialize ↦ materialize job output now tables
  ]

  -- The rest of the callback, once its status, code and message are settled.
  unfoldable pub callback_write :
      ℕ
      → String
      → String
      → ℕ
      → ℕ
      → String
      → AgentJob
      → String
      → Out
      → String
      → String
      → Store W
      → Result (Store W)
  unfolding materialize_job_result
  callback_write now user_id id attempt lease token job status output code message store =
      elim (if str_eq status "succeeded"
        then materialize_job_result store.tables job output now
        else ok store.tables) [
          | err e ↦ err e
          | ok tables ↦
              if count (is_attempt user_id id attempt lease token) store.jobs == 1
              then ok (record {
                jobs =
                    update (is_attempt user_id id attempt lease token)
                      (callback_row now (suc job.revision) status (env.encode output) code message)
                      store.jobs;
                tables = tables;
              })
              else err err_stale_agent_attempt
        ]

  -- The callback of the current attempt, which wants to end with the status `wanted`.
  unfoldable pub callback_settled :
      ℕ
      → String
      → String
      → ℕ
      → ℕ
      → String
      → AgentJob
      → String
      → Out
      → String
      → String
      → Store W
      → Result (Store W)
  unfolding callback_write validate_support_job support_job_failure_code
  callback_settled now user_id id attempt lease run_token job wanted output code message store =
      let write = callback_write now user_id id attempt lease (env.hash run_token) job in
      if not (is_outcome wanted)
      then err err_validation
      else if str_eq wanted "succeeded" && str_eq job.kind "support_generation"
      then elim (validate_support_job env.local_date store.tables job now) [
        | none ↦ write wanted output code message store
        | some e ↦ elim (support_job_failure_code e) [
          | none ↦ err e
          | some terminal ↦ write "failed" output terminal e.text store
        ]
      ]
      else write wanted output code message store

  unfoldable pub agent_callback :
      ℕ
      → String
      → String
      → ℕ
      → ℕ
      → String
      → String
      → Out
      → String
      → String
      → Store W
      → Result (Store W)
  unfolding callback_settled
  agent_callback now user_id id attempt lease run_token status output code message store =
      elim (first (is_owned user_id id) store.jobs) [
        | none ↦ err err_not_found
        | some job ↦
            if not (str_eq job.status "running")
              || not (job.attempt_count == attempt)
              || not (job.lease_version == lease)
              || not (str_eq job.run_token_hash (env.hash run_token))
            then err err_stale_agent_attempt
            else (callback_settled now user_id id attempt lease run_token job
                (if job.cancel_requested then "cancelled" else status) output code message store)
      ]

-- ===== src/Jobs/Worker.antt =====
-- internal/application/worker.go: claiming a job, renewing its lease, running it and recording the result.
-- Times are nanoseconds.
use Prim.Native.String.{◌++◌ as ◌<>◌}
use text.Mathlib.Text.{starts_with}
use fast_task.Base.{
  ℕ, suc, ◌+◌, ◌-◌, ◌*◌, ◌^◌, min, String, Bool, true, false, not, ◌&&◌, ◌||◌, Option, none, some,
  List, [], ◌∷◌, if◌then◌else◌, str_eq, str_lt, leb, ltb, ◌==◌,
}
use fast_task.Jobs.Model.{
  AgentJob, Failure, Result, ok, err, Tables, Store, first, count, update, has_id, err_not_found,
  err_stale_agent_attempt, revision_mismatch, internal,
}
use fast_task.Jobs.Support.{validate_support_job, support_job_failure_code}
use fast_task.Jobs.Queue.{Env, materialize_job_result}

abbrev pub second : ℕ
second = 1000000000

abbrev pub minute : ℕ
minute = 60 * second

unfoldable pub job_retry_delay : ℕ → ℕ
job_retry_delay attempt =
    let counted = if ltb attempt 1 then 1 else attempt in
    min (2 * second * 2 ^ min (counted - 1) 5) minute

abbrev pub job_lease : ℕ
job_lease = 2 * minute

-- strings.Contains(s, sub).
unfoldable pub contains : String → String → Bool
contains sub String.[] = str_eq sub ""
contains sub (String.◌∷◌ c s) = starts_with sub (String.◌∷◌ c s) || contains sub s

-- "status = 'queued' AND run_after <= ?".
abbrev pub is_due : ℕ → AgentJob → Bool
is_due now job = str_eq job.status "queued" && leb job.run_after now

-- ORDER BY created_at and, as First adds it, the primary key.
abbrev pub is_older : AgentJob → AgentJob → Bool
is_older a b = ltb a.created_at b.created_at || (a.created_at == b.created_at) && str_lt a.id b.id

-- The first due job in that order.
unfoldable pub oldest_due : ℕ → List AgentJob → Option AgentJob
oldest_due now [] = none
oldest_due now (job ∷ jobs) =
    let rest = oldest_due now jobs in
    if not (is_due now job) then rest else elim rest [
      | none ↦ some job
      | some other ↦ some (if is_older other job then other else job)
    ]

-- The row that a claim writes.
abbrev pub claim_row : ℕ → String → String → AgentJob → AgentJob → AgentJob
claim_row now identity token_hash job row = record row {
  status = "running";
  locked_by = identity;
  locked_until = some (now + job_lease);
  lease_version = suc job.lease_version;
  run_token_hash = token_hash;
  attempt_count = suc job.attempt_count;
  started_at = some now;
  revision = suc job.revision;
  updated_at = now;
}

abbrev pub is_queued_job : String → AgentJob → Bool
is_queued_job id row = has_id id row && str_eq row.status "queued"

-- "id = ? AND status = 'running' AND lease_version = ? AND run_token_hash = ?".
abbrev pub is_claim : String → ℕ → String → AgentJob → Bool
is_claim id lease token row =
    has_id id row
    && str_eq row.status "running"
    && (row.lease_version == lease)
    && str_eq row.run_token_hash token

-- The columns that every result writes.
abbrev pub release_row : ℕ → AgentJob → AgentJob → AgentJob
release_row now current row = record row {
  finished_at = some now;
  locked_until = none;
  locked_by = "";
  run_token_hash = "";
  revision = suc current.revision;
  updated_at = now;
}

-- A result that ends the job with an error.
abbrev pub end_row : ℕ → AgentJob → String → String → String → AgentJob → AgentJob
end_row now current status code message row = record (release_row now current row) {
  status = status;
  error_code = code;
  error_message = message;
}

-- A result that puts the job back into the queue.
abbrev pub backoff_row : ℕ → AgentJob → String → AgentJob → AgentJob
backoff_row now current message row = record (release_row now current row) {
  status = "queued";
  run_after = now + job_retry_delay current.attempt_count;
  finished_at = none;
  error_code = "TEMPORARY";
  error_message = message;
}

abbrev pub succeed_row : ℕ → AgentJob → String → AgentJob → AgentJob
succeed_row now current output row = record (release_row now current row) {
  status = "succeeded";
  output_json = output;
}

-- errors.Is(runErr, ErrRevision).
abbrev pub is_revision : Failure → Bool
is_revision e = elim e.cause [ revision_mismatch ↦ true | _ ↦ false ]

unfoldable pub failed_row : ℕ → AgentJob → Failure → AgentJob → AgentJob
unfolding contains
failed_row now current e row =
    if is_revision e
    then end_row now current "failed" "REVISION_MISMATCH" e.text row
    else if ltb current.attempt_count current.max_attempts && not (contains "unknown job" e.text)
    then backoff_row now current e.text row
    else end_row now current "failed" "PROVIDER_ERROR" e.text row

module _ {W Out : Type 0} (env : Env W Out) where
  -- The claimed job, if any, and the database after the claim.
  unfoldable pub claim : ℕ → String → String → Store W → Option AgentJob × Store W
  unfolding oldest_due
  claim now identity token store = elim (oldest_due now store.jobs) [
    | none ↦ (none, store)
    | some job ↦
        let jobs =
          update (is_queued_job job.id) (claim_row now identity (env.hash token) job) store.jobs in
        if count (is_queued_job job.id) store.jobs == 1
        then (first (has_id job.id) jobs, record store { jobs = jobs })
        else (none, record store { jobs = jobs })
  ]

  -- One tick of holdLease: whether the claim still stands, and the database after the renewal.
  unfoldable pub renew_lease : ℕ → AgentJob → String → Store W → Bool × Store W
  renew_lease now job token store = (
    not (count (is_claim job.id job.lease_version (env.hash token)) store.jobs == 0),
    record store {
      jobs =
          update (is_claim job.id job.lease_version (env.hash token))
            (λ row. record row { locked_until = some (now + job_lease) }) store.jobs;
    },
  )

  -- `resolved` is the error of the provider resolver, if it has one.
  unfoldable pub execute : Option Failure → AgentJob → Result Out
  execute resolved job =
      if job.cancel_requested
      then err (record { cause = internal; text = "cancelled" })
      else elim resolved [
        | some e ↦ err e
        | none ↦ elim (env.handlers job.kind) [
          | none ↦
              err (record { cause = internal; text = "unknown job type " <> env.quote job.kind })
          | some handle ↦ handle job
        ]
      ]

  -- The update of `finish`, on the rows of its claim.
  abbrev pub record_result :
      AgentJob → String → (AgentJob → AgentJob) → Tables W → Store W → Result (Store W)
  record_result current token f tables store = ok (record {
    jobs = update (is_claim current.id current.lease_version (env.hash token)) f store.jobs;
    tables = tables;
  })

  -- The end of `finish`, for a job whose plan allows it.
  unfoldable pub finish_run : ℕ → AgentJob → String → Result Out → Store W → Result (Store W)
  unfolding failed_row materialize_job_result
  finish_run now current token (err e) store =
      record_result current token (failed_row now current e) store.tables store
  finish_run now current token (ok output) store =
      elim (materialize_job_result env store.tables current output now) [
        | err e ↦ err e
        | ok tables ↦
            record_result current token (succeed_row now current (env.encode output)) tables store
      ]

  -- A job whose stop was requested ends so; a support job needs a plan that still allows it.
  unfoldable pub finish_current :
      Bool → ℕ → AgentJob → String → Result Out → Store W → Result (Store W)
  unfolding finish_run validate_support_job support_job_failure_code
  finish_current true now current token result store =
      record_result current token (end_row now current "cancelled" "CANCELLED" "cancelled by user")
        store.tables store
  finish_current false now current token result store =
      if not (str_eq current.kind "support_generation")
      then finish_run now current token result store
      else elim (validate_support_job env.local_date store.tables current now) [
        | none ↦ finish_run now current token result store
        | some e ↦ elim (support_job_failure_code e) [
          | none ↦ err e
          | some code ↦
              record_result current token (end_row now current "failed" code e.text) store.tables
                store
        ]
      ]

  -- The file of a finished voice recording, which `finish` also removes, is outside the database.
  unfoldable pub finish : ℕ → AgentJob → String → Result Out → Store W → Result (Store W)
  unfolding finish_current
  finish now claimed token result store = elim (first (has_id claimed.id) store.jobs) [
    | none ↦ err err_not_found
    | some current ↦
        if not (str_eq current.status "running")
          || not (current.lease_version == claimed.lease_version)
          || not (current.attempt_count == claimed.attempt_count)
          || not (str_eq current.run_token_hash (env.hash token))
        then err err_stale_agent_attempt
        else finish_current current.cancel_requested now current token result store
  ]

-- ===== src/Jobs/Recovery.antt =====
-- internal/scheduler/scheduler.go, `maintain`: the recovery of jobs whose lease has lapsed.
use fast_task.Base.{ℕ, suc, Bool, false, ◌&&◌, none, some, str_eq, ltb, leb}
use fast_task.Jobs.Model.{AgentJob, Store, update}

-- "status = 'running' AND locked_until IS NOT NULL AND locked_until < ?".
abbrev pub is_expired : ℕ → AgentJob → Bool
is_expired now job =
    str_eq job.status "running"
    && elim job.locked_until [ none ↦ false | some until ↦ ltb until now ]

abbrev pub lapse_row : ℕ → AgentJob → AgentJob
lapse_row now row = record row {
  status = "failed";
  error_code = "LEASE_EXPIRED";
  error_message = "the worker stopped responding on the final attempt";
  locked_by = "";
  locked_until = none;
  run_token_hash = "";
  finished_at = some now;
  revision = suc row.revision;
  updated_at = now;
}

abbrev pub requeue_row : ℕ → AgentJob → AgentJob
requeue_row now row = record row {
  status = "queued";
  locked_by = "";
  locked_until = none;
  run_token_hash = "";
  run_after = now;
  revision = suc row.revision;
  updated_at = now;
}

-- The two statements, in their order: first the jobs without an attempt left, then the others.
unfoldable pub maintain_jobs : {W : Type 0} → ℕ → Store W → Store W
maintain_jobs now store = record store {
  jobs = update (is_expired now) (requeue_row now) (
      update (λ row. is_expired now row && leb row.max_attempts row.attempt_count) (lapse_row now)
        store.jobs);
}

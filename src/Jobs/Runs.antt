-- ===== src/Jobs/Runs.antt =====
-- The jobs that carry agent runs: the insert of a new run's job (internal/application/agent.go) and of a
-- resumed run's (agentapproval.go), neither of which counts the jobs of the user, and CancelRunJob of
-- harnessrun.go, which writes the job of a run whatever its status.
use fast_task.Base.{ℕ, String, true, pos}
use fast_task.Jobs.Model.{AgentJob, Result, ok, err, Store, update, create, is_owned}
use fast_task.Jobs.Queue.{new_job}

-- The row of a run's job, which has one attempt.
abbrev pub run_job : ℕ → String → String → String → AgentJob
run_job now id user_id run_id =
    record (new_job now id user_id "agent_run" "agent_run" run_id (pos 0) "{}") { max_attempts = 1 }

unfoldable pub create_run_job :
    {W : Type 0} → ℕ → String → String → String → Store W → Result (Store W)
create_run_job now id user_id run_id store =
    elim (create (run_job now id user_id run_id) store.jobs) [
      | err e ↦ err e
      | ok jobs ↦ ok (record store { jobs = jobs })
    ]

unfoldable pub requeue_run_job :
    {W : Type 0} → ℕ → String → String → String → Store W → Result (Store W)
requeue_run_job now id user_id run_id store =
    elim (create (run_job now id user_id run_id) store.jobs) [
      | err e ↦ err e
      | ok jobs ↦ ok (record store { jobs = jobs })
    ]

abbrev pub flag_row : ℕ → AgentJob → AgentJob
flag_row now row = record row { cancel_requested = true; updated_at = now }

-- `id` is the job of the run.
unfoldable pub cancel_run_job : {W : Type 0} → ℕ → String → String → Store W → Store W
cancel_run_job now user_id id store = record store {
  jobs = update (is_owned user_id id) (flag_row now) store.jobs;
}

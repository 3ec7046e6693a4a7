-- ===== src/Jobs/Examples.antt =====
-- Tests of the queue on concrete databases, and its theorems at them.
use fast_task.Base.{
  String, true, false, none, some, List, [], ◌∷◌, ◌≡◌, ◌⊎◌, inl, refl, arith, pos, In, All,
}
use fast_task.Jobs.Model.{
  AgentJob, ok, err, Tables, Store, err_stale_agent_attempt, err_too_many_jobs,
}
use fast_task.Jobs.Queue.{Env, new_job, create_job}
use fast_task.Jobs.Runs.{flag_row, cancel_run_job}
use fast_task.Jobs.Rows.{settled}
use fast_task.Jobs.Worker.{claim_row, succeed_row, claim, oldest_due, finish, is_due}
use fast_task.Jobs.Recovery.{maintain_jobs, requeue_row}
use fast_task.Jobs.Machine.{
  IsConsistent, Run, start, then_step, creates, claims, finishes, maintains, cancels_run,
  run-IsConsistent, run-outcome, finish-stale,
}
use fast_task.Jobs.Order.{oldest_due-IsOldest, IsOldest}

abbrev env : Env Unit String
env = record {
  hash = λ token. token;
  local_date = λ zone now. "2026-01-05";
  encode = λ output. output;
  materializers = λ kind. none;
  handlers = λ kind. none;
  quote = λ text. text;
}

abbrev tables : Tables Unit
tables = record { plans = []; users = []; other = tt }

abbrev db : List AgentJob → Store Unit
db jobs = record { jobs = jobs; tables = tables }

abbrev queued : AgentJob
queued = new_job 10 "job_1" "ann" "agent_run" "" "" (pos 0) "{}"

abbrev claimed : AgentJob
claimed = claim_row 20 "w1" "run_1" queued queued

abbrev done : AgentJob
done = succeed_row 30 claimed "answer" claimed

empty-IsConsistent : IsConsistent []
empty-IsConsistent = record { distinct = tt; sound = tt; pending = λ user. omega arith }

claim-queued : (claim env 20 "w1" "run_1" (db (queued ∷ []))).1 ≡ db (claimed ∷ [])
unfolding claim
claim-queued = refl

abbrev life : Run env (db []) (db (done ∷ []))
unfolding create_job finish claim
life =
    then_step
      (then_step
        (then_step start (creates 10 "job_1" "ann" "agent_run" "" "" (pos 0) (ok "{}") refl))
        (claims 20 "w1" "run_1"))
      (finishes 30 claimed "run_1" (ok "answer") refl)

run-IsConsistent_example : IsConsistent (done ∷ [])
run-IsConsistent_example = run-IsConsistent env life empty-IsConsistent

done-IsConsistent : IsConsistent (done ∷ [])
done-IsConsistent = run-IsConsistent env life empty-IsConsistent

-- The cancellation of the run comes after the end of its job.
abbrev flagged : Run env (db (done ∷ [])) (db (flag_row 40 done ∷ []))
unfolding maintain_jobs cancel_run_job
flagged = then_step (then_step start (maintains 999)) (cancels_run 40 "ann" "job_1")

run-outcome_example :
    (later : AgentJob) × In later (flag_row 40 done ∷ []) × (settled later ≡ settled done)
run-outcome_example = run-outcome env done flagged done-IsConsistent (inl refl) refl

-- The claim lapses, and another worker claims the job.
abbrev lapsed : AgentJob
lapsed = requeue_row 200000000000 claimed

abbrev reclaimed : AgentJob
reclaimed = claim_row 200000000001 "w2" "run_2" lapsed lapsed

abbrev takeover : Run env (db []) (db (reclaimed ∷ []))
unfolding create_job claim maintain_jobs
takeover =
    then_step
      (then_step
        (then_step
          (then_step start (creates 10 "job_1" "ann" "agent_run" "" "" (pos 0) (ok "{}") refl))
          (claims 20 "w1" "run_1"))
        (maintains 200000000000))
      (claims 200000000001 "w2" "run_2")

reclaimed-IsConsistent : IsConsistent (reclaimed ∷ [])
reclaimed-IsConsistent = run-IsConsistent env takeover empty-IsConsistent

finish-stale_example :
    finish env 300000000000 claimed "run_1" (ok "late") (db (reclaimed ∷ []))
    ≡ err err_stale_agent_attempt
finish-stale_example =
    finish-stale env 300000000000 claimed reclaimed "run_1" (ok "late") start reclaimed-IsConsistent
      (inl refl) refl (omega arith)

oldest_due-IsOldest_example :
    ((job : AgentJob) × (oldest_due 20 (queued ∷ []) ≡ some job)
      × In job (queued ∷ [])
      × (is_due 20 job ≡ true)
      × IsOldest 20 job (queued ∷ []))
    ⊎ ((oldest_due 20 (queued ∷ []) ≡ none) × All (λ x. is_due 20 x ≡ false) (queued ∷ []))
oldest_due-IsOldest_example = oldest_due-IsOldest 20 (queued ∷ [])

eleventh :
    create_job env 10 "job_x" "ann" "agent_run" "" "" (pos 0) (ok "{}") (
      db (
        queued ∷ queued ∷ queued ∷ queued ∷ queued ∷ queued ∷ queued ∷ queued ∷ queued ∷ queued
        ∷ []))
    ≡ err err_too_many_jobs
unfolding create_job
eleventh = refl

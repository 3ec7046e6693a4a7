-- ===== src/Jobs/Support.antt =====
-- internal/application/supportjobs.go: what a job that suggests support items asks of its plan.
-- `local_date` gives the date of a time in a zone, with resolveZone's fallback (Go's time package).
use fast_task.Base.{
  ℕ, String, Bool, not, ◌&&◌, ◌||◌, Option, none, some, ℤ, pos, leb_ℤ, if◌then◌else◌, str_eq,
  str_lt,
}
use fast_task.Plans.Model.{DailyPlan}
use fast_task.Jobs.Model.{
  AgentJob, Failure, Result, ok, err, Tables, first, err_not_found, err_revision, err_validation,
  not_found, conflict, too_many_jobs, revision_mismatch, precondition, active_session, invalid,
  stale, support_before_core_done, internal,
}

abbrev pub eq_ℤ : ℤ → ℤ → Bool
eq_ℤ a b = leb_ℤ a b && leb_ℤ b a

module _ {W : Type 0} (local_date : String → ℕ → String) where
  unfoldable pub support_job_plan : Tables W → AgentJob → Result DailyPlan
  support_job_plan tables job =
      if not (str_eq job.subject_type "daily_plan")
      then err err_validation
      else elim (first (λ p. str_eq p.id job.subject_id && str_eq p.user_id job.user_id)
          tables.plans) [ none ↦ err err_not_found | some plan ↦ ok plan ]

  unfoldable pub support_plan_ready : Tables W → DailyPlan → ℕ → Option Failure
  support_plan_ready tables plan now =
      if not (str_eq plan.status "active")
      then some (record {
        cause = conflict;
        text = "resource conflict: support items require an active plan";
      })
      else elim (first (λ u. str_eq u.id plan.user_id) tables.users) [
        | none ↦ some err_not_found
        | some user ↦
            if str_lt (local_date user.timezone now) plan.local_date
            then some (record {
              cause = conflict;
              text = "resource conflict: support items cannot be generated for a future plan";
            })
            else none
      ]

  -- The job with the plan's revision as its baseline.
  unfoldable pub capture_support_job_baseline : Tables W → AgentJob → ℕ → Result AgentJob
  unfolding support_job_plan support_plan_ready
  capture_support_job_baseline tables job now = elim (support_job_plan tables job) [
    | err e ↦ err e
    | ok plan ↦
        if not (eq_ℤ job.base_revision (pos 0)) && not (eq_ℤ job.base_revision plan.revision)
        then err err_revision
        else elim (support_plan_ready tables plan now) [
          | some e ↦ err e
          | none ↦ ok (record job { base_revision = plan.revision })
        ]
  ]

  unfoldable pub validate_support_job : Tables W → AgentJob → ℕ → Option Failure
  unfolding support_job_plan support_plan_ready
  validate_support_job tables job now = elim (support_job_plan tables job) [
    | err e ↦ some e
    | ok plan ↦
        if leb_ℤ job.base_revision (pos 0) || not (eq_ℤ job.base_revision plan.revision)
        then some (record {
          cause = revision_mismatch;
          text =
              "revision mismatch: the plan changed after support generation was requested; request a new suggestion";
        })
        else support_plan_ready tables plan now
  ]

-- The code of a failure that ends the job; `none` for one that the worker tries again.
unfoldable pub support_job_failure_code : Failure → Option String
support_job_failure_code e = elim e.cause [
  | revision_mismatch ↦ some "REVISION_MISMATCH"
  | support_before_core_done ↦ some "CORE_NOT_DONE"
  | conflict ↦ some "PLAN_NOT_ACTIONABLE"
  | not_found ↦ some "PLAN_NOT_FOUND"
  | invalid ↦ some "SUPPORT_PLAN_INVALID"
  | too_many_jobs ↦ none
  | precondition ↦ none
  | active_session ↦ none
  | stale ↦ none
  | internal ↦ none
]

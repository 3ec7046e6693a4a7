-- ===== src/Progress/Items/Statuses.antt =====
-- The status that a reopened item gets, apart from the code.
use fast_task.Base.{
  true, false, ◌≢◌, refl, subst, eq_iff, String, ◌≡◌, ◌∙◌, ap, Bool-cases, inl, inr, none, some,
  str_eq, arith, Option-cases,
}
use fast_task.Jobs.Model.{Cause, Failure, Result, ok, err, not_found}
use fast_task.Jobs.Steps.{ok_eq, Result-cases}
use fast_task.Progress.Live.{task_executable}
use fast_task.Plans.Model.{DailyPlan, DailyPlanItem}
use fast_task.Progress.Model.{Db}
use fast_task.Progress.Items.{reopened_status}

-- The status that a reopened item gets: in a plan that has ended it was not completed; in an active one it is
-- planned again unless it has a task that cannot be worked on, or that is gone.
pub data ReopenedStatus (db : Db) (user : String) (item : DailyPlanItem) (plan : DailyPlan)
    : String → Type 0 where
  ended : plan.status ≢ "active" → ReopenedStatus db user item plan "not_completed"
  free : plan.status ≡ "active" → item.task_id ≡ none → ReopenedStatus db user item plan "planned"
  workable :
      (id : String)
      → plan.status ≡ "active"
      → item.task_id ≡ some id
      → task_executable db user id ≡ ok true
      → ReopenedStatus db user item plan "planned"
  unworkable :
      (id : String)
      → plan.status ≡ "active"
      → item.task_id ≡ some id
      → task_executable db user id ≡ ok false
      → ReopenedStatus db user item plan "skipped"
  gone :
      (id : String) (e : Failure)
      → plan.status ≡ "active"
      → item.task_id ≡ some id
      → task_executable db user id ≡ err e
      → e.cause ≡ not_found
      → ReopenedStatus db user item plan "skipped"

cause_status :
    (db : Db) (user : String) (item : DailyPlanItem) (plan : DailyPlan) (id : String) (e : Failure)
    (c : Cause) {status : String}
    → plan.status ≡ "active"
    → item.task_id ≡ some id
    → task_executable db user id ≡ err e
    → e.cause ≡ c
    → ◌≡◌ {A = Result String} (elim c [ not_found ↦ ok "skipped" | _ ↦ err e ]) (ok status)
    → ReopenedStatus db user item plan status
cause_status db user item plan id e not_found a t x q h =
    subst (ReopenedStatus db user item plan) (ok_eq h) (gone id e a t x q)
cause_status db user item plan id e _ a t x q h = cc

pub reopened_status-ReopenedStatus :
    (db : Db) (user : String) (item : DailyPlanItem) (plan : DailyPlan) {status : String}
    → reopened_status db user item plan ≡ ok status
    → ReopenedStatus db user item plan status
unfolding reopened_status
reopened_status-ReopenedStatus db user item plan h =
    let to = ReopenedStatus db user item plan in
    elim (Bool-cases (str_eq plan.status "active")) [
      | inr n ↦
          subst to (ok_eq (rw (reopened_status, n) at h))
            (ended (λ q. absurd (ground (arith, n, (eq_iff plan.status "active").1 q))))
      | inl y ↦
          let a = (eq_iff plan.status "active").0 y in
          elim (Option-cases item.task_id) [
            | inl t ↦ subst to (ok_eq (rw (reopened_status, y, t) at h)) (free a t)
            | inr (id, t) ↦ elim (Result-cases (task_executable db user id)) [
              | inl (b, x) ↦ elim (Bool-cases b) [
                | inl u ↦
                    subst to (ok_eq (rw (reopened_status, y, t, x, u) at h))
                      (workable id a t (x ∙ ap ok u))
                | inr u ↦
                    subst to (ok_eq (rw (reopened_status, y, t, x, u) at h))
                      (unworkable id a t (x ∙ ap ok u))
              ]
              | inr (e, x) ↦
                  cause_status db user item plan id e e.cause a t x refl
                    (rw (reopened_status, y, t, x) at h)
            ]
          ]
    ]

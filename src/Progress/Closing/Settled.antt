-- ===== src/Progress/Closing/Settled.antt =====
-- What CloseDailyPlan leaves, and what completeTaskTx asks.
use fast_task.Base.{
  ℕ, String, Bool, true, false, not, ◌&&◌, ◌||◌, ◌≡◌, ◌≢◌, ◌⊎◌, refl, sym, ◌∙◌, ap, subst, arith,
  some, List, [], ◌∷◌, ℤ, str_eq, is_blank, any, ◌==◌, ==_iff, All, Bool-cases, inl, inr, eq_iff,
  if◌then◌else◌,
}
use fast_task.Jobs.Model.{
  ok, first, count, update, err_not_found, err_conflict, err_revision, err_validation,
}
use fast_task.Jobs.Steps.{ok_eq}
use fast_task.Jobs.Support.{eq_ℤ}
use fast_task.Plans.Model.{DailyPlan, DailyPlanItem}
use fast_task.Tasks.Model.{Task}
use fast_task.Errors.{>>=-eq-ok, guard->>-eq-ok, or_err, or_err-eq-ok}
use fast_task.Progress.Model.{Db, Env}
use fast_task.Progress.Live.{require_live_task, task_executable, is_plan_of}
use fast_task.Progress.Items.{err_record}
use fast_task.Progress.Completion.{require_executable}
use fast_task.Progress.Completion.Evidence.{require_executable-eq-ok}
use fast_task.Progress.Closing.{
  is_unsettled, settled_row, settle_items, is_plan_version, closed_row, write_plan,
  close_daily_plan, completion_target, complete_task_tx, Effects,
}

settled_items :
    (plan_id : String) (revision : ℤ) (now : ℕ) (items : List DailyPlanItem)
    → All
        (λ i. is_unsettled plan_id revision i ≡ false)
        (update (is_unsettled plan_id revision) (settled_row now) items)
settled_items plan_id revision now [] = tt
settled_items plan_id revision now (i ∷ is) =
    (head (Bool-cases (is_unsettled plan_id revision i)), settled_items plan_id revision now is)
  where
    head :
        (is_unsettled plan_id revision i ≡ true) ⊎ (is_unsettled plan_id revision i ≡ false)
        → is_unsettled plan_id revision
            (if is_unsettled plan_id revision i then settled_row now i else i)
          ≡ false
    head (inl e) =
        subst (λ b. is_unsettled plan_id revision (if b then settled_row now i else i) ≡ false)
          (sym e) (ground arith)
    head (inr e) =
        subst (λ b. is_unsettled plan_id revision (if b then settled_row now i else i) ≡ false)
          (sym e) e

write_plan-eq-ok :
    (id : String) (expected : ℤ) (f : DailyPlan → DailyPlan) (db : Db) {db' : Db}
    → write_plan id expected f db ≡ ok db'
    → (count (is_plan_version id expected) db.plans ≡ 1)
      × (db' ≡ record db { plans = update (is_plan_version id expected) f db.plans })
unfolding write_plan
write_plan-eq-ok id expected f db h =
    elim (Bool-cases (count (is_plan_version id expected) db.plans == 1)) [
      | inr e ↦ absurd (let h' = rw (write_plan, e) at h in cc)
      | inl e ↦ ((==_iff _ _).0 e, sym (ok_eq (rw (write_plan, e) at h)))
    ]

-- A plan is closed only by its user and at the expected revision, which the next one follows; then none of
-- the items of its current revision is planned or in progress, and the sessions and events stay.
pub close_daily_plan-IsSettled :
    (env : Env) (user_id plan_id : String) (expected : ℤ) (db db' : Db) (final : DailyPlan)
    → close_daily_plan env user_id plan_id expected "closed" db ≡ ok (db', final)
    → (plan : DailyPlan) × (first (is_plan_of user_id plan_id) db.plans ≡ some plan)
      × (eq_ℤ plan.revision expected ≡ true)
      × All (λ i. is_unsettled plan.id plan.current_revision i ≡ false) db'.items
      × (db'.plans
          ≡ update
              (is_plan_version plan.id expected)
              (closed_row "closed" expected env.now)
              db.plans)
      × (db'.sessions ≡ db.sessions)
      × (db'.events ≡ db.events)
unfolding close_daily_plan settle_items
close_daily_plan-IsSettled env user_id plan_id expected db db' final h =
    let (plan, f, h1) =
      >>=-eq-ok (or_err (first (is_plan_of user_id plan_id) db.plans) err_not_found) _ h in
    let (r, h2) = guard->>-eq-ok (eq_ℤ plan.revision expected) err_revision _ h1 in
    let (s, h3) =
      guard->>-eq-ok (any (str_eq "closed") ("active" ∷ "closed" ∷ "cancelled" ∷ [])) err_validation
        _ h2 in
    let (written, w, h4) =
      >>=-eq-ok
        (write_plan plan.id expected (closed_row "closed" expected env.now)
          (settle_items "closed" plan env.now db))
        _ h3 in
    let (last, g, h5) =
      >>=-eq-ok (or_err (first (is_plan_of user_id plan.id) written.plans) err_record) _ h4 in
    let (one, e) = write_plan-eq-ok _ _ _ (settle_items "closed" plan env.now db) w in
    let k = ap {A = Db × DailyPlan} (λ p. p.0) (sym (ok_eq h5)) ∙ e in
    (
      plan,
      or_err-eq-ok _ _ f,
      r,
      subst (λ d. All (λ i. is_unsettled plan.id plan.current_revision i ≡ false) d.items) (sym k)
          (settled_items plan.id plan.current_revision env.now db.items),
      ap (λ d. d.plans) k,
      ap (λ d. d.sessions) k,
      ap (λ d. d.events) k,
    )

earned :
    (db : Db) (user_id : String) (task : Task) (kind summary : String) (reopen : Bool)
    {target : String × String}
    → completion_target db user_id task kind summary reopen ≡ ok target
    → ((reopen ≡ true) × (task.status ≡ "completed"))
      ⊎ ((reopen ≡ false)
          × (is_blank summary ≡ false)
          × (task.success_criteria ≢ "")
          × ((kind ≡ "result") ⊎ (kind ≡ "step"))
          × (task.status ≢ "completed")
          × (task.status ≢ "cancelled")
          × (task.status ≢ "superseded")
          × (task_executable db user_id task.id ≡ ok true))
unfolding completion_target
earned db user_id task kind summary true h =
    let (s, h1) = guard->>-eq-ok (str_eq task.status "completed") err_conflict _ h in
    inl (refl, (eq_iff task.status "completed").0 s)
earned db user_id task kind summary false h =
    let (v, h1) =
      guard->>-eq-ok
        (not (
          is_blank summary
          || str_eq task.success_criteria ""
          || not (str_eq kind "result") && not (str_eq kind "step")))
        err_validation _ h in
    let (s, h2) =
      guard->>-eq-ok
        (not (any (str_eq task.status) ("completed" ∷ "cancelled" ∷ "superseded" ∷ [])))
        err_conflict _ h1 in
    let (u, x, h3) = >>=-eq-ok (require_executable db user_id (some task.id)) _ h2 in
    inr (
      refl,
      ground (arith, v),
      (λ e. ground (arith, v, (eq_iff task.success_criteria "").1 e)),
      ground (arith, v, eq_iff kind "result", eq_iff kind "step"),
      (λ e. ground (arith, s, (eq_iff task.status "completed").1 e)),
      (λ e. ground (arith, s, (eq_iff task.status "cancelled").1 e)),
      (λ e. ground (arith, s, (eq_iff task.status "superseded").1 e)),
      require_executable-eq-ok db user_id (some task.id) x task.id refl,
    )

-- A task is completed only if it is live, at the expected revision, open, executable, has criteria of
-- success and a summary, and by a result or a step; and only a completed task is reopened.
pub complete_task_tx-IsEarned :
    (effects : Effects) (env : Env) (user_id id : String) (expected : ℤ) (kind summary : String)
    (reopen : Bool) (evidence_json : String) (db db' : Db)
    → complete_task_tx effects env user_id id expected kind summary reopen evidence_json db ≡ ok db'
    → (task : Task) × (require_live_task db user_id id ≡ ok task)
      × (eq_ℤ task.revision expected ≡ true)
      × (((reopen ≡ true) × (task.status ≡ "completed"))
          ⊎ ((reopen ≡ false)
              × (is_blank summary ≡ false)
              × (task.success_criteria ≢ "")
              × ((kind ≡ "result") ⊎ (kind ≡ "step"))
              × (task.status ≢ "completed")
              × (task.status ≢ "cancelled")
              × (task.status ≢ "superseded")
              × (task_executable db user_id task.id ≡ ok true)))
unfolding complete_task_tx
complete_task_tx-IsEarned effects env user_id id expected kind summary reopen evidence_json db db'
      h =
    let (task, t, h1) = >>=-eq-ok (require_live_task db user_id id) _ h in
    let (r, h2) = guard->>-eq-ok (eq_ℤ task.revision expected) err_revision _ h1 in
    let (target, c, h3) = >>=-eq-ok (completion_target db user_id task kind summary reopen) _ h2 in
    (task, t, r, earned db user_id task kind summary reopen c)

-- ===== src/Progress/Items/Corrections.antt =====
-- ReopenPlanItem corrects a completed item and keeps its history.
use fast_task.Base.{String, true, not, ◌≡◌, ap, some, str_eq, subst, is_blank, ℤ, eq_iff}
use fast_task.Jobs.Model.{ok, first, err_not_found, err_revision, err_validation, err_conflict}
use fast_task.Jobs.Support.{eq_ℤ}
use fast_task.Jobs.Steps.{ok_eq}
use fast_task.Plans.Model.{DailyPlanItem}
use fast_task.Errors.{>>=-eq-ok, guard->>-eq-ok, or_err-eq-ok, or_err}
use fast_task.Progress.Model.{Db, Env}
use fast_task.Progress.Live.{actionable_plan_item}
use fast_task.Progress.Items.{is_item, reopen_plan_item, reopen_plan_item_tx, err_record}
use fast_task.Progress.Items.Writes.{Reopened, reopen_plan_item_tx-Reopened}

-- An item is reopened only if it was satisfied, at the revision that the caller expects, in a plan that may
-- be acted on; it then has no completion, the next revision, and the status that its plan and task allow;
-- the log gains the reversal of its last completion, and the sessions stay.
pub reopen_plan_item-Reopened :
    (env : Env) (user_id plan_id item_id : String) (expected : ℤ) (summary : String) (db db' : Db)
    (final : DailyPlanItem)
    → reopen_plan_item env user_id plan_id item_id expected summary db ≡ ok (db', final)
    → (item : DailyPlanItem) × (first (is_item user_id plan_id item_id) db.items ≡ some item)
      × (item.status ≡ "satisfied")
      × (eq_ℤ item.revision expected ≡ true)
      × (actionable_plan_item env db user_id item ≡ ok tt)
      × Reopened env user_id item summary db db'
unfolding reopen_plan_item
reopen_plan_item-Reopened env user_id plan_id item_id expected summary db db' final h =
    let (b, h1) = guard->>-eq-ok (not (is_blank summary)) err_validation _ h in
    let (item, f, h2) =
      >>=-eq-ok (or_err (first (is_item user_id plan_id item_id) db.items) err_not_found) _ h1 in
    let (r, h3) = guard->>-eq-ok (eq_ℤ item.revision expected) err_revision _ h2 in
    let (u, a, h4) = >>=-eq-ok (actionable_plan_item env db user_id item) _ h3 in
    let (s, h5) = guard->>-eq-ok (str_eq item.status "satisfied") err_conflict _ h4 in
    let (db2, w, h6) = >>=-eq-ok (reopen_plan_item_tx env user_id item summary db) _ h5 in
    let (last, g, h7) =
      >>=-eq-ok (or_err (first (is_item user_id plan_id item_id) db2.items) err_record) _ h6 in
    let e : db2 ≡ db' = ap {A = Db × DailyPlanItem} (λ p. p.0) (ok_eq h7) in
    (
      item,
      or_err-eq-ok _ _ f,
      (eq_iff item.status "satisfied").0 s,
      r,
      a,
      subst (Reopened env user_id item summary db) e
          (reopen_plan_item_tx-Reopened env user_id item summary db w),
    )

-- ===== src/Progress/Completion/Evidence.antt =====
-- What CompletePlanItemWithTask asks before it completes an item.
use fast_task.Base.{
  ℕ, ◌*◌, ◌≤◌, ◌&&◌, ◌||◌, String, Bool, true, false, not, ◌≡◌, ◌↔◌, In, ◌≢◌, ◌⊎◌, sym, ◌∙◌, ap,
  Bool-cases, inl, inr, Option, none, some, List, [], str_eq, arith, subst, is_blank, ℤ, pos_part,
  eq_iff, length, all, ltb, leb, keep, ◌==◌, ==_iff, some_eq,
}
use fast_task.Domain.Rules.{validate_completion_type}
use fast_task.Jobs.Model.{
  Result, ok, first, err_not_found, err_revision, err_validation, err_conflict,
}
use fast_task.Jobs.Support.{eq_ℤ}
use fast_task.Jobs.Steps.{ok_eq}
use fast_task.Plans.Model.{DailyPlanItem}
use fast_task.Tasks.Model.{Task}
use fast_task.Errors.{>>=-eq-ok, guard->>-eq-ok, or_err-eq-ok, or_err, guard-eq-ok}
use fast_task.Progress.Model.{Db, Env}
use fast_task.Progress.Live.{actionable_plan_item, task_executable}
use fast_task.Progress.Items.{
  completion_sessions, item_sessions, unique_ids, is_cited, total_seconds, is_short,
}
use fast_task.Progress.Items.Cited.{IsStrict, unique_ids-IsSet}
use fast_task.Progress.Completion.{
  PlanItemCompletionCommand, counted_sessions, cited_sessions, require_executable, entire_task,
  check_completion, complete_plan_item_with_task,
}

-- Each cited session is one of the item's that ended, and together they reach the target.
pub record Counted (db : Db) (user_id : String) (item : DailyPlanItem) (cited ids : List String)
    : Type 0 where
  pub once : IsStrict ids
  pub same : (id : String) → In id ids ↔ In id cited
  pub found : length (keep (is_cited ids) (item_sessions db user_id item)) ≡ length ids
  pub enough :
      pos_part item.target_minutes * 60
      ≤ total_seconds (keep (is_cited ids) (item_sessions db user_id item))

counted_sessions-Counted :
    (db : Db) (user_id : String) (item : DailyPlanItem) (cited : List String) {ids : List String}
    → counted_sessions db user_id item cited ≡ ok ids
    → Counted db user_id item cited ids
unfolding counted_sessions completion_sessions
counted_sessions-Counted db user_id item cited h =
    let (c, k, h1) = >>=-eq-ok (completion_sessions db user_id item cited) _ h in
    let (g, h2) = guard->>-eq-ok (not (is_short c.1 item)) err_validation _ h1 in
    let (b, k1) = guard->>-eq-ok (all (λ id. not (is_blank id)) cited) err_validation _ k in
    let us = unique_ids cited in
    let (l, k2) = guard->>-eq-ok (ltb 0 (length us) && leb (length us) 1000) err_validation _ k1 in
    let sessions = keep (is_cited us) (item_sessions db user_id item) in
    let (n, k3) = guard->>-eq-ok (length sessions == length us) err_validation _ k2 in
    let p = ok_eq k3 in
    let t : pos_part item.target_minutes * 60 ≤ c.1 = ground (arith, g) in
    subst (Counted db user_id item cited) (ap {A = List String × ℕ} (λ x. x.0) p ∙ ok_eq h2)
      (record {
        once = (unique_ids-IsSet cited).0;
        same = (unique_ids-IsSet cited).1;
        found = (==_iff _ _).0 n;
        enough =
            subst (λ x. pos_part item.target_minutes * 60 ≤ x)
              (sym (ap {A = List String × ℕ} (λ x. x.1) p)) t;
      })

pub record Checked (db : Db) (user_id : String) (command : PlanItemCompletionCommand)
    (item : DailyPlanItem) (ids : List String) (task : Option Task) : Type 0 where
  pub open_item : (item.status ≡ "planned") ⊎ (item.status ≡ "in_progress")
  pub executable : (id : String) → item.task_id ≡ some id → task_executable db user_id id ≡ ok true
  pub allowed : validate_completion_type command.kind item.allowed_types ≡ true
  pub summary : is_blank command.summary ≡ false
  pub time : command.kind ≡ "time" → Counted db user_id item command.work_session_ids ids
  pub other : command.kind ≢ "time" → ids ≡ []

pub require_executable-eq-ok :
    (db : Db) (user_id : String) (o : Option String) {u : Unit {0}}
    → require_executable db user_id o ≡ ok u
    → (id : String) → o ≡ some id
    → task_executable db user_id id ≡ ok true
require_executable-eq-ok db user_id none h id e = absurd cc
require_executable-eq-ok db user_id (some x) h id e =
    let (b, k, h1) = >>=-eq-ok (task_executable db user_id x) _ h in
    subst (λ y. task_executable db user_id y ≡ ok true) (some_eq e)
      (k ∙ ap ok (guard-eq-ok b err_conflict h1))

abbrev pub is_item_of : String → String → DailyPlanItem → Bool
is_item_of user_id id i = str_eq i.id id && str_eq i.user_id user_id

check_completion-Checked :
    (env : Env) (user_id : String) (command : PlanItemCompletionCommand) (item : DailyPlanItem)
    (db : Db) {ids : List String} {task : Option Task}
    → check_completion env user_id command item db ≡ ok (ids, task)
    → Checked db user_id command item ids task
unfolding check_completion cited_sessions
check_completion-Checked env user_id command item db h =
    let (o, h1) =
      guard->>-eq-ok (str_eq item.status "planned" || str_eq item.status "in_progress") err_conflict
        _ h in
    let (u, x, h2) = >>=-eq-ok (require_executable db user_id item.task_id) _ h1 in
    let (v, h3) =
      guard->>-eq-ok (validate_completion_type command.kind item.allowed_types) err_validation _
        h2 in
    let (got, c, h4) =
      >>=-eq-ok (cited_sessions db user_id item command.kind command.work_session_ids) _ h3 in
    let (s, h5) = guard->>-eq-ok (not (is_blank command.summary)) err_validation _ h4 in
    let (t, w, h6) = >>=-eq-ok (entire_task db user_id item.task_id command) _ h5 in
    let e = ap {A = List String × Option Task} (λ p. p.0) (ok_eq h6) in
    record {
      open_item = ground (arith, o, eq_iff item.status "planned", eq_iff item.status "in_progress");
      executable = require_executable-eq-ok db user_id item.task_id x;
      allowed = v;
      summary = ground (arith, s);
      time = λ k. subst (Counted db user_id item command.work_session_ids) e (
          counted_sessions-Counted db user_id item command.work_session_ids
            (rw ((eq_iff command.kind "time").1 k) at c));
      other = λ k. elim (Bool-cases (str_eq command.kind "time")) [
        | inl y ↦ absurd (k ((eq_iff command.kind "time").0 y))
        | inr n ↦ sym e ∙ sym (ok_eq (rw n at c))
      ];
    }

-- An item is completed only at the revision that the caller expects and in a plan that may be acted on.
-- Either it was satisfied before, and nothing changes; or it was open, its task may be worked on, its type
-- of completion is allowed, there is a summary, and a completion by time cites sessions of this item, each
-- counted once, that together reach the target.
pub complete_plan_item_with_task-Checked :
    (complete_task : String → Task → ℤ → String → String → Db → Result Db) (env : Env)
    (user_id : String) (command : PlanItemCompletionCommand) (db db' : Db) (final : DailyPlanItem)
    → complete_plan_item_with_task complete_task env user_id command db ≡ ok (db', final)
    → (item : DailyPlanItem) × (first (is_item_of user_id command.item_id) db.items ≡ some item)
      × (eq_ℤ item.revision command.expected ≡ true)
      × (actionable_plan_item env db user_id item ≡ ok tt)
      × (((item.status ≡ "satisfied") × (db' ≡ db))
          ⊎ ((ids : List String) × (task : Option Task) × Checked db user_id command item ids task))
unfolding complete_plan_item_with_task
complete_plan_item_with_task-Checked complete_task env user_id command db db' final h =
    let (item, f, h1) =
      >>=-eq-ok (or_err (first (is_item_of user_id command.item_id) db.items) err_not_found) _ h in
    let (r, h2) = guard->>-eq-ok (eq_ℤ item.revision command.expected) err_revision _ h1 in
    let (p, h3) =
      guard->>-eq-ok (str_eq command.plan_id "" || str_eq item.plan_id command.plan_id)
        err_not_found _ h2 in
    let (u, a, h4) = >>=-eq-ok (actionable_plan_item env db user_id item) _ h3 in
    (
      item,
      or_err-eq-ok _ _ f,
      r,
      a,
      elim (Bool-cases (str_eq item.status "satisfied")) [
        | inl s ↦ elim (Bool-cases command.complete_task) [
          | inl c ↦ absurd (let h' = rw (s, c) at h4 in cc)
          | inr c ↦ inl (
            (eq_iff item.status "satisfied").0 s,
            ap {A = Db × DailyPlanItem} (λ x. x.0) (sym (ok_eq (rw (s, c) at h4))),
          )
        ]
        | inr s ↦
            let h5 = rw s at h4 in
            let (c, k, h6) = >>=-eq-ok (check_completion env user_id command item db) _ h5 in
            inr (c.0, c.1, check_completion-Checked env user_id command item db k)
      ],
    )

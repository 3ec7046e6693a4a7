-- ===== src/Progress/Items.antt =====
-- The completion of a day's items and its correction: internal/application/planprogress.go, and
-- satisfyItemTx of app.go. A join on the primary key of items is a test on the rows that it meets.
pub mod History
pub mod Statuses
pub mod Writes
pub mod Cited
pub mod Corrections
use fast_task.Base.{
  ℕ, zero, suc, ◌+◌, ◌*◌, String, Bool, true, false, not, ◌&&◌, ◌||◌, Option, none, some, List, [],
  ◌∷◌, if◌then◌else◌, str_eq, str_lt, any, all, keep, length, is_none, is_blank, trim_space, ltb,
  leb, ◌==◌, ℤ, pos, pos_part, negsuc,
}
use fast_task.Jobs.Model.{
  Failure, Result, ok, err, first, count, update, err_not_found, err_conflict, err_revision,
  err_validation, internal, not_found,
}
use fast_task.Jobs.Support.{eq_ℤ}
use fast_task.Plans.Model.{DailyPlan, DailyPlanItem}
use fast_task.Plans.Budget.{logical_item_id}
use fast_task.Errors.{◌>>=◌, ◌>>◌, guard, or_err}
use fast_task.Progress.Model.{
  Db, Env, WorkSession, ProgressEvent, PlanItemEvidence, create_event, create_outbox,
}
use fast_task.Progress.Live.{task_executable, actionable_plan_item}

abbrev pub err_record : Failure
err_record = record { cause = internal; text = "record not found" }

abbrev pub next_revision : ℤ → ℤ
next_revision (pos n) = pos (suc n)
next_revision (negsuc zero) = pos 0
next_revision (negsuc (suc n)) = negsuc n

unfoldable pub touch_plan : String → ℕ → Db → Db
touch_plan plan_id now db = record db {
  plans =
      update (λ p. str_eq p.id plan_id)
        (λ p. record p { revision = next_revision p.revision; updated_at = now }) db.plans;
}

-- The rows of one commitment share its logical ID.
abbrev pub is_same_commitment : DailyPlanItem → DailyPlanItem → Bool
is_same_commitment item dpi =
    str_eq dpi.plan_id item.plan_id && str_eq (logical_item_id dpi) (logical_item_id item)

abbrev pub names_id : Option String → String → Bool
names_id none id = false
names_id (some x) id = str_eq x id

abbrev pub is_item_session : Db → String → DailyPlanItem → WorkSession → Bool
is_item_session db user_id item ws =
    str_eq ws.user_id user_id
    && any
        (λ dpi.
          names_id ws.daily_plan_item_id dpi.id
          && str_eq dpi.user_id user_id
          && is_same_commitment item dpi)
        db.items
    && (str_eq ws.status "completed" || str_eq ws.status "stopped")

unfoldable pub item_sessions : Db → String → DailyPlanItem → List WorkSession
item_sessions db user_id item = keep (is_item_session db user_id item) db.sessions

-- The set of the IDs as a sorted list.
abbrev pub insert_id : String → List String → List String
insert_id id [] = id ∷ []
insert_id id (x ∷ xs) =
    let rest = insert_id id xs in
    if str_eq id x then x ∷ xs else if str_lt id x then id ∷ x ∷ xs else x ∷ rest

unfoldable pub unique_ids : List String → List String
unique_ids [] = []
unique_ids (id ∷ ids) = insert_id id (unique_ids ids)

abbrev pub total_seconds : List WorkSession → ℕ
total_seconds [] = 0
total_seconds (ws ∷ rest) = ws.duration_seconds + total_seconds rest

abbrev pub is_cited : List String → WorkSession → Bool
is_cited ids ws = any (λ id. str_eq id ws.id) ids

unfoldable pub completion_sessions :
    Db → String → DailyPlanItem → List String → Result (List String × ℕ)
unfolding item_sessions unique_ids
completion_sessions db user_id item cited = do
  guard (all (λ id. not (is_blank id)) cited) err_validation
  let ids = unique_ids cited
  guard (ltb 0 (length ids) && leb (length ids) 1000) err_validation
  let sessions = keep (is_cited ids) (item_sessions db user_id item)
  guard (length sessions == length ids) err_validation
  ok (ids, total_seconds sessions)

abbrev pub is_completion : Db → String → DailyPlanItem → ProgressEvent → Bool
is_completion db user_id item pe =
    str_eq pe.user_id user_id
    && any (λ dpi. names_id pe.plan_item_id dpi.id && is_same_commitment item dpi) db.items
    && any (str_eq pe.kind) ("result" ∷ "step" ∷ "time" ∷ "minimum_action" ∷ [])

-- "pe.created_at DESC, pe.id DESC".
abbrev pub is_later : ProgressEvent → ProgressEvent → Bool
is_later a b = ltb b.created_at a.created_at || a.created_at == b.created_at && str_lt b.id a.id

unfoldable pub latest : List ProgressEvent → Option ProgressEvent
latest [] = none
latest (pe ∷ rest) = elim (latest rest) [
  | none ↦ some pe
  | some best ↦ some (if is_later best pe then best else pe)
]

unfoldable pub last_item_completion : Db → String → DailyPlanItem → Option ProgressEvent
unfolding latest
last_item_completion db user_id item = latest (keep (is_completion db user_id item) db.events)

-- The status of a reopened item.
unfoldable pub reopened_status : Db → String → DailyPlanItem → DailyPlan → Result String
reopened_status db user_id item plan =
    if not (str_eq plan.status "active") then ok "not_completed" else elim item.task_id [
      | none ↦ ok "planned"
      | some id ↦ elim (task_executable db user_id id) [
        | ok true ↦ ok "planned"
        | ok false ↦ ok "skipped"
        | err e ↦ elim e.cause [ not_found ↦ ok "skipped" | _ ↦ err e ]
      ]
    ]

abbrev pub is_version : String → ℤ → DailyPlanItem → Bool
is_version id expected item = str_eq item.id id && eq_ℤ item.revision expected

-- UPDATE ... WHERE id = ? AND revision = ?, which must reach one row.
unfoldable pub write_item : String → ℤ → (DailyPlanItem → DailyPlanItem) → Db → Result Db
write_item id expected f db =
    if count (is_version id expected) db.items == 1
    then ok (record db { items = update (is_version id expected) f db.items })
    else err err_revision

abbrev pub reopened_row : String → ℤ → ℕ → DailyPlanItem → DailyPlanItem
reopened_row status revision now item = record item {
  status = status;
  completion_type = "";
  completion_summary = "";
  revision = next_revision revision;
  updated_at = now;
}

abbrev pub reversed_id : Option ProgressEvent → String
reversed_id none = ""
reversed_id (some event) = event.id

unfoldable pub reversal : Env → Db → String → DailyPlanItem → String → ProgressEvent
unfolding last_item_completion
reversal env db user_id item summary = record {
  id = env.progress_id;
  user_id = user_id;
  kind = "daily_item_reopened";
  summary = trim_space summary;
  evidence_json = env.evidence_text (record {
    logical_id = logical_item_id item;
    work_session_ids = [];
    reverses_event_id = reversed_id (last_item_completion db user_id item);
  });
  goal_id = none;
  task_id = item.task_id;
  plan_item_id = some item.id;
  occurred_at = env.now;
  created_at = env.now;
}

unfoldable pub reopen_plan_item_tx : Env → String → DailyPlanItem → String → Db → Result Db
unfolding reopened_status write_item reversal touch_plan create_event create_outbox
reopen_plan_item_tx env user_id item summary db = do
  plan ← or_err (first (λ p. str_eq p.id item.plan_id) db.plans) err_record
  status ← reopened_status db user_id item plan
  written ← write_item item.id item.revision (reopened_row status item.revision env.now) db
  recorded ← create_event (reversal env db user_id item summary) written
  create_outbox env user_id "daily_item.reopened"
      (("item_id", item.id) ∷ ("logical_id", logical_item_id item) ∷ [])
      (touch_plan item.plan_id env.now recorded)

abbrev pub is_item : String → String → String → DailyPlanItem → Bool
is_item user_id plan_id id item =
    str_eq item.id id && str_eq item.plan_id plan_id && str_eq item.user_id user_id

unfoldable pub reopen_plan_item :
    Env → String → String → String → ℤ → String → Db → Result (Db × DailyPlanItem)
unfolding actionable_plan_item reopen_plan_item_tx
reopen_plan_item env user_id plan_id item_id expected summary db = do
  guard (not (is_blank summary)) err_validation
  item ← or_err (first (is_item user_id plan_id item_id) db.items) err_not_found
  guard (eq_ℤ item.revision expected) err_revision
  actionable_plan_item env db user_id item
  guard (str_eq item.status "satisfied") err_conflict
  db' ← reopen_plan_item_tx env user_id item summary db
  final ← or_err (first (is_item user_id plan_id item_id) db'.items) err_record
  ok (db', final)

-- The satisfied row of the commitment in the plan's current revision.
abbrev pub is_current : Db → String → DailyPlanItem → DailyPlanItem → Bool
is_current db user_id original dpi =
    str_eq dpi.user_id user_id
    && is_same_commitment original dpi
    && any (λ dp. str_eq dp.id dpi.plan_id && eq_ℤ dpi.plan_revision dp.current_revision) db.plans
    && str_eq dpi.status "satisfied"
    && str_eq dpi.completion_type "time"

-- The IDs that the last completion cites; old records cite none.
abbrev pub cited_ids : Env → Option ProgressEvent → List String
cited_ids env none = []
cited_ids env (some event) = (env.read_evidence event.evidence_json).work_session_ids

abbrev pub counts_for : List String → WorkSession → Bool
counts_for [] ws = true
counts_for (id ∷ ids) ws = is_cited (id ∷ ids) ws

unfoldable pub remaining_seconds : Env → Db → String → DailyPlanItem → ℕ
unfolding item_sessions last_item_completion
remaining_seconds env db user_id current = total_seconds (
    keep (counts_for (cited_ids env (last_item_completion db user_id current)))
      (item_sessions db user_id current))

-- A target that is not positive is met by any total.
abbrev pub is_short : ℕ → DailyPlanItem → Bool
is_short total item = ltb total (pos_part item.target_minutes * 60)

unfoldable pub invalidate_session_completion : Env → String → Option String → Db → Result Db
unfolding remaining_seconds reopen_plan_item_tx
invalidate_session_completion env user_id none db = ok db
invalidate_session_completion env user_id (some item_id) db = do
  original ←
      or_err (first (λ i. str_eq i.id item_id && str_eq i.user_id user_id) db.items) err_record
  elim (first (is_current db user_id original) db.items) [
    | none ↦ ok db
    | some current ↦
        if is_short (remaining_seconds env db user_id current) current
        then reopen_plan_item_tx env user_id current "专注记录已作废，有效时长不足，撤销当日完成" db
        else ok db
  ]

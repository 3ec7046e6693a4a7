-- ===== src/Progress/Items/Writes.antt =====
-- What the writes of internal/application/planprogress.go leave: each changes one table, and a reopened
-- item has its reversal beside it.
use fast_task.Base.{
  refl, trim_space, String, ◌≡◌, ◌⊎◌, sym, ◌∙◌, ap, any, Bool-cases, inl, inr, Option, none, some,
  ◌&&◌, ◌==◌, ==_iff, ℤ, List, [], ◌∷◌, ◌++◌, str_eq, arith, Option-cases,
}
use fast_task.Jobs.Model.{ok, count, first, update}
use fast_task.Jobs.Support.{eq_ℤ}
use fast_task.Jobs.Steps.{ok_eq}
use fast_task.Plans.Budget.{logical_item_id}
use fast_task.Progress.Items.History.{
  LogicalId, Reverses, logical_item_id-LogicalId, last_item_completion-Reverses,
}
use fast_task.Plans.Model.{DailyPlan, DailyPlanItem}
use fast_task.Errors.{>>=-eq-ok, or_err, or_err-eq-ok}
use fast_task.Progress.Model.{Db, Env, ProgressEvent, OutboxEvent, create_event, create_outbox}
use fast_task.Progress.Items.{
  next_revision, reversed_id, last_item_completion, is_version, write_item, touch_plan,
  reopened_status, reversal, reopen_plan_item_tx, invalidate_session_completion, is_current,
  is_short, remaining_seconds, err_record,
}
use fast_task.Progress.Items.Statuses.{ReopenedStatus, reopened_status-ReopenedStatus}

pub create_event-eq-ok :
    (event : ProgressEvent) (db : Db) {db' : Db}
    → create_event event db ≡ ok db'
    → db' ≡ record db { events = db.events ++ event ∷ [] }
unfolding create_event
create_event-eq-ok event db h = elim (Bool-cases (any (λ e. str_eq e.id event.id) db.events)) [
  | inl e ↦ absurd (let h' = rw e at h in cc)
  | inr e ↦ sym (ok_eq (rw e at h))
]

pub create_outbox-eq-ok :
    (env : Env) (user_id event_type : String) (payload : List (String × String)) (db : Db)
    {db' : Db}
    → create_outbox env user_id event_type payload db ≡ ok db'
    → (outbox : List OutboxEvent) × (db' ≡ record db { outbox = outbox })
unfolding create_outbox
create_outbox-eq-ok env user_id event_type payload db h =
    elim (Bool-cases (any (λ e. str_eq e.id env.event_id) db.outbox)) [
      | inl e ↦ absurd (let h' = rw e at h in cc)
      | inr e ↦ (_, sym (ok_eq (rw e at h)))
    ]

-- The write reaches one row, which has the expected revision.
pub write_item-eq-ok :
    (id : String) (expected : ℤ) (f : DailyPlanItem → DailyPlanItem) (db : Db) {db' : Db}
    → write_item id expected f db ≡ ok db'
    → (count (is_version id expected) db.items ≡ 1)
      × (db' ≡ record db { items = update (is_version id expected) f db.items })
unfolding write_item
write_item-eq-ok id expected f db h =
    elim (Bool-cases (count (is_version id expected) db.items == 1)) [
      | inr e ↦ absurd (let h' = rw e at h in cc)
      | inl e ↦ ((==_iff _ _).0 e, sym (ok_eq (rw e at h)))
    ]

-- What reopening leaves: the item has no completion, the next revision and a status that its task and its
-- plan allow, and the log ends with an event that reverses its last completion.
pub record Reopened (env : Env) (user_id : String) (item : DailyPlanItem) (summary : String)
    (db db' : Db) : Type 0 where
  pub plan : DailyPlan
  pub status : String
  pub event : ProgressEvent
  pub reversed : String
  pub logical : String
  pub found : first (λ p. str_eq p.id item.plan_id) db.plans ≡ some plan
  pub allowed : ReopenedStatus db user_id item plan status
  pub one : count (λ r. str_eq r.id item.id && eq_ℤ r.revision item.revision) db.items ≡ 1
  pub items :
      db'.items
      ≡ update
          (λ r. str_eq r.id item.id && eq_ℤ r.revision item.revision)
          (λ r. record r {
            status = status;
            completion_type = "";
            completion_summary = "";
            revision = next_revision item.revision;
            updated_at = env.now;
          })
          db.items
  pub events : db'.events ≡ db.events ++ event ∷ []
  pub event_owner : event.user_id ≡ user_id
  pub event_kind : event.kind ≡ "daily_item_reopened"
  pub event_task : event.task_id ≡ item.task_id
  pub event_item : event.plan_item_id ≡ some item.id
  pub event_summary : event.summary ≡ trim_space summary
  pub event_evidence :
      event.evidence_json
      ≡ env.evidence_text
          (record { logical_id = logical; work_session_ids = []; reverses_event_id = reversed })
  pub event_commitment : LogicalId item logical
  pub reverses : Reverses db user_id item reversed
  pub sessions : db'.sessions ≡ db.sessions

pub reopen_plan_item_tx-Reopened :
    (env : Env) (user_id : String) (item : DailyPlanItem) (summary : String) (db : Db) {db' : Db}
    → reopen_plan_item_tx env user_id item summary db ≡ ok db'
    → Reopened env user_id item summary db db'
unfolding reopen_plan_item_tx touch_plan reversal
reopen_plan_item_tx-Reopened env user_id item summary db h =
    let (plan, f, h1) = >>=-eq-ok _ _ h in
    let (status, a, h2) = >>=-eq-ok _ _ h1 in
    let (written, w, h3) = >>=-eq-ok _ _ h2 in
    let (recorded, r, h4) = >>=-eq-ok _ _ h3 in
    let (one, w') = write_item-eq-ok _ _ _ db w in
    let r' = create_event-eq-ok _ written r in
    let (outbox, o) = create_outbox-eq-ok env _ _ _ _ h4 in
    record {
      plan = plan;
      status = status;
      event = reversal env db user_id item summary;
      reversed = reversed_id (last_item_completion db user_id item);
      logical = logical_item_id item;
      found = or_err-eq-ok _ _ f;
      allowed = reopened_status-ReopenedStatus db user_id item plan a;
      one = one;
      items = ap (λ d. d.items) o ∙ (ap (λ d. d.items) r' ∙ ap (λ d. d.items) w');
      events =
          ap (λ d. d.events) o
          ∙ (ap (λ d. d.events) r'
              ∙ ap (λ d. d.events ++ reversal env db user_id item summary ∷ []) w');
      event_owner = refl;
      event_kind = refl;
      event_task = refl;
      event_item = refl;
      event_summary = refl;
      event_evidence = refl;
      event_commitment = logical_item_id-LogicalId item;
      reverses = last_item_completion-Reverses db user_id item;
      sessions = ap (λ d. d.sessions) o ∙ (ap (λ d. d.sessions) r' ∙ ap (λ d. d.sessions) w');
    }

-- The three statuses of a reopened item.
pub reopened_status-cases :
    (db : Db) (user_id : String) (item : DailyPlanItem) (plan : DailyPlan) {status : String}
    → reopened_status db user_id item plan ≡ ok status
    → (status ≡ "not_completed") ⊎ ((status ≡ "planned") ⊎ (status ≡ "skipped"))
unfolding reopened_status
reopened_status-cases db user_id item plan h = ground arith

pub invalidate_session_completion-sessions :
    (env : Env) (user_id : String) (o : Option String) (db db' : Db)
    → invalidate_session_completion env user_id o db ≡ ok db'
    → db'.sessions ≡ db.sessions
unfolding invalidate_session_completion
invalidate_session_completion-sessions env user_id none db db' h =
    ap {A = Db} (λ d. d.sessions) (sym (ok_eq h))
invalidate_session_completion-sessions env user_id (some id) db db' h =
    let (original, f, h1) =
      >>=-eq-ok
        (or_err (first (λ i. str_eq i.id id && str_eq i.user_id user_id) db.items) err_record) _
        h in
    elim (Option-cases (first (is_current db user_id original) db.items)) [
      | inl e ↦ ap {A = Db} (λ d. d.sessions) (sym (ok_eq (rw e at h1)))
      | inr (current, e) ↦
          elim (Bool-cases (is_short (remaining_seconds env db user_id current) current)) [
            | inl t ↦
                (reopen_plan_item_tx-Reopened env user_id current _ db (rw (e, t) at h1)).sessions
            | inr t ↦ ap {A = Db} (λ d. d.sessions) (sym (ok_eq (rw (e, t) at h1)))
          ]
    ]

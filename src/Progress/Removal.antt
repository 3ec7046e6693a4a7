-- ===== src/Progress/Removal.antt =====
-- internal/application/plandelete.go, and livePlanItemsTx of planning.go: the removal of items from today's plan.
pub mod Moves
pub mod Selected
pub mod Remains
mod Examples
use fast_task.Base.{
  subst, ℕ, zero, suc, String, Bool, true, false, not, ◌&&◌, ◌||◌, Option, none, some, List, [],
  ◌∷◌, ◌++◌, if◌then◌else◌, str_eq, str_lt, any, keep, length, map, ℤ, pos, ltb_ℤ, leb, ltb, ◌==◌,
  is_blank,
}
use fast_task.Jobs.Model.{
  Failure, Result, ok, err, first, count, update, err_not_found, err_conflict, err_revision,
  err_validation,
}
use fast_task.Jobs.Support.{eq_ℤ}
use fast_task.Plans.Model.{DailyPlan, DailyPlanItem}
use fast_task.Errors.{◌>>=◌, ◌>>◌, guard, or_err}
use fast_task.Progress.Model.{Db, Env, create_outbox, err_duplicate}
use fast_task.Progress.Live.{is_plan_of}
use fast_task.Progress.Items.{next_revision}

pub record PlanItemDeletion : Type 0 where
  pub id : String
  pub revision : ℤ

pub record DailyPlanRevision : Type 0 where
  pub id : String
  pub plan_id : String
  pub revision : ℤ
  pub input_snapshot : String
  pub input_hash : String
  pub plan_snapshot : String
  pub reason : String
  pub created_at : ℕ

pub record PlanItemDeletionResult : Type 0 where
  pub plan : DailyPlan
  pub items : List DailyPlanItem
  pub deleted_ids : List String

-- What the call takes from outside: resolveZone's name, the ID that it draws, the sources of the items
-- (scheduleItemSourcesTx), the encoders of encoding/json, and the digest.
pub record Tools : Type 0 where
  pub zone_name : String → String
  pub revision_id : String
  pub item_sources : Db → List DailyPlanItem → Result (List (String × String))
  pub input_text : ℤ → List String → List DailyPlanItem → List (String × String) → String
  pub items_text : List DailyPlanItem → String
  pub number_text : ℤ → String
  pub ids_text : List String → String
  pub hash : String → String

-- The two tables that the call writes besides the outbox.
abbrev pub Store : Type 0
Store = Db × List DailyPlanRevision

-- "kind, position, id".
abbrev pub is_listed_before : DailyPlanItem → DailyPlanItem → Bool
is_listed_before a b =
    str_lt a.kind b.kind
    || str_eq a.kind b.kind
      && (ltb_ℤ a.position b.position || eq_ℤ a.position b.position && str_lt a.id b.id)

abbrev pub insert_before : {A : Type 0} → (A → A → Bool) → A → List A → List A
insert_before before x [] = x ∷ []
insert_before before x (y ∷ ys) =
    let rest = insert_before before x ys in if before y x then y ∷ rest else x ∷ y ∷ ys

abbrev pub sorted : {A : Type 0} → (A → A → Bool) → List A → List A
sorted before [] = []
sorted before (x ∷ xs) = insert_before before x (sorted before xs)

abbrev pub is_live_item : DailyPlan → DailyPlanItem → Bool
is_live_item plan item =
    str_eq item.plan_id plan.id
    && eq_ℤ item.plan_revision plan.current_revision
    && not (str_eq item.status "superseded")

unfoldable pub live_plan_items : Db → DailyPlan → List DailyPlanItem
live_plan_items db plan = sorted is_listed_before (keep (is_live_item plan) db.items)

abbrev pub is_named : String → PlanItemDeletion → Bool
is_named id d = str_eq d.id id

-- The map of the requests, a list of its entries.
abbrev pub read_requests :
    List PlanItemDeletion → List PlanItemDeletion → Result (List PlanItemDeletion)
read_requests [] requested = ok requested
read_requests (d ∷ selected) requested =
    guard (not (is_blank d.id || ltb_ℤ d.revision (pos 1) || any (is_named d.id) requested))
      err_validation
    >> read_requests selected (d ∷ requested)

-- The items that stay and those that go.
abbrev pub split_items :
    String
    → List PlanItemDeletion
    → List DailyPlanItem
    → Result (List DailyPlanItem × List DailyPlanItem)
split_items user_id requested [] = ok ([], [])
split_items user_id requested (item ∷ items) = elim (first (is_named item.id) requested) [
  | none ↦ split_items user_id requested items >>= (λ p. ok (item ∷ p.0, p.1))
  | some d ↦
      guard (str_eq item.user_id user_id && str_eq item.kind "core") err_validation
      >> (guard (eq_ℤ item.revision d.revision) err_revision
          >> (split_items user_id requested items >>= (λ p. ok (p.0, item ∷ p.1))))
]

abbrev pub is_own_version : String → String → ℤ → DailyPlan → Bool
is_own_version id user_id expected p =
    str_eq p.id id && str_eq p.user_id user_id && eq_ℤ p.revision expected

abbrev pub thinned : ℕ → DailyPlan → DailyPlan
thinned now plan = record plan {
  current_revision = next_revision plan.current_revision;
  revision = next_revision plan.revision;
  manual_items_removed = true;
  updated_at = now;
}

-- The row that the loop moves.
abbrev pub is_kept_row : String → DailyPlan → DailyPlanItem → DailyPlanItem → Bool
is_kept_row user_id plan item row =
    str_eq row.id item.id
    && str_eq row.user_id user_id
    && str_eq row.plan_id plan.id
    && eq_ℤ row.plan_revision plan.current_revision
    && eq_ℤ row.revision item.revision

abbrev pub moved_row : ℤ → DailyPlanItem → DailyPlanItem
moved_row revision row = record row { plan_revision = revision }

abbrev pub move_items :
    String → DailyPlan → List DailyPlanItem → List DailyPlanItem → Result (List DailyPlanItem)
move_items user_id plan [] rows = ok rows
move_items user_id plan (item ∷ items) rows =
    guard (count (is_kept_row user_id plan item) rows == 1) err_revision
    >> move_items user_id plan items (
        update (is_kept_row user_id plan item) (moved_row (next_revision plan.current_revision))
          rows)

-- INSERT of a revision of a plan, under its two keys.
unfoldable pub create_revision :
    DailyPlanRevision → List DailyPlanRevision → Result (List DailyPlanRevision)
create_revision r rows =
    if any (λ x. str_eq x.id r.id || str_eq x.plan_id r.plan_id && eq_ℤ x.revision r.revision) rows
    then err err_duplicate
    else ok (rows ++ r ∷ [])

abbrev pub deletion_revision :
    Env
    → Tools
    → DailyPlan
    → ℤ
    → List String
    → List DailyPlanItem
    → List DailyPlanItem
    → List (String × String)
    → DailyPlanRevision
deletion_revision env tools plan expected ids kept removed sources =
    let input = tools.input_text expected ids removed sources in
    record {
      id = tools.revision_id;
      plan_id = plan.id;
      revision = plan.current_revision;
      input_snapshot = input;
      input_hash = tools.hash input;
      plan_snapshot = tools.items_text kept;
      reason = "manual item deletion";
      created_at = env.now;
    }

-- What the checks find: the plan, the requests, the items that stay and those that go.
pub record Selection : Type 0 where
  pub plan : DailyPlan
  pub requested : List PlanItemDeletion
  pub kept : List DailyPlanItem
  pub removed : List DailyPlanItem

-- The checks before anything is written.
unfoldable pub select_items :
    Env → Tools → String → String → ℤ → List PlanItemDeletion → Db → Result Selection
unfolding live_plan_items
select_items env tools user_id plan_id expected selected db = do
  guard (ltb 0 (length selected) && leb (length selected) 3) err_validation
  requested ← read_requests selected []
  user ←
      or_err (first (λ u. str_eq u.id user_id && str_eq u.status "active") db.users) err_not_found
  plan ← or_err (first (is_plan_of user_id plan_id) db.plans) err_not_found
  guard (eq_ℤ plan.revision expected) err_revision
  guard
      (str_eq plan.status "active"
        && str_eq plan.timezone (tools.zone_name user.timezone)
        && str_eq plan.local_date (env.local_date user.timezone env.now))
      err_conflict
  parts ← split_items user_id requested (live_plan_items db plan)
  guard (length parts.1 == length requested) err_not_found
  ok (record { plan = plan; requested = requested; kept = parts.0; removed = parts.1 })

-- UPDATE of the plan, which must reach one row.
unfoldable pub write_thinned : String → ℤ → DailyPlan → ℕ → Db → Result Db
write_thinned user_id expected plan now db =
    guard (count (is_own_version plan.id user_id expected) db.plans == 1) err_revision
    >> ok (record db {
      plans =
          update (is_own_version plan.id user_id expected)
            (λ row. record row {
              current_revision = next_revision plan.current_revision;
              revision = next_revision plan.revision;
              manual_items_removed = true;
              updated_at = now;
            })
            db.plans;
    })

abbrev pub removed_ids : Selection → List String
removed_ids s = sorted str_lt (map (λ i. i.id) s.removed)

unfoldable pub removal_event : Env → Tools → String → DailyPlan → List String → Db → Result Db
unfolding create_outbox
removal_event env tools user_id plan ids db =
    create_outbox env user_id "daily_plan.items_deleted"
      (("plan_id", plan.id)
        ∷ ("revision", tools.number_text plan.current_revision)
        ∷ ("deleted_item_ids", tools.ids_text ids)
        ∷ [])
      db

unfoldable pub save_removal :
    Env → Tools → String → ℤ → Selection → Store → Result (Store × PlanItemDeletionResult)
unfolding write_thinned create_revision removal_event
save_removal env tools user_id expected s store = do
  sources ← tools.item_sources store.0 s.kept
  let ids = removed_ids s
  let plan = thinned env.now s.plan
  written ← write_thinned user_id expected s.plan env.now store.0
  rows ← move_items user_id s.plan s.kept written.items
  let kept = map (moved_row plan.current_revision) s.kept
  revisions ←
      create_revision (deletion_revision env tools plan expected ids kept s.removed sources) store.1
  db' ← removal_event env tools user_id plan ids (record written { items = rows })
  ok ((db', revisions), record { plan = plan; items = kept; deleted_ids = ids })

unfoldable pub delete_plan_items :
    Env
    → Tools
    → String
    → String
    → ℤ
    → List PlanItemDeletion
    → Store
    → Result (Store × PlanItemDeletionResult)
unfolding select_items save_removal
delete_plan_items env tools user_id plan_id expected selected store = do
  s ← select_items env tools user_id plan_id expected selected store.0
  save_removal env tools user_id expected s store

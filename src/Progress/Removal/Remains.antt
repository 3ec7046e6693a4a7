-- ===== src/Progress/Removal/Remains.antt =====
-- What a removal leaves.
use fast_task.Base.{
  In, false, subst, any, eq_iff, ltb_ℤ, ℕ, String, Bool, true, ◌&&◌, ◌≡◌, refl, sym, ◌∙◌, ap, List,
  [], ◌∷◌, map, ℤ, pos, str_eq, ◌==◌, arith, Bool-cases, inl, inr,
}
use fast_task.Jobs.Model.{ok, count, update, err_revision}
use fast_task.Jobs.Support.{eq_ℤ}
use fast_task.Jobs.Steps.{ok_eq}
use fast_task.Plans.Model.{DailyPlan, DailyPlanItem}
use fast_task.Errors.{>>=-eq-ok, guard->>-eq-ok}
use fast_task.Progress.Model.{Db, Env, OutboxEvent}
use fast_task.Progress.Items.{next_revision}
use fast_task.Progress.Items.Writes.{create_outbox-eq-ok}
use fast_task.Progress.Rows.{any-In, In-update, update-In}
use fast_task.Progress.Removal.Selected.{
  IsSelected, asks_for, any-asks_named, select_items-IsSelected,
}
use fast_task.Progress.Removal.Moves.{eq_ℤ-refl, next_revision-lt, is_kept_by, move_items-update}
use fast_task.Progress.Removal.{
  Selection, select_items, save_removal, write_thinned, removal_event, removed_ids, thinned,
  PlanItemDeletion, PlanItemDeletionResult, Tools, Store, moved_row, move_items, is_kept_row,
  delete_plan_items, create_revision, is_own_version,
}

-- The plans after a removal.
abbrev pub thinned_plans : String → ℤ → DailyPlan → ℕ → Db → List DailyPlan
thinned_plans user_id expected plan now db =
    update (λ p. str_eq p.id plan.id && str_eq p.user_id user_id && eq_ℤ p.revision expected)
      (λ p. record p {
        current_revision = next_revision plan.current_revision;
        revision = next_revision plan.revision;
        manual_items_removed = true;
        updated_at = now;
      })
      db.plans

-- The item as a later revision of the plan lists it.
abbrev pub listed_at : ℤ → DailyPlanItem → DailyPlanItem
listed_at revision item = record item { plan_revision = revision }

-- What a removal leaves of the items, the plans and the other tables: no row of an item is lost, and each
-- keeps all but the revision of the plan that lists it; a row that stays is listed by the next revision,
-- which the plan has then, and one that goes is left as it was.
pub record IsThinned (env : Env) (user_id : String) (expected : ℤ) (s : Selection) (db db' : Db)
    (result : PlanItemDeletionResult) : Type 0 where
  pub next : ℤ
  pub later : ltb_ℤ s.plan.current_revision next ≡ true
  pub content : map (listed_at (pos 0)) db'.items ≡ map (listed_at (pos 0)) db.items
  pub stays :
      (i : DailyPlanItem) → In i s.kept → i.user_id ≡ user_id → In (listed_at next i) db'.items
  pub leaves : (i : DailyPlanItem) → In i s.removed → In i db'.items
  pub plans :
      db'.plans
      ≡ update
          (λ p. str_eq p.id s.plan.id && str_eq p.user_id user_id && eq_ℤ p.revision expected)
          (λ p. record p {
            current_revision = next;
            revision = next_revision s.plan.revision;
            manual_items_removed = true;
            updated_at = env.now;
          })
          db.plans
  pub shown_plan : result.plan.current_revision ≡ next
  pub shown_items : result.items ≡ map (listed_at next) s.kept
  pub tasks : db'.tasks ≡ db.tasks
  pub sessions : db'.sessions ≡ db.sessions
  pub events : db'.events ≡ db.events

update-content :
    (p : DailyPlanItem → Bool) (revision : ℤ) (rows : List DailyPlanItem)
    → map (listed_at (pos 0)) (update p (moved_row revision) rows) ≡ map (listed_at (pos 0)) rows
update-content p revision [] = refl
update-content p revision (row ∷ rows) = elim (Bool-cases (p row)) [
  | inl e ↦ rw (e, update-content p revision rows)
  | inr e ↦ rw (e, update-content p revision rows)
]

kept-is_kept_by :
    (user_id : String) (plan : DailyPlan) (kept : List DailyPlanItem) (i : DailyPlanItem)
    → In i kept
    → i.user_id ≡ user_id
    → i.plan_id ≡ plan.id
    → eq_ℤ i.plan_revision plan.current_revision ≡ true
    → is_kept_by user_id plan kept i ≡ true
kept-is_kept_by user_id plan kept i m u p r =
    any-In (λ k. is_kept_row user_id plan k i) kept i m
      (rw
        (
          (eq_iff i.id i.id).1 refl,
          (eq_iff i.user_id user_id).1 u,
          (eq_iff i.plan_id plan.id).1 p,
          r,
          eq_ℤ-refl i.revision,
        )
        refl)

removed-not-is_kept_by :
    (user_id : String) (plan : DailyPlan) (selected : List PlanItemDeletion)
    (kept : List DailyPlanItem) (i : DailyPlanItem)
    → ((k : DailyPlanItem) → In k kept → any (λ d. str_eq d.id k.id) selected ≡ false)
    → any (asks_for i) selected ≡ true
    → is_kept_by user_id plan kept i ≡ false
removed-not-is_kept_by user_id plan selected [] i n a = refl
removed-not-is_kept_by user_id plan selected (k ∷ ks) i n a =
    let rest = removed-not-is_kept_by user_id plan selected ks i (λ x m. n x (inr m)) a in
    elim (Bool-cases (str_eq i.id k.id)) [
      | inr e ↦ ground (arith, rest, e)
      | inl e ↦ absurd (
          let named = any-asks_named i selected a in
          let none_named =
            subst (λ x. any (λ d. str_eq d.id x) selected ≡ false) (sym ((eq_iff i.id k.id).0 e))
              (n k (inl refl)) in
          cc)
    ]

write_thinned-eq-ok :
    (user_id : String) (expected : ℤ) (plan : DailyPlan) (now : ℕ) (db : Db) {db' : Db}
    → write_thinned user_id expected plan now db ≡ ok db'
    → db' ≡ record db { plans = thinned_plans user_id expected plan now db }
unfolding write_thinned
write_thinned-eq-ok user_id expected plan now db h =
    let (one, h1) =
      guard->>-eq-ok (count (is_own_version plan.id user_id expected) db.plans == 1) err_revision _
        h in
    sym (ok_eq h1)

removal_event-eq-ok :
    (env : Env) (tools : Tools) (user_id : String) (plan : DailyPlan) (ids : List String) (db : Db)
    {db' : Db}
    → removal_event env tools user_id plan ids db ≡ ok db'
    → (outbox : List OutboxEvent) × (db' ≡ record db { outbox = outbox })
unfolding removal_event
removal_event-eq-ok env tools user_id plan ids db h = create_outbox-eq-ok env user_id _ _ db h

module _ (env : Env) (user_id plan_id : String) (expected : ℤ) (selected : List PlanItemDeletion)
    (s : Selection) (db : Db) (c : IsSelected user_id plan_id expected selected db s) where
  moved-IsThinned :
      (outbox : List OutboxEvent) (result : PlanItemDeletionResult) (rows : List DailyPlanItem)
      → rows
        ≡ update
            (is_kept_by user_id s.plan s.kept)
            (moved_row (next_revision s.plan.current_revision))
            db.items
      → result.plan.current_revision ≡ next_revision s.plan.current_revision
      → result.items ≡ map (listed_at (next_revision s.plan.current_revision)) s.kept
      → IsThinned env user_id expected s db
          (record db {
            plans = thinned_plans user_id expected s.plan env.now db;
            items = rows;
            outbox = outbox;
          })
          result
  moved-IsThinned outbox result rows m p q = record {
    next = next_revision s.plan.current_revision;
    later = next_revision-lt s.plan.current_revision;
    content =
        ap (map (listed_at (pos 0))) m
        ∙ update-content (is_kept_by user_id s.plan s.kept) (next_revision s.plan.current_revision)
            db.items;
    stays = λ i k u.
        let l = c.live i (inl k) in
        subst (In (listed_at (next_revision s.plan.current_revision) i)) (sym m) (
          update-In (is_kept_by user_id s.plan s.kept)
            (moved_row (next_revision s.plan.current_revision)) db.items i l.stored
            (kept-is_kept_by user_id s.plan s.kept i k u l.same_plan l.current));
    leaves = λ i k. subst (In i) (sym m) (
        In-update (is_kept_by user_id s.plan s.kept)
          (moved_row (next_revision s.plan.current_revision)) db.items i (c.live i (inr k)).stored
          (removed-not-is_kept_by user_id s.plan selected s.kept i c.unnamed (c.removable i k).2));
    plans = refl;
    shown_plan = p;
    shown_items = q;
    tasks = refl;
    sessions = refl;
    events = refl;
  }

save_removal-IsThinned :
    (env : Env) (tools : Tools) (user_id plan_id : String) (expected : ℤ)
    (selected : List PlanItemDeletion) (s : Selection) (store store' : Store)
    {result : PlanItemDeletionResult}
    → IsSelected user_id plan_id expected selected store.0 s
    → save_removal env tools user_id expected s store ≡ ok (store', result)
    → IsThinned env user_id expected s store.0 store'.0 result
unfolding save_removal
save_removal-IsThinned env tools user_id plan_id expected selected s store store' c h =
    let (sources, o, h1) = >>=-eq-ok (tools.item_sources store.0 s.kept) _ h in
    let (written, t, h2) = >>=-eq-ok (write_thinned user_id expected s.plan env.now store.0) _ h1 in
    let (rows, m, h3) = >>=-eq-ok (move_items user_id s.plan s.kept written.items) _ h2 in
    let (revisions, v, h4) = >>=-eq-ok (create_revision _ store.1) _ h3 in
    let (db', w, h5) =
      >>=-eq-ok
        (removal_event env tools user_id (thinned env.now s.plan) (removed_ids s)
          (record written { items = rows }))
        _ h4 in
    let e = write_thinned-eq-ok user_id expected s.plan env.now store.0 t in
    let (outbox, k) =
      removal_event-eq-ok env tools user_id (thinned env.now s.plan) (removed_ids s)
        (record written { items = rows }) w in
    let moved =
      move_items-update user_id s.plan s.kept written.items m
      ∙ ap
          (λ d.
            update (is_kept_by user_id s.plan s.kept)
              (moved_row (next_revision s.plan.current_revision)) d.items)
          e in
    let shown : PlanItemDeletionResult = record {
      plan = thinned env.now s.plan;
      items = map (moved_row (next_revision s.plan.current_revision)) s.kept;
      deleted_ids = removed_ids s;
    } in
    let same = ok_eq h5 in
    subst (λ x. IsThinned env user_id expected s store.0 x.0.0 x.1) same
      (subst (λ d. IsThinned env user_id expected s store.0 d shown)
        (ap {A = Db} {B = Db} (λ d. record d { items = rows; outbox = outbox }) (sym e) ∙ sym k)
        (moved-IsThinned env user_id plan_id expected selected s store.0 c outbox shown rows moved
          refl refl))

-- Items are removed only from an active plan of the user, at the revision that the caller expects. Its live
-- items are those that no request names, which stay, and those that go, as many as the requests: each a core
-- item of the user, asked for at its revision. After it the plan has a later current revision; every item of
-- the user that stays is listed by that revision, and so does the result show them; every row that goes is
-- left as it was; and no row is lost or changes but for the revision that lists it. The tasks, the sessions
-- and the events stay.
pub delete_plan_items-IsThinned :
    (env : Env) (tools : Tools) (user_id plan_id : String) (expected : ℤ)
    (selected : List PlanItemDeletion) (store store' : Store) (result : PlanItemDeletionResult)
    → delete_plan_items env tools user_id plan_id expected selected store ≡ ok (store', result)
    → (s : Selection) × IsSelected user_id plan_id expected selected store.0 s
      × IsThinned env user_id expected s store.0 store'.0 result
unfolding delete_plan_items
delete_plan_items-IsThinned env tools user_id plan_id expected selected store store' result h =
    let (s, q, h1) =
      >>=-eq-ok (select_items env tools user_id plan_id expected selected store.0) _ h in
    let c = select_items-IsSelected env tools user_id plan_id expected selected store.0 q in
    (s, c, save_removal-IsThinned env tools user_id plan_id expected selected s store store' c h1)

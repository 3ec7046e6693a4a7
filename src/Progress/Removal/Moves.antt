-- ===== src/Progress/Removal/Moves.antt =====
-- The loop that moves the rows that stay, and the parts that the requests make of the live items.
use fast_task.Base.{
  zero, suc, String, Bool, true, false, ◌||◌, ◌==◌, List, [], ◌∷◌, ◌≡◌, ◌⊎◌, inl, inr, refl, sym,
  ◌∙◌, ap, arith, str_eq, eq_iff, In, any, keep, Bool-cases, ℤ, pos, negsuc, ltb_ℤ,
}
use fast_task.Jobs.Model.{ok, count, update, err_revision}
use fast_task.Jobs.Support.{eq_ℤ}
use fast_task.Jobs.Steps.{ok_eq}
use fast_task.Plans.Model.{DailyPlan, DailyPlanItem}
use fast_task.Errors.{guard->>-eq-ok}
use fast_task.Progress.Model.{Db}
use fast_task.Progress.Rows.{In-keep, keep-In}
use fast_task.Progress.Items.{next_revision}
use fast_task.Progress.Removal.{
  is_listed_before, insert_before, sorted, is_live_item, live_plan_items, is_kept_row, moved_row,
  move_items,
}

pub next_revision-lt : (x : ℤ) → ltb_ℤ x (next_revision x) ≡ true
next_revision-lt (pos n) = ground arith
next_revision-lt (negsuc zero) = refl
next_revision-lt (negsuc (suc n)) = ground arith

next_revision-ne : (x : ℤ) → eq_ℤ (next_revision x) x ≡ false
next_revision-ne (pos n) = ground arith
next_revision-ne (negsuc zero) = refl
next_revision-ne (negsuc (suc n)) = ground arith

pub eq_ℤ-refl : (x : ℤ) → eq_ℤ x x ≡ true
eq_ℤ-refl (pos n) = ground arith
eq_ℤ-refl (negsuc n) = ground arith

-- The row is one of the kept ones, in the plan's current revision.
abbrev pub is_kept_by : String → DailyPlan → List DailyPlanItem → DailyPlanItem → Bool
is_kept_by user_id plan items row = any (λ item. is_kept_row user_id plan item row) items

update-update :
    (p q : DailyPlanItem → Bool) (f : DailyPlanItem → DailyPlanItem) (xs : List DailyPlanItem)
    → ((x : DailyPlanItem) → q (f x) ≡ false)
    → update q f (update p f xs) ≡ update (λ x. p x || q x) f xs
update-update p q f [] n = refl
update-update p q f (x ∷ xs) n = elim (Bool-cases (p x)) [
  | inl e ↦ rw (e, n x, update-update p q f xs n) refl
  | inr e ↦ rw (e, update-update p q f xs n) refl
]

-- A row that was moved is not met again.
is_kept_by-moved :
    (user_id : String) (plan : DailyPlan) (items : List DailyPlanItem) (row : DailyPlanItem)
    → is_kept_by user_id plan items (moved_row (next_revision plan.current_revision) row) ≡ false
is_kept_by-moved user_id plan [] row = refl
is_kept_by-moved user_id plan (item ∷ items) row =
    ground (arith, next_revision-ne plan.current_revision, is_kept_by-moved user_id plan items row)

update-none :
    (f : DailyPlanItem → DailyPlanItem) (xs : List DailyPlanItem) → update (λ x. false) f xs ≡ xs
update-none f [] = refl
update-none f (x ∷ xs) = ap (λ ys. x ∷ ys) (update-none f xs)

pub move_items-update :
    (user_id : String) (plan : DailyPlan) (items rows : List DailyPlanItem)
    {rows' : List DailyPlanItem}
    → move_items user_id plan items rows ≡ ok rows'
    → rows'
      ≡ update
          (is_kept_by user_id plan items)
          (moved_row (next_revision plan.current_revision))
          rows
move_items-update user_id plan [] rows h =
    sym (ok_eq h) ∙ sym (update-none (moved_row (next_revision plan.current_revision)) rows)
move_items-update user_id plan (item ∷ items) rows h =
    let (one, h1) =
      guard->>-eq-ok (count (is_kept_row user_id plan item) rows == 1) err_revision _ h in
    move_items-update user_id plan items _ h1
    ∙ update-update (is_kept_row user_id plan item) (is_kept_by user_id plan items)
        (moved_row (next_revision plan.current_revision)) rows (is_kept_by-moved user_id plan items)

In-insert_before :
    {A : Type 0} (before : A → A → Bool) (x : A) (ys : List A) (z : A)
    → (z ≡ x) ⊎ In z ys
    → In z (insert_before before x ys)
In-insert_before before x [] z (inl e) = inl e
In-insert_before before x [] z (inr m) = absurd m
In-insert_before before x (y ∷ ys) z h = elim (Bool-cases (before y x)) [
  | inl e ↦ rw e (elim h as (λ _. In z (y ∷ insert_before before x ys)) [
    | inl q ↦ inr (In-insert_before before x ys z (inl q))
    | inr m ↦ elim m as (λ _. In z (y ∷ insert_before before x ys)) [
      | inl q ↦ inl q
      | inr n ↦ inr (In-insert_before before x ys z (inr n))
    ]
  ])
  | inr e ↦ rw e h
]

insert_before-In :
    {A : Type 0} (before : A → A → Bool) (x : A) (ys : List A) (z : A)
    → In z (insert_before before x ys)
    → (z ≡ x) ⊎ In z ys
insert_before-In before x [] z h = h
insert_before-In before x (y ∷ ys) z h = elim (Bool-cases (before y x)) [
  | inl e ↦ elim (rw e at h) as (λ _. (z ≡ x) ⊎ In z (y ∷ ys)) [
    | inl q ↦ inr (inl q)
    | inr m ↦ elim (insert_before-In before x ys z m) as (λ _. (z ≡ x) ⊎ In z (y ∷ ys)) [
      | inl q ↦ inl q
      | inr n ↦ inr (inr n)
    ]
  ]
  | inr e ↦ (rw e at h)
]

In-sorted :
    {A : Type 0} (before : A → A → Bool) (xs : List A) (z : A) → In z xs → In z (sorted before xs)
In-sorted before [] z m = absurd m
In-sorted before (x ∷ xs) z (inl e) = In-insert_before before x (sorted before xs) z (inl e)
In-sorted before (x ∷ xs) z (inr m) =
    In-insert_before before x (sorted before xs) z (inr (In-sorted before xs z m))

sorted-In :
    {A : Type 0} (before : A → A → Bool) (xs : List A) (z : A) → In z (sorted before xs) → In z xs
sorted-In before [] z m = m
sorted-In before (x ∷ xs) z m =
    elim (insert_before-In before x (sorted before xs) z m) as (λ _. In z (x ∷ xs)) [
      | inl e ↦ inl e
      | inr n ↦ inr (sorted-In before xs z n)
    ]

-- The row is live in the plan's current revision.
pub record IsLiveItem (db : Db) (plan : DailyPlan) (item : DailyPlanItem) : Type 0 where
  pub stored : In item db.items
  pub same_plan : item.plan_id ≡ plan.id
  pub current : eq_ℤ item.plan_revision plan.current_revision ≡ true
  pub standing : str_eq item.status "superseded" ≡ false

pub In-live_plan_items :
    (db : Db) (plan : DailyPlan) (item : DailyPlanItem)
    → IsLiveItem db plan item
    → In item (live_plan_items db plan)
unfolding live_plan_items
In-live_plan_items db plan item l =
    In-sorted is_listed_before (keep (is_live_item plan) db.items) item (
      keep-In (is_live_item plan) db.items item l.stored
        (rw ((eq_iff item.plan_id plan.id).1 l.same_plan, l.current, l.standing) refl))

pub live_plan_items-In :
    (db : Db) (plan : DailyPlan) (item : DailyPlanItem)
    → In item (live_plan_items db plan)
    → IsLiveItem db plan item
unfolding live_plan_items
live_plan_items-In db plan item m =
    let (n, p) =
      In-keep (is_live_item plan) db.items item
        (sorted-In is_listed_before (keep (is_live_item plan) db.items) item m) in
    record {
      stored = n;
      same_plan = (eq_iff item.plan_id plan.id).0 (ground (arith, p));
      current = ground (arith, p);
      standing = ground (arith, p);
    }

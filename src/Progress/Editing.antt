-- ===== src/Progress/Editing.antt =====
-- The correction of an item by its user: UpdatePlanItem of internal/application/app.go, and changeText and
-- changeInt of lifecycle.go. The map of changes is a list of its keys with their values.
pub mod Edited
mod Examples
use fast_task.Base.{
  ℕ, String, Bool, true, false, not, ◌&&◌, ◌||◌, Option, none, some, List, [], ◌∷◌, if◌then◌else◌,
  str_eq, any, all, ℤ, pos, leb_ℤ, ltb_ℤ, trim_space,
}
use fast_task.Jobs.Model.{
  Failure, Result, ok, err, first, err_not_found, err_conflict, err_revision, err_validation,
}
use fast_task.Jobs.Support.{eq_ℤ}
use fast_task.Plans.Model.{DailyPlanItem}
use fast_task.Errors.{◌>>=◌, ◌>>◌, guard, or_err}
use fast_task.Progress.Model.{Db, Env}
use fast_task.Progress.Live.{actionable_plan_item}
use fast_task.Progress.Items.{is_item, write_item, touch_plan, next_revision, err_record}

-- A value of map[string]any as changeText and changeInt tell them apart: an int or an int64, a float64 that is a
-- whole number, one that is not (a fraction, an infinity or not a number), and everything else.
pub data ChangeValue : Type 0 where
  text_value : String → ChangeValue
  int_value : ℤ → ChangeValue
  whole_float : ℤ → ChangeValue
  broken_float : ChangeValue
  other_value : ChangeValue

abbrev pub Changes : Type 0
Changes = List (String × ChangeValue)

abbrev pub change_of : String → Changes → Option ChangeValue
change_of key [] = none
change_of key ((k, v) ∷ changes) =
    let rest = change_of key changes in if str_eq k key then some v else rest

-- `none` leaves the destination as it is.
unfoldable pub change_text : Changes → String → Result (Option String)
change_text changes key = elim (change_of key changes) [
  | none ↦ ok none
  | some (text_value text) ↦ ok (some (trim_space text))
  | some v ↦ err err_validation
]

unfoldable pub change_int : Changes → String → Result (Option ℤ)
change_int changes key = elim (change_of key changes) [
  | none ↦ ok none
  | some (int_value n) ↦ ok (some n)
  | some (whole_float n) ↦
      if ltb_ℤ n (pos 0) || ltb_ℤ (pos 2147483647) n then err err_validation else ok (some n)
  | some v ↦ err err_validation
]

-- What the call writes into the row.
pub record Edit : Type 0 where
  pub title : Option String
  pub commitment : Option String
  pub minimum_action : Option String
  pub target_minutes : Option ℤ
  pub position : Option ℤ
  pub status : Option String

abbrev pub admits : {A : Type 0} → (A → Bool) → Option A → Bool
admits test none = true
admits test (some x) = test x

abbrev pub is_editable : String → Bool
is_editable key =
    any (str_eq key)
      ("title" ∷ "commitment" ∷ "minimum_action" ∷ "target_minutes" ∷ "position" ∷ "status" ∷ [])

abbrev pub status_of : Option ChangeValue → Result (Option String)
status_of none = ok none
status_of (some (text_value status)) =
    if str_eq status "skipped" then ok (some status) else err err_validation
status_of (some v) = err err_validation

unfoldable pub read_status : Changes → Result (Option String)
read_status changes = status_of (change_of "status" changes)

abbrev pub is_target : ℤ → Bool
is_target minutes = leb_ℤ (pos 1) minutes && leb_ℤ minutes (pos 480)

unfoldable pub read_target : Changes → Result (Option ℤ)
unfolding change_int
read_target changes = do
  minutes ← change_int changes "target_minutes"
  guard (admits is_target minutes) err_validation
  ok minutes

abbrev pub is_text : String → Bool
is_text text = not (str_eq text "")

unfoldable pub read_entry : Changes → String → Result (Option String)
unfolding change_text
read_entry changes key = do
  text ← change_text changes key
  guard (admits is_text text) err_validation
  ok text

abbrev pub is_position : ℤ → Bool
is_position position = leb_ℤ (pos 0) position

unfoldable pub read_position : Changes → Result (Option ℤ)
unfolding change_int
read_position changes = do
  position ← change_int changes "position"
  guard (admits is_position position) err_validation
  ok position

abbrev pub edited : {A : Type 0} → Option A → A → A
edited none old = old
edited (some new) old = new

abbrev pub edited_row : Edit → ℤ → ℕ → DailyPlanItem → DailyPlanItem
edited_row edit expected now item = record item {
  title = edited edit.title item.title;
  commitment = edited edit.commitment item.commitment;
  minimum_action = edited edit.minimum_action item.minimum_action;
  target_minutes = edited edit.target_minutes item.target_minutes;
  position = edited edit.position item.position;
  status = edited edit.status item.status;
  revision = next_revision expected;
  updated_at = now;
}

-- The fields that are checked inside the transaction, after the item.
unfoldable pub read_edit : Changes → Option String → Option ℤ → Result Edit
unfolding read_entry read_position
read_edit changes status target_minutes = do
  title ← read_entry changes "title"
  commitment ← read_entry changes "commitment"
  minimum_action ← read_entry changes "minimum_action"
  position ← read_position changes
  ok (record {
    title = title;
    commitment = commitment;
    minimum_action = minimum_action;
    target_minutes = target_minutes;
    position = position;
    status = status;
  })

unfoldable pub update_plan_item :
    Env → String → String → String → ℤ → Changes → Db → Result (Db × DailyPlanItem)
unfolding read_status read_target read_edit actionable_plan_item write_item touch_plan
update_plan_item env user_id plan_id item_id expected changes db = do
  status ← read_status changes
  guard (all (λ c. is_editable c.0) changes) err_validation
  target_minutes ← read_target changes
  item ← or_err (first (is_item user_id plan_id item_id) db.items) err_not_found
  guard (eq_ℤ item.revision expected) err_revision
  actionable_plan_item env db user_id item
  guard (not (str_eq item.status "satisfied")) err_conflict
  edit ← read_edit changes status target_minutes
  written ← write_item item_id expected (edited_row edit expected env.now) db
  let db' = touch_plan plan_id env.now written
  final ← or_err (first (λ i. str_eq i.id item_id) db'.items) err_record
  ok (db', final)

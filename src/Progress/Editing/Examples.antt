-- ===== src/Progress/Editing/Examples.antt =====
-- Tests of the correction of an item, and its theorem at one of them.
use fast_task.Base.{◌≡◌, refl, [], ◌∷◌, ◌*◌, pos, negsuc}
use fast_task.Jobs.Model.{err, err_validation}
use fast_task.Plans.Model.{DailyPlanItem}
use fast_task.Progress.Model.{Db}
use fast_task.Progress.Fixtures.{second, env, today, item, db_with}
use fast_task.Progress.Editing.{Changes, text_value, int_value, whole_float, update_plan_item}

abbrev skip : Changes
skip =
    ("title", text_value " Skim ")
    ∷ ("target_minutes", whole_float (pos 45))
    ∷ ("status", text_value "skipped")
    ∷ []

abbrev skimmed : DailyPlanItem
skimmed = record (item "skipped") {
  title = "Skim";
  target_minutes = pos 45;
  revision = pos 2;
  updated_at = 1000 * second;
}

abbrev changed : Db
changed = record (db_with "planned" []) {
  items = skimmed ∷ [];
  plans = record today { revision = pos 2; updated_at = 1000 * second } ∷ [];
}

abbrev negative : Changes
negative = ("position", int_value (negsuc 0)) ∷ []

refuses :
    update_plan_item env "ann" "p" "i" (pos 1) negative (db_with "planned" []) ≡ err err_validation
unfolding update_plan_item fast_task.Base.trim_space fast_task.Tasks.Saving.require_live_goal
refuses = refl

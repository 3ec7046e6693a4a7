-- ===== src/Plans/Settings/Examples.antt =====
-- Tests of the planning settings, and the theorem about saving them at one of them.
use fast_task.Base.{String, true, Option, none, some, List, [], ◌∷◌, ◌≡◌, refl, pos, leb_ℤ}
use fast_task.Jobs.Model.{ok, err, err_revision}
use fast_task.Plans.Model.{User, Goal, PlanningSettings}
use fast_task.Plans.Settings.{
  Planner, planning_settings, saved_row, unsaved, update_planning_settings,
}
use fast_task.Plans.Settings.Chosen.{IsChoice}
use fast_task.Plans.Settings.Saved.{IsSaved, update_planning_settings-IsSaved}

abbrev ann : User
ann = record {
  id = "ann";
  identifier = "ann";
  password_hash = "";
  display_name = "Ann";
  timezone = "UTC";
  locale = "en";
  role = "user";
  status = "active";
  revision = pos 1;
  created_at = 0;
  updated_at = 0;
}

abbrev thesis : Goal
thesis = record {
  id = "goal_1";
  user_id = "ann";
  title = "Thesis";
  description = "";
  success_criteria = "";
  status = "active";
  target_date = none;
  revision = pos 1;
  created_at = 5;
  updated_at = 5;
  deleted_at = none;
  deletion_id = "";
}

abbrev db : List PlanningSettings → Planner
db settings = record { users = ann ∷ []; goals = thesis ∷ []; settings = settings }

abbrev saved : PlanningSettings
saved = saved_row 7 "ann" 0 none (pos 90) (unsaved "ann")

abbrev view : PlanningSettings
view = record saved { primary_goal_id = some "goal_1"; primary_goal_mode = "automatic" }

saves : update_planning_settings 7 "ann" 0 none (pos 90) (db []) ≡ ok (view, db (saved ∷ []))
unfolding update_planning_settings
saves = refl

update_planning_settings-IsSaved_example :
    ((planning_settings (db []) "ann").revision ≡ 0)
    × (leb_ℤ (pos 30) (pos 90) ≡ true)
    × (leb_ℤ (pos 90) (pos 480) ≡ true)
    × ((goal : Option String) × IsChoice
          (db [])
          "ann"
          (planning_settings (db []) "ann").primary_goal_id
          none
          goal
        × IsSaved (db (saved ∷ [])) "ann" 0 goal (pos 90))
update_planning_settings-IsSaved_example =
    update_planning_settings-IsSaved 7 "ann" 0 none (pos 90) (db []) (db (saved ∷ [])) view saves

refuses_stale :
    update_planning_settings 9 "ann" 0 none (pos 90) (db (saved ∷ [])) ≡ err err_revision
unfolding update_planning_settings
refuses_stale = refl

-- ===== src/Plans/Budget/Examples.antt =====
-- Tests of the daily budget, and its theorem at one of them.
use fast_task.Base.{◌+◌, ◌*◌, ◌≤◌, ◌<◌, none, [], ◌∷◌, ◌≡◌, ◌⊎◌, refl, ℤ, pos}
use fast_task.Plans.Model.{DailyPlanItem}
use fast_task.Plans.Budget.{
  remaining_plan_budget, core_count, core_minutes, planning_target_minutes,
}
use fast_task.Plans.Budget.Bounds.{effective, remaining_plan_budget-bounds}

abbrev core : ℤ → DailyPlanItem
core minutes = record {
  id = "dpi_1";
  logical_id = "";
  user_id = "ann";
  plan_id = "plan_1";
  task_id = none;
  kind = "core";
  title = "Read";
  commitment = "Read one section";
  minimum_action = "Open the paper";
  allowed_types = "result";
  status = "planned";
  completion_type = "";
  completion_summary = "";
  plan_revision = pos 1;
  target_minutes = minutes;
  position = pos 1;
  revision = pos 1;
  created_at = 0;
  updated_at = 0;
}

remaining_plan_budget-bounds_example :
    let left = remaining_plan_budget (core (pos 50) ∷ []) (pos 0) in
    ((left.slots + core_count (core (pos 50) ∷ []) ≤ 3) ⊎ (left.slots ≡ 0))
    × (left.slots * left.target_minutes ≤ left.remaining_minutes)
    × ((left.remaining_minutes + core_minutes (core (pos 50) ∷ []) ≤ effective (pos 0))
        ⊎ (left.remaining_minutes ≡ 0))
    × (0 < left.slots → 1 ≤ left.target_minutes)
remaining_plan_budget-bounds_example = remaining_plan_budget-bounds (core (pos 50) ∷ []) (pos 0)

shares_the_rest : (remaining_plan_budget (core (pos 50) ∷ []) (pos 0)).target_minutes ≡ 35
unfolding remaining_plan_budget
shares_the_rest = refl

thirds : planning_target_minutes (pos 100) ≡ 33
unfolding planning_target_minutes
thirds = refl

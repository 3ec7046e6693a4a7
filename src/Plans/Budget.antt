-- ===== src/Plans/Budget.antt =====
-- The daily budget of internal/application/planning.go and planning_guard.go: how many items a day takes
-- and how many minutes each is worth.
pub mod Bounds
mod Examples
use fast_task.Base.{
  ℕ, zero, suc, ◌+◌, ◌-◌, ◌*◌, ◌/◌, min, String, Bool, true, false, not, ◌&&◌, ◌||◌, Option, none,
  some, List, [], ◌∷◌, map, ℤ, pos, negsuc, pos_part, ltb_ℤ, leb_ℤ, if◌then◌else◌, str_eq, str_lt,
  is_blank, trim_space, ltb, is_none, any,
}
use fast_task.Jobs.Model.{Failure, Result, ok, err, err_validation}
use fast_task.Jobs.Support.{eq_ℤ}
use fast_task.Plans.Model.{DailyPlan, DailyPlanItem, PlanningSettings}
use fast_task.Plans.Settings.{default_daily_budget}
use fast_task.Tasks.Model.{Task}
use fast_task.Domain.Rules.{Candidate}

-- A budget sizes the items and not their number.
abbrev pub planning_slots : ℤ → ℕ
planning_slots budget = 3

unfoldable pub resolve_planning_budget : ℤ → PlanningSettings → Result ℤ
resolve_planning_budget available settings =
    let budget = if eq_ℤ available (pos 0) then settings.daily_budget_minutes else available in
    if ltb_ℤ budget (pos 30) || ltb_ℤ (pos 480) budget then err err_validation else ok budget

-- A budget that is not positive is the default one; `pos_part` of a positive one is its value.
unfoldable pub planning_target_minutes : ℤ → ℕ
planning_target_minutes budget =
    let minutes = if leb_ℤ budget (pos 0) then default_daily_budget else pos_part budget in
    if ltb 0 (planning_slots budget) then minutes / planning_slots budget else 30

unfoldable pub daily_task_commitment : Task → ℕ → String
daily_task_commitment task target_minutes =
    if ltb_ℤ (pos 0) task.estimate_minutes
      && leb_ℤ task.estimate_minutes (pos target_minutes)
      && not (is_blank task.success_criteria)
    then trim_space task.success_criteria
    else task.minimum_action

abbrev pub candidate_of : Task → Candidate
candidate_of task = record {
  id = task.id;
  status = task.status;
  priority = task.priority;
  position = task.position;
  estimate = task.estimate_minutes;
  minimum_action = task.minimum_action;
  goal_active = true;
  dependency_done = true;
}

unfoldable pub candidates_for_tasks : List Task → List Candidate
candidates_for_tasks tasks = map candidate_of tasks

-- `id` is the drawn ID.
unfoldable pub new_scheduled_item : String → String → String → ℤ → ℤ → ℤ → Task → ℕ → DailyPlanItem
unfolding planning_target_minutes daily_task_commitment
new_scheduled_item id user_id plan_id revision position budget task now =
    let target = planning_target_minutes budget in
    record {
      id = id;
      logical_id = id;
      user_id = user_id;
      plan_id = plan_id;
      task_id = some task.id;
      kind = "core";
      title = task.title;
      commitment = daily_task_commitment task target;
      minimum_action = task.minimum_action;
      allowed_types = "result,step,time,minimum_action";
      status = "planned";
      completion_type = "";
      completion_summary = "";
      plan_revision = revision;
      target_minutes = pos target;
      position = position;
      revision = pos 1;
      created_at = now;
      updated_at = now;
    }

unfoldable pub logical_item_id : DailyPlanItem → String
logical_item_id item = if str_eq item.logical_id "" then item.id else item.logical_id

abbrev pub is_core : DailyPlanItem → Bool
is_core item = str_eq item.kind "core"

unfoldable pub has_core_item : List DailyPlanItem → Bool
has_core_item items = any is_core items

-- `today` is the date of `now` in the plan's zone, or `none` if the zone is unknown (Go's time package).
unfoldable pub freeze_plan_with_core : DailyPlan → ℕ → Option String → Bool → DailyPlan
freeze_plan_with_core plan now today has_core =
    if not has_core || not (is_none plan.frozen_at) then plan else elim today [
      | none ↦ plan
      | some date ↦
          if str_lt date plan.local_date then plan else record plan { frozen_at = some now }
    ]

-- The loop of remainingPlanBudget: the number of core items, and the minutes that they promise.
abbrev pub core_count : List DailyPlanItem → ℕ
core_count [] = 0
core_count (item ∷ items) = if is_core item then suc (core_count items) else core_count items

abbrev pub core_minutes : List DailyPlanItem → ℕ
core_minutes [] = 0
core_minutes (item ∷ items) =
    if is_core item then pos_part item.target_minutes + core_minutes items else core_minutes items

pub record Remaining : Type 0 where
  pub remaining_minutes : ℕ
  pub slots : ℕ
  pub target_minutes : ℕ

-- The source sets what falls below 0 to 0 after its subtractions, as those on ℕ do.
unfoldable pub remaining_plan_budget : List DailyPlanItem → ℤ → Remaining
remaining_plan_budget items available =
    let budget = if eq_ℤ available (pos 0) then pos default_daily_budget else available in
    let remaining = pos_part budget - core_minutes items in
    let slots =
      min (min (planning_slots budget - core_count items) (3 - core_count items)) remaining in
    record {
      remaining_minutes = remaining;
      slots = slots;
      target_minutes = if ltb 0 slots then remaining / slots else 0;
    }

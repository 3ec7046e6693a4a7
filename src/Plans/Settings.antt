-- ===== src/Plans/Settings.antt =====
-- internal/application/planning.go: the planning settings of a user, and the goal in effect.
pub mod Chosen
pub mod Saved
mod Examples
use fast_task.Base.{
  ℕ, suc, ◌+◌, String, Bool, true, false, not, ◌&&◌, ◌||◌, Option, none, some, List, [], ◌∷◌, ◌++◌,
  ℤ, pos, ltb_ℤ, if◌then◌else◌, str_eq, str_lt, trim_space, ltb, leb, ◌==◌, is_none, any,
}
use fast_task.Jobs.Model.{
  Failure, Result, ok, err, first, count, update, err_not_found, err_revision, err_validation,
  internal,
}
use fast_task.Plans.Model.{User, PlanningSettings, Goal}

abbrev pub default_daily_budget : ℕ
default_daily_budget = 120

-- The rows that these operations read and write.
pub record Planner : Type 0 where
  pub users : List User
  pub goals : List Goal
  pub settings : List PlanningSettings

-- The row of a user without one.
abbrev pub unsaved : String → PlanningSettings
unsaved user_id = record {
  user_id = user_id;
  primary_goal_id = none;
  configured_primary_goal_id = none;
  primary_goal_mode = "";
  daily_budget_minutes = pos default_daily_budget;
  revision = 0;
  created_at = 0;
  updated_at = 0;
}

abbrev pub has_user : String → PlanningSettings → Bool
has_user user_id settings = str_eq settings.user_id user_id

unfoldable pub planning_settings : Planner → String → PlanningSettings
planning_settings db user_id = elim (first (has_user user_id) db.settings) [
  | none ↦ unsaved user_id
  | some settings ↦ settings
]

-- "user_id = ? AND status = 'active' AND deleted_at IS NULL".
abbrev pub is_live : String → Goal → Bool
is_live user_id goal =
    str_eq goal.user_id user_id && str_eq goal.status "active" && is_none goal.deleted_at

-- ORDER BY created_at, id.
abbrev pub is_earlier : Goal → Goal → Bool
is_earlier a b = ltb a.created_at b.created_at || (a.created_at == b.created_at) && str_lt a.id b.id

unfoldable pub oldest_goal : String → List Goal → Option Goal
oldest_goal user_id [] = none
oldest_goal user_id (goal ∷ goals) =
    let rest = oldest_goal user_id goals in
    if not (is_live user_id goal) then rest else elim rest [
      | none ↦ some goal
      | some other ↦ some (if is_earlier other goal then other else goal)
    ]

abbrev pub goal_id : Option Goal → Option String
goal_id none = none
goal_id (some goal) = some goal.id

-- The chosen goal while it is active, else the oldest active one; `none` where the source gives "".
unfoldable pub primary_goal : Planner → String → Option String → Option String
unfolding oldest_goal
primary_goal db user_id chosen =
    let fallback = goal_id (oldest_goal user_id db.goals) in
    elim chosen [
      | none ↦ fallback
      | some id ↦ elim (first (λ g. str_eq g.id id && is_live user_id g) db.goals) [
        | none ↦ fallback
        | some goal ↦ some goal.id
      ]
    ]

-- The settings as a client sees them: what was saved, and the goal in effect.
unfoldable pub resolve_projection : Planner → String → PlanningSettings → PlanningSettings
unfolding primary_goal
resolve_projection db user_id settings = record settings {
  configured_primary_goal_id = settings.primary_goal_id;
  primary_goal_mode = if is_none settings.primary_goal_id then "automatic" else "fixed";
  primary_goal_id = primary_goal db user_id settings.primary_goal_id;
}

unfoldable pub get_planning_settings : Planner → String → Result PlanningSettings
unfolding planning_settings resolve_projection
get_planning_settings db user_id = elim (first (λ (u : User). str_eq u.id user_id) db.users) [
  | none ↦ err err_not_found
  | some user ↦ ok (resolve_projection db user_id (planning_settings db user_id))
]

abbrev pub is_choice : String → Option String → Bool
is_choice id none = false
is_choice id (some current) = str_eq current id

-- The choice that an update saves: a blank text is no choice, and a choice that changes must be an
-- active goal of the user.
unfoldable pub configured_goal :
    Planner → String → PlanningSettings → Option String → Result (Option String)
configured_goal db user_id current none = ok none
configured_goal db user_id current (some text) =
    let id = trim_space text in
    if str_eq id ""
    then ok none
    else if is_choice id current.primary_goal_id
    then ok (some id)
    else elim (first (λ g. str_eq g.id id && is_live user_id g) db.goals) [
      | none ↦ err err_not_found
      | some goal ↦ ok (some id)
    ]

-- The row that is saved; the projection's two columns are not stored.
abbrev pub saved_row : ℕ → String → ℕ → Option String → ℤ → PlanningSettings → PlanningSettings
saved_row now user_id expected goal budget current = record {
  user_id = user_id;
  primary_goal_id = goal;
  configured_primary_goal_id = none;
  primary_goal_mode = "";
  daily_budget_minutes = budget;
  revision = suc expected;
  created_at = if expected == 0 then now else current.created_at;
  updated_at = now;
}

-- INSERT for the first revision, a conditional UPDATE after it.
unfoldable pub save_settings :
    ℕ → String → ℕ → Option String → ℤ → PlanningSettings → Planner → Result Planner
save_settings now user_id expected goal budget current db =
    let row = saved_row now user_id expected goal budget current in
    if expected == 0
    then (if any (has_user user_id) db.settings
        then err (record { cause = internal; text = "UNIQUE constraint failed" })
        else ok (record db { settings = db.settings ++ row ∷ [] }))
    else if count (λ s. has_user user_id s && (s.revision == expected)) db.settings == 1
    then ok (record db {
      settings =
          update (λ s. has_user user_id s && (s.revision == expected))
            (λ s. record s {
              primary_goal_id = goal;
              daily_budget_minutes = budget;
              revision = suc expected;
              updated_at = now;
            })
            db.settings;
    })
    else err err_revision

unfoldable pub update_planning_settings :
    ℕ → String → ℕ → Option String → ℤ → Planner → Result (PlanningSettings × Planner)
unfolding configured_goal save_settings planning_settings resolve_projection
update_planning_settings now user_id expected choice budget db =
    let current = planning_settings db user_id in
    if ltb_ℤ budget (pos 30) || ltb_ℤ (pos 480) budget
    then err err_validation
    else elim (first (λ (u : User). str_eq u.id user_id) db.users) [
      | none ↦ err err_not_found
      | some user ↦
          if not (current.revision == expected)
          then err err_revision
          else elim (configured_goal db user_id current choice) [
            | err e ↦ err e
            | ok goal ↦ elim (save_settings now user_id expected goal budget current db) [
              | err e ↦ err e
              | ok db' ↦ ok (
                resolve_projection db' user_id (saved_row now user_id expected goal budget current),
                db',
              )
            ]
          ]
    ]

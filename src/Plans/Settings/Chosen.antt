-- ===== src/Plans/Settings/Chosen.antt =====
-- The goal that a user chooses, apart from the code.
use fast_task.Base.{
  none, ◌≢◌, In, trim_space, String, true, ◌&&◌, Option, some, ◌≡◌, refl, ap, subst, inl, inr,
  arith, str_eq, eq_iff, Bool-cases, Option-cases,
}
use fast_task.Jobs.Model.{ok, first}
use fast_task.Jobs.Steps.{ok_eq}
use fast_task.Plans.Model.{Goal, PlanningSettings}
use fast_task.Progress.Rows.{In-found}
use fast_task.Plans.Settings.{Planner, is_live, is_choice, configured_goal}

-- A goal that a user may choose.
pub record IsActiveGoal (db : Planner) (user id : String) : Type 0 where
  pub goal : Goal
  pub stored : In goal db.goals
  pub same_id : goal.id ≡ id
  pub owned : goal.user_id ≡ user
  pub active : goal.status ≡ "active"
  pub live : goal.deleted_at ≡ none

-- What a choice leads to, where `current` is the choice before.
pub data IsChoice (db : Planner) (user : String) (current choice : Option String)
    : Option String → Type 0 where
  automatic : choice ≡ none → IsChoice db user current choice none
  blank :
      (text : String)
      → choice ≡ some text
      → trim_space text ≡ ""
      → IsChoice db user current choice none
  kept_choice :
      (text : String)
      → choice ≡ some text
      → trim_space text ≢ ""
      → current ≡ some (trim_space text)
      → IsChoice db user current choice (some (trim_space text))
  new_choice :
      (text : String)
      → choice ≡ some text
      → trim_space text ≢ ""
      → IsActiveGoal db user (trim_space text)
      → IsChoice db user current choice (some (trim_space text))

is_choice-eq : (id : String) (o : Option String) → is_choice id o ≡ true → o ≡ some id
is_choice-eq id none h = cc
is_choice-eq id (some x) h = ap some ((eq_iff x id).0 h)

found-IsActiveGoal :
    (db : Planner) (user id : String) {goal : Goal}
    → first (λ g. str_eq g.id id && is_live user g) db.goals ≡ some goal
    → IsActiveGoal db user id
found-IsActiveGoal db user id {goal = goal} h =
    let (m, p) = In-found (λ g. str_eq g.id id && is_live user g) db.goals h in
    record {
      goal = goal;
      stored = m;
      same_id = (eq_iff goal.id id).0 (ground (arith, p));
      owned = (eq_iff goal.user_id user).0 (ground (arith, p));
      active = (eq_iff goal.status "active").0 (ground (arith, p));
      live = ground (arith, p);
    }

pub configured_goal-IsChoice :
    (db : Planner) (user : String) (current : PlanningSettings) (choice : Option String)
    {goal : Option String}
    → configured_goal db user current choice ≡ ok goal
    → IsChoice db user current.primary_goal_id choice goal
unfolding configured_goal
configured_goal-IsChoice db user current none h =
    subst (IsChoice db user current.primary_goal_id none) (ok_eq h) (automatic refl)
configured_goal-IsChoice db user current (some text) h =
    let to = IsChoice db user current.primary_goal_id (some text) in
    elim (Bool-cases (str_eq (trim_space text) "")) [
      | inl e ↦
          subst to (ok_eq (rw (configured_goal, e) at h))
            (blank text refl ((eq_iff (trim_space text) "").0 e))
      | inr e ↦
          let filled : trim_space text ≢ "" =
            λ q. absurd (ground (arith, e, (eq_iff (trim_space text) "").1 q)) in
          elim (Bool-cases (is_choice (trim_space text) current.primary_goal_id)) [
            | inl c ↦ subst to (ok_eq (rw (configured_goal, e, c) at h)) (
                kept_choice text refl filled
                  (is_choice-eq (trim_space text) current.primary_goal_id c))
            | inr c ↦
                elim (Option-cases
                  (first (λ g. str_eq g.id (trim_space text) && is_live user g) db.goals)) [
                    | inl f ↦ absurd (let h' = rw (configured_goal, e, c, f) at h in cc)
                    | inr (goal, f) ↦ subst to (ok_eq (rw (configured_goal, e, c, f) at h)) (
                        new_choice text refl filled
                          (found-IsActiveGoal db user (trim_space text) f))
                  ]
          ]
    ]

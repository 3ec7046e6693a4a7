-- ===== src/Progress/Live/Chain.antt =====
-- What RequireLiveTaskTx asks of a task, apart from the code.
use fast_task.Base.{
  ℕ, zero, suc, ◌+◌, String, Option, none, some, List, [], ◌∷◌, ◌≡◌, inl, inr, subst, arith, str_eq,
  eq_iff, In, any, Bool-cases, Option-cases, length,
}
use fast_task.Jobs.Model.{ok, first, err_not_found}
use fast_task.Jobs.Steps.{ok_eq}
use fast_task.Errors.{>>=-eq-ok, or_err, or_err-eq-ok}
use fast_task.Plans.Model.{Goal}
use fast_task.Tasks.Model.{Task}
use fast_task.Tasks.Saving.{require_live_goal}
use fast_task.Tasks.Saving.Rows.{IsLiveGoal, require_live_goal-IsLiveGoal}
use fast_task.Progress.Model.{Db}
use fast_task.Progress.Rows.{In-found}
use fast_task.Progress.Live.{is_live_task, is_live_parent, live_ancestors, require_live_task}

-- A task of the user that is not deleted.
pub record IsLiveTask (tasks : List Task) (user id : String) (task : Task) : Type 0 where
  pub stored : In task tasks
  pub same_id : task.id ≡ id
  pub owned : task.user_id ≡ user
  pub live : task.deleted_at ≡ none

-- Every ancestor is a task of the same user and goal that is not deleted, up to one without a parent.
pub data LiveChain (tasks : List Task) (user goal : String) : Option String → Type 0 where
  top : LiveChain tasks user goal none
  above :
      {id : String} (parent : Task)
      → IsLiveTask tasks user id parent
      → parent.goal_id ≡ goal
      → LiveChain tasks user goal parent.parent_id
      → LiveChain tasks user goal (some id)

live_ancestors-LiveChain :
    (fuel : ℕ) (tasks : List Task) (user goal : String) (seen : List String) (o : Option String)
    → live_ancestors fuel tasks user goal seen o ≡ ok tt
    → LiveChain tasks user goal o
unfolding live_ancestors
live_ancestors-LiveChain fuel tasks user goal seen none h = top
live_ancestors-LiveChain zero tasks user goal seen (some id) h = cc
live_ancestors-LiveChain (suc fuel) tasks user goal seen (some id) h =
    elim (Bool-cases (any (λ s. str_eq s id) seen)) [
      | inl e ↦ absurd (let h' = rw e at h in cc)
      | inr e ↦ elim (Option-cases (first (is_live_parent user goal id) tasks)) [
        | inl f ↦ absurd (let h' = rw (e, f) at h in cc)
        | inr (parent, f) ↦
            let (m, p) = In-found (is_live_parent user goal id) tasks f in
            above parent
              (record {
                stored = m;
                same_id = (eq_iff parent.id id).0 (ground (arith, p));
                owned = (eq_iff parent.user_id user).0 (ground (arith, p));
                live = ground (arith, p);
              })
              ((eq_iff parent.goal_id goal).0 (ground (arith, p)))
              (live_ancestors-LiveChain fuel tasks user goal (id ∷ seen) parent.parent_id
                (rw (e, f) at h))
      ]
    ]

pub require_live_task-IsLiveTask :
    (db : Db) (user id : String) {task : Task}
    → require_live_task db user id ≡ ok task
    → IsLiveTask db.tasks user id task
      × ((goal : Goal) × IsLiveGoal db.goals user task.goal_id goal)
      × LiveChain db.tasks user task.goal_id task.parent_id
unfolding require_live_task
require_live_task-IsLiveTask db user id h =
    let (t, f, h1) = >>=-eq-ok (or_err (first (is_live_task user id) db.tasks) err_not_found) _ h in
    let (goal, g, h2) =
      >>=-eq-ok (or_err (require_live_goal db.goals user t.goal_id) err_not_found) _ h1 in
    let (u, a, h3) =
      >>=-eq-ok
        (live_ancestors (length db.tasks + 1) db.tasks user t.goal_id (t.id ∷ []) t.parent_id) _
        h2 in
    let (m, p) = In-found (is_live_task user id) db.tasks (or_err-eq-ok _ _ f) in
    subst
      (λ x.
        IsLiveTask db.tasks user id x
        × ((goal : Goal) × IsLiveGoal db.goals user x.goal_id goal)
        × LiveChain db.tasks user x.goal_id x.parent_id)
      (ok_eq h3)
      (
        record {
          stored = m;
          same_id = (eq_iff t.id id).0 (ground (arith, p));
          owned = (eq_iff t.user_id user).0 (ground (arith, p));
          live = ground (arith, p);
        },
        (goal, require_live_goal-IsLiveGoal db.goals user t.goal_id (or_err-eq-ok _ _ g)),
        live_ancestors-LiveChain (length db.tasks + 1) db.tasks user t.goal_id (t.id ∷ [])
            t.parent_id a,
      )

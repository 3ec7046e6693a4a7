-- ===== src/Progress/Live/Ends.antt =====
-- The walk of RequireLiveTaskTx ends, and what taskExecutableTx asks of a task.
use fast_task.Base.{
  ℕ, zero, suc, ◌+◌, ◌≤◌, ◌<◌, String, true, false, not, Option, none, some, List, [], ◌∷◌, ◌≡◌,
  ◌≢◌, ap, ◌∙◌, arith, str_eq, any, length, Option-cases, Bool-cases, eq_iff, inl, inr, str_eq,
}
use fast_task.Jobs.Model.{ok, err, first, count}
use fast_task.Tasks.Model.{Task, Index}
use fast_task.Tasks.Saving.Rows.{
  IsLiveGoal, IsGoalIndex, require_live_goal-IsLiveGoal, siblings-IsGoalIndex,
}
use fast_task.Progress.Live.Chain.{IsLiveTask, LiveChain, require_live_task-IsLiveTask}
use fast_task.Jobs.Steps.{Result-cases}
use fast_task.Plans.Model.{Goal}
use fast_task.Tasks.Saving.{require_live_goal, siblings}
use fast_task.Tasks.Eligibility.Decides.{IsExecutable, executable_task_eligibility_decides}
use fast_task.Progress.Model.{Db, err_unfinished}
use fast_task.Progress.Live.{
  live_ancestors, is_live_parent, is_live_task, require_live_task, task_executable, index_of,
}

-- The rows that the walk has not met.
abbrev pub fresh : List String → List Task → ℕ
fresh seen tasks = count (λ t. not (any (λ s. str_eq s t.id) seen)) tasks

fresh-le-length : (seen : List String) (tasks : List Task) → fresh seen tasks ≤ length tasks
fresh-le-length seen [] = omega arith
fresh-le-length seen (t ∷ ts) = ground (arith, fresh-le-length seen ts)

fresh-cons-le :
    (id : String) (seen : List String) (tasks : List Task)
    → fresh (id ∷ seen) tasks ≤ fresh seen tasks
fresh-cons-le id seen [] = omega arith
fresh-cons-le id seen (t ∷ ts) = ground (arith, fresh-cons-le id seen ts)

-- The head of the rows, unmet, is no longer fresh once it is met.
head-fresh :
    (id : String) (seen : List String) (t : Task) (ts : List Task)
    → t.id ≡ id
    → any (λ s. str_eq s id) seen ≡ false
    → fresh (id ∷ seen) (t ∷ ts) < fresh seen (t ∷ ts)
head-fresh id seen t ts e n =
    let m : any (λ s. str_eq s t.id) seen ≡ false = ap (λ w. any (λ s. str_eq s w) seen) e ∙ n in
    ground (arith, fresh-cons-le id seen ts, eq_iff id t.id)

first-fresh :
    (user_id goal_id id : String) (seen : List String) (tasks : List Task) {t : Task}
    → first (is_live_parent user_id goal_id id) tasks ≡ some t
    → any (λ s. str_eq s id) seen ≡ false
    → fresh (id ∷ seen) tasks < fresh seen tasks
first-fresh user_id goal_id id seen [] h n = cc
first-fresh user_id goal_id id seen (t ∷ ts) h n =
    elim (Bool-cases (is_live_parent user_id goal_id id t)) [
      | inl e ↦ head-fresh id seen t ts (ground (arith, eq_iff t.id id)) n
      | inr e ↦ ground (arith, first-fresh user_id goal_id id seen ts (rw e at h) n)
    ]

live_ancestors-ends :
    (fuel : ℕ) (tasks : List Task) (user_id goal_id : String) (seen : List String)
    (o : Option String)
    → fresh seen tasks < fuel
    → live_ancestors fuel tasks user_id goal_id seen o ≢ err err_unfinished
unfolding live_ancestors
live_ancestors-ends fuel tasks user_id goal_id seen none l h = cc
live_ancestors-ends zero tasks user_id goal_id seen (some id) l h = omega arith
live_ancestors-ends (suc fuel) tasks user_id goal_id seen (some id) l h =
    elim (Bool-cases (any (λ s. str_eq s id) seen)) [
      | inl e ↦ (let h' = rw e at h in cc)
      | inr e ↦ elim (Option-cases (first (is_live_parent user_id goal_id id) tasks)) [
        | inl f ↦ (let h' = rw (e, f) at h in cc)
        | inr (parent, f) ↦
            live_ancestors-ends fuel tasks user_id goal_id (id ∷ seen) parent.parent_id
              (omega (arith, first-fresh user_id goal_id id seen tasks f e)) (rw (e, f) at h)
      ]
    ]

-- The check of a live task always returns: its walk up the parents meets each row at most once.
pub require_live_task_ends :
    (db : Db) (user_id id : String) → require_live_task db user_id id ≢ err err_unfinished
unfolding require_live_task
require_live_task_ends db user_id id h =
    elim (Option-cases (first (is_live_task user_id id) db.tasks)) [
      | inl e ↦ (let h' = rw e at h in cc)
      | inr (task, e) ↦ elim (Option-cases (require_live_goal db.goals user_id task.goal_id)) [
        | inl f ↦ (let h' = rw (e, f) at h in cc)
        | inr (goal, f) ↦
            elim (Result-cases (
              live_ancestors (length db.tasks + 1) db.tasks user_id task.goal_id (task.id ∷ [])
                task.parent_id)) [
                  | inl (u, k) ↦ (let h' = rw (e, f, k) at h in cc)
                  | inr (x, k) ↦
                      live_ancestors-ends (length db.tasks + 1) db.tasks user_id task.goal_id
                        (task.id ∷ []) task.parent_id
                        (omega (arith, fresh-le-length (task.id ∷ []) db.tasks))
                        (k ∙ (let h' = rw (e, f, k) at h in cc))
                ]
      ]
    ]

-- The check of an executable task always returns.
pub task_executable_ends :
    (db : Db) (user_id id : String) → task_executable db user_id id ≢ err err_unfinished
unfolding task_executable
task_executable_ends db user_id id h = elim (Result-cases (require_live_task db user_id id)) [
  | inr (x, e) ↦ require_live_task_ends db user_id id (e ∙ (let h' = rw e at h in cc))
  | inl (task, e) ↦ elim (Option-cases (require_live_goal db.goals user_id task.goal_id)) [
    | inl f ↦ (let h' = rw (e, f) at h in cc)
    | inr (goal, f) ↦ elim (Bool-cases (str_eq goal.status "active")) [
      | inr g ↦ (let h' = rw (e, f, g) at h in cc)
      | inl g ↦
          elim (executable_task_eligibility_decides task (index_of (siblings db.tasks task))) [
            | inl (v, x) ↦ (let h' = rw (e, f, g, v) at h in cc)
            | inr (v, x) ↦ (let h' = rw (e, f, g, v) at h in cc)
          ]
    ]
  ]
]

-- A task may be worked on only if it is stored, belongs to the user and is not deleted; so are all its
-- ancestors, within its goal; its goal is stored, belongs to the user, is not deleted and is active; and the
-- task is executable among all the tasks of its owner and goal, by an index that finds those and no others.
pub task_executable-IsExecutable :
    (db : Db) (user_id id : String)
    → task_executable db user_id id ≡ ok true
    → (task : Task) × (goal : Goal) × (index : Index) × IsLiveTask db.tasks user_id id task
      × LiveChain db.tasks user_id task.goal_id task.parent_id
      × IsLiveGoal db.goals user_id task.goal_id goal
      × (goal.status ≡ "active")
      × IsGoalIndex db.tasks task index
      × IsExecutable task index
unfolding task_executable
task_executable-IsExecutable db user_id id h =
    elim (Result-cases (require_live_task db user_id id)) [
      | inr (x, e) ↦ absurd (let h' = rw e at h in cc)
      | inl (task, e) ↦ elim (Option-cases (require_live_goal db.goals user_id task.goal_id)) [
        | inl f ↦ absurd (let h' = rw (e, f) at h in cc)
        | inr (goal, f) ↦ elim (Bool-cases (str_eq goal.status "active")) [
          | inr g ↦ absurd (let h' = rw (e, f, g) at h in cc)
          | inl g ↦
              elim (executable_task_eligibility_decides task (index_of (siblings db.tasks task))) [
                | inl (v, x) ↦
                    let (live, own, chain) = require_live_task-IsLiveTask db user_id id e in
                    (
                      task,
                      goal,
                      index_of (siblings db.tasks task),
                      live,
                      chain,
                      require_live_goal-IsLiveGoal db.goals user_id task.goal_id f,
                      (eq_iff goal.status "active").0 g,
                      siblings-IsGoalIndex db.tasks task,
                      x,
                    )
                | inr (v, x) ↦ absurd (let h' = rw (e, f, g, v) at h in cc)
              ]
        ]
      ]
    ]

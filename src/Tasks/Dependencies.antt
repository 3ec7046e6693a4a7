-- ===== src/Tasks/Dependencies.antt =====
-- internal/application/taskdependencies.go: the check of a task's prerequisite graph. Recursion takes
-- fuel; `exhausted` and `none` mean that it ran out, which the totality theorem excludes.
pub mod Graph
mod Marks
mod Visit
mod Ends
mod Complete
pub mod Lineage
pub mod Valid
mod Examples
use fast_task.Base.{
  ℕ, zero, suc, ◌+◌, String, Bool, true, false, not, ◌&&◌, ◌||◌, Option, none, some, List, [], ◌∷◌,
  if◌then◌else◌, str_eq, ◌==◌, trim_space, any, all, length, is_none,
}
use fast_task.Tasks.Model.{Task, zero_task, Index, Dict, find}

-- `state`: 1 while a task is being visited, 2 when it is finished, 0 for a key that is missing.
abbrev pub Marks : Type 0
Marks = Dict ℕ

abbrev pub mark : String → Marks → ℕ
mark id [] = 0
mark id ((k, m) ∷ rest) = if str_eq k id then m else mark id rest

pub data Outcome {ℓ} (A : Type ℓ) : Type ℓ where
  passed : A → Outcome A
  failed exhausted : Outcome A

-- The rest of a function that returns false as soon as one of its calls does.
abbrev pub and_then {ℓ κ} : {A : Type ℓ} {B : Type κ} → Outcome A → (A → Outcome B) → Outcome B
and_then (passed a) k = k a
and_then failed k = failed
and_then exhausted k = exhausted

module _ (task : Task) (by_id : Index) where
  unfoldable pub lookup : String → Option Task
  lookup id = if str_eq id task.id then some task else elim (find id by_id) [
    | none ↦ none
    | some node ↦ if str_eq node.id id then some node else none
  ]

  -- The value that a lookup gives where its second result is dropped.
  abbrev pub lookup_or_zero : String → Task
  lookup_or_zero id = elim (lookup id) [ none ↦ zero_task | some node ↦ node ]

  -- A row of another owner or goal, or a deleted one.
  abbrev pub is_foreign : Task → Bool
  is_foreign node =
      not (str_eq node.user_id task.user_id)
      || not (str_eq node.goal_id task.goal_id)
      || not (is_none node.deleted_at)

  module _ (visit_next : String → Marks → Outcome Marks) where
    abbrev pub visit_parent : Option String → Marks → Outcome Marks
    visit_parent none st = passed st
    visit_parent (some parent) st = if str_eq parent "" then failed else visit_next parent st

    -- The loop over `DependsOn`; `seen` holds the entries that it has passed.
    unfoldable pub visit_dependencies : List String → List String → Marks → Outcome Marks
    visit_dependencies seen [] st = passed st
    visit_dependencies seen (d ∷ ds) st =
        if str_eq d "" || not (str_eq (trim_space d) d) || any (λ s. str_eq s d) seen
        then failed
        else and_then (visit_next d st) (λ st'. visit_dependencies (d ∷ seen) ds st')

    -- The body of `visit` for a task that has no mark.
    unfoldable pub visit_node : String → Task → Marks → Outcome Marks
    unfolding visit_dependencies
    visit_node id node st =
        if is_foreign node
        then failed
        else (and_then (visit_parent node.parent_id ((id, 1) ∷ st)) (λ st1.
            and_then (visit_dependencies [] node.depends_on st1) (λ st2. passed ((id, 2) ∷ st2))))

  unfoldable pub visit : ℕ → String → Marks → Outcome Marks
  unfolding lookup visit_node
  visit zero id st = exhausted
  visit (suc fuel) id st =
      if mark id st == 1
      then failed
      else if mark id st == 2
      then passed st
      else elim (lookup id) [ none ↦ failed | some node ↦ visit_node (visit fuel) id node st ]

  -- The IDs of a row and its ancestors.
  unfoldable pub ancestors : ℕ → Task → Option (List String)
  unfolding lookup
  ancestors zero node = none
  ancestors (suc fuel) node = elim node.parent_id [
    | none ↦ some (node.id ∷ [])
    | some parent ↦ elim (ancestors fuel (lookup_or_zero parent)) [
      | none ↦ none
      | some ids ↦ some (node.id ∷ ids)
    ]
  ]

  -- No prerequisite of a visited task is one of the task's own ancestors.
  unfoldable pub avoids : List String → Marks → Bool
  unfolding lookup
  avoids chain st =
      all (λ m. all (λ d. not (any (λ a. str_eq a d) chain)) (lookup_or_zero m.0).depends_on) st

  unfoldable pub graph_valid : ℕ → Option Bool
  unfolding visit ancestors avoids
  graph_valid fuel =
      if str_eq task.id "" || str_eq task.user_id "" || str_eq task.goal_id ""
      then some false
      else elim (visit fuel task.id []) [
        | failed ↦ some false
        | exhausted ↦ none
        | passed st ↦ elim (ancestors fuel task) [
          | none ↦ none
          | some chain ↦ some (avoids chain st)
        ]
      ]

  -- One more than the number of rows bounds the depth of the recursion.
  unfoldable pub task_dependency_graph_valid : Option Bool
  unfolding graph_valid
  task_dependency_graph_valid = graph_valid (length by_id + 2)

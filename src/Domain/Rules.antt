-- ===== src/Domain/Rules.antt =====
-- internal/domain/rules.go. A status or kind is Go's `string`: any text may arrive. `error` is an
-- `Option` of the named error. The theorems stand in the modules below.
pub mod Order
mod Priority
pub mod Admission
pub mod Selection
pub mod Transitions
pub mod CompletionTypes
pub mod Cycles
mod Examples
use fast_task.Base.{
  ℕ, zero, suc, String, Bool, true, false, not, ◌&&◌, ◌||◌, Option, none, some, List, [], ◌∷◌, ℤ,
  ltb_ℤ, if◌then◌else◌, str_eq, str_lt, is_blank, trim_space, split, take, any,
}

pub data Error : Type 0 where
  invalid_transition : Error

pub record Candidate : Type 0 where
  pub id : String
  pub status : String
  pub priority : ℤ
  pub position : ℤ
  pub estimate : ℤ
  pub minimum_action : String
  pub goal_active : Bool
  pub dependency_done : Bool

-- The two tests that skip a candidate, in the order of the loop; `seen` holds the IDs taken so far.
abbrev pub is_skipped : List String → Candidate → Bool
is_skipped seen c =
    str_eq c.id ""
    || any (λ s. str_eq s c.id) seen
    || not c.goal_active
    || not c.dependency_done
    || is_blank c.minimum_action
    || not (str_eq c.status "ready") && not (str_eq c.status "in_progress")

-- The loop over the candidates.
unfoldable pub admitted : List String → List Candidate → List Candidate
admitted seen [] = []
admitted seen (c ∷ cs) = elim (is_skipped seen c) [
  | true ↦ admitted seen cs
  | false ↦ c ∷ admitted (c.id ∷ seen) cs
]

-- The comparison given to the sort: higher priority first, then lower position, then ID.
unfoldable pub precedes : Candidate → Candidate → Bool
precedes a b =
    if ltb_ℤ a.priority b.priority || ltb_ℤ b.priority a.priority
    then ltb_ℤ b.priority a.priority
    else if ltb_ℤ a.position b.position || ltb_ℤ b.position a.position
    then ltb_ℤ a.position b.position
    else str_lt a.id b.id

-- sort.SliceStable: equal elements keep their order, so `x` goes before the first element that does
-- not precede it.
module _ {A : Type 0} (less : A → A → Bool) where
  unfoldable pub insert_sorted : A → List A → List A
  insert_sorted x [] = x ∷ []
  insert_sorted x (y ∷ ys) =
      let rest = insert_sorted x ys in if less y x then y ∷ rest else x ∷ y ∷ ys

  unfoldable pub sort_stable : List A → List A
  unfolding insert_sorted
  sort_stable [] = []
  sort_stable (x ∷ xs) = insert_sorted x (sort_stable xs)

unfoldable pub select_daily_candidates : List Candidate → List Candidate
unfolding admitted precedes sort_stable
select_daily_candidates candidates = take 3 (sort_stable precedes (admitted [] candidates))

-- A map from a status to the set of statuses allowed after it.
abbrev pub Table : Type 0
Table = List (String × List String)

abbrev pub row : String → Table → Option (List String)
row key [] = none
row key ((k, v) ∷ rest) = if str_eq k key then some v else row key rest

abbrev pub goal_table : Table
goal_table =
    ("draft", "active" ∷ "abandoned" ∷ "archived" ∷ [])
    ∷ ("active", "paused" ∷ "completed" ∷ "abandoned" ∷ "archived" ∷ [])
    ∷ ("paused", "active" ∷ "abandoned" ∷ "archived" ∷ [])
    ∷ ("completed", "active" ∷ "archived" ∷ [])
    ∷ ("abandoned", "active" ∷ "archived" ∷ [])
    ∷ ("archived", "active" ∷ [])
    ∷ []

-- A missing row is Go's nil map, which allows nothing.
unfoldable pub validate_goal_transition : String → String → Option Error
validate_goal_transition from to = elim (row from goal_table) [
  | none ↦ some invalid_transition
  | some allowed ↦
      if str_eq from to || any (λ s. str_eq s to) allowed then none else some invalid_transition
]

abbrev pub open_statuses : List String
open_statuses = "ready" ∷ "in_progress" ∷ "blocked" ∷ "paused" ∷ "cancelled" ∷ "superseded" ∷ []

unfoldable pub validate_task_transition : String → String → Option Error
validate_task_transition from to =
    if any (λ s. str_eq s from) open_statuses && any (λ s. str_eq s to) open_statuses
    then none
    else some invalid_transition

unfoldable pub validate_completion_type : String → String → Bool
unfolding split
validate_completion_type value allowed_csv =
    any (λ allowed. str_eq (trim_space allowed) value) (split b',' allowed_csv)

-- The walk of WouldCreateCycle, on fuel: `none` means that it has not stopped. `parents` is Go's map,
-- which gives "" for a missing key.
unfoldable pub walk_parents : ℕ → String → (String → String) → String → Option Bool
walk_parents zero task_id parents current = none
walk_parents (suc fuel) task_id parents current =
    let rest = walk_parents fuel task_id parents (parents current) in
    if str_eq current "" then some false else if str_eq current task_id then some true else rest

unfoldable pub would_create_cycle : ℕ → String → String → (String → String) → Option Bool
unfolding walk_parents
would_create_cycle fuel task_id parent_id parents = walk_parents fuel task_id parents parent_id

abbrev pub external_import_sources : List String
external_import_sources =
    "fastinsight" ∷ "fastnews" ∷ "fastread" ∷ "fastwrite" ∷ "fastppt" ∷ "fastlab" ∷ []

abbrev pub external_import_kinds : List String
external_import_kinds =
    "candidate_task" ∷ "research_material" ∷ "progress_evidence" ∷ "review_issue"
    ∷ "generated_report" ∷ []

unfoldable pub valid_external_import_source : String → Bool
valid_external_import_source value = any (λ s. str_eq s value) external_import_sources

unfoldable pub valid_external_import_kind : String → Bool
valid_external_import_kind value = any (λ s. str_eq s value) external_import_kinds

unfoldable pub validate_external_import_transition : String → String → Option Error
validate_external_import_transition from to =
    if str_eq from "candidate" && (str_eq to "converted" || str_eq to "rejected")
    then none
    else some invalid_transition

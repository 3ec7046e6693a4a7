-- ===== src/Domain/Rules/Transitions.antt =====
-- The status transitions of rules.go, against the state machine that they stand for.
use fast_task.Base.{
  String, true, none, some, List, [], ◌∷◌, ◌≡◌, ◌≢◌, ◌↔◌, ◌⊎◌, inl, inr, refl, sym, ap, ◌∙◌, arith,
  str_eq, eq_iff, any, In, All, Bool-cases, Option-cases, All-In, subst,
}
use fast_task.Domain.Rules.{
  row, Table, goal_table, open_statuses, validate_goal_transition, validate_task_transition,
}

-- The statuses that a goal can have.
pub data GoalStatus : Type 0 where
  draft active paused completed abandoned archived : GoalStatus

abbrev pub name : GoalStatus → String
name draft = "draft"
name active = "active"
name paused = "paused"
name completed = "completed"
name abandoned = "abandoned"
name archived = "archived"

-- The edges of a goal's life.
infix 40 ◌⟶◌
pub data ◌⟶◌ : GoalStatus → GoalStatus → Type 0 where
  start : draft ⟶ active
  pause : active ⟶ paused
  complete : active ⟶ completed
  resume : paused ⟶ active
  reopen : completed ⟶ active
  reconsider : abandoned ⟶ active
  restore : archived ⟶ active
  give_up_draft : draft ⟶ abandoned
  give_up_active : active ⟶ abandoned
  give_up_paused : paused ⟶ abandoned
  archive_draft : draft ⟶ archived
  archive_active : active ⟶ archived
  archive_paused : paused ⟶ archived
  archive_completed : completed ⟶ archived
  archive_abandoned : abandoned ⟶ archived

-- A transition that keeps a known status or follows an edge.
abbrev pub GoalStep : String → String → Type 0
GoalStep from to =
    (s : GoalStatus) × (t : GoalStatus) × (from ≡ name s) × (to ≡ name t) × ((s ≡ t) ⊎ (s ⟶ t))

any-In : (x : String) (xs : List String) → any (λ s. str_eq s x) xs ≡ true → In x xs
any-In x [] h = cc
any-In x (s ∷ xs) h = ground (arith, eq_iff s x, any-In x xs)

In-any : (x : String) (xs : List String) → In x xs → any (λ s. str_eq s x) xs ≡ true
In-any x [] m = absurd m
In-any x (s ∷ xs) m = ground (arith, eq_iff s x, In-any x xs)

In-row :
    (key : String) (table : Table) (v : List String) → row key table ≡ some v → In (key, v) table
In-row key [] v h = cc
In-row key ((k, w) ∷ rest) v h = ground (arith, h, eq_iff k key, In-row key rest v)

abbrev targets : GoalStatus → List String
targets draft = "active" ∷ "abandoned" ∷ "archived" ∷ []
targets active = "paused" ∷ "completed" ∷ "abandoned" ∷ "archived" ∷ []
targets paused = "active" ∷ "abandoned" ∷ "archived" ∷ []
targets completed = "active" ∷ "archived" ∷ []
targets abandoned = "active" ∷ "archived" ∷ []
targets archived = "active" ∷ []

-- Every row of the table is a status with its targets.
abbrev IsRow : String × List String → Type 0
IsRow r = (s : GoalStatus) × (r.0 ≡ name s) × (r.1 ≡ targets s)

goal_table-IsRow : All IsRow goal_table
goal_table-IsRow = (
  (draft, refl, refl),
  (
    (active, refl, refl),
    (
      (paused, refl, refl),
      ((completed, refl, refl), ((abandoned, refl, refl), ((archived, refl, refl), tt))),
    ),
  ),
)

target-⟶ :
    (s : GoalStatus) (to : String) → In to (targets s) → (t : GoalStatus) × (to ≡ name t) × (s ⟶ t)
target-⟶ draft to (inl p) = (active, p, start)
target-⟶ draft to (inr (inl p)) = (abandoned, p, give_up_draft)
target-⟶ draft to (inr (inr (inl p))) = (archived, p, archive_draft)
target-⟶ draft to (inr (inr (inr m))) = elim m [ ]
target-⟶ active to (inl p) = (paused, p, pause)
target-⟶ active to (inr (inl p)) = (completed, p, complete)
target-⟶ active to (inr (inr (inl p))) = (abandoned, p, give_up_active)
target-⟶ active to (inr (inr (inr (inl p)))) = (archived, p, archive_active)
target-⟶ active to (inr (inr (inr (inr m)))) = elim m [ ]
target-⟶ paused to (inl p) = (active, p, resume)
target-⟶ paused to (inr (inl p)) = (abandoned, p, give_up_paused)
target-⟶ paused to (inr (inr (inl p))) = (archived, p, archive_paused)
target-⟶ paused to (inr (inr (inr m))) = elim m [ ]
target-⟶ completed to (inl p) = (active, p, reopen)
target-⟶ completed to (inr (inl p)) = (archived, p, archive_completed)
target-⟶ completed to (inr (inr m)) = elim m [ ]
target-⟶ abandoned to (inl p) = (active, p, reconsider)
target-⟶ abandoned to (inr (inl p)) = (archived, p, archive_abandoned)
target-⟶ abandoned to (inr (inr m)) = elim m [ ]
target-⟶ archived to (inl p) = (active, p, restore)
target-⟶ archived to (inr m) = elim m [ ]

validate-name : (s : GoalStatus) → validate_goal_transition (name s) (name s) ≡ none
unfolding validate_goal_transition
validate-name draft = refl
validate-name active = refl
validate-name paused = refl
validate-name completed = refl
validate-name abandoned = refl
validate-name archived = refl

validate-⟶ : {s t : GoalStatus} → s ⟶ t → validate_goal_transition (name s) (name t) ≡ none
unfolding validate_goal_transition
validate-⟶ start = refl
validate-⟶ _ = refl

accepted-In :
    (from to : String) (allowed : List String)
    → validate_goal_transition from to ≡ none
    → row from goal_table ≡ some allowed
    → (from ≡ to) ⊎ In to allowed
unfolding validate_goal_transition
accepted-In from to allowed h e = ground (arith, h, e, eq_iff from to, any-In to allowed)

accepted-row :
    (from to : String)
    → validate_goal_transition from to ≡ none
    → (allowed : List String) × (row from goal_table ≡ some allowed)
unfolding validate_goal_transition
accepted-row from to h = elim (Option-cases (row from goal_table)) [
  | inl e ↦ absurd (ground (arith, h, e))
  | inr r ↦ r
]

GoalStep-of_accepted :
    (from to : String) → validate_goal_transition from to ≡ none → GoalStep from to
GoalStep-of_accepted from to h =
    let (allowed, e) = accepted-row from to h in
    let (s, p, q) =
      All-In IsRow (from, allowed) goal_table goal_table-IsRow (In-row from goal_table allowed e) in
    elim (accepted-In from to allowed h e) [
      | inl d ↦ (s, s, p, sym d ∙ p, inl refl)
      | inr m ↦ let (t, r, edge) = target-⟶ s to (subst (In to) q m) in (s, t, p, r, inr edge)
    ]

accepted_of_GoalStep :
    (from to : String) → GoalStep from to → validate_goal_transition from to ≡ none
accepted_of_GoalStep from to (s, t, p, q, inl e) =
    rw (p, q) (subst (λ x. validate_goal_transition (name s) (name x) ≡ none) e (validate-name s))
accepted_of_GoalStep from to (s, t, p, q, inr edge) = rw (p, q) (validate-⟶ edge)

-- A goal transition is accepted exactly when it keeps one of the six statuses or follows an edge of
-- the goal's life; any other text on either side is refused.
pub validate_goal_transition_iff :
    (from to : String) → (validate_goal_transition from to ≡ none) ↔ GoalStep from to
validate_goal_transition_iff from to = (GoalStep-of_accepted from to, accepted_of_GoalStep from to)

-- A run of accepted changes, from one status to another.
pub data GoalRun (from : String) : String → Type 0 where
  stay : GoalRun from from
  and_then :
      {mid to : String}
      → GoalRun from mid
      → validate_goal_transition mid to ≡ none
      → GoalRun from to

⟶-ne-draft : {s t : GoalStatus} → s ⟶ t → t ≢ draft
⟶-ne-draft start = λ e. cc
⟶-ne-draft _ = λ e. cc

draft_of_name : (t : GoalStatus) → name t ≡ "draft" → t ≡ draft
draft_of_name draft e = refl
draft_of_name active e = cc ((eq_iff "active" "draft").1 e)
draft_of_name paused e = cc ((eq_iff "paused" "draft").1 e)
draft_of_name completed e = cc ((eq_iff "completed" "draft").1 e)
draft_of_name abandoned e = cc ((eq_iff "abandoned" "draft").1 e)
draft_of_name archived e = cc ((eq_iff "archived" "draft").1 e)

step_into_draft : (from to : String) → GoalStep from to → to ≡ "draft" → from ≡ "draft"
step_into_draft from to (s, t, p, q, inl e) d = p ∙ ap name e ∙ sym q ∙ d
step_into_draft from to (s, t, p, q, inr edge) d =
    absurd (⟶-ne-draft edge (draft_of_name t (sym q ∙ d)))

run_into_draft : {from to : String} → GoalRun from to → to ≡ "draft" → from ≡ "draft"
run_into_draft stay d = d
run_into_draft (and_then {mid = m} {to = t} r h) d =
    run_into_draft r (step_into_draft m t (GoalStep-of_accepted m t h) d)

-- From a goal that is not a draft, no run of accepted changes leads to the draft status.
pub GoalRun-draft : {from to : String} → GoalRun from to → from ≢ "draft" → ¬ (to ≡ "draft")
GoalRun-draft r n d = n (run_into_draft r d)

all_In : (x : String) → any (λ s. str_eq s x) open_statuses ≡ true → x ≢ "completed"
all_In x h p = cc (subst (λ y. any (λ s. str_eq s y) open_statuses ≡ true) p h)

task_parts :
    (from to : String)
    → validate_task_transition from to ≡ none
    → (any (λ s. str_eq s from) open_statuses ≡ true)
      × (any (λ s. str_eq s to) open_statuses ≡ true)
unfolding validate_task_transition
task_parts from to h = elim (Bool-cases (any (λ s. str_eq s from) open_statuses)) [
  | inl a ↦ elim (Bool-cases (any (λ s. str_eq s to) open_statuses)) [
    | inl b ↦ (a, b)
    | inr b ↦ cc (rw (a, b) at h)
  ]
  | inr a ↦ cc (rw a at h)
]

-- The statuses that an edit of a task may leave and reach.
pub data TaskStatus : String → Type 0 where
  ready : TaskStatus "ready"
  in_progress : TaskStatus "in_progress"
  blocked : TaskStatus "blocked"
  on_hold : TaskStatus "paused"
  cancelled : TaskStatus "cancelled"
  superseded : TaskStatus "superseded"

In-open_TaskStatus : (x : String) → In x open_statuses → TaskStatus x
In-open_TaskStatus x (inl e) = subst TaskStatus (sym e) ready
In-open_TaskStatus x (inr (inl e)) = subst TaskStatus (sym e) in_progress
In-open_TaskStatus x (inr (inr (inl e))) = subst TaskStatus (sym e) blocked
In-open_TaskStatus x (inr (inr (inr (inl e)))) = subst TaskStatus (sym e) on_hold
In-open_TaskStatus x (inr (inr (inr (inr (inl e))))) = subst TaskStatus (sym e) cancelled
In-open_TaskStatus x (inr (inr (inr (inr (inr (inl e)))))) = subst TaskStatus (sym e) superseded
In-open_TaskStatus x (inr (inr (inr (inr (inr (inr m)))))) = elim m [ ]

TaskStatus-In_open : {x : String} → TaskStatus x → In x open_statuses
TaskStatus-In_open ready = inl refl
TaskStatus-In_open in_progress = inr (inl refl)
TaskStatus-In_open blocked = inr (inr (inl refl))
TaskStatus-In_open on_hold = inr (inr (inr (inl refl)))
TaskStatus-In_open cancelled = inr (inr (inr (inr (inl refl))))
TaskStatus-In_open superseded = inr (inr (inr (inr (inr (inl refl)))))

-- A task edit is accepted exactly between the six open statuses; so an edit never touches a completed
-- task and never completes one.
pub validate_task_transition_iff :
    (from to : String)
    → ((validate_task_transition from to ≡ none) ↔ (TaskStatus from × TaskStatus to))
      × (validate_task_transition from to ≡ none → (from ≢ "completed") × (to ≢ "completed"))
validate_task_transition_iff from to = (
  (
    λ h.
        let (a, b) = task_parts from to h in
        (
          In-open_TaskStatus from (any-In from open_statuses a),
          In-open_TaskStatus to (any-In to open_statuses b),
        ),
    λ m.
        unfold validate_task_transition in
        rw (
          In-any from open_statuses (TaskStatus-In_open m.0),
          In-any to open_statuses (TaskStatus-In_open m.1),
        ),
  ),
  λ h. let (a, b) = task_parts from to h in (all_In from a, all_In to b),
)

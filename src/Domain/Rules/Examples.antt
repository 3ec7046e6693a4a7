-- ===== src/Domain/Rules/Examples.antt =====
-- Tests of rules.go on concrete inputs, and its theorems at them.
use fast_task.Base.{
  String, true, false, none, some, List, [], ◌∷◌, ◌≡◌, ◌≢◌, ◌↔◌, ◌⊎◌, inl, inr, refl, arith, pos,
  negsuc, ℤ, str_eq, eq_iff, In, All, map, length, trim_space, if◌then◌else◌, Bool-cases,
}
use fast_task.Domain.Rules.{
  Candidate, precedes, select_daily_candidates, validate_goal_transition, validate_task_transition,
  validate_completion_type, would_create_cycle, invalid_transition,
}
use fast_task.Domain.Rules.Admission.{IsQualified}
use fast_task.Domain.Rules.Selection.{
  IsSelection, select_daily_candidates-IsSelection, select_daily_candidates-best,
}
use fast_task.Domain.Rules.Transitions.{
  GoalStep, GoalRun, stay, and_then, validate_goal_transition_iff, GoalRun-draft, TaskStatus,
  validate_task_transition_iff,
}
use fast_task.Domain.Rules.CompletionTypes.{join, validate_completion_type-join}
use fast_task.Domain.Rules.Cycles.{
  Rooted, root, up, OnChain, moved, would_create_cycle-OnChain, would_create_cycle-Rooted,
}

abbrev candidate : String → ℤ → ℤ → Candidate
candidate id priority position = record {
  id = id;
  status = "ready";
  priority = priority;
  position = position;
  estimate = pos 25;
  minimum_action = "open the draft";
  goal_active = true;
  dependency_done = true;
}

abbrev pool : List Candidate
pool =
    candidate "d" (pos 10) (pos 4)
    ∷ candidate "b" (pos 80) (pos 2)
    ∷ candidate "a" (pos 80) (pos 2)
    ∷ candidate "c" (negsuc 4) (pos 0)
    ∷ []

selects : map (λ c. c.id) (select_daily_candidates pool) ≡ "a" ∷ "b" ∷ "d" ∷ []
unfolding select_daily_candidates trim_space
selects = refl

select_daily_candidates-IsSelection_example : IsSelection pool (select_daily_candidates pool)
select_daily_candidates-IsSelection_example = select_daily_candidates-IsSelection pool

ne : (s t : String) → str_eq s t ≡ false → s ≢ t
ne s t h e = cc (h, (eq_iff s t).1 e)

qualified : IsQualified (candidate "c" (negsuc 4) (pos 0))
qualified = record {
  named = ne "c" "" refl;
  goal = refl;
  dependencies = refl;
  action = unfold trim_space in refl;
  is_open = inl refl;
}

select_daily_candidates-best_example :
    let out = select_daily_candidates pool in
    In (candidate "c" (negsuc 4) (pos 0)) out
    ⊎ ((length out ≡ 3) × All (λ d. precedes (candidate "c" (negsuc 4) (pos 0)) d ≡ false) out)
select_daily_candidates-best_example =
    select_daily_candidates-best (candidate "c" (negsuc 4) (pos 0)) pool
      (
        (ne "b" "d" refl, (ne "a" "d" refl, (ne "c" "d" refl, tt))),
        ((ne "a" "b" refl, (ne "c" "b" refl, tt)), ((ne "c" "a" refl, tt), (tt, tt))),
      )
      qualified (inr (inr (inr (inl refl))))

refuses : validate_goal_transition "draft" "completed" ≡ some invalid_transition
unfolding validate_goal_transition
refuses = refl

validate_goal_transition_iff_example :
    (validate_goal_transition "paused" "completed" ≡ none) ↔ GoalStep "paused" "completed"
validate_goal_transition_iff_example = validate_goal_transition_iff "paused" "completed"

restored : GoalRun "archived" "paused"
unfolding validate_goal_transition
restored = and_then {mid = "active"} (and_then stay refl) refl

archived_is_no_draft : ◌≢◌ {A = String} "archived" "draft"
archived_is_no_draft e = cc ((eq_iff "archived" "draft").1 e)

GoalRun-draft_example : ¬ (◌≡◌ {A = String} "paused" "draft")
GoalRun-draft_example = GoalRun-draft restored archived_is_no_draft

validate_task_transition_iff_example :
    ((validate_task_transition "completed" "ready" ≡ none)
      ↔ (TaskStatus "completed" × TaskStatus "ready"))
    × (validate_task_transition "completed" "ready" ≡ none
        → (◌≢◌ {A = String} "completed" "completed") × (◌≢◌ {A = String} "ready" "completed"))
validate_task_transition_iff_example = validate_task_transition_iff "completed" "ready"

validate_completion_type-join_example :
    (validate_completion_type "step" (join "result" (" step" ∷ "time" ∷ [])) ≡ true)
    ↔ In "step" (map trim_space ("result" ∷ " step" ∷ "time" ∷ []))
validate_completion_type-join_example =
    validate_completion_type-join "step" "result" (" step" ∷ "time" ∷ []) (omega arith)
      (omega arith)

-- A tree with the root "r", its child "m" and its grandchild "l".
abbrev tree : String → String
tree id = if str_eq id "l" then "m" else if str_eq id "m" then "r" else ""

chain : Rooted tree "m"
chain = up (ne "m" "" refl) (up (ne "r" "" refl) (root refl))

tree-Rooted : (id : String) → Rooted tree id
tree-Rooted id = elim (Bool-cases (str_eq id "")) [
  | inl e ↦ root ((eq_iff id "").0 e)
  | inr e ↦
      let n : id ≢ "" = λ p. cc (e, (eq_iff id "").1 p) in
      elim (Bool-cases (str_eq id "l")) [
        | inl l ↦ up n (rw l chain)
        | inr l ↦ elim (Bool-cases (str_eq id "m")) [
          | inl m ↦ up n (rw (l, m) (up (ne "r" "" refl) (root refl)))
          | inr m ↦ up n (rw (l, m) (root refl))
        ]
      ]
]

would_create_cycle-OnChain_example :
    ((would_create_cycle 5 "l" "m" tree ≡ some true) × OnChain tree "l" "m")
    ⊎ ((would_create_cycle 5 "l" "m" tree ≡ some false) × (¬ OnChain tree "l" "m"))
unfolding chain
would_create_cycle-OnChain_example = would_create_cycle-OnChain "l" tree 5 "m" chain (omega arith)

would_create_cycle-Rooted_example : Rooted (moved tree "l" "r") "l"
unfolding would_create_cycle
would_create_cycle-Rooted_example = would_create_cycle-Rooted "l" tree "r" 5 refl tree-Rooted "l"

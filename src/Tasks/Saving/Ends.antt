-- ===== src/Tasks/Saving/Ends.antt =====
-- The check of a task before it is saved always gives a verdict: its searches end with the fuel they are
-- given.
use fast_task.Base.{
  ℕ, zero, suc, ◌+◌, ◌≤◌, ◌<◌, String, Bool, true, false, not, ◌||◌, Option, none, some, List, [],
  ◌∷◌, ◌≡◌, ◌≢◌, ◌⊎◌, refl, ◌∙◌, ap, arith, if◌then◌else◌, str_eq, any, length, is_none, Bool-cases,
  Option-cases, eq_iff, inl, inr,
}
use fast_task.Plans.Model.{Goal}
use fast_task.Tasks.Model.{Task, Index, find}
use fast_task.Tasks.Dependencies.Valid.{task_dependency_graph_valid_decides}
use fast_task.Tasks.Saving.{
  require_live_goal, siblings, index_with, any_reaches, reaches_candidate, row_passes, rows_pass,
  validate_task_dependencies, unfinished,
}

-- The entries whose keys the search has not met.
abbrev fresh : List String → Index → ℕ
fresh seen [] = 0
fresh seen ((key, task) ∷ rest) =
    if any (λ s. str_eq s key) seen then fresh seen rest else suc (fresh seen rest)

fresh-le-length : (seen : List String) (by_id : Index) → fresh seen by_id ≤ length by_id
fresh-le-length seen [] = omega arith
fresh-le-length seen ((key, task) ∷ rest) = ground (arith, fresh-le-length seen rest)

fresh-cons-le :
    (id : String) (seen : List String) (by_id : Index) → fresh (id ∷ seen) by_id ≤ fresh seen by_id
fresh-cons-le id seen [] = omega arith
fresh-cons-le id seen ((key, task) ∷ rest) = ground (arith, fresh-cons-le id seen rest)

find-fresh :
    (id : String) (seen : List String) (by_id : Index) {node : Task}
    → find id by_id ≡ some node
    → any (λ s. str_eq s id) seen ≡ false
    → fresh (id ∷ seen) by_id < fresh seen by_id
find-fresh id seen [] h n = cc
find-fresh id seen ((key, task) ∷ rest) h n = elim (Bool-cases (str_eq key id)) [
  | inl e ↦
      let k = (eq_iff key id).0 e in
      let m : any (λ s. str_eq s key) seen ≡ false = ap (λ w. any (λ s. str_eq s w) seen) k ∙ n in
      ground (arith, fresh-cons-le id seen rest, eq_iff id key)
  | inr e ↦ ground (arith, find-fresh id seen rest (rw e at h) n)
]

module _ (task : Task) (by_id : Index) where
  -- A search that answers, and forgets nothing that it has met.
  abbrev Answers : Option (Bool × List String) → List String → Type 0
  Answers result seen =
      (b : Bool) × (seen' : List String) × (result ≡ some (b, seen'))
      × (fresh seen' by_id ≤ fresh seen by_id)

  Answers-cases :
      (result : Option (Bool × List String)) (seen : List String)
      → Answers result seen
      → ((seen' : List String) × (result ≡ some (true, seen'))
          × (fresh seen' by_id ≤ fresh seen by_id))
        ⊎ ((seen' : List String) × (result ≡ some (false, seen'))
            × (fresh seen' by_id ≤ fresh seen by_id))
  Answers-cases result seen (true, seen', e, l) = inl (seen', e, l)
  Answers-cases result seen (false, seen', e, l) = inr (seen', e, l)

  any_reaches-Answers :
      (next : String → List String → Option (Bool × List String)) (bound : ℕ)
      → ((d : String) (seen : List String) → fresh seen by_id ≤ bound → Answers (next d seen) seen)
      → (ds seen : List String) → fresh seen by_id ≤ bound
      → Answers (any_reaches task by_id next ds seen) seen
  unfolding any_reaches
  any_reaches-Answers next bound f [] seen h = (false, seen, refl, omega arith)
  any_reaches-Answers next bound f (d ∷ ds) seen h = elim (Answers-cases _ _ (f d seen h)) [
    | inl (seen', e, l) ↦ (true, seen', rw (any_reaches, e), l)
    | inr (seen', e, l) ↦
        let (b, last, e', l') = any_reaches-Answers next bound f ds seen' (omega (arith, l)) in
        (b, last, rw (any_reaches, e) e', omega (arith, l, l'))
  ]

  reaches_candidate-Answers :
      (fuel : ℕ) (id : String) (seen : List String)
      → fresh seen by_id < fuel
      → Answers (reaches_candidate task by_id fuel id seen) seen
  unfolding reaches_candidate
  reaches_candidate-Answers zero id seen h = absurd (omega arith)
  reaches_candidate-Answers (suc fuel) id seen h = elim (Bool-cases (str_eq id task.id)) [
    | inl e ↦ (true, seen, rw (reaches_candidate, e), omega arith)
    | inr e ↦ elim (Bool-cases (any (λ s. str_eq s id) seen)) [
      | inl m ↦ (false, seen, rw (reaches_candidate, e, m), omega arith)
      | inr m ↦ elim (Option-cases (find id by_id)) [
        | inl f ↦ (false, id ∷ seen, rw (reaches_candidate, e, m, f), fresh-cons-le id seen by_id)
        | inr (node, f) ↦
            let less = find-fresh id seen by_id f m in
            let deps =
              λ (bound : ℕ) (l : bound < fuel) (s : List String) (k : fresh s by_id ≤ bound).
                any_reaches-Answers (reaches_candidate task by_id fuel) bound
                  (λ d s' k'. reaches_candidate-Answers fuel d s' (omega (arith, k', l)))
                  node.depends_on s k in
            elim (Option-cases node.parent_id) [
              | inl g ↦
                  let (b, last, e', l') =
                    deps (fresh (id ∷ seen) by_id) (omega (arith, less, h)) (id ∷ seen)
                      (omega arith) in
                  (b, last, rw (reaches_candidate, e, m, f, g) e', omega (arith, l', less))
              | inr (parent, g) ↦
                  elim (Answers-cases (reaches_candidate task by_id fuel parent (id ∷ seen))
                    (id ∷ seen)
                    (reaches_candidate-Answers fuel parent (id ∷ seen) (omega (arith, less, h)))) [
                      | inl (seen', e', l') ↦ (
                        true,
                        seen',
                        rw (reaches_candidate, e, m, f, g, e'),
                        omega (arith, l', less),
                      )
                      | inr (seen', e', l') ↦
                          let (b, last, e2, l2) =
                            deps (fresh (id ∷ seen) by_id) (omega (arith, less, h)) seen' l' in
                          (
                            b,
                            last,
                            rw (reaches_candidate, e, m, f, g, e') e2,
                            omega (arith, l2, l', less),
                          )
                    ]
            ]
      ]
    ]
  ]

  row_passes_ends : (current : Task) → row_passes task by_id current ≢ none
  unfolding row_passes
  row_passes_ends current h =
      elim (Bool-cases (str_eq current.id task.id || not (is_none current.deleted_at))) [
        | inl e ↦ (let h' = rw (row_passes, e) at h in cc)
        | inr e ↦
            elim (Answers-cases (reaches_candidate task by_id (length by_id + 2) current.id []) [] (
              reaches_candidate-Answers (length by_id + 2) current.id []
                (omega (arith, fresh-le-length [] by_id)))) [
                  | inr (seen, f, l) ↦ (let h' = rw (row_passes, e, f) at h in cc)
                  | inl (seen, f, l) ↦ elim (task_dependency_graph_valid_decides current by_id) [
                    | inl (v, x) ↦ (let h' = rw (row_passes, e, f, v) at h in cc)
                    | inr (v, x) ↦ (let h' = rw (row_passes, e, f, v) at h in cc)
                  ]
                ]
      ]

  rows_pass_ends : (rows : List Task) → rows_pass task by_id rows ≢ none
  unfolding rows_pass
  rows_pass_ends [] h = cc
  rows_pass_ends (current ∷ rest) h = elim (Option-cases (row_passes task by_id current)) [
    | inl e ↦ row_passes_ends current e
    | inr (true, e) ↦ rows_pass_ends rest (rw (rows_pass, e) at h)
    | inr (false, e) ↦ (let h' = rw (rows_pass, e) at h in cc)
  ]

-- The check of a task before it is saved always gives a verdict, whatever the tasks of its goal refer to.
pub validate_task_dependencies_ends :
    (goals : List Goal) (rows : List Task) (task : Task)
    → validate_task_dependencies goals rows task ≢ unfinished
unfolding validate_task_dependencies
validate_task_dependencies_ends goals rows task h =
    let by_id = index_with task (siblings rows task) in
    elim (Option-cases (require_live_goal goals task.user_id task.goal_id)) [
      | inl e ↦ (let h' = rw (validate_task_dependencies, e) at h in cc)
      | inr (goal, e) ↦ elim (task_dependency_graph_valid_decides task by_id) [
        | inr (v, x) ↦ (let h' = rw (validate_task_dependencies, e, v) at h in cc)
        | inl (v, x) ↦ elim (Option-cases (rows_pass task by_id (siblings rows task))) [
          | inl f ↦ rows_pass_ends task by_id (siblings rows task) f
          | inr (true, f) ↦ (let h' = rw (validate_task_dependencies, e, v, f) at h in cc)
          | inr (false, f) ↦ (let h' = rw (validate_task_dependencies, e, v, f) at h in cc)
        ]
      ]
    ]

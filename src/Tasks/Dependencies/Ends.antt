-- ===== src/Tasks/Dependencies/Ends.antt =====
-- The search ends within its fuel: each nested visit marks one more of finitely many tasks.
use fast_task.Base.{
  ℕ, zero, suc, ◌<◌, String, ◌≡◌, ◌≢◌, ◌⊎◌, inl, inr, Option, none, some, List, [], ◌∷◌, arith,
  refl, str_eq, ◌==◌, Bool-cases, Option-cases, trim_space, any, not, ◌||◌,
}
use fast_task.Tasks.Model.{Task, Index}
use fast_task.Tasks.Dependencies.{
  Marks, mark, Outcome, passed, failed, exhausted, lookup, is_foreign, visit_parent,
  visit_dependencies, visit_node, visit,
}
use fast_task.Tasks.Dependencies.Graph.{universe, lookup-In}
use fast_task.Tasks.Dependencies.Marks.{white, white_mono, white-start}
use fast_task.Tasks.Dependencies.Visit.{Inv, Post, parent-PostParent}
use fast_task.Tasks.Dependencies.Visit.Node.{visit-Post, started-Inv}

pub Outcome-cases :
    {A : Type 0} (o : Outcome A) → ((a : A) × (o ≡ passed a)) ⊎ ((o ≡ failed) ⊎ (o ≡ exhausted))
Outcome-cases (passed a) = inl (a, refl)
Outcome-cases failed = inr (inl refl)
Outcome-cases exhausted = inr (inr refl)

module _ (task : Task) (by_id : Index) where
  module _ (fuel : ℕ)
      (ends : (d : String) (st : Marks)
        → Inv task by_id st
        → white (universe task by_id) st < fuel
        → visit task by_id fuel d st ≢ exhausted) where
    fewer :
        (d : String) (st st' : Marks)
        → Post task by_id d st st'
        → white (universe task by_id) st < fuel
        → white (universe task by_id) st' < fuel
    fewer d st st' p h = omega (arith, white_mono st st' (universe task by_id) p.after.seen)

    dependencies_end :
        (seen ds : List String) (st : Marks)
        → Inv task by_id st
        → white (universe task by_id) st < fuel
        → visit_dependencies task by_id (visit task by_id fuel) seen ds st ≢ exhausted
    unfolding visit_dependencies
    dependencies_end seen [] st i h e = cc
    dependencies_end seen (d ∷ ds) st i h e =
        elim (Bool-cases
          (str_eq d "" || not (str_eq (trim_space d) d) || any (λ s. str_eq s d) seen)) [
            | inl t ↦ cc (rw t at e)
            | inr t ↦ elim (Outcome-cases (visit task by_id fuel d st)) [
              | inl (st', p) ↦
                  let post = visit-Post task by_id fuel d st st' i p in
                  dependencies_end (d ∷ seen) ds st' post.inv (fewer d st st' post h)
                    (rw (t, p) at e)
              | inr (inl p) ↦ cc (rw (t, p) at e)
              | inr (inr p) ↦ ends d st i h p
            ]
          ]

    parent_ends :
        (p : Option String) (st : Marks)
        → Inv task by_id st
        → white (universe task by_id) st < fuel
        → visit_parent task by_id (visit task by_id fuel) p st ≢ exhausted
    parent_ends none st i h e = cc
    parent_ends (some q) st i h e = elim (Bool-cases (str_eq q "")) [
      | inl t ↦ cc (rw t at e)
      | inr t ↦ ends q st i h (rw t at e)
    ]

    node_ends :
        (id : String) (node : Task) (st : Marks)
        → Inv task by_id st
        → mark id st ≡ 0
        → lookup task by_id id ≡ some node
        → white (universe task by_id) st < suc fuel
        → visit_node task by_id (visit task by_id fuel) id node st ≢ exhausted
    unfolding visit_node
    node_ends id node st i w f h e = elim (Bool-cases (is_foreign task by_id node)) [
      | inl t ↦ cc (rw t at e)
      | inr t ↦
          elim (Outcome-cases
            (visit_parent task by_id (visit task by_id fuel) node.parent_id ((id, 1) ∷ st))) [
              | inl (mid, p) ↦
                  let up =
                    parent-PostParent task by_id (visit task by_id fuel)
                      (visit-Post task by_id fuel) node.parent_id ((id, 1) ∷ st) mid start p in
                  elim (Outcome-cases (
                    visit_dependencies task by_id (visit task by_id fuel) [] node.depends_on mid)) [
                      | inl (last, q) ↦ cc (rw (t, p, q) at e)
                      | inr (inl q) ↦ cc (rw (t, p, q) at e)
                      | inr (inr q) ↦
                          dependencies_end [] node.depends_on mid up.inv
                            (omega (
                              arith,
                              less,
                              white_mono ((id, 1) ∷ st) mid (universe task by_id) up.after.seen,
                            ))
                            q
                    ]
              | inr (inl p) ↦ cc (rw (t, p) at e)
              | inr (inr p) ↦ parent_ends node.parent_id ((id, 1) ∷ st) start less p
            ]
    ]
      where
        start : Inv task by_id ((id, 1) ∷ st)
        start =
            started-Inv task by_id (visit task by_id fuel) (visit-Post task by_id fuel) id node st i
              w

        less : white (universe task by_id) ((id, 1) ∷ st) < fuel
        less =
            omega
              (arith, h, white-start id st (universe task by_id) (lookup-In task by_id id node f) w)

  -- With more fuel than there are tasks without a mark, a visit does not run out of it.
  pub visit_ends :
      (fuel : ℕ) (id : String) (st : Marks)
      → Inv task by_id st
      → white (universe task by_id) st < fuel
      → visit task by_id fuel id st ≢ exhausted
  unfolding visit
  visit_ends zero id st i h e = absurd (omega arith)
  visit_ends (suc fuel) id st i h e = elim (Bool-cases (mark id st == 1)) [
    | inl a ↦ cc (rw a at e)
    | inr a ↦ elim (Bool-cases (mark id st == 2)) [
      | inl b ↦ cc (rw (a, b) at e)
      | inr b ↦ elim (Option-cases (lookup task by_id id)) [
        | inl n ↦ absurd (ground (arith, e, a, b, n))
        | inr (node, f) ↦
            node_ends fuel (visit_ends fuel) id node st i (ground (arith, a, b, i.range id)) f h
              (ground (arith, e, a, b, f))
      ]
    ]
  ]

-- ===== src/Tasks/Eligibility/Decides.antt =====
-- executableTaskEligibility decides whether a task can be worked on.
use fast_task.Base.{
  ℕ, zero, suc, ◌+◌, ◌≤◌, String, true, false, ◌≡◌, ◌⊎◌, inl, inr, none, some, arith, refl, eq_iff,
  Bool-cases, Option-cases, some_eq, subst, sym, ap, ◌∙◌, length,
}
use fast_task.Tasks.Model.{Task, Index}
use fast_task.Tasks.Dependencies.{lookup}
use fast_task.Tasks.Dependencies.Graph.{
  Grounded, Above, self, higher, IsValidGraph, lookup-id, lookup-task,
}
use fast_task.Tasks.Dependencies.Lineage.{parent_found}
use fast_task.Tasks.Dependencies.Valid.{task_dependency_graph_valid_decides, valid_depth}
use fast_task.Tasks.Eligibility.{is_open, ancestors_open, executable_task_eligibility}
use fast_task.Tasks.Eligibility.Prerequisites.{row_of-lookup, Satisfied, prerequisites_decide}

module _ (task : Task) (by_id : Index) where
  -- A status in which work may go on.
  abbrev pub IsOpen : Task → Type 0
  IsOpen node = (node.status ≡ "ready") ⊎ (node.status ≡ "in_progress")

  -- A task that may be scheduled or started.
  pub record IsExecutable : Type 0 where
    pub graph : IsValidGraph task by_id
    pub chain :
        (id : String) (node : Task)
        → Above task by_id id task
        → lookup task by_id id ≡ some node
        → IsOpen node
    pub prerequisites : Satisfied task by_id task.id

  abbrev OpenChain : Task → Type 0
  OpenChain node =
      (id : String) (above : Task)
      → Above task by_id id node
      → lookup task by_id id ≡ some above
      → IsOpen above

  ancestors_decide :
      (fuel n : ℕ) (id : String) (node : Task)
      → n ≤ fuel
      → Grounded task by_id n id
      → lookup task by_id id ≡ some node
      → ((ancestors_open task by_id fuel node ≡ some true) × OpenChain node)
        ⊎ ((ancestors_open task by_id fuel node ≡ some false) × (¬ OpenChain node))
  unfolding ancestors_open
  ancestors_decide fuel zero id node h g e = elim g [ ]
  ancestors_decide zero (suc n) id node h g e = absurd (omega arith)
  ancestors_decide (suc fuel) (suc n) id node h g e = elim (Bool-cases (is_open task by_id node)) [
    | inr t ↦ inr (
      rw t,
      λ all. absurd (
          ground (
            arith,
            t,
            all node.id node (self refl) at_self,
            eq_iff node.status "ready",
            eq_iff node.status "in_progress",
          )),
    )
    | inl t ↦ elim (Option-cases node.parent_id) [
      | inl none_above ↦ inl (ground (arith, t, none_above), only_self t none_above)
      | inr (p, q) ↦
          let (above, f, k) = parent_found task by_id node g e q in
          elim (ancestors_decide fuel n p above (omega arith) k f) [
            | inl (r, all) ↦
                inl (ground (arith, t, q, r, row_of-lookup task by_id p above f), join t q f all)
            | inr (r, no_way) ↦ inr (
              ground (arith, t, q, r, row_of-lookup task by_id p above f),
              λ all. no_way (λ i x a. all i x (higher above q f a)),
            )
          ]
    ]
  ]
    where
      at_self : lookup task by_id node.id ≡ some node
      at_self =
          subst (λ x. lookup task by_id x ≡ some node) (sym (lookup-id task by_id id node e)) e

      open_self :
          is_open task by_id node ≡ true
          → (i : String) (x : Task) → i ≡ node.id
          → lookup task by_id i ≡ some x
          → IsOpen x
      open_self t i x q f =
          let same = some_eq (sym at_self ∙ (ap (lookup task by_id) (sym q) ∙ f)) in
          subst IsOpen same
            (ground (arith, t, eq_iff node.status "ready", eq_iff node.status "in_progress"))

      only_self : is_open task by_id node ≡ true → node.parent_id ≡ none → OpenChain node
      only_self t n i x (self q) f = open_self t i x q f
      only_self t n i x (higher above q g a) f = absurd (ground (arith, n, q))

      join :
          {p : String} {above : Task}
          → is_open task by_id node ≡ true
          → node.parent_id ≡ some p
          → lookup task by_id p ≡ some above
          → OpenChain above
          → OpenChain node
      join t q f all i x (self r) g = open_self t i x r g
      join t q f all i x (higher above' q' f' a) g =
          let same = some_eq (sym f' ∙ (ap (lookup task by_id) (some_eq (sym q' ∙ q)) ∙ f)) in
          all i x (subst (Above task by_id i) same a) g

  -- The qualification always returns. It returns true exactly when the prerequisite graph is valid, the
  -- task and all its ancestors are ready or in progress, and every prerequisite of every task that it
  -- reaches by parents and prerequisites is completed.
  pub executable_task_eligibility_decides :
      ((executable_task_eligibility task by_id ≡ some true) × IsExecutable)
      ⊎ ((executable_task_eligibility task by_id ≡ some false) × (¬ IsExecutable))
  unfolding executable_task_eligibility
  executable_task_eligibility_decides = elim (task_dependency_graph_valid_decides task by_id) [
    | inr (v, no_way) ↦ inr (ground (arith, v), λ x. no_way x.graph)
    | inl (v, graph) ↦
        let (n, h, g) = valid_depth task by_id v in
        elim (ancestors_decide (length by_id + 2) n task.id task h g (lookup-task task by_id)) [
          | inr (a, no_way) ↦ inr (ground (arith, v, a), λ x. no_way x.chain)
          | inl (a, chain) ↦
              elim (prerequisites_decide task by_id (length by_id + 2) n h g
                (lookup-task task by_id)) [
                  | inr (p, no_way) ↦ inr (ground (arith, v, a, p), λ x. no_way x.prerequisites)
                  | inl (c, p, s) ↦ inl (
                    ground (arith, v, a, p),
                    record { graph = graph; chain = chain; prerequisites = s },
                  )
                ]
        ]
  ]

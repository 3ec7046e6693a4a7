-- ===== src/Tasks/Eligibility/Prerequisites.antt =====
-- What the memoised walk over the prerequisites decides.
use fast_task.Base.{
  ℕ, zero, suc, ◌≤◌, String, true, ◌≡◌, ◌⊎◌, inl, inr, Option, none, some, List, [], ◌∷◌, In, arith,
  refl, str_eq, eq_iff, Bool-cases, Option-cases, some_eq, subst, sym, ap, ◌∙◌, any,
}
use fast_task.Tasks.Model.{Task, Index, find}
use fast_task.Tasks.Dependencies.{Outcome, passed, failed, lookup}
use fast_task.Tasks.Dependencies.Graph.{
  Successor, Grounded, Grounded-next, Reach, here, next, Reach-first, lookup-id,
}
use fast_task.Tasks.Dependencies.Lineage.{Grounded-found}
use fast_task.Tasks.Eligibility.{
  row_of, dependencies_satisfied, parent_satisfied, prerequisites_satisfied,
}

any-In : (id : String) (xs : List String) → any (λ s. str_eq s id) xs ≡ true → In id xs
any-In id [] h = cc
any-In id (s ∷ xs) h = ground (arith, eq_iff s id, any-In id xs)

module _ (task : Task) (by_id : Index) where
  pub row_of-lookup :
      (id : String) (node : Task) → lookup task by_id id ≡ some node → row_of task by_id id ≡ node
  unfolding row_of lookup
  row_of-lookup id node h = elim (Option-cases (find id by_id)) [
    | inl e ↦ ground (arith, h, e, eq_iff id task.id)
    | inr (n, e) ↦ ground (arith, h, e, eq_iff id task.id, eq_iff n.id id)
  ]

  -- Every prerequisite of every task that `id` reaches is completed.
  abbrev pub Satisfied : String → Type 0
  Satisfied id =
      (v d : String) (node pre : Task)
      → Reach task by_id id v
      → lookup task by_id v ≡ some node
      → In d node.depends_on
      → lookup task by_id d ≡ some pre
      → pre.status ≡ "completed"

  -- A prerequisite that is completed, and that waits for nothing itself.
  abbrev Fulfilled : String → Type 0
  Fulfilled d =
      ((pre : Task) → lookup task by_id d ≡ some pre → pre.status ≡ "completed") × Satisfied d

  Reach-cases :
      {id v : String}
      → Reach task by_id id v
      → (id ≡ v)
        ⊎ ((s : String) × (node : Task) × (lookup task by_id id ≡ some node)
            × Successor node s
            × Reach task by_id s v)
  Reach-cases here = inl refl
  Reach-cases {id} (next {to = t} node r e p) = elim (Reach-cases r) [
    | inl q ↦ inr (t, node, subst (λ x. lookup task by_id x ≡ some node) (sym q) e, p, here)
    | inr (s, n, f, k, w) ↦ inr (s, n, f, k, next node w e p)
  ]

  Satisfied-parts :
      (id : String) (node : Task)
      → lookup task by_id id ≡ some node
      → ((d : String) → In d node.depends_on → Fulfilled d)
      → ((p : String) → node.parent_id ≡ some p → Satisfied p)
      → Satisfied id
  Satisfied-parts id node e deps parent v d n pre r f m g = elim (Reach-cases r) [
    | inl q ↦
        let same = some_eq (sym f ∙ (ap (lookup task by_id) (sym q) ∙ e)) in
        (deps d (subst (λ (x : Task). In d x.depends_on) same m)).0 pre g
    | inr (s, n', e', p, w) ↦ elim (subst (λ x. Successor x s) (some_eq (sym e' ∙ e)) p) [
      | inl up ↦ parent s up v d n pre w f m g
      | inr k ↦ (deps s k).1 v d n pre w f m g
    ]
  ]

  Satisfied-below :
      (id s : String) (node : Task)
      → lookup task by_id id ≡ some node
      → Successor node s
      → Satisfied id
      → Satisfied s
  Satisfied-below id s node e p h v d n pre r = h v d n pre (Reach-first task by_id node e p r)

  AllSatisfied : List String → Type 0
  AllSatisfied checked = (v : String) → In v checked → Satisfied v

  -- A call that passes adds only satisfied tasks, and one that fails has found an open prerequisite.
  Settles : Outcome (List String) → Type 0 → Type 0
  Settles o P = ((c : List String) × (o ≡ passed c) × AllSatisfied c × P) ⊎ ((o ≡ failed) × (¬ P))

  module _ (fuel n : ℕ)
      (settles : (id : String) (node : Task) (c : List String)
        → Grounded task by_id n id
        → lookup task by_id id ≡ some node
        → AllSatisfied c
        → Settles (prerequisites_satisfied task by_id fuel node c) (Satisfied id)) where
    dependencies_settle :
        (ds c : List String)
        → ((d : String) → In d ds → Grounded task by_id n d)
        → AllSatisfied c
        → Settles
            (dependencies_satisfied task by_id (prerequisites_satisfied task by_id fuel) ds c)
            ((d : String) → In d ds → Fulfilled d)
    unfolding dependencies_satisfied Settles
    dependencies_settle [] c g a = inl (c, refl, a, λ d m. absurd m)
    dependencies_settle (d ∷ ds) c g a =
        let (node, e) = Grounded-found task by_id (g d (inl refl)) in
        elim (Bool-cases (str_eq node.status "completed")) [
          | inr t ↦ inr (
            rw (row_of-lookup d node e, t),
            λ f. cc (t, (eq_iff node.status "completed").1 ((f d (inl refl)).0 node e)),
          )
          | inl t ↦ elim (settles d node c (g d (inl refl)) e a) [
            | inr (h, no_way) ↦
                inr (rw (row_of-lookup d node e, t, h), λ f. no_way (f d (inl refl)).1)
            | inl (c', h, a', s) ↦ elim (dependencies_settle ds c' (λ x m. g x (inr m)) a') [
              | inr (k, no_way) ↦
                  inr (rw (row_of-lookup d node e, t, h) k, λ f. no_way (λ x m. f x (inr m)))
              | inl (c2, k, a2, s2) ↦ inl (
                c2,
                rw (row_of-lookup d node e, t, h) k,
                a2,
                λ x. elim [ inl q ↦ subst Fulfilled (sym q) (done node e t, s) | inr m ↦ s2 x m ],
              )
            ]
          ]
        ]
      where
        done :
            (node : Task)
            → lookup task by_id d ≡ some node
            → str_eq node.status "completed" ≡ true
            → (pre : Task) → lookup task by_id d ≡ some pre
            → pre.status ≡ "completed"
        done node e t pre f =
            (eq_iff pre.status "completed").0
              (subst (λ (x : Task). str_eq x.status "completed" ≡ true) (some_eq (sym e ∙ f)) t)

    parent_settles :
        (p : Option String) (c : List String)
        → ((q : String) → p ≡ some q → Grounded task by_id n q)
        → AllSatisfied c
        → Settles
            (parent_satisfied task by_id (prerequisites_satisfied task by_id fuel) p c)
            ((q : String) → p ≡ some q → Satisfied q)
    unfolding parent_satisfied Settles
    parent_settles none c g a = inl (c, refl, a, λ q e. cc)
    parent_settles (some p) c g a =
        let (node, e) = Grounded-found task by_id (g p refl) in
        elim (settles p node c (g p refl) e a) [
          | inl (c', h, a', s) ↦
              inl (c', rw (row_of-lookup p node e) h, a', λ q f. subst Satisfied (some_eq f) s)
          | inr (h, no_way) ↦ inr (rw (row_of-lookup p node e) h, λ f. no_way (f p refl))
        ]

    node_settles :
        (id : String) (node : Task) (c : List String)
        → Grounded task by_id (suc n) id
        → lookup task by_id id ≡ some node
        → AllSatisfied c
        → Settles (prerequisites_satisfied task by_id (suc fuel) node c) (Satisfied id)
    unfolding prerequisites_satisfied Settles AllSatisfied
    node_settles id node c g e a = elim (Bool-cases (any (λ x. str_eq x node.id) c)) [
      | inl t ↦ inl (c, rw t, a, subst Satisfied same (a node.id (any-In node.id c t)))
      | inr t ↦
          elim (dependencies_settle node.depends_on c
            (λ d m. Grounded-next task by_id node g e (inr m)) a) [
              | inr (h, no_way) ↦ inr (
                rw (t, h),
                λ s. no_way (λ d m. (completed s d m, Satisfied-below id d node e (inr m) s)),
              )
              | inl (c1, h, a1, deps) ↦
                  elim (parent_settles node.parent_id c1
                    (λ q f. Grounded-next task by_id node g e (inl f)) a1) [
                      | inr (k, no_way) ↦
                          inr (
                            rw (t, h, k),
                            λ s. no_way (λ q f. Satisfied-below id q node e (inl f) s),
                          )
                      | inl (c2, k, a2, up) ↦
                          let all = Satisfied-parts id node e deps up in
                          inl (
                            node.id ∷ c2,
                            rw (t, h, k),
                            (λ v. elim [
                              | inl q ↦ subst Satisfied (sym (q ∙ same)) all
                              | inr m ↦ a2 v m
                            ]),
                            all,
                          )
                    ]
            ]
    ]
      where
        same : node.id ≡ id
        same = lookup-id task by_id id node e

        completed :
            Satisfied id
            → (d : String) → In d node.depends_on
            → (pre : Task) → lookup task by_id d ≡ some pre
            → pre.status ≡ "completed"
        completed s d m pre f = s id d node pre here e m f

  -- With as much fuel as the task is deep, the walk returns, and it passes exactly when the
  -- prerequisites are satisfied.
  prerequisites_settle :
      (fuel n : ℕ) (id : String) (node : Task) (c : List String)
      → n ≤ fuel
      → Grounded task by_id n id
      → lookup task by_id id ≡ some node
      → AllSatisfied c
      → Settles (prerequisites_satisfied task by_id fuel node c) (Satisfied id)
  prerequisites_settle fuel zero id node c h g e a = elim g [ ]
  prerequisites_settle zero (suc n) id node c h g e a = absurd (omega arith)
  prerequisites_settle (suc fuel) (suc n) id node c h g e a =
      node_settles fuel n (λ i t x. prerequisites_settle fuel n i t x (omega arith)) id node c g e a

  -- From no memory at all: the walk over the whole graph.
  pub prerequisites_decide :
      (fuel n : ℕ)
      → n ≤ fuel
      → Grounded task by_id n task.id
      → lookup task by_id task.id ≡ some task
      → ((c : List String) × (prerequisites_satisfied task by_id fuel task [] ≡ passed c)
          × Satisfied task.id)
        ⊎ ((prerequisites_satisfied task by_id fuel task [] ≡ failed) × (¬ Satisfied task.id))
  unfolding Settles AllSatisfied
  prerequisites_decide fuel n h g e =
      elim (prerequisites_settle fuel n task.id task [] h g e (λ v m. absurd m)) [
        | inl (c, k, a, s) ↦ inl (c, k, s)
        | inr r ↦ inr r
      ]

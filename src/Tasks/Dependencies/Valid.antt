-- ===== src/Tasks/Dependencies/Valid.antt =====
-- taskDependencyGraphValid decides the graph property.
use fast_task.Base.{
  ℕ, ◌+◌, ◌≤◌, ◌<◌, String, Bool, true, false, ◌≡◌, ◌≢◌, ◌⊎◌, inl, inr, some, List, [], ◌∷◌, All,
  all, any, not, In, arith, refl, str_eq, eq_iff, Bool-cases, Option-cases, sym, ap, length, ◌||◌,
}
use fast_task.Tasks.Model.{Task, Index}
use fast_task.Tasks.Dependencies.{
  Marks, mark, passed, failed, lookup, lookup_or_zero, visit, avoids, task_dependency_graph_valid,
}
use fast_task.Tasks.Dependencies.Graph.{
  Grounded, Reach, here, next, IsValidGraph, universe, length-keys, lookup-task,
}
use fast_task.Tasks.Dependencies.Marks.{done, done-le-length, white, white-le-length}
use fast_task.Tasks.Dependencies.Visit.{Inv, Post}
use fast_task.Tasks.Dependencies.Visit.Node.{visit-Post}
use fast_task.Tasks.Dependencies.Ends.{Outcome-cases, visit_ends}
use fast_task.Tasks.Dependencies.Lineage.{or_zero, ancestors-Collects}
use fast_task.Tasks.Dependencies.Complete.{visit_accepts}

In-any : (d : String) (ids : List String) → any (λ a. str_eq a d) ids ≡ true → In d ids
In-any d [] h = cc
In-any d (a ∷ ids) h = ground (arith, eq_iff a d, In-any d ids)

any-In : (d : String) (ids : List String) → In d ids → any (λ a. str_eq a d) ids ≡ true
any-In d [] m = absurd m
any-In d (a ∷ ids) m = ground (arith, eq_iff a d, any-In d ids)

all-In :
    {A : Type 0} (p : A → Bool) (xs : List A) → all p xs ≡ true → (x : A) → In x xs → p x ≡ true
all-In p [] h x m = absurd m
all-In p (y ∷ ys) h x (inl e) = ground (arith, h, e)
all-In p (y ∷ ys) h x (inr m) = all-In p ys (ground (arith, h)) x m

all-of-In :
    {A : Type 0} (p : A → Bool) (xs : List A) → ((x : A) → In x xs → p x ≡ true) → all p xs ≡ true
all-of-In p [] h = refl
all-of-In p (y ∷ ys) h = ground (arith, h y (inl refl), all-of-In p ys (λ x m. h x (inr m)))

mark-In : (v : String) (st : Marks) → mark v st ≢ 0 → (m : ℕ) × In (v, m) st
mark-In v [] n = absurd (n refl)
mark-In v ((k, m) ∷ st) n = elim (Bool-cases (str_eq k v)) [
  | inl e ↦ (m, inl (ap (λ x. (x, m)) (sym ((eq_iff k v).0 e))))
  | inr e ↦ let (m', i) = mark-In v st (rw e at n) in (m', inr i)
]

In-mark : (v : String) (m : ℕ) (st : Marks) → All (λ e. e.1 ≢ 0) st → In (v, m) st → mark v st ≢ 0
In-mark v m [] h i = absurd i
In-mark v m ((k, x) ∷ st) h i = elim (Bool-cases (str_eq k v)) [
  | inl e ↦ rw e h.0
  | inr e ↦ rw e (elim i [
    | inl p ↦ cc (e, (eq_iff k v).1 (sym (ap (λ x. x.0) p)))
    | inr j ↦ In-mark v m st h.1 j
  ])
]

module _ (task : Task) (by_id : Index) where
  empty-Inv : Inv task by_id []
  empty-Inv = record {
    deep = λ v h. absurd (omega arith);
    closed = λ v s n h e p. absurd (omega arith);
    range = λ v. omega arith;
    entered = tt;
  }

  -- Everything that a finished task reaches is finished.
  Reach-finished :
      {st : Marks} {id v : String}
      → Inv task by_id st
      → mark id st ≡ 2
      → Reach task by_id id v
      → mark v st ≡ 2
  Reach-finished i h here = h
  Reach-finished i h (next {mid = m} {to = t} node r e p) =
      i.closed m t node (Reach-finished i h r) e p

  -- What `avoids` says, once its marks are those of the tasks reached.
  abbrev Avoids : List String → Marks → Type 0
  Avoids chain st =
      (v d : String) (node : Task)
      → mark v st ≢ 0
      → lookup task by_id v ≡ some node
      → In d node.depends_on
      → ¬ In d chain

  avoids-Avoids :
      (chain : List String) (st : Marks) → avoids task by_id chain st ≡ true → Avoids chain st
  unfolding avoids
  avoids-Avoids chain st h v d node n e m k =
      let (x, i) = mark-In v st n in
      let row =
        all-In
          (λ y.
            all (λ z. not (any (λ a. str_eq a z) chain)) (lookup_or_zero task by_id y.0).depends_on)
          st h (v, x) i in
      let entry =
        all-In (λ z. not (any (λ a. str_eq a z) chain)) node.depends_on
          (rw (or_zero task by_id v node e) at row) d m in
      cc (rw (any-In d chain k) at entry)

  Avoids-avoids :
      (chain : List String) (st : Marks)
      → Inv task by_id st
      → Avoids chain st
      → avoids task by_id chain st ≡ true
  unfolding avoids
  Avoids-avoids chain st i h =
      all-of-In
        (λ y.
          all (λ z. not (any (λ a. str_eq a z) chain)) (lookup_or_zero task by_id y.0).depends_on)
        st entry
    where
      apart :
          (v d : String) (node : Task)
          → mark v st ≢ 0
          → lookup task by_id v ≡ some node
          → In d node.depends_on
          → not (any (λ a. str_eq a d) chain) ≡ true
      apart v d node n e m = elim (Bool-cases (any (λ a. str_eq a d) chain)) [
        | inl t ↦ absurd (h v d node n e m (In-any d chain t))
        | inr t ↦ rw t
      ]

      entry :
          (x : String × ℕ)
          → In x st
          → all (λ z. not (any (λ a. str_eq a z) chain)) (lookup_or_zero task by_id x.0).depends_on
            ≡ true
      entry x m = elim (Option-cases (lookup task by_id x.0)) [
        | inl e ↦ ground (arith, e)
        | inr (node, e) ↦ rw (or_zero task by_id x.0 node e) (
            all-of-In (λ z. not (any (λ a. str_eq a z) chain)) node.depends_on
              (λ d k. apart x.0 d node (In-mark x.0 x.1 st i.entered m) e k))
      ]

  fuel_enough : white (universe task by_id) [] < length by_id + 2
  fuel_enough =
      omega (arith, white-le-length (universe task by_id) [], length-keys task by_id by_id)

  -- The walk of the graph passes exactly when the task is grounded, and never runs out of fuel.
  visit_decides :
      ((st : Marks) × (visit task by_id (length by_id + 2) task.id [] ≡ passed st)
        × Post task by_id task.id [] st)
      ⊎ ((visit task by_id (length by_id + 2) task.id [] ≡ failed)
          × ((n : ℕ) → ¬ Grounded task by_id n task.id))
  visit_decides = elim (Outcome-cases (visit task by_id (length by_id + 2) task.id [])) [
    | inl (st, e) ↦ inl (st, e, visit-Post task by_id (length by_id + 2) task.id [] st empty-Inv e)
    | inr (inl e) ↦ inr (
      e,
      λ n g.
          visit_accepts task by_id (length by_id + 2) task.id [] empty-Inv
            (record { depth = n; grounded = g; idle = λ v p h. absurd (omega arith) }) e,
    )
    | inr (inr e) ↦
        absurd (visit_ends task by_id (length by_id + 2) task.id [] empty-Inv fuel_enough e)
  ]

  Decision : Type 0
  Decision =
      ((task_dependency_graph_valid task by_id ≡ some true) × IsValidGraph task by_id)
      ⊎ ((task_dependency_graph_valid task by_id ≡ some false) × (¬ IsValidGraph task by_id))

  module _ (a : task.id ≢ "") (b : task.user_id ≢ "") (c : task.goal_id ≢ "") (st : Marks)
      (e : visit task by_id (length by_id + 2) task.id [] ≡ passed st)
      (p : Post task by_id task.id [] st) where
    deep : Grounded task by_id (done (universe task by_id) st) task.id
    deep = p.inv.deep task.id p.finished

    named : (str_eq task.id "" || str_eq task.user_id "" || str_eq task.goal_id "") ≡ false
    named =
        ground (arith, a, b, c, eq_iff task.id "", eq_iff task.user_id "", eq_iff task.goal_id "")

    reached : (v : String) → mark v st ≢ 0 → Reach task by_id task.id v
    reached v n = elim (p.origin v n) [ inl m ↦ absurd (m refl) | inr r ↦ r ]

    after_visit : Decision
    unfolding Decision task_dependency_graph_valid
    after_visit =
        let (ids, q, sound, complete) =
          ancestors-Collects task by_id (length by_id + 2) task deep (lookup-task task by_id) (
            omega (arith, done-le-length (universe task by_id) st, length-keys task by_id by_id)) in
        elim (Bool-cases (avoids task by_id ids st)) [
          | inl t ↦ inl (
            ground (arith, named, e, q, t),
            record {
              has_id = a;
              has_user = b;
              has_goal = c;
              depth = done (universe task by_id) st;
              grounded = deep;
              free = λ v d node r f m above.
                  avoids-Avoids ids st t v d node
                    (λ z. absurd (omega (arith, z, Reach-finished p.inv p.finished r))) f m
                    (complete d above);
            },
          )
          | inr t ↦ inr (
            ground (arith, named, e, q, t),
            λ w. cc (
              t,
              Avoids-avoids ids st p.inv
                  (λ v d node n f m k. w.free v d node (reached v n) f m (sound d k)),
            ),
          )
        ]

  -- The check always returns. It returns true exactly when the task, its owner and its goal are named,
  -- every path of parents and prerequisites from it ends and meets only live, well-formed tasks of the
  -- same owner and goal, and no task on such a path waits for the task or one of its ancestors.
  pub task_dependency_graph_valid_decides :
      ((task_dependency_graph_valid task by_id ≡ some true) × IsValidGraph task by_id)
      ⊎ ((task_dependency_graph_valid task by_id ≡ some false) × (¬ IsValidGraph task by_id))
  unfolding Decision
  task_dependency_graph_valid_decides =
      elim (Bool-cases (str_eq task.id "" || str_eq task.user_id "" || str_eq task.goal_id "")) [
        | inl t ↦ inr (
          unfold task_dependency_graph_valid in rw t,
          λ w. absurd (
              ground (
                arith,
                t,
                w.has_id,
                w.has_user,
                w.has_goal,
                eq_iff task.id "",
                eq_iff task.user_id "",
                eq_iff task.goal_id "",
              )),
        )
        | inr t ↦ elim visit_decides [
          | inl (st, e, p) ↦
              after_visit (λ x. absurd (ground (arith, t, x, eq_iff task.id "")))
                (λ x. absurd (ground (arith, t, x, eq_iff task.user_id "")))
                (λ x. absurd (ground (arith, t, x, eq_iff task.goal_id ""))) st e p
          | inr (e, no_depth) ↦ inr (
            unfold task_dependency_graph_valid in ground (arith, t, e),
            λ w. no_depth w.depth w.grounded,
          )
        ]
      ]

  -- A valid graph is no deeper than the fuel that the loops over it take.
  pub valid_depth :
      task_dependency_graph_valid task by_id ≡ some true
      → (n : ℕ) × (n ≤ length by_id + 2) × Grounded task by_id n task.id
  unfolding task_dependency_graph_valid
  valid_depth h = elim visit_decides [
    | inl (st, e, p) ↦ (
      done (universe task by_id) st,
      omega (arith, done-le-length (universe task by_id) st, length-keys task by_id by_id),
      p.inv.deep task.id p.finished,
    )
    | inr (e, no_way) ↦ absurd (ground (arith, h, e))
  ]

-- ===== src/Tasks/Dependencies/Graph.antt =====
-- The qualification graph of a task, as relations that do not mention the search.
use fast_task.Base.{
  ℕ, zero, suc, ◌≤◌, String, ◌≡◌, ◌≢◌, ◌⊎◌, inl, inr, none, some, List, [], ◌∷◌, All, In,
  trim_space, arith, refl, sym, ◌∙◌, ap, eq_iff, length, subst, Option-cases, some_eq,
}
use fast_task.Tasks.Model.{Task, Index, find}
use fast_task.Tasks.Dependencies.{lookup}

abbrev pub NoRepeat : List String → Type 0
NoRepeat [] = Unit
NoRepeat (x ∷ xs) = (¬ In x xs) × NoRepeat xs

-- The references of a row are non-empty, trimmed, and not repeated.
pub record IsWellFormed (node : Task) : Type 0 where
  pub parent : node.parent_id ≢ some ""
  pub entries : All (λ d. (d ≢ "") × (trim_space d ≡ d)) node.depends_on
  pub once : NoRepeat node.depends_on

-- A task inherits what its parent waits for, so a parent is a successor too.
abbrev pub Successor : Task → String → Type 0
Successor node s = (node.parent_id ≡ some s) ⊎ In s node.depends_on

module _ (task : Task) (by_id : Index) where
  -- A live row of the same owner and goal.
  pub record IsOwn (node : Task) : Type 0 where
    pub user : node.user_id ≡ task.user_id
    pub goal : node.goal_id ≡ task.goal_id
    pub live : node.deleted_at ≡ none

  -- Every path of successors from a task ends, after fewer than `n` steps, and only meets live,
  -- well-formed rows of the owner and goal.
  pub data Grounded : ℕ → String → Type 0 where
    ground_at :
        {n : ℕ} {id : String} (node : Task)
        → lookup task by_id id ≡ some node
        → IsOwn node
        → IsWellFormed node
        → ((s : String) → Successor node s → Grounded n s)
        → Grounded (suc n) id

  pub data Reach (from : String) : String → Type 0 where
    here : Reach from from
    next :
        {mid to : String} (node : Task)
        → Reach from mid
        → lookup task by_id mid ≡ some node
        → Successor node to
        → Reach from to

  -- The row itself and its ancestors.
  pub data Above (id : String) : Task → Type 0 where
    self : {node : Task} → id ≡ node.id → Above id node
    higher :
        {node : Task} {p : String} (above : Task)
        → node.parent_id ≡ some p
        → lookup task by_id p ≡ some above
        → Above id above
        → Above id node

  -- What the check stands for.
  pub record IsValidGraph : Type 0 where
    pub has_id : task.id ≢ ""
    pub has_user : task.user_id ≢ ""
    pub has_goal : task.goal_id ≢ ""
    pub depth : ℕ
    pub grounded : Grounded depth task.id
    pub free :
        (v d : String) (node : Task)
        → Reach task.id v
        → lookup task by_id v ≡ some node
        → In d node.depends_on
        → ¬ Above d task

  pub Grounded-mono : {n m : ℕ} {id : String} → Grounded n id → n ≤ m → Grounded m id
  Grounded-mono {m = zero} (ground_at node e own ok paths) h = absurd (omega arith)
  Grounded-mono {m = suc m} (ground_at node e own ok paths) h =
      ground_at node e own ok (λ s p. Grounded-mono (paths s p) (omega arith))

  -- The IDs that a lookup can find.
  abbrev pub keys : Index → List String
  keys [] = []
  keys ((k, v) ∷ rest) = k ∷ keys rest

  abbrev pub universe : List String
  universe = task.id ∷ keys by_id

  pub length-keys : (index : Index) → length (keys index) ≡ length index
  length-keys [] = refl
  length-keys ((k, v) ∷ rest) = ap suc (length-keys rest)

  find-In :
      (id : String) (index : Index) (node : Task) → find id index ≡ some node → In id (keys index)
  find-In id [] node h = cc
  find-In id ((k, v) ∷ rest) node h = ground (arith, h, eq_iff k id, find-In id rest node)

  pub lookup-In : (id : String) (node : Task) → lookup task by_id id ≡ some node → In id universe
  unfolding lookup
  lookup-In id node h = elim (Option-cases (find id by_id)) [
    | inl e ↦ ground (arith, h, e, eq_iff id task.id)
    | inr (n, e) ↦ inr (find-In id by_id n e)
  ]

  -- A row that a lookup finds has the ID that was asked for.
  pub lookup-id : (id : String) (node : Task) → lookup task by_id id ≡ some node → node.id ≡ id
  unfolding lookup
  lookup-id id node h = elim (Option-cases (find id by_id)) [
    | inl e ↦ ground (arith, h, e, eq_iff id task.id)
    | inr (n, e) ↦ ground (arith, h, e, eq_iff id task.id, eq_iff n.id id)
  ]

  pub lookup-task : lookup task by_id task.id ≡ some task
  unfolding lookup
  lookup-task = ground (arith, eq_iff task.id task.id)

  -- A first step, and then a path.
  pub Reach-first :
      {id s v : String} (node : Task)
      → lookup task by_id id ≡ some node
      → Successor node s
      → Reach s v
      → Reach id v
  Reach-first node e p here = next node here e p
  Reach-first node e p (next n r f q) = next n (Reach-first node e p r) f q

  pub Grounded-next :
      {n : ℕ} {id s : String} (node : Task)
      → Grounded (suc n) id
      → lookup task by_id id ≡ some node
      → Successor node s
      → Grounded n s
  Grounded-next {s = s} node (ground_at row e own ok paths) f p =
      paths s (subst (λ x. Successor x s) (some_eq (sym f ∙ e)) p)

  pub Grounded-Reach : {n : ℕ} {id v : String} → Grounded n id → Reach id v → Grounded n v
  Grounded-Reach g here = g
  Grounded-Reach {n = zero} g (next node r f p) = elim g [ ]
  Grounded-Reach {n = suc n} g (next node r f p) =
      Grounded-mono (Grounded-next node (Grounded-Reach g r) f p) (omega arith)

  -- A grounded task stands on no cycle.
  pub Grounded-acyclic :
      (n : ℕ) {id s : String} (node : Task)
      → Grounded n id
      → lookup task by_id id ≡ some node
      → Successor node s
      → ¬ Reach s id
  Grounded-acyclic zero node g f p r = elim g [ ]
  Grounded-acyclic (suc n) node g f p r =
      Grounded-acyclic n node (Grounded-Reach (Grounded-next node g f p) r) f p r

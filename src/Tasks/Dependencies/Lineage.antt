-- ===== src/Tasks/Dependencies/Lineage.antt =====
-- The loop over a task's ancestors ends for a grounded task, and collects exactly its ancestors.
use fast_task.Base.{
  ℕ, zero, suc, ◌≤◌, String, ◌≡◌, ◌⊎◌, inl, inr, none, some, List, [], ◌∷◌, In, arith, Option-cases,
  some_eq, sym, ap, ◌∙◌, subst,
}
use fast_task.Tasks.Model.{Task, Index}
use fast_task.Tasks.Dependencies.{lookup, lookup_or_zero, ancestors}
use fast_task.Tasks.Dependencies.Graph.{Grounded, ground_at, Grounded-next, Above, self, higher}

module _ (task : Task) (by_id : Index) where
  pub or_zero :
      (id : String) (node : Task)
      → lookup task by_id id ≡ some node
      → lookup_or_zero task by_id id ≡ node
  or_zero id node e = ground (arith, e)

  pub Grounded-found :
      {n : ℕ} {id : String}
      → Grounded task by_id n id
      → (node : Task) × (lookup task by_id id ≡ some node)
  Grounded-found (ground_at node e own ok paths) = (node, e)

  -- The parent of a grounded row is there, and is grounded within one step less.
  pub parent_found :
      {n : ℕ} {id p : String} (node : Task)
      → Grounded task by_id (suc n) id
      → lookup task by_id id ≡ some node
      → node.parent_id ≡ some p
      → (above : Task) × (lookup task by_id p ≡ some above) × Grounded task by_id n p
  parent_found node g e h =
      let k = Grounded-next task by_id node g e (inl h) in
      let (above, f) = Grounded-found k in (above, f, k)

  -- What the loop returns for a row.
  abbrev pub Collects : ℕ → Task → Type 0
  Collects fuel node =
      (ids : List String) × (ancestors task by_id fuel node ≡ some ids)
      × ((d : String) → In d ids → Above task by_id d node)
      × ((d : String) → Above task by_id d node → In d ids)

  no_parent :
      {node : Task} {d : String} → node.parent_id ≡ none → Above task by_id d node → d ≡ node.id
  no_parent h (self e) = e
  no_parent h (higher above e f a) = absurd (ground (arith, h, e))

  via_parent :
      {node above : Task} {p d : String}
      → node.parent_id ≡ some p
      → lookup task by_id p ≡ some above
      → Above task by_id d node
      → (d ≡ node.id) ⊎ Above task by_id d above
  via_parent h f (self e) = inl e
  via_parent {d = d} h f (higher above e g a) =
      let same = some_eq (sym h ∙ e) in
      inr (subst (Above task by_id d) (some_eq (sym g ∙ ap (lookup task by_id) (sym same) ∙ f)) a)

  pub ancestors-Collects :
      (fuel : ℕ) {n : ℕ} {id : String} (node : Task)
      → Grounded task by_id n id
      → lookup task by_id id ≡ some node
      → n ≤ fuel
      → Collects fuel node
  unfolding ancestors
  ancestors-Collects zero {n = zero} node g e h = elim g [ ]
  ancestors-Collects zero {n = suc n} node g e h = absurd (omega arith)
  ancestors-Collects (suc fuel) {n = zero} node g e h = elim g [ ]
  ancestors-Collects (suc fuel) {n = suc n} node g e h = elim (Option-cases node.parent_id) [
    | inl t ↦ (node.id ∷ [], ground (arith, t), top_In, λ d a. inl (no_parent t a))
    | inr (p, t) ↦
        let (above, f, k) = parent_found node g e t in
        let (ids, q, sound, complete) = ancestors-Collects fuel above k f (omega arith) in
        (
          node.id ∷ ids,
          ground (arith, t, f, q),
          (λ d. elim [ inl x ↦ self x | inr m ↦ higher above t f (sound d m) ]),
          λ d a. elim (via_parent t f a) [ inl x ↦ inl x | inr b ↦ inr (complete d b) ],
        )
  ]
    where
      top_In : (d : String) → In d (node.id ∷ []) → Above task by_id d node
      top_In d (inl x) = self x
      top_In d (inr m) = elim m [ ]

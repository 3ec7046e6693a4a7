-- ===== src/Tasks/Dependencies/Visit/Node.antt =====
-- A visit of one task, from the visits that it calls, and the visit itself by induction on fuel.
use fast_task.Base.{
  ℕ, zero, suc, ◌<◌, String, ◌≡◌, ◌≢◌, ◌⊎◌, inl, inr, some, [], ◌∷◌, All-In, arith, sym, str_eq,
  eq_iff, ◌==◌, Bool-cases, Option-cases, ◌∙◌, ap, subst, some_eq,
}
use fast_task.Tasks.Model.{Task, Index}
use fast_task.Tasks.Dependencies.{
  Marks, mark, Outcome, passed, lookup, is_foreign, visit_parent, visit_dependencies, visit_node,
  visit,
}
use fast_task.Tasks.Dependencies.Graph.{
  IsWellFormed, Successor, IsOwn, Grounded, ground_at, Grounded-mono, universe, lookup-In, Reach,
  here, Reach-first,
}
use fast_task.Tasks.Dependencies.Marks.{
  After, After-refl, After-trans, After-visit, done, done_mono, done-finish,
}
use fast_task.Tasks.Dependencies.Visit.{
  Inv, Post, IsOwn-of_not_foreign, dependencies-PostAll, parent-PostParent, and_then-passed,
  passed-injective,
}

module _ (task : Task) (by_id : Index) where
  module _ (visit_next : String → Marks → Outcome Marks)
      (next_Post : (d : String) (st st' : Marks)
        → Inv task by_id st
        → visit_next d st ≡ passed st'
        → Post task by_id d st st') where
    module _ (id : String) (node : Task) (st : Marks) (i : Inv task by_id st)
        (white : mark id st ≡ 0) where
      started-kept : (v : String) → mark v st ≡ 2 → mark v ((id, 1) ∷ st) ≡ 2
      started-kept v h = ground (arith, h, white, eq_iff id v)

      started-old : (v : String) → mark v ((id, 1) ∷ st) ≡ 2 → mark v st ≡ 2
      started-old v h = ground (arith, h, eq_iff id v)

      pub started-Inv : Inv task by_id ((id, 1) ∷ st)
      started-Inv = record {
        deep = λ v h.
            Grounded-mono task by_id (i.deep v (started-old v h))
              (done_mono st ((id, 1) ∷ st) (universe task by_id) started-kept);
        closed = λ v s n h e p. started-kept s (i.closed v s n (started-old v h) e p);
        range = λ v. ground (arith, i.range v);
        entered = ((λ e. absurd (omega arith)), i.entered);
      }

      module _ (found : lookup task by_id id ≡ some node) (own : IsOwn task by_id node)
          (end : Marks) (a : After ((id, 1) ∷ st) end) (j : Inv task by_id end)
          (next_done : (s : String) → Successor node s → mark s end ≡ 2) (ok : IsWellFormed node)
          (from : (v : String)
            → mark v end ≢ 0
            → (mark v ((id, 1) ∷ st) ≢ 0)
              ⊎ ((s : String) × Successor node s × Reach task by_id s v)) where
        busy_at_end : mark id end ≡ 1
        busy_at_end = (a.busy id).0 (ground (arith, eq_iff id id))

        finished-kept : (v : String) → mark v end ≡ 2 → mark v ((id, 2) ∷ end) ≡ 2
        finished-kept v h = ground (arith, h, eq_iff id v)

        count_grows : done (universe task by_id) end < done (universe task by_id) ((id, 2) ∷ end)
        count_grows =
            done-finish id end (universe task by_id) (lookup-In task by_id id node found)
              (λ e. absurd (omega (arith, e, busy_at_end)))

        this-Grounded : Grounded task by_id (done (universe task by_id) ((id, 2) ∷ end)) id
        this-Grounded =
            Grounded-mono task by_id (ground_at node found own ok (λ s p. j.deep s (next_done s p)))
              count_grows

        finished-deep :
            (v : String)
            → mark v ((id, 2) ∷ end) ≡ 2
            → Grounded task by_id (done (universe task by_id) ((id, 2) ∷ end)) v
        finished-deep v h = elim (Bool-cases (str_eq id v)) [
          | inl e ↦
              subst (Grounded task by_id (done (universe task by_id) ((id, 2) ∷ end)))
                ((eq_iff id v).0 e) this-Grounded
          | inr e ↦ Grounded-mono task by_id (j.deep v (rw e at h)) (omega (arith, count_grows))
        ]

        finished-closed :
            (v s : String) (n : Task)
            → mark v ((id, 2) ∷ end) ≡ 2
            → lookup task by_id v ≡ some n
            → Successor n s
            → mark s ((id, 2) ∷ end) ≡ 2
        finished-closed v s n h e p = elim (Bool-cases (str_eq id v)) [
          | inl d ↦
              let same : n ≡ node =
                some_eq (sym e ∙ (ap (lookup task by_id) (sym ((eq_iff id v).0 d)) ∙ found)) in
              finished-kept s (next_done s (subst (λ x. Successor x s) same p))
          | inr d ↦ finished-kept s (j.closed v s n (rw d at h) e p)
        ]

        finished-origin :
            (v : String) → mark v ((id, 2) ∷ end) ≢ 0 → (mark v st ≢ 0) ⊎ Reach task by_id id v
        finished-origin v n = elim (Bool-cases (str_eq id v)) [
          | inl d ↦ inr (subst (Reach task by_id id) ((eq_iff id v).0 d) here)
          | inr d ↦ elim (from v (rw d at n)) [
            | inl m ↦ inl (rw d at m)
            | inr t ↦ inr (Reach-first task by_id node found t.1 t.2)
          ]
        ]

        finished-Post : Post task by_id id st ((id, 2) ∷ end)
        finished-Post = record {
          after = After-visit id st end white a;
          inv = record {
            deep = finished-deep;
            closed = finished-closed;
            range = λ v. ground (arith, j.range v);
            entered = ((λ e. absurd (omega arith)), j.entered);
          };
          finished = ground (arith, eq_iff id id);
          origin = finished-origin;
        }

      visit_node-Post :
          (end : Marks)
          → lookup task by_id id ≡ some node
          → visit_node task by_id visit_next id node st ≡ passed end
          → Post task by_id id st end
      unfolding visit_node
      visit_node-Post end found h = elim (Bool-cases (is_foreign task by_id node)) [
        | inl e ↦ cc (rw e at h)
        | inr e ↦
            let (mid, hp, h2) =
              and_then-passed (visit_parent task by_id visit_next node.parent_id ((id, 1) ∷ st)) _
                end (rw e at h) in
            let (last, hd, h3) =
              and_then-passed (visit_dependencies task by_id visit_next [] node.depends_on mid) _
                end h2 in
            let up =
              parent-PostParent task by_id visit_next next_Post node.parent_id ((id, 1) ∷ st) mid
                started-Inv hp in
            let all =
              dependencies-PostAll task by_id visit_next next_Post [] node.depends_on mid last
                up.inv hd in
            subst (Post task by_id id st) (passed-injective h3) (
              finished-Post found (IsOwn-of_not_foreign task by_id node e) last
                (After-trans up.after all.after) all.inv
                (λ s. elim [
                  | inl p ↦ all.after.kept s (up.finished s p)
                  | inr m ↦ All-In (λ d. mark d last ≡ 2) s node.depends_on all.finished m
                ])
                (record { parent = up.named; entries = all.entries; once = all.once })
                (λ v n. elim (all.origin v n) [
                  | inl m ↦ elim (up.origin v m) [ inl k ↦ inl k | inr t ↦ inr (t.0, inl t.1, t.2) ]
                  | inr t ↦ inr (t.0, inr t.1, t.2)
                ]))
      ]

  -- A visit that passes keeps the invariant, and leaves its task finished.
  pub visit-Post :
      (fuel : ℕ) (id : String) (st st' : Marks)
      → Inv task by_id st
      → visit task by_id fuel id st ≡ passed st'
      → Post task by_id id st st'
  unfolding visit
  visit-Post zero id st st' i h = cc
  visit-Post (suc fuel) id st st' i h = elim (Bool-cases (mark id st == 1)) [
    | inl e ↦ cc (rw e at h)
    | inr e ↦ elim (Bool-cases (mark id st == 2)) [
      | inl d ↦
          let same = passed-injective (rw (e, d) at h) in
          subst (Post task by_id id st) same (record {
            after = After-refl st;
            inv = i;
            finished = ground (arith, d);
            origin = λ v n. inl n;
          })
      | inr d ↦ elim (Option-cases (lookup task by_id id)) [
        | inl n ↦ absurd (ground (arith, h, e, d, n))
        | inr (node, f) ↦
            visit_node-Post (visit task by_id fuel) (visit-Post fuel) id node st i
              (ground (arith, e, d, i.range id)) st' f (ground (arith, h, e, d, f))
      ]
    ]
  ]

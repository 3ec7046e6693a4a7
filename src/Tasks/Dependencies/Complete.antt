-- ===== src/Tasks/Dependencies/Complete.antt =====
-- The search does not refuse a grounded task.
use fast_task.Base.{
  ℕ, zero, suc, String, false, ◌≡◌, ◌≢◌, inl, inr, Option, none, some, List, [], ◌∷◌, All, In,
  arith, refl, str_eq, eq_iff, ◌==◌, Bool-cases, trim_space, subst, sym, ap, any, not, ◌||◌,
}
use fast_task.Tasks.Model.{Task, Index}
use fast_task.Tasks.Dependencies.{
  Marks, mark, failed, lookup, is_foreign, visit_parent, visit_dependencies, visit_node, visit,
}
use fast_task.Tasks.Dependencies.Graph.{
  NoRepeat, IsWellFormed, Successor, IsOwn, Grounded, ground_at, Reach, here, Reach-first,
  Grounded-acyclic,
}
use fast_task.Tasks.Dependencies.Marks.{After}
use fast_task.Tasks.Dependencies.Visit.{Inv, parent-PostParent}
use fast_task.Tasks.Dependencies.Visit.Node.{visit-Post, started-Inv}
use fast_task.Tasks.Dependencies.Ends.{Outcome-cases}

any-false : (id : String) (seen : List String) → ¬ In id seen → any (λ s. str_eq s id) seen ≡ false
any-false id [] h = refl
any-false id (s ∷ seen) h = ground (arith, eq_iff s id, any-false id seen, h)

module _ (task : Task) (by_id : Index) where
  -- A task that the search will accept: it is grounded, and nothing that it reaches is being visited.
  pub record IsReady (st : Marks) (id : String) : Type 0 where
    pub depth : ℕ
    pub grounded : Grounded task by_id depth id
    pub idle : (v : String) → Reach task by_id id v → mark v st ≢ 1

  IsReady-After : {st st' : Marks} {id : String} → After st st' → IsReady st id → IsReady st' id
  IsReady-After a r = record {
    depth = r.depth;
    grounded = r.grounded;
    idle = λ v p e. r.idle v p ((a.busy v).1 e);
  }

  own-not_foreign : (node : Task) → IsOwn task by_id node → is_foreign task by_id node ≡ false
  own-not_foreign node o =
      ground (arith, o, eq_iff node.user_id task.user_id, eq_iff node.goal_id task.goal_id)

  module _ (fuel : ℕ)
      (accepts : (d : String) (st : Marks)
        → Inv task by_id st
        → IsReady st d
        → visit task by_id fuel d st ≢ failed) where
    dependencies_accept :
        (seen ds : List String) (st : Marks)
        → Inv task by_id st
        → All (λ d. (d ≢ "") × (trim_space d ≡ d)) ds
        → NoRepeat ds
        → ((d : String) → In d ds → ¬ In d seen)
        → ((d : String) → In d ds → IsReady st d)
        → visit_dependencies task by_id (visit task by_id fuel) seen ds st ≢ failed
    unfolding visit_dependencies
    dependencies_accept seen [] st i en once fresh ready e = cc
    dependencies_accept seen (d ∷ ds) st i en once fresh ready e =
        elim (Outcome-cases (visit task by_id fuel d st)) [
          | inl (st', p) ↦
              let post = visit-Post task by_id fuel d st st' i p in
              dependencies_accept (d ∷ seen) ds st' post.inv en.1 once.1 later
                (λ x m. IsReady-After post.after (ready x (inr m))) (rw (test, p) at e)
          | inr (inl p) ↦ accepts d st i (ready d (inl refl)) p
          | inr (inr p) ↦ cc (rw (test, p) at e)
        ]
      where
        test : (str_eq d "" || not (str_eq (trim_space d) d) || any (λ s. str_eq s d) seen) ≡ false
        test = ground (
          arith,
          en.0,
          eq_iff d "",
          eq_iff (trim_space d) d,
          any-false d seen (fresh d (inl refl)),
        )

        later : (x : String) → In x ds → ¬ In x (d ∷ seen)
        later x m (inl q) = once.0 (subst (λ y. In y ds) q m)
        later x m (inr k) = fresh x (inr m) k

    parent_accepts :
        (p : Option String) (st : Marks)
        → Inv task by_id st
        → p ≢ some ""
        → ((q : String) → p ≡ some q → IsReady st q)
        → visit_parent task by_id (visit task by_id fuel) p st ≢ failed
    parent_accepts none st i n ready e = cc
    parent_accepts (some q) st i n ready e = elim (Bool-cases (str_eq q "")) [
      | inl t ↦ n (ap some ((eq_iff q "").0 t))
      | inr t ↦ accepts q st i (ready q refl) (rw t at e)
    ]

    node_accepts :
        (id : String) (node : Task) (st : Marks)
        → Inv task by_id st
        → mark id st ≡ 0
        → lookup task by_id id ≡ some node
        → IsReady st id
        → IsOwn task by_id node
        → IsWellFormed node
        → ((s : String) → Successor node s → (n : ℕ) × Grounded task by_id n s)
        → visit_node task by_id (visit task by_id fuel) id node st ≢ failed
    unfolding visit_node
    node_accepts id node st i w f r own ok deep e =
        elim (Outcome-cases
          (visit_parent task by_id (visit task by_id fuel) node.parent_id ((id, 1) ∷ st))) [
            | inl (mid, p) ↦
                let up =
                  parent-PostParent task by_id (visit task by_id fuel) (visit-Post task by_id fuel)
                    node.parent_id ((id, 1) ∷ st) mid start p in
                elim (Outcome-cases
                  (visit_dependencies task by_id (visit task by_id fuel) [] node.depends_on mid)) [
                    | inl (last, q) ↦ cc (rw (t, p, q) at e)
                    | inr (inl q) ↦
                        dependencies_accept [] node.depends_on mid up.inv ok.entries ok.once
                          (λ d m k. k) (λ d m. IsReady-After up.after (ready d (inr m))) q
                    | inr (inr q) ↦ cc (rw (t, p, q) at e)
                  ]
            | inr (inl p) ↦
                parent_accepts node.parent_id ((id, 1) ∷ st) start ok.parent
                  (λ q m. ready q (inl m)) p
            | inr (inr p) ↦ cc (rw (t, p) at e)
          ]
      where
        t : is_foreign task by_id node ≡ false
        t = own-not_foreign node own

        start : Inv task by_id ((id, 1) ∷ st)
        start =
            started-Inv task by_id (visit task by_id fuel) (visit-Post task by_id fuel) id node st i
              w

        off_loop : (s v : String) → Successor node s → Reach task by_id s v → id ≢ v
        off_loop s v p q m =
            Grounded-acyclic task by_id r.depth node r.grounded f p
              (subst (Reach task by_id s) (sym m) q)

        ready : (s : String) → Successor node s → IsReady ((id, 1) ∷ st) s
        ready s p = record {
          depth = (deep s p).0;
          grounded = (deep s p).1;
          idle = λ v q m.
              r.idle v (Reach-first task by_id node f p q)
                (ground (arith, m, off_loop s v p q, eq_iff id v));
        }

  pub visit_accepts :
      (fuel : ℕ) (id : String) (st : Marks)
      → Inv task by_id st
      → IsReady st id
      → visit task by_id fuel id st ≢ failed
  unfolding visit
  visit_accepts zero id st i r e = cc
  visit_accepts (suc fuel) id st i r e = go r.depth r.grounded (visit_accepts fuel)
    where
      go :
          (n : ℕ)
          → Grounded task by_id n id
          → ((d : String) (x : Marks)
              → Inv task by_id x
              → IsReady x d
              → visit task by_id fuel d x ≢ failed)
          → ⊥
      go n (ground_at {n = m} node f own ok paths) accepts = elim (Bool-cases (mark id st == 1)) [
        | inl a ↦ r.idle id here (ground (arith, a))
        | inr a ↦ elim (Bool-cases (mark id st == 2)) [
          | inl b ↦ cc (rw (a, b) at e)
          | inr b ↦
              node_accepts fuel accepts id node st i (ground (arith, a, b, i.range id)) f r own ok
                (λ s p. (m, paths s p)) (ground (arith, e, a, b, f))
        ]
      ]

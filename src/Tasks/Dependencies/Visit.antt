-- ===== src/Tasks/Dependencies/Visit.antt =====
-- What a visit that passes has established: the invariant of the search, and the two loops of a visit.
pub mod Node
use fast_task.Base.{
  ℕ, zero, suc, ◌+◌, ◌≤◌, ◌<◌, String, Bool, true, false, ◌≡◌, ◌≢◌, ◌⊎◌, inl, inr, Option, none,
  some, List, [], ◌∷◌, All, All-map, All-In, In, arith, refl, sym, str_eq, eq_iff, if◌then◌else◌,
  ◌==◌, Bool-cases, Option-cases, ◌∙◌, ap, subst, trim_space, some_eq, any, not, ◌||◌,
}
use fast_task.Tasks.Model.{Task, Index}
use fast_task.Tasks.Dependencies.{
  Marks, mark, Outcome, passed, failed, exhausted, and_then, lookup, is_foreign, visit_parent,
  visit_dependencies, visit_node, visit,
}
use fast_task.Tasks.Dependencies.Graph.{
  NoRepeat, IsWellFormed, Successor, IsOwn, Grounded, ground_at, Grounded-mono, universe, lookup-In,
  Reach, here, Reach-first,
}
use fast_task.Tasks.Dependencies.Marks.{
  After, After-refl, After-trans, After-visit, done, done_mono, done-finish,
}

pub and_then-passed :
    {A B : Type 0} (m : Outcome A) (k : A → Outcome B) (b : B)
    → and_then m k ≡ passed b
    → (a : A) × (m ≡ passed a) × (k a ≡ passed b)
and_then-passed (passed a) k b h = (a, refl, h)
and_then-passed failed k b h = cc
and_then-passed exhausted k b h = cc

pub passed-injective : {A : Type 0} {a b : A} → passed a ≡ passed b → a ≡ b
passed-injective h = cc

any-ne : (id : String) (seen : List String) → any (λ s. str_eq s id) seen ≡ false → ¬ In id seen
any-ne id [] h m = m
any-ne id (s ∷ seen) h m = ground (arith, eq_iff s id, any-ne id seen)

module _ (task : Task) (by_id : Index) where
  -- Every finished task is grounded, within as many steps as tasks are finished, and so are its
  -- successors.
  pub record Inv (st : Marks) : Type 0 where
    pub deep : (v : String) → mark v st ≡ 2 → Grounded task by_id (done (universe task by_id) st) v
    pub closed :
        (v s : String) (node : Task)
        → mark v st ≡ 2
        → lookup task by_id v ≡ some node
        → Successor node s
        → mark s st ≡ 2
    pub range : (v : String) → mark v st ≤ 2
    pub entered : All (λ e. e.1 ≢ 0) st

  pub record Post (id : String) (st st' : Marks) : Type 0 where
    pub after : After st st'
    pub inv : Inv st'
    pub finished : mark id st' ≡ 2
    pub origin : (v : String) → mark v st' ≢ 0 → (mark v st ≢ 0) ⊎ Reach task by_id id v

  pub IsOwn-of_not_foreign :
      (node : Task) → is_foreign task by_id node ≡ false → IsOwn task by_id node
  IsOwn-of_not_foreign node h = record {
    user = ground (arith, h, eq_iff node.user_id task.user_id);
    goal = ground (arith, h, eq_iff node.goal_id task.goal_id);
    live = ground (arith, h);
  }

  -- What the loop over the prerequisites has established.
  pub record PostAll (seen ds : List String) (st st' : Marks) : Type 0 where
    pub after : After st st'
    pub inv : Inv st'
    pub finished : All (λ d. mark d st' ≡ 2) ds
    pub entries : All (λ d. (d ≢ "") × (trim_space d ≡ d)) ds
    pub once : NoRepeat ds
    pub fresh : All (λ d. ¬ In d seen) ds
    pub origin :
        (v : String)
        → mark v st' ≢ 0
        → (mark v st ≢ 0) ⊎ ((d : String) × In d ds × Reach task by_id d v)

  module _ (visit_next : String → Marks → Outcome Marks)
      (next : (d : String) (st st' : Marks)
        → Inv st
        → visit_next d st ≡ passed st'
        → Post d st st') where
    pub dependencies-PostAll :
        (seen ds : List String) (st st' : Marks)
        → Inv st
        → visit_dependencies task by_id visit_next seen ds st ≡ passed st'
        → PostAll seen ds st st'
    unfolding visit_dependencies
    dependencies-PostAll seen [] st st' i h =
        let e = passed-injective h in
        record {
          after = subst (After st) e (After-refl st);
          inv = subst Inv e i;
          finished = tt;
          entries = tt;
          once = tt;
          fresh = tt;
          origin = λ v n. inl (subst (λ x. mark v x ≢ 0) (sym e) n);
        }
    dependencies-PostAll seen (d ∷ ds) st st' i h =
        let (test, rest) = test-and-rest in
        let (mid, e, e') =
          and_then-passed (visit_next d st)
            (λ x. visit_dependencies task by_id visit_next (d ∷ seen) ds x) st' rest in
        let one = next d st mid i e in
        let all = dependencies-PostAll (d ∷ seen) ds mid st' one.inv e' in
        record {
          after = After-trans one.after all.after;
          inv = all.inv;
          finished = (all.after.kept d one.finished, all.finished);
          entries = (
            (ground (arith, test, eq_iff d ""), ground (arith, test, eq_iff (trim_space d) d)),
            all.entries,
          );
          once = ((λ m. All-In (λ x. ¬ In x (d ∷ seen)) d ds all.fresh m (inl refl)), all.once);
          fresh = (
            ground (arith, test, any-ne d seen),
            All-map (λ x. ¬ In x (d ∷ seen)) (λ x. ¬ In x seen) ds (λ x f m. f (inr m)) all.fresh,
          );
          origin = λ v n. elim (all.origin v n) [
            | inl m ↦ elim (one.origin v m) [ inl k ↦ inl k | inr r ↦ inr (d, inl refl, r) ]
            | inr t ↦ inr (t.0, inr t.1, t.2)
          ];
        }
      where
        refused : Bool
        refused = str_eq d "" || not (str_eq (trim_space d) d) || any (λ s. str_eq s d) seen

        test-and-rest :
            (refused ≡ false)
            × (and_then
                  (visit_next d st)
                  (λ x. visit_dependencies task by_id visit_next (d ∷ seen) ds x)
                ≡ passed st')
        test-and-rest = elim (Bool-cases refused) [
          | inl e ↦ cc (rw e at h)
          | inr e ↦ (e, rw e at h)
        ]

    pub record PostParent (p : Option String) (st st' : Marks) : Type 0 where
      pub after : After st st'
      pub inv : Inv st'
      pub finished : (q : String) → p ≡ some q → mark q st' ≡ 2
      pub named : p ≢ some ""
      pub origin :
          (v : String)
          → mark v st' ≢ 0
          → (mark v st ≢ 0) ⊎ ((q : String) × (p ≡ some q) × Reach task by_id q v)

    pub parent-PostParent :
        (p : Option String) (st st' : Marks)
        → Inv st
        → visit_parent task by_id visit_next p st ≡ passed st'
        → PostParent p st st'
    parent-PostParent none st st' i h =
        let e = passed-injective h in
        record {
          after = subst (After st) e (After-refl st);
          inv = subst Inv e i;
          finished = λ q f. cc;
          named = λ f. cc;
          origin = λ v n. inl (subst (λ x. mark v x ≢ 0) (sym e) n);
        }
    parent-PostParent (some q) st st' i h = elim (Bool-cases (str_eq q "")) [
      | inl e ↦ cc (rw e at h)
      | inr e ↦
          let one = next q st st' i (rw e at h) in
          record {
            after = one.after;
            inv = one.inv;
            finished = λ x f. subst (λ y. mark y st' ≡ 2) (some_eq f) one.finished;
            named = λ f. cc (e, (eq_iff q "").1 (some_eq f));
            origin = λ v n. elim (one.origin v n) [ inl k ↦ inl k | inr r ↦ inr (q, refl, r) ];
          }
    ]

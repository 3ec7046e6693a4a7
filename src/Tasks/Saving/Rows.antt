-- ===== src/Tasks/Saving/Rows.antt =====
-- What the queries for a live goal and for the tasks of a goal find, apart from the code.
use fast_task.Base.{
  String, Bool, true, ◌&&◌, none, some, List, [], ◌∷◌, ◌≡◌, ◌≢◌, inl, inr, refl, sym, ◌∙◌, ap,
  arith, str_eq, eq_iff, is_none, In, Bool-cases, some_eq, map,
}
use fast_task.Jobs.Model.{first}
use fast_task.Plans.Model.{Goal}
use fast_task.Tasks.Model.{Task, Index, find}
use fast_task.Tasks.Saving.{require_live_goal, siblings, index_with}
use fast_task.Progress.Rows.{In-found, In-keep, keep-In}

-- A goal of the user that is not deleted.
pub record IsLiveGoal (goals : List Goal) (user id : String) (goal : Goal) : Type 0 where
  pub stored : In goal goals
  pub same_id : goal.id ≡ id
  pub owned : goal.user_id ≡ user
  pub live : goal.deleted_at ≡ none

pub require_live_goal-IsLiveGoal :
    (goals : List Goal) (user id : String) {goal : Goal}
    → require_live_goal goals user id ≡ some goal
    → IsLiveGoal goals user id goal
unfolding require_live_goal
require_live_goal-IsLiveGoal goals user id {goal = goal} h =
    let (m, p) =
      In-found (λ g. str_eq g.id id && str_eq g.user_id user && is_none g.deleted_at) goals h in
    record {
      stored = m;
      same_id = (eq_iff goal.id id).0 (ground (arith, p));
      owned = (eq_iff goal.user_id user).0 (ground (arith, p));
      live = ground (arith, p);
    }

found-of_In :
    (p : Goal → Bool) (goals : List Goal) (goal : Goal)
    → In goal goals
    → p goal ≡ true
    → (other : Goal) × (first p goals ≡ some other)
found-of_In p [] goal m t = absurd m
found-of_In p (x ∷ xs) goal m t = elim (Bool-cases (p x)) [
  | inl e ↦ (x, rw e refl)
  | inr e ↦ elim m [
    | inl q ↦ absurd (cc (e, ap p q, t))
    | inr n ↦ let (o, f) = found-of_In p xs goal n t in (o, rw e f)
  ]
]

pub require_live_goal_of_IsLiveGoal :
    (goals : List Goal) (user id : String) (goal : Goal)
    → IsLiveGoal goals user id goal
    → (other : Goal) × (require_live_goal goals user id ≡ some other)
unfolding require_live_goal
require_live_goal_of_IsLiveGoal goals user id goal l =
    found-of_In (λ g. str_eq g.id id && str_eq g.user_id user && is_none g.deleted_at) goals goal
      l.stored
      (rw ((eq_iff goal.id id).1 l.same_id, (eq_iff goal.user_id user).1 l.owned, l.live) refl)

-- The index finds exactly the rows of the task's owner and goal, each by its ID.
pub record IsGoalIndex (rows : List Task) (task : Task) (index : Index) : Type 0 where
  pub sound :
      (id : String) (t : Task)
      → find id index ≡ some t
      → In t rows × (t.id ≡ id) × (t.user_id ≡ task.user_id) × (t.goal_id ≡ task.goal_id)
  pub complete :
      (t : Task)
      → In t rows
      → t.user_id ≡ task.user_id
      → t.goal_id ≡ task.goal_id
      → find t.id index ≢ none

-- The same, with the task itself in the place of its own row.
pub record IsCandidateIndex (rows : List Task) (task : Task) (index : Index) : Type 0 where
  pub own : find task.id index ≡ some task
  pub sound :
      (id : String) (t : Task)
      → id ≢ task.id
      → find id index ≡ some t
      → In t rows × (t.id ≡ id) × (t.user_id ≡ task.user_id) × (t.goal_id ≡ task.goal_id)
  pub complete :
      (t : Task)
      → In t rows
      → t.user_id ≡ task.user_id
      → t.goal_id ≡ task.goal_id
      → find t.id index ≢ none

abbrev is_sibling : Task → Task → Bool
is_sibling task t = str_eq t.user_id task.user_id && str_eq t.goal_id task.goal_id

find_sound :
    (id : String) (xs : List Task) (t : Task)
    → find id (map (λ x. (x.id, x)) xs) ≡ some t
    → In t xs × (t.id ≡ id)
find_sound id [] t h = cc
find_sound id (x ∷ xs) t h = elim (Bool-cases (str_eq x.id id)) [
  | inl e ↦
      let q = some_eq (rw e at h) in (inl (sym q), ap (λ y. y.id) (sym q) ∙ (eq_iff x.id id).0 e)
  | inr e ↦ let (m, r) = find_sound id xs t (rw e at h) in (inr m, r)
]

find_complete : (xs : List Task) (t : Task) → In t xs → find t.id (map (λ x. (x.id, x)) xs) ≢ none
find_complete [] t m h = m
find_complete (x ∷ xs) t (inl q) h =
    absurd (let h' = rw ((eq_iff x.id t.id).1 (ap (λ y. y.id) (sym q))) at h in cc)
find_complete (x ∷ xs) t (inr m) h = elim (Bool-cases (str_eq x.id t.id)) [
  | inl e ↦ absurd (let h' = rw e at h in cc)
  | inr e ↦ find_complete xs t m (rw e at h)
]

pub siblings-IsGoalIndex :
    (rows : List Task) (task : Task)
    → IsGoalIndex rows task (map (λ x. (x.id, x)) (siblings rows task))
siblings-IsGoalIndex rows task = record {
  sound = λ id t h.
      let (m, e) = find_sound id (siblings rows task) t h in
      let (n, p) = In-keep (is_sibling task) rows t m in
      (
        n,
        e,
        (eq_iff t.user_id task.user_id).0 (ground (arith, p)),
        (eq_iff t.goal_id task.goal_id).0 (ground (arith, p)),
      );
  complete = λ t m u g. find_complete (siblings rows task) t (
      keep-In (is_sibling task) rows t m
        (rw ((eq_iff t.user_id task.user_id).1 u, (eq_iff t.goal_id task.goal_id).1 g) refl));
}

pub index_with-IsCandidateIndex :
    (rows : List Task) (task : Task)
    → IsCandidateIndex rows task (index_with task (siblings rows task))
index_with-IsCandidateIndex rows task =
    let rest = siblings-IsGoalIndex rows task in
    record {
      own = rw ((eq_iff task.id task.id).1 refl) refl;
      sound = λ id t n h. elim (Bool-cases (str_eq task.id id)) [
        | inl e ↦ absurd (n (sym ((eq_iff task.id id).0 e)))
        | inr e ↦ rest.sound id t (rw e at h)
      ];
      complete = λ t m u g h. elim (Bool-cases (str_eq task.id t.id)) [
        | inl e ↦ absurd (let h' = rw e at h in cc)
        | inr e ↦ rest.complete t m u g (rw e at h)
      ];
    }

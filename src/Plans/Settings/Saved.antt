-- ===== src/Plans/Settings/Saved.antt =====
-- Saving the planning settings, and reading them back.
use fast_task.Base.{
  ℕ, suc, String, Bool, true, false, ◌&&◌, ◌||◌, Option, some, List, [], ◌∷◌, ◌++◌, ℤ, pos, ltb_ℤ,
  leb_ℤ, ◌≡◌, refl, sym, ap, ◌∙◌, subst, inl, inr, arith, str_eq, eq_iff, ◌==◌, Bool-cases,
  Option-cases, some_eq, any,
}
use fast_task.Jobs.Model.{ok, first, count, update}
use fast_task.Jobs.Steps.{ok_eq, Result-cases}
use fast_task.Plans.Model.{User, PlanningSettings}
use fast_task.Plans.Settings.{
  Planner, has_user, planning_settings, configured_goal, saved_row, save_settings,
  update_planning_settings,
}
use fast_task.Plans.Settings.Chosen.{IsChoice, configured_goal-IsChoice}

first-append :
    (user : String) (xs : List PlanningSettings) (row : PlanningSettings)
    → row.user_id ≡ user
    → any (has_user user) xs ≡ false
    → first (has_user user) (xs ++ row ∷ []) ≡ some row
first-append user [] row e h = ground (arith, e, eq_iff row.user_id user)
first-append user (x ∷ xs) row e h =
    ground (arith, first-append user xs row e (ground (arith, h)), h)

module _ (user : String) (p : PlanningSettings → Bool) (f : PlanningSettings → PlanningSettings)
    (keeps : (s : PlanningSettings) → (f s).user_id ≡ s.user_id) where
  kept : (x : PlanningSettings) → has_user user x ≡ true → has_user user (f x) ≡ true
  kept x q = rw (keeps x) q

  kept_not : (x : PlanningSettings) → has_user user x ≡ false → has_user user (f x) ≡ false
  kept_not x q = rw (keeps x) q

  first-update :
      (xs : List PlanningSettings) (s : PlanningSettings)
      → first (has_user user) xs ≡ some s
      → p s ≡ true
      → first (has_user user) (update p f xs) ≡ some (f s)
  first-update [] s h t = cc
  first-update (x ∷ xs) s h t = elim (Bool-cases (has_user user x)) [
    | inl q ↦
        let same : x ≡ s = some_eq (rw q at h) in
        let hit : p x ≡ true = subst (λ y. p y ≡ true) (sym same) t in
        rw (hit, kept x q) (ap (λ y. some (f y)) same)
    | inr q ↦
        let rest = first-update xs s (rw q at h) t in
        elim (Bool-cases (p x)) [ inl r ↦ rw (r, kept_not x q) rest | inr r ↦ rw (r, q) rest ]
  ]

-- What a reader finds for the user after a save.
pub record IsSaved (db : Planner) (user : String) (expected : ℕ) (goal : Option String) (budget : ℤ)
    : Type 0 where
  pub revised : (planning_settings db user).revision ≡ suc expected
  pub budgeted : (planning_settings db user).daily_budget_minutes ≡ budget
  pub chosen : (planning_settings db user).primary_goal_id ≡ goal

found-IsSaved :
    (db : Planner) (user : String) (expected : ℕ) (goal : Option String) (budget : ℤ)
    (row : PlanningSettings)
    → first (has_user user) db.settings ≡ some row
    → row.revision ≡ suc expected
    → row.daily_budget_minutes ≡ budget
    → row.primary_goal_id ≡ goal
    → IsSaved db user expected goal budget
unfolding planning_settings
found-IsSaved db user expected goal budget row e a b c = record {
  revised = rw (planning_settings, e) a;
  budgeted = rw (planning_settings, e) b;
  chosen = rw (planning_settings, e) c;
}

module _ (now : ℕ) (user : String) (expected : ℕ) (goal : Option String) (budget : ℤ)
    (db db' : Planner) where
  inserted-IsSaved :
      (row : PlanningSettings)
      → row.user_id ≡ user
      → row.revision ≡ suc expected
      → row.daily_budget_minutes ≡ budget
      → row.primary_goal_id ≡ goal
      → any (has_user user) db.settings ≡ false
      → record db { settings = db.settings ++ row ∷ [] } ≡ db'
      → IsSaved db' user expected goal budget
  inserted-IsSaved row u a b c fresh e =
      subst (λ d. IsSaved d user expected goal budget) e
        (found-IsSaved _ user expected goal budget row (first-append user db.settings row u fresh) a
          b c)

  updated-IsSaved :
      (s : PlanningSettings)
      → first (has_user user) db.settings ≡ some s
      → s.revision ≡ expected
      → record db {
        settings =
            update
              (λ s. has_user user s && (s.revision == expected))
              (λ s. record s {
                primary_goal_id = goal;
                daily_budget_minutes = budget;
                revision = suc expected;
                updated_at = now;
              })
              db.settings;
      }
        ≡ db'
      → IsSaved db' user expected goal budget
  updated-IsSaved s q r e =
      subst (λ d. IsSaved d user expected goal budget) e
        (found-IsSaved _ user expected goal budget _
          (first-update user (λ s. has_user user s && (s.revision == expected))
            (λ s. record s {
              primary_goal_id = goal;
              daily_budget_minutes = budget;
              revision = suc expected;
              updated_at = now;
            })
            (λ s. refl) db.settings s q (hit s q r))
          refl refl refl)
    where
      owner :
          (xs : List PlanningSettings) (s : PlanningSettings)
          → first (has_user user) xs ≡ some s
          → has_user user s ≡ true
      owner [] s h = cc
      owner (x ∷ xs) s h = elim (Bool-cases (has_user user x)) [
        | inl t ↦ subst (λ y. has_user user y ≡ true) (some_eq (rw t at h)) t
        | inr t ↦ owner xs s (rw t at h)
      ]

      hit :
          (s : PlanningSettings)
          → first (has_user user) db.settings ≡ some s
          → s.revision ≡ expected
          → (has_user user s && (s.revision == expected)) ≡ true
      hit s q r = ground (arith, owner db.settings s q, r)

  save_settings-IsSaved :
      (planning_settings db user).revision ≡ expected
      → save_settings now user expected goal budget (planning_settings db user) db ≡ ok db'
      → IsSaved db' user expected goal budget
  unfolding save_settings planning_settings
  save_settings-IsSaved r h = elim (Bool-cases (expected == 0)) [
    | inl z ↦ elim (Bool-cases (any (has_user user) db.settings)) [
      | inl t ↦ cc (rw (save_settings, z, t) at h)
      | inr t ↦
          inserted-IsSaved
            (record (saved_row now user expected goal budget (planning_settings db user)) {
              created_at = now;
            })
            refl refl refl refl t (ok_eq (rw (save_settings, z, t) at h))
    ]
    | inr z ↦
        elim (Bool-cases
          (count (λ s. has_user user s && (s.revision == expected)) db.settings == 1)) [
            | inr t ↦ cc (rw (save_settings, z, t) at h)
            | inl t ↦ elim (Option-cases (first (has_user user) db.settings)) [
              | inl n ↦ absurd (ground (arith, z, rw (planning_settings, n) at r))
              | inr (s, n) ↦
                  updated-IsSaved s n (rw (planning_settings, n) at r)
                    (ok_eq (rw (save_settings, z, t) at h))
            ]
          ]
  ]

-- A successful update was made on the user's current revision, with a budget between 30 and 480 minutes;
-- after it the user's settings have the next revision, that budget and the chosen goal: none for no choice
-- or a blank one, else the trimmed ID, which was the choice before or is that of an active goal of the
-- user that is not deleted.
pub update_planning_settings-IsSaved :
    (now : ℕ) (user : String) (expected : ℕ) (choice : Option String) (budget : ℤ)
    (db db' : Planner) (view : PlanningSettings)
    → update_planning_settings now user expected choice budget db ≡ ok (view, db')
    → ((planning_settings db user).revision ≡ expected)
      × (leb_ℤ (pos 30) budget ≡ true)
      × (leb_ℤ budget (pos 480) ≡ true)
      × ((goal : Option String) × IsChoice db user
            (planning_settings db user).primary_goal_id
            choice
            goal
          × IsSaved db' user expected goal budget)
unfolding update_planning_settings
update_planning_settings-IsSaved now user expected choice budget db db' view h =
    elim (Bool-cases (ltb_ℤ budget (pos 30) || ltb_ℤ (pos 480) budget)) [
      | inl b ↦ cc (rw (update_planning_settings, b) at h)
      | inr b ↦ elim (Option-cases (first (λ (u : User). str_eq u.id user) db.users)) [
        | inl u ↦ cc (rw (update_planning_settings, b, u) at h)
        | inr (owner, u) ↦ elim (Bool-cases ((planning_settings db user).revision == expected)) [
          | inr r ↦ cc (rw (update_planning_settings, b, u, r) at h)
          | inl r ↦
              elim (Result-cases (configured_goal db user (planning_settings db user) choice)) [
                | inr (e, g) ↦ cc (rw (update_planning_settings, b, u, r, g) at h)
                | inl (goal, g) ↦
                    elim (Result-cases (
                      save_settings now user expected goal budget (planning_settings db user) db)) [
                        | inr (e, w) ↦ cc (rw (update_planning_settings, b, u, r, g, w) at h)
                        | inl (after, w) ↦
                            let same = ok_eq (rw (update_planning_settings, b, u, r, g, w) at h) in
                            let rev : (planning_settings db user).revision ≡ expected =
                              ground (arith, r) in
                            (
                              rev,
                              ground (arith, b),
                              ground (arith, b),
                              (
                                goal,
                                configured_goal-IsChoice db user (planning_settings db user) choice
                                    g,
                                save_settings-IsSaved now user expected goal budget db db' rev
                                    (w ∙ ap (λ (t : PlanningSettings × Planner). ok t.1) same),
                              ),
                            )
                      ]
              ]
        ]
      ]
    ]

-- ===== src/Coords/User.antt =====
-- What SetTaskCoord of lens.go leaves.
use fast_task.Base.{
  ℕ, ◌≤◌, String, true, ◌≡◌, ◌⊎◌, refl, sym, subst, arith, Option, none, some, List, ℤ, pos, ltb_ℤ,
  Bool-cases, Option-cases, inl, inr, eq_refl, is_none,
}
use fast_task.Domain.Lens.{validate_coord, valid_lens}
use fast_task.Jobs.Model.{ok, first, count}
use fast_task.Jobs.Support.{eq_ℤ}
use fast_task.Tasks.Model.{Task}
use fast_task.Errors.{>>=-eq-ok, guard->>-eq-ok}
use fast_task.Progress.Model.{Db}
use fast_task.Progress.Live.{require_live_task}
use fast_task.Progress.Rows.{count_one, In-found, first-overwrite, first-snoc}
use fast_task.Progress.Items.{next_revision}
use fast_task.Coords.{
  TaskCoord, truncate_rationale, is_coord_of, find_coord, create_coord, is_coord_version,
  write_coord, new_row, user_row, upsert_coord, set_task_coord, normalize_lens, err_lens, err_coord,
}
use fast_task.Coords.Writes.{create_coord-eq-ok, write_coord-eq-ok}

-- The coordinate that a user set, at the revision that follows the expected one.
pub record IsPlaced (x y : ℤ) (rationale : String) (expected : ℤ) (before : Option TaskCoord)
    (c : TaskCoord) : Type 0 where
  pub at_x : c.x ≡ x
  pub at_y : c.y ≡ y
  pub pin : c.pinned ≡ true
  pub source : c.source ≡ "user"
  pub text : c.rationale ≡ rationale
  pub revision :
      ((before ≡ none) × (ltb_ℤ expected (pos 0) ≡ true) × (c.revision ≡ pos 1))
      ⊎ ((old : TaskCoord) × (before ≡ some old)
          × (eq_ℤ old.revision expected ≡ true)
          × (c.revision ≡ next_revision expected))

none_of : {A : Type 0} (o : Option A) → is_none o ≡ true → o ≡ none
none_of none h = refl
none_of (some a) h = cc

fresh_place :
    (id : String) (now : ℕ) (user_id task_id lens : String) (x y : ℤ) (rationale : String)
    (expected : ℤ) (coords rows : List TaskCoord)
    → find_coord user_id task_id lens coords ≡ none
    → ltb_ℤ expected (pos 0) ≡ true
    → create_coord (new_row id user_id task_id lens x y "user" true rationale now) coords ≡ ok rows
    → (c : TaskCoord) × (find_coord user_id task_id lens rows ≡ some c)
      × IsPlaced x y rationale expected (find_coord user_id task_id lens coords) c
unfolding find_coord
fresh_place id now user_id task_id lens x y rationale expected coords rows f t h =
    let row = new_row id user_id task_id lens x y "user" true rationale now in
    let q : is_coord_of user_id task_id lens row ≡ true =
      ground (arith, eq_refl task_id, eq_refl user_id, eq_refl lens) in
    (
      row,
      subst (λ rs. first (is_coord_of user_id task_id lens) rs ≡ some row)
          (sym (create_coord-eq-ok row coords h))
          (first-snoc (is_coord_of user_id task_id lens) coords row f q),
      record {
        at_x = refl;
        at_y = refl;
        pin = refl;
        source = refl;
        text = refl;
        revision = inl (f, t, refl);
      },
    )

next_place :
    (now : ℕ) (user_id task_id lens : String) (x y : ℤ) (rationale : String) (expected : ℤ)
    (coords rows : List TaskCoord) (old : TaskCoord)
    → find_coord user_id task_id lens coords ≡ some old
    → eq_ℤ old.revision expected ≡ true
    → count (is_coord_of user_id task_id lens) coords ≤ 1
    → write_coord old.id expected (user_row x y rationale expected now) coords ≡ ok rows
    → (c : TaskCoord) × (find_coord user_id task_id lens rows ≡ some c)
      × IsPlaced x y rationale expected (find_coord user_id task_id lens coords) c
unfolding find_coord
next_place now user_id task_id lens x y rationale expected coords rows old f r u h =
    let (one, e) = write_coord-eq-ok old.id expected _ coords h in
    let (m, o) = In-found (is_coord_of user_id task_id lens) coords f in
    let p = is_coord_version old.id expected in
    let t : p old ≡ true = ground (arith, r, eq_refl old.id) in
    let row = user_row x y rationale expected now old in
    (
      row,
      subst (λ rs. first (is_coord_of user_id task_id lens) rs ≡ some row) (sym e)
          (first-overwrite p (is_coord_of user_id task_id lens)
            (user_row x y rationale expected now) coords old
            (λ c n k. count_one p coords old c one m t n k) m t o u o),
      record {
        at_x = refl;
        at_y = refl;
        pin = refl;
        source = refl;
        text = refl;
        revision = inr (old, f, r, refl);
      },
    )

upsert_coord-IsPlaced :
    (id : String) (now : ℕ) (user_id task_id lens : String) (x y : ℤ) (rationale : String)
    (expected : ℤ) (coords rows : List TaskCoord)
    → count (is_coord_of user_id task_id lens) coords ≤ 1
    → upsert_coord id now user_id task_id lens x y rationale expected coords ≡ ok rows
    → (c : TaskCoord) × (find_coord user_id task_id lens rows ≡ some c)
      × IsPlaced x y rationale expected (find_coord user_id task_id lens coords) c
unfolding upsert_coord
upsert_coord-IsPlaced id now user_id task_id lens x y rationale expected coords rows u h =
    elim (Option-cases (find_coord user_id task_id lens coords)) [
      | inl f ↦ elim (Bool-cases (ltb_ℤ expected (pos 0))) [
        | inl t ↦
            fresh_place id now user_id task_id lens x y rationale expected coords rows f t
              (rw (upsert_coord, f, t) at h)
        | inr t ↦ absurd (let h' = rw (upsert_coord, f, t) at h in cc)
      ]
      | inr (old, f) ↦ elim (Bool-cases (ltb_ℤ expected (pos 0))) [
        | inl t ↦ absurd (let h' = rw (upsert_coord, f, t) at h in cc)
        | inr t ↦ elim (Bool-cases (eq_ℤ old.revision expected)) [
          | inr r ↦ absurd (let h' = rw (upsert_coord, f, t, r) at h in cc)
          | inl r ↦
              next_place now user_id task_id lens x y rationale expected coords rows old f r u
                (rw (upsert_coord, f, t, r) at h)
        ]
      ]
    ]

-- A user's write that succeeds concerned a live task, a known lens and coordinates in range. If a task has
-- at most one coordinate for a lens, that one is now what the user set, pinned: a new one where none was
-- expected and none was there, or the next revision of the one that was expected.
pub set_task_coord-IsPlaced :
    (db : Db) (id : String) (now : ℕ) (user_id task_id lens : String) (x y : ℤ) (rationale : String)
    (expected : ℤ) (coords rows : List TaskCoord)
    → count (is_coord_of user_id task_id (normalize_lens lens)) coords ≤ 1
    → set_task_coord db id now user_id task_id lens x y rationale expected coords ≡ ok rows
    → (valid_lens (normalize_lens lens) ≡ true)
      × (validate_coord x y ≡ none)
      × ((task : Task) × (require_live_task db user_id task_id ≡ ok task))
      × ((c : TaskCoord) × (find_coord user_id task_id (normalize_lens lens) rows ≡ some c)
          × IsPlaced x y
              (truncate_rationale rationale)
              expected
              (find_coord user_id task_id (normalize_lens lens) coords)
              c)
unfolding set_task_coord
set_task_coord-IsPlaced db id now user_id task_id lens x y rationale expected coords rows u h =
    let (l, h1) = guard->>-eq-ok (valid_lens (normalize_lens lens)) err_lens _ h in
    let (v, h2) = guard->>-eq-ok (is_none (validate_coord x y)) err_coord _ h1 in
    let (task, t, h3) = >>=-eq-ok (require_live_task db user_id task_id) _ h2 in
    (
      l,
      none_of (validate_coord x y) v,
      (task, t),
      upsert_coord-IsPlaced id now user_id task_id (normalize_lens lens) x y
          (truncate_rationale rationale) expected coords rows u h3,
    )

-- ===== src/Progress/Removal/Selected.antt =====
-- What the checks of a removal find.
use fast_task.Base.{
  In, ◌⊎◌, ◌+◌, false, none, subst, any, ◌||◌, is_blank, eq_iff, Option-cases, some_eq, ltb_ℤ,
  String, Bool, true, not, ◌&&◌, ◌≡◌, refl, sym, ◌∙◌, ap, some, List, [], ◌∷◌, length, ℤ, pos,
  str_eq, ltb, leb, ◌==◌, ==_iff, arith, Bool-cases, inl, inr,
}
use fast_task.Jobs.Model.{ok, first, err_not_found, err_conflict, err_revision, err_validation}
use fast_task.Jobs.Support.{eq_ℤ}
use fast_task.Jobs.Steps.{ok_eq}
use fast_task.Plans.Model.{DailyPlan, DailyPlanItem}
use fast_task.Errors.{◌>>=◌, ◌>>◌, guard, >>=-eq-ok, guard->>-eq-ok, or_err-eq-ok, or_err}
use fast_task.Progress.Model.{Db, Env}
use fast_task.Progress.Live.{is_plan_of}
use fast_task.Progress.Rows.{In-found}
use fast_task.Progress.Removal.Moves.{IsLiveItem, In-live_plan_items, live_plan_items-In}
use fast_task.Progress.Removal.{
  live_plan_items, Selection, select_items, is_named, PlanItemDeletion, Tools, read_requests,
  split_items, live_plan_items,
}

-- The request asks for the item at its revision.
abbrev pub asks_for : DailyPlanItem → PlanItemDeletion → Bool
asks_for item d = str_eq d.id item.id && eq_ℤ item.revision d.revision

any-read_requests :
    (p : PlanItemDeletion → Bool) (selected acc : List PlanItemDeletion)
    {requested : List PlanItemDeletion}
    → read_requests selected acc ≡ ok requested
    → any p requested ≡ true
    → any p selected || any p acc ≡ true
any-read_requests p [] acc h q = ap (any p) (ok_eq h) ∙ q
any-read_requests p (d ∷ selected) acc h q =
    let (g, h1) =
      guard->>-eq-ok (not (is_blank d.id || ltb_ℤ d.revision (pos 1) || any (is_named d.id) acc))
        err_validation _ h in
    let ih = any-read_requests p selected (d ∷ acc) h1 q in ground (arith, ih)

any-first :
    (item : DailyPlanItem) (requested : List PlanItemDeletion) {d : PlanItemDeletion}
    → first (is_named item.id) requested ≡ some d
    → eq_ℤ item.revision d.revision ≡ true
    → any (asks_for item) requested ≡ true
any-first item [] f e = cc
any-first item (x ∷ xs) f e = elim (Bool-cases (is_named item.id x)) [
  | inl n ↦
      let same = some_eq (rw n at f) in
      let r = subst (λ y. eq_ℤ item.revision y.revision ≡ true) (sym same) e in ground (arith, n, r)
  | inr n ↦ let ih = any-first item xs (rw n at f) e in ground (arith, ih)
]

-- An item that goes belongs to the user, is a core one, and is asked for at its revision.
abbrev pub IsRemovable : String → List PlanItemDeletion → DailyPlanItem → Type 0
IsRemovable user_id selected item =
    (item.user_id ≡ user_id) × (item.kind ≡ "core") × (any (asks_for item) selected ≡ true)

first-none-any :
    (id : String) (requested : List PlanItemDeletion)
    → first (is_named id) requested ≡ none
    → any (is_named id) requested ≡ false
first-none-any id [] h = refl
first-none-any id (x ∷ xs) h = elim (Bool-cases (is_named id x)) [
  | inl e ↦ absurd (let h' = rw e at h in cc)
  | inr e ↦ rw (e, first-none-any id xs (rw e at h)) refl
]

-- The items fall into those that no request names and those that may go.
pub record IsSplit (user_id : String) (requested : List PlanItemDeletion)
    (items kept removed : List DailyPlanItem) : Type 0 where
  pub covers : (i : DailyPlanItem) → In i items → In i kept ⊎ In i removed
  pub found : (i : DailyPlanItem) → In i kept ⊎ In i removed → In i items
  pub unnamed : (i : DailyPlanItem) → In i kept → any (is_named i.id) requested ≡ false
  pub removable : (i : DailyPlanItem) → In i removed → IsRemovable user_id requested i

module _ (user_id : String) (requested : List PlanItemDeletion) (item : DailyPlanItem)
    (items kept removed : List DailyPlanItem)
    (s : IsSplit user_id requested items kept removed) where
  keeps-IsSplit :
      any (is_named item.id) requested ≡ false
      → IsSplit user_id requested (item ∷ items) (item ∷ kept) removed
  keeps-IsSplit n = record {
    covers = λ i m. elim m as (λ _. In i (item ∷ kept) ⊎ In i removed) [
      | inl e ↦ inl (inl e)
      | inr k ↦ elim (s.covers i k) as (λ _. In i (item ∷ kept) ⊎ In i removed) [
        | inl a ↦ inl (inr a)
        | inr b ↦ inr b
      ]
    ];
    found = λ i m. elim m as (λ _. In i (item ∷ items)) [
      | inl a ↦ elim a as (λ _. In i (item ∷ items)) [
        | inl e ↦ inl e
        | inr k ↦ inr (s.found i (inl k))
      ]
      | inr b ↦ inr (s.found i (inr b))
    ];
    unnamed = λ i m. elim m as (λ _. any (is_named i.id) requested ≡ false) [
      | inl e ↦ subst (λ x. any (is_named x.id) requested ≡ false) (sym e) n
      | inr k ↦ s.unnamed i k
    ];
    removable = s.removable;
  }

  removes-IsSplit :
      IsRemovable user_id requested item
      → IsSplit user_id requested (item ∷ items) kept (item ∷ removed)
  removes-IsSplit r = record {
    covers = λ i m. elim m as (λ _. In i kept ⊎ In i (item ∷ removed)) [
      | inl e ↦ inr (inl e)
      | inr k ↦ elim (s.covers i k) as (λ _. In i kept ⊎ In i (item ∷ removed)) [
        | inl a ↦ inl a
        | inr b ↦ inr (inr b)
      ]
    ];
    found = λ i m. elim m as (λ _. In i (item ∷ items)) [
      | inl a ↦ inr (s.found i (inl a))
      | inr b ↦ elim b as (λ _. In i (item ∷ items)) [
        | inl e ↦ inl e
        | inr k ↦ inr (s.found i (inr k))
      ]
    ];
    unnamed = s.unnamed;
    removable = λ i m. elim m as (λ _. IsRemovable user_id requested i) [
      | inl e ↦ subst (IsRemovable user_id requested) (sym e) r
      | inr k ↦ s.removable i k
    ];
  }

split_items-IsSplit :
    (user_id : String) (requested : List PlanItemDeletion) (items : List DailyPlanItem)
    {parts : List DailyPlanItem × List DailyPlanItem}
    → split_items user_id requested items ≡ ok parts
    → IsSplit user_id requested items parts.0 parts.1
split_items-IsSplit user_id requested [] h =
    subst (λ p. IsSplit user_id requested [] p.0 p.1) (ok_eq h)
      (record {
        covers = λ i m. absurd m;
        found = λ i m. elim m as (λ _. In i []) [ inl a ↦ a | inr b ↦ b ];
        unnamed = λ i m. absurd m;
        removable = λ i m. absurd m;
      })
split_items-IsSplit user_id requested (item ∷ items) h =
    let to : List DailyPlanItem × List DailyPlanItem → Type 0 =
      λ p. IsSplit user_id requested (item ∷ items) p.0 p.1 in
    elim (Option-cases (first (is_named item.id) requested)) [
      | inl n ↦
          let (p, r, h1) =
            >>=-eq-ok (split_items user_id requested items) (λ p. ok (item ∷ p.0, p.1))
              (rw (n, split_items) at h) in
          subst to (ok_eq h1) (
            keeps-IsSplit user_id requested item items p.0 p.1
              (split_items-IsSplit user_id requested items r) (first-none-any item.id requested n))
      | inr (d, n) ↦
          let (o, h1) =
            guard->>-eq-ok (str_eq item.user_id user_id && str_eq item.kind "core") err_validation
              (guard (eq_ℤ item.revision d.revision) err_revision
                >> (split_items user_id requested items >>= (λ p. ok (p.0, item ∷ p.1))))
              (rw (n, split_items) at h) in
          let (e, h2) = guard->>-eq-ok (eq_ℤ item.revision d.revision) err_revision _ h1 in
          let (p, r, h3) =
            >>=-eq-ok (split_items user_id requested items) (λ p. ok (p.0, item ∷ p.1)) h2 in
          subst to (ok_eq h3) (
            removes-IsSplit user_id requested item items p.0 p.1
              (split_items-IsSplit user_id requested items r)
              (
                (eq_iff item.user_id user_id).0 (ground (arith, o)),
                (eq_iff item.kind "core").0 (ground (arith, o)),
                any-first item requested n e,
              ))
    ]

requests-any :
    (p : PlanItemDeletion → Bool) (selected acc : List PlanItemDeletion)
    {requested : List PlanItemDeletion}
    → read_requests selected acc ≡ ok requested
    → any p selected || any p acc ≡ true
    → any p requested ≡ true
requests-any p [] acc h q = ap (any p) (sym (ok_eq h)) ∙ q
requests-any p (d ∷ selected) acc h q =
    let (g, h1) =
      guard->>-eq-ok (not (is_blank d.id || ltb_ℤ d.revision (pos 1) || any (is_named d.id) acc))
        err_validation _ h in
    requests-any p selected (d ∷ acc) h1 (ground (arith, q))

length-read_requests :
    (selected acc : List PlanItemDeletion) {requested : List PlanItemDeletion}
    → read_requests selected acc ≡ ok requested
    → length requested ≡ length selected + length acc
length-read_requests [] acc h = let e = ap length (sym (ok_eq h)) in omega (arith, e)
length-read_requests (d ∷ selected) acc h =
    let (g, h1) =
      guard->>-eq-ok (not (is_blank d.id || ltb_ℤ d.revision (pos 1) || any (is_named d.id) acc))
        err_validation _ h in
    let ih = length-read_requests selected (d ∷ acc) h1 in omega (arith, ih)

pub any-asks_named :
    (item : DailyPlanItem) (ds : List PlanItemDeletion)
    → any (asks_for item) ds ≡ true
    → any (is_named item.id) ds ≡ true
any-asks_named item [] h = cc
any-asks_named item (d ∷ ds) h = ground (arith, h, any-asks_named item ds)

-- What the checks of a removal say of the items that they find: the plan is the user's and active, at the
-- expected revision; its live items are those that stay and those that go; no request names one that stays;
-- one that goes is a core item of the user, asked for at its revision; and they are as many as the requests.
pub record IsSelected (user_id plan_id : String) (expected : ℤ) (selected : List PlanItemDeletion)
    (db : Db) (s : Selection) : Type 0 where
  pub stored : In s.plan db.plans
  pub same_id : s.plan.id ≡ plan_id
  pub owned : s.plan.user_id ≡ user_id
  pub same : eq_ℤ s.plan.revision expected ≡ true
  pub active : s.plan.status ≡ "active"
  pub covers : (i : DailyPlanItem) → IsLiveItem db s.plan i → In i s.kept ⊎ In i s.removed
  pub live : (i : DailyPlanItem) → In i s.kept ⊎ In i s.removed → IsLiveItem db s.plan i
  pub unnamed : (i : DailyPlanItem) → In i s.kept → any (λ d. str_eq d.id i.id) selected ≡ false
  pub removable : (i : DailyPlanItem) → In i s.removed → IsRemovable user_id selected i
  pub many : length s.removed ≡ length selected

module _ (user_id plan_id : String) (expected : ℤ) (selected requested : List PlanItemDeletion)
    (db : Db) (plan : DailyPlan) (kept removed : List DailyPlanItem) where
  split-IsSelected :
      first (is_plan_of user_id plan_id) db.plans ≡ some plan
      → eq_ℤ plan.revision expected ≡ true
      → str_eq plan.status "active" ≡ true
      → read_requests selected [] ≡ ok requested
      → IsSplit user_id requested (live_plan_items db plan) kept removed
      → length removed ≡ length requested
      → IsSelected user_id plan_id expected selected db
          (record { plan = plan; requested = requested; kept = kept; removed = removed })
  split-IsSelected f r a q s l =
      let (m, p) = In-found (is_plan_of user_id plan_id) db.plans f in
      record {
        stored = m;
        same_id = (eq_iff plan.id plan_id).0 (ground (arith, p));
        owned = (eq_iff plan.user_id user_id).0 (ground (arith, p));
        same = r;
        active = (eq_iff plan.status "active").0 a;
        covers = λ i v. s.covers i (In-live_plan_items db plan i v);
        live = λ i v. live_plan_items-In db plan i (s.found i v);
        unnamed = λ i v. elim (Bool-cases (any (is_named i.id) selected)) [
          | inr e ↦ e
          | inl e ↦ absurd (
              let w = requests-any (is_named i.id) selected [] q (ground (arith, e)) in
              let u = s.unnamed i v in cc)
        ];
        removable = λ i v.
            let (u, k, w) = s.removable i v in
            let found = any-read_requests (asks_for i) selected [] q w in
            (u, k, ground (arith, found));
        many = omega (arith, l, length-read_requests selected [] q);
      }

pub select_items-IsSelected :
    (env : Env) (tools : Tools) (user_id plan_id : String) (expected : ℤ)
    (selected : List PlanItemDeletion) (db : Db) {s : Selection}
    → select_items env tools user_id plan_id expected selected db ≡ ok s
    → IsSelected user_id plan_id expected selected db s
unfolding select_items
select_items-IsSelected env tools user_id plan_id expected selected db h =
    let (n, h1) =
      guard->>-eq-ok (ltb 0 (length selected) && leb (length selected) 3) err_validation _ h in
    let (requested, q, h2) = >>=-eq-ok (read_requests selected []) _ h1 in
    let (user, u, h3) =
      >>=-eq-ok
        (or_err (first (λ u. str_eq u.id user_id && str_eq u.status "active") db.users)
          err_not_found)
        _ h2 in
    let (plan, f, h4) =
      >>=-eq-ok (or_err (first (is_plan_of user_id plan_id) db.plans) err_not_found) _ h3 in
    let (r, h5) = guard->>-eq-ok (eq_ℤ plan.revision expected) err_revision _ h4 in
    let (a, h6) =
      guard->>-eq-ok
        (str_eq plan.status "active"
          && str_eq plan.timezone (tools.zone_name user.timezone)
          && str_eq plan.local_date (env.local_date user.timezone env.now))
        err_conflict _ h5 in
    let (parts, s, h7) = >>=-eq-ok (split_items user_id requested (live_plan_items db plan)) _ h6 in
    let (l, h8) = guard->>-eq-ok (length parts.1 == length requested) err_not_found _ h7 in
    subst (IsSelected user_id plan_id expected selected db) (ok_eq h8) (
      split-IsSelected user_id plan_id expected selected requested db plan parts.0 parts.1
        (or_err-eq-ok _ _ f) r (ground (arith, a)) q
        (split_items-IsSplit user_id requested (live_plan_items db plan) s) ((==_iff _ _).0 l))

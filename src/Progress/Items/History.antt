-- ===== src/Progress/Items/History.antt =====
-- The last completion of an item, which a reversal names, apart from the code.
use fast_task.Base.{
  Bool, ◌<◌, String, true, false, ◌&&◌, Option, none, some, List, [], ◌∷◌, ◌≡◌, ◌≢◌, ◌↔◌, ◌⊎◌, inl,
  inr, refl, sym, subst, ap, ◌∙◌, arith, str_eq, str_lt, str_ge_trans, str_lt_asym, eq_iff, In, All,
  any, keep, Bool-cases, Option-cases, some_eq,
}
use fast_task.Plans.Model.{DailyPlanItem}
use fast_task.Progress.Model.{Db, ProgressEvent}
use fast_task.Progress.Rows.{any-In, In-keep, keep-In}
use fast_task.Progress.Items.{
  is_completion, is_same_commitment, names_id, is_later, latest, last_item_completion, reversed_id,
}
use fast_task.Plans.Budget.{logical_item_id}

-- The item's own logical ID, or its ID where it has none.
abbrev pub LogicalId : DailyPlanItem → String → Type 0
LogicalId item id =
    ((item.logical_id ≢ "") × (id ≡ item.logical_id)) ⊎ ((item.logical_id ≡ "") × (id ≡ item.id))

pub logical_item_id-LogicalId : (item : DailyPlanItem) → LogicalId item (logical_item_id item)
unfolding logical_item_id
logical_item_id-LogicalId item = elim (Bool-cases (str_eq item.logical_id "")) [
  | inl e ↦ inr ((eq_iff item.logical_id "").0 e, rw e refl)
  | inr e ↦ inl ((λ q. absurd (ground (arith, e, (eq_iff item.logical_id "").1 q))), rw e refl)
]

abbrev pub completion_kinds : List String
completion_kinds = "result" ∷ "step" ∷ "time" ∷ "minimum_action" ∷ []

-- The event completed a row of the same commitment.
pub record IsCompletion (db : Db) (user : String) (item : DailyPlanItem) (pe : ProgressEvent)
    : Type 0 where
  pub owned : pe.user_id ≡ user
  pub kind : In pe.kind completion_kinds
  pub row : DailyPlanItem
  pub stored : In row db.items
  pub named : pe.plan_item_id ≡ some row.id
  pub plan : row.plan_id ≡ item.plan_id
  pub commitment : logical_item_id row ≡ logical_item_id item

In-any_kind : (x : String) (xs : List String) → any (str_eq x) xs ≡ true → In x xs
In-any_kind x [] h = cc
In-any_kind x (y ∷ ys) h = elim (Bool-cases (str_eq x y)) [
  | inl e ↦ inl ((eq_iff x y).0 e)
  | inr e ↦ inr (In-any_kind x ys (rw e at h))
]

any_kind-In : (x : String) (xs : List String) → In x xs → any (str_eq x) xs ≡ true
any_kind-In x [] m = absurd m
any_kind-In x (y ∷ ys) (inl e) = ground (arith, (eq_iff x y).1 e)
any_kind-In x (y ∷ ys) (inr m) = ground (arith, any_kind-In x ys m)

any-found :
    (p : DailyPlanItem → Bool) (xs : List DailyPlanItem)
    → any p xs ≡ true
    → (x : DailyPlanItem) × In x xs × (p x ≡ true)
any-found p [] h = cc
any-found p (x ∷ xs) h = elim (Bool-cases (p x)) [
  | inl e ↦ (x, inl refl, e)
  | inr e ↦ let (y, m, q) = any-found p xs (rw e at h) in (y, inr m, q)
]

names_id-eq : (o : Option String) (id : String) → (names_id o id ≡ true) ↔ (o ≡ some id)
names_id-eq none id = ((λ h. cc), (λ h. cc))
names_id-eq (some x) id = ((λ h. ap some ((eq_iff x id).0 h)), (λ h. (eq_iff x id).1 (some_eq h)))

is_completion_iff :
    (db : Db) (user : String) (item : DailyPlanItem) (pe : ProgressEvent)
    → (is_completion db user item pe ≡ true) ↔ IsCompletion db user item pe
is_completion_iff db user item pe = (there, back)
  where
    there : is_completion db user item pe ≡ true → IsCompletion db user item pe
    there h =
        let (row, m, p) =
          any-found (λ dpi. names_id pe.plan_item_id dpi.id && is_same_commitment item dpi) db.items
            (ground (arith, h)) in
        record {
          owned = (eq_iff pe.user_id user).0 (ground (arith, h));
          kind = In-any_kind pe.kind completion_kinds (ground (arith, h));
          row = row;
          stored = m;
          named = (names_id-eq pe.plan_item_id row.id).0 (ground (arith, p));
          plan = (eq_iff row.plan_id item.plan_id).0 (ground (arith, p));
          commitment = (eq_iff (logical_item_id row) (logical_item_id item)).0 (ground (arith, p));
        }

    back : IsCompletion db user item pe → is_completion db user item pe ≡ true
    back c =
        rw
          (
            (eq_iff pe.user_id user).1 c.owned,
            any-In (λ dpi. names_id pe.plan_item_id dpi.id && is_same_commitment item dpi) db.items
                c.row c.stored
                (rw
                  (
                    (names_id-eq pe.plan_item_id c.row.id).1 c.named,
                    (eq_iff c.row.plan_id item.plan_id).1 c.plan,
                    (eq_iff (logical_item_id c.row) (logical_item_id item)).1 c.commitment,
                  )
                  refl),
          )
          (any_kind-In pe.kind completion_kinds c.kind)

-- An event is not after another one: by its time, and then by its ID.
abbrev pub NotAfter : ProgressEvent → ProgressEvent → Type 0
NotAfter a b =
    (a.created_at < b.created_at) ⊎ ((a.created_at ≡ b.created_at) × (str_lt b.id a.id ≡ false))

NotAfter-trans : (a b c : ProgressEvent) → NotAfter a b → NotAfter b c → NotAfter a c
NotAfter-trans a b c (inl h) (inl k) = inl (omega arith)
NotAfter-trans a b c (inl h) (inr (k, l)) = inl (omega arith)
NotAfter-trans a b c (inr (h, l)) (inl k) = inl (omega arith)
NotAfter-trans a b c (inr (h, l)) (inr (k, m)) = inr (h ∙ k, str_ge_trans a.id b.id c.id l m)

NotAfter-refl : (a : ProgressEvent) → NotAfter a a
NotAfter-refl a = elim (Bool-cases (str_lt a.id a.id)) [
  | inl e ↦ absurd (let f = str_lt_asym a.id a.id e in cc)
  | inr e ↦ inr (refl, e)
]

kept_later : (best pe : ProgressEvent) → is_later best pe ≡ true → NotAfter pe best
kept_later best pe h = ground (arith, h, str_lt_asym pe.id best.id)

kept_earlier : (best pe : ProgressEvent) → is_later best pe ≡ false → NotAfter best pe
kept_earlier best pe h = ground (arith, h)

latest-none : (xs : List ProgressEvent) → latest xs ≡ none → xs ≡ []
unfolding latest
latest-none [] h = refl
latest-none (pe ∷ rest) h = elim (Option-cases (latest rest)) [
  | inl e ↦ absurd (let h' = rw e at h in cc)
  | inr (best, e) ↦ absurd (let h' = rw e at h in cc)
]

latest-Last :
    (xs : List ProgressEvent) (pe : ProgressEvent)
    → latest xs ≡ some pe
    → In pe xs × ((other : ProgressEvent) → In other xs → NotAfter other pe)
unfolding latest
latest-Last [] pe h = cc
latest-Last (x ∷ xs) pe h = elim (Option-cases (latest xs)) [
  | inl e ↦
      let q : x ≡ pe = some_eq (rw (latest, e) at h) in
      let empty = latest-none xs e in
      (
        inl (sym q),
        λ other m. elim m [
          | inl r ↦ subst (NotAfter other) q (subst (λ y. NotAfter y x) (sym r) (NotAfter-refl x))
          | inr n ↦ absurd (subst (In other) empty n)
        ],
      )
  | inr (best, e) ↦
      let (m, all) = latest-Last xs best e in
      elim (Bool-cases (is_later best x)) [
        | inl l ↦
            let q : best ≡ pe = some_eq (rw (latest, e, l) at h) in
            (
              inr (subst (λ y. In y xs) q m),
              λ other n. subst (NotAfter other) q (elim n as (λ _. NotAfter other best) [
                | inl r ↦ subst (λ y. NotAfter y best) (sym r) (kept_later best x l)
                | inr k ↦ all other k
              ]),
            )
        | inr l ↦
            let q : x ≡ pe = some_eq (rw (latest, e, l) at h) in
            (
              inl (sym q),
              λ other n. subst (NotAfter other) q (elim n as (λ _. NotAfter other x) [
                | inl r ↦ subst (λ y. NotAfter y x) (sym r) (NotAfter-refl x)
                | inr k ↦ NotAfter-trans other best x (all other k) (kept_earlier best x l)
              ]),
            )
      ]
]

All_of_In :
    (P : ProgressEvent → Type 0) (xs : List ProgressEvent)
    → ((x : ProgressEvent) → In x xs → P x)
    → All P xs
All_of_In P [] f = tt
All_of_In P (x ∷ xs) f = (f x (inl refl), All_of_In P xs (λ y m. f y (inr m)))

-- The ID of the last completion of the item, or none.
abbrev pub Reverses : Db → String → DailyPlanItem → String → Type 0
Reverses db user item id =
    ((id ≡ "") × All (λ pe. ¬ IsCompletion db user item pe) db.events)
    ⊎ ((pe : ProgressEvent) × In pe db.events
        × IsCompletion db user item pe
        × (id ≡ pe.id)
        × ((other : ProgressEvent)
            → In other db.events
            → IsCompletion db user item other
            → NotAfter other pe))

pub last_item_completion-Reverses :
    (db : Db) (user : String) (item : DailyPlanItem)
    → Reverses db user item (reversed_id (last_item_completion db user item))
unfolding last_item_completion
last_item_completion-Reverses db user item =
    elim (Option-cases (last_item_completion db user item)) [
      | inl e ↦
          let empty = latest-none (keep (is_completion db user item) db.events) e in
          rw e (
            inl (
              refl,
              All_of_In (λ pe. ¬ IsCompletion db user item pe) db.events
                  (λ pe m c. subst (In pe) empty (
                    keep-In (is_completion db user item) db.events pe m
                      ((is_completion_iff db user item pe).1 c))),
            ))
      | inr (pe, e) ↦
          let (m, all) = latest-Last (keep (is_completion db user item) db.events) pe e in
          let (n, t) = In-keep (is_completion db user item) db.events pe m in
          rw e (
            inr (
              pe,
              n,
              (is_completion_iff db user item pe).0 t,
              refl,
              λ other k c. all other (
                  keep-In (is_completion db user item) db.events other k
                    ((is_completion_iff db user item other).1 c)),
            ))
    ]

-- ===== src/Progress/Items/Cited.antt =====
-- The IDs that a completion cites count as a set.
use fast_task.Base.{
  String, true, false, ◌≡◌, ◌↔◌, ◌⊎◌, Bool-cases, inl, inr, List, [], ◌∷◌, str_eq, str_lt, arith,
  eq_iff, In, All, All-map, str_lt_total, str_lt_asym, str_ge_trans,
}
use fast_task.Progress.Items.{insert_id, unique_ids}

-- Each ID precedes the next ones.
abbrev pub IsStrict : List String → Type 0
IsStrict [] = Unit
IsStrict (x ∷ xs) = All (λ y. str_lt x y ≡ true) xs × IsStrict xs

In-insert_id : (id x : String) (xs : List String) → In x (insert_id id xs) ↔ ((x ≡ id) ⊎ In x xs)
In-insert_id id x [] = ground arith
In-insert_id id x (y ∷ ys) = ground (arith, eq_iff id y, In-insert_id id x ys)

above_trans : (x y z : String) → str_lt x y ≡ true → str_lt y z ≡ true → str_lt x z ≡ true
above_trans x y z h k = elim (Bool-cases (str_lt x z)) [
  | inl e ↦ e
  | inr e ↦ (let f = str_ge_trans y z x (str_lt_asym y z k) e in cc)
]

All-insert_id :
    (x id : String) (ys : List String)
    → str_lt x id ≡ true
    → All (λ y. str_lt x y ≡ true) ys
    → All (λ y. str_lt x y ≡ true) (insert_id id ys)
All-insert_id x id [] h a = (h, tt)
All-insert_id x id (y ∷ ys) h a = ground (arith, All-insert_id x id ys)

next_above : (id x : String) → str_eq id x ≡ false → str_lt id x ≡ false → str_lt x id ≡ true
next_above id x e l = elim (Bool-cases (str_lt x id)) [
  | inl t ↦ t
  | inr f ↦ absurd (ground (arith, e, (eq_iff id x).1 (str_lt_total id x l f)))
]

insert_id-IsStrict : (id : String) (xs : List String) → IsStrict xs → IsStrict (insert_id id xs)
insert_id-IsStrict id [] s = (tt, tt)
insert_id-IsStrict id (x ∷ xs) s = elim (Bool-cases (str_eq id x)) [
  | inl e ↦ rw e s
  | inr e ↦ elim (Bool-cases (str_lt id x)) [
    | inl l ↦
        rw (e, l)
          (
            (
              l,
              All-map (λ y. str_lt x y ≡ true) (λ y. str_lt id y ≡ true) xs
                  (λ y m. above_trans id x y l m) s.0,
            ),
            s,
          )
    | inr l ↦
        rw (e, l) (All-insert_id x id xs (next_above id x e l) s.0, insert_id-IsStrict id xs s.1)
  ]
]

unique_ids-IsStrict : (ids : List String) → IsStrict (unique_ids ids)
unfolding unique_ids
unique_ids-IsStrict [] = tt
unique_ids-IsStrict (id ∷ ids) = insert_id-IsStrict id (unique_ids ids) (unique_ids-IsStrict ids)

In-unique_ids : (x : String) (ids : List String) → In x (unique_ids ids) ↔ In x ids
unfolding unique_ids
In-unique_ids x [] = ground arith
In-unique_ids x (id ∷ ids) = ground (arith, In-insert_id id x (unique_ids ids), In-unique_ids x ids)

-- The cited IDs are put in order without a repetition, and none is lost or added.
pub unique_ids-IsSet :
    (ids : List String)
    → IsStrict (unique_ids ids) × ((x : String) → In x (unique_ids ids) ↔ In x ids)
unique_ids-IsSet ids = (unique_ids-IsStrict ids, λ x. In-unique_ids x ids)

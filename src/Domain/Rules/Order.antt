-- ===== src/Domain/Rules/Order.antt =====
-- A stable sort by a strict weak order: it is sorted, and it keeps what it was given.
use fast_task.Base.{Bool, true, false, List, [], ◌∷◌, ◌≡◌, inl, inr, All, All-map, In, Bool-cases}
use fast_task.Domain.Rules.{insert_sorted, sort_stable}

-- What Go asks of a comparison: it is a strict weak order.
pub record IsStrictWeak {A : Type 0} (less : A → A → Bool) : Type 0 where
  pub asym : (a b : A) → less a b ≡ true → less b a ≡ false
  pub ge_trans : (a b c : A) → less b a ≡ false → less c b ≡ false → less c a ≡ false

module _ {A : Type 0} (less : A → A → Bool) where
  -- No later element precedes an earlier one.
  abbrev pub Sorted : List A → Type 0
  Sorted [] = Unit
  Sorted (x ∷ xs) = All (λ y. less y x ≡ false) xs × Sorted xs

  pub All-insert_sorted :
      (P : A → Type 0) (x : A) (ys : List A) → P x → All P ys → All P (insert_sorted less x ys)
  unfolding insert_sorted
  All-insert_sorted P x [] h k = (h, tt)
  All-insert_sorted P x (y ∷ ys) h k = elim (Bool-cases (less y x)) [
    | inl e ↦ rw e (k.0, All-insert_sorted P x ys h k.1)
    | inr e ↦ rw e (h, k)
  ]

  pub All-sort_stable : (P : A → Type 0) (xs : List A) → All P xs → All P (sort_stable less xs)
  unfolding sort_stable
  All-sort_stable P [] h = tt
  All-sort_stable P (x ∷ xs) h =
      All-insert_sorted P x (sort_stable less xs) h.0 (All-sort_stable P xs h.1)

  pub In-insert_sorted : (z x : A) (ys : List A) → In z (x ∷ ys) → In z (insert_sorted less x ys)
  unfolding insert_sorted
  In-insert_sorted z x [] m = m
  In-insert_sorted z x (y ∷ ys) m = elim (Bool-cases (less y x)) [
    | inl e ↦ rw e (elim m [
      | inl p ↦ inr (In-insert_sorted z x ys (inl p))
      | inr (inl p) ↦ inl p
      | inr (inr q) ↦ inr (In-insert_sorted z x ys (inr q))
    ])
    | inr e ↦ rw e m
  ]

  pub In-sort_stable : (z : A) (xs : List A) → In z xs → In z (sort_stable less xs)
  unfolding sort_stable
  In-sort_stable z [] m = m
  In-sort_stable z (x ∷ xs) (inl p) = In-insert_sorted z x (sort_stable less xs) (inl p)
  In-sort_stable z (x ∷ xs) (inr q) =
      In-insert_sorted z x (sort_stable less xs) (inr (In-sort_stable z xs q))

  module _ (o : IsStrictWeak less) where
    insert_sorted-Sorted : (x : A) (ys : List A) → Sorted ys → Sorted (insert_sorted less x ys)
    unfolding insert_sorted
    insert_sorted-Sorted x [] s = (tt, tt)
    insert_sorted-Sorted x (y ∷ ys) s = elim (Bool-cases (less y x)) [
      | inl e ↦ rw e (
        All-insert_sorted (λ z. less z y ≡ false) x ys (o.asym y x e) s.0,
        insert_sorted-Sorted x ys s.1,
      )
      | inr e ↦ rw e (
        (
          e,
          All-map (λ z. less z y ≡ false) (λ z. less z x ≡ false) ys (λ z h. o.ge_trans x y z e h)
              s.0,
        ),
        s,
      )
    ]

    pub sort_stable-Sorted : (xs : List A) → Sorted (sort_stable less xs)
    unfolding sort_stable
    sort_stable-Sorted [] = tt
    sort_stable-Sorted (x ∷ xs) =
        insert_sorted-Sorted x (sort_stable less xs) (sort_stable-Sorted xs)

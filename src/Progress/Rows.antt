-- ===== src/Progress/Rows.antt =====
-- Counting and updating rows of any table.
use fast_task.Base.{
  keep, if◌then◌else◌, ◌+◌, ◌≤◌, Bool, true, false, ◌≡◌, ◌⊎◌, refl, sym, ◌∙◌, subst, arith, inl,
  inr, some, List, [], ◌∷◌, ◌++◌, All, In, any, Bool-cases, if◌then◌else◌, ap, none, some_eq,
}
use fast_task.Jobs.Model.{first, count, update}

module _ {A : Type 0} where
  pub count-In : (p : A → Bool) (xs : List A) (a : A) → In a xs → p a ≡ true → 1 ≤ count p xs
  count-In p [] a m t = absurd m
  count-In p (x ∷ xs) a (inl e) t = let u : p x ≡ true = ap p (sym e) ∙ t in ground arith
  count-In p (x ∷ xs) a (inr m) t = ground (arith, count-In p xs a m t)

  -- Where a test holds of one row only, two rows that satisfy it are the same.
  pub count_one :
      (p : A → Bool) (xs : List A) (a b : A)
      → count p xs ≡ 1
      → In a xs
      → p a ≡ true
      → In b xs
      → p b ≡ true
      → a ≡ b
  count_one p [] a b c m t n u = absurd m
  count_one p (x ∷ xs) a b c (inl e) t (inl f) u = e ∙ sym f
  count_one p (x ∷ xs) a b c (inl e) t (inr n) u =
      let v : p x ≡ true = ap p (sym e) ∙ t in absurd (ground (arith, count-In p xs b n u))
  count_one p (x ∷ xs) a b c (inr m) t (inl f) u =
      let v : p x ≡ true = ap p (sym f) ∙ u in absurd (ground (arith, count-In p xs a m t))
  count_one p (x ∷ xs) a b c (inr m) t (inr n) u =
      count_one p xs a b (ground (arith, count-In p xs a m t)) m t n u

  pub count-update-le :
      (p q : A → Bool) (f : A → A) (xs : List A)
      → ((x : A) → In x xs → p x ≡ true → q (f x) ≡ true → q x ≡ true)
      → count q (update p f xs) ≤ count q xs
  count-update-le p q f [] h = omega arith
  count-update-le p q f (x ∷ xs) h =
      let k = h x (inl refl) in ground (arith, count-update-le p q f xs (λ y m. h y (inr m)))

  pub All-update :
      (P : A → Type 0) (p : A → Bool) (f : A → A) (xs : List A)
      → ((x : A) → In x xs → p x ≡ true → P x → P (f x))
      → All P xs
      → All P (update p f xs)
  All-update P p f [] h a = tt
  All-update P p f (x ∷ xs) h a =
      (head (Bool-cases (p x)), All-update P p f xs (λ y m. h y (inr m)) a.1)
    where
      head : (p x ≡ true) ⊎ (p x ≡ false) → P (if p x then f x else x)
      head (inl t) = subst (λ b. P (if b then f x else x)) (sym t) (h x (inl refl) t a.0)
      head (inr t) = subst (λ b. P (if b then f x else x)) (sym t) a.0

  pub All-snoc : (P : A → Type 0) (xs : List A) (x : A) → All P xs → P x → All P (xs ++ x ∷ [])
  All-snoc P [] x a h = (h, tt)
  All-snoc P (y ∷ ys) x a h = (a.0, All-snoc P ys x a.1 h)

  pub count-snoc :
      (q : A → Bool) (xs : List A) (x : A)
      → count q (xs ++ x ∷ []) ≡ count q xs + (if q x then 1 else 0)
  count-snoc q [] x = ground arith
  count-snoc q (y ∷ ys) x = ground (arith, count-snoc q ys x)

  pub In-found : (p : A → Bool) (xs : List A) {a : A} → first p xs ≡ some a → In a xs × (p a ≡ true)
  In-found p [] h = cc
  In-found p (x ∷ xs) {a = a} h = elim (Bool-cases (p x)) [
    | inl t ↦ let e = some_eq (rw t at h) in (inl (sym e), subst (λ y. p y ≡ true) e t)
    | inr t ↦ let (m, u) = In-found p xs (rw t at h) in (inr m, u)
  ]

  pub any-In : (p : A → Bool) (xs : List A) (a : A) → In a xs → p a ≡ true → any p xs ≡ true
  any-In p [] a m t = absurd m
  any-In p (x ∷ xs) a (inl e) t = let u : p x ≡ true = ap p (sym e) ∙ t in ground arith
  any-In p (x ∷ xs) a (inr m) t = ground (arith, any-In p xs a m t)

  pub count-le :
      (p q : A → Bool) (xs : List A) → ((x : A) → p x ≡ true → q x ≡ true) → count p xs ≤ count q xs
  count-le p q [] h = omega arith
  count-le p q (x ∷ xs) h = let k = h x in ground (arith, count-le p q xs h)

  -- The row that is written under a key that one row has is the row that the key finds.
  pub first-update :
      (p q : A → Bool) (row : A) (xs : List A) (a : A)
      → ((x : A) → In x xs → p x ≡ true → q x ≡ true)
      → In a xs
      → p a ≡ true
      → count q xs ≡ 1
      → q row ≡ true
      → first q (update p (λ x. row) xs) ≡ some row
  first-update p q row [] a h m t c r = absurd m
  first-update p q row (x ∷ xs) a h (inl e) t c r =
      let u : p x ≡ true = ap p (sym e) ∙ t in rw (u, r)
  first-update p q row (x ∷ xs) a h (inr m) t c r = elim (Bool-cases (q x)) [
    | inl u ↦ absurd (ground (arith, count-In q xs a m (h a (inr m) t)))
    | inr u ↦
        let v : p x ≡ false = ground (arith, h x (inl refl)) in
        rw (v, u, first-update p q row xs a (λ y n. h y (inr n)) m t (ground arith) r)
  ]

  pub In-snoc : (xs : List A) (x y : A) → In y xs → In y (xs ++ x ∷ [])
  In-snoc [] x y m = absurd m
  In-snoc (z ∷ zs) x y (inl e) = inl e
  In-snoc (z ∷ zs) x y (inr m) = inr (In-snoc zs x y m)

  -- A row that the condition of an update does not meet stays.
  pub In-update :
      (p : A → Bool) (f : A → A) (xs : List A) (y : A)
      → In y xs
      → p y ≡ false
      → In y (update p f xs)
  In-update p f [] y m n = absurd m
  In-update p f (x ∷ xs) y (inl e) n =
      let u : p x ≡ false = ap p (sym e) ∙ n in
      inl (subst (λ b. y ≡ (if b then f x else x)) (sym u) e)
  In-update p f (x ∷ xs) y (inr m) n = inr (In-update p f xs y m n)

  -- A row that it meets is written.
  pub update-In :
      (p : A → Bool) (f : A → A) (xs : List A) (y : A)
      → In y xs
      → p y ≡ true
      → In (f y) (update p f xs)
  update-In p f [] y m t = absurd m
  update-In p f (x ∷ xs) y (inl e) t = rw (ap p (sym e) ∙ t) (inl (ap f e))
  update-In p f (x ∷ xs) y (inr m) t = inr (update-In p f xs y m t)

  pub first-snoc :
      (p : A → Bool) (xs : List A) (row : A)
      → first p xs ≡ none
      → p row ≡ true
      → first p (xs ++ row ∷ []) ≡ some row
  first-snoc p [] row h r = rw r
  first-snoc p (x ∷ xs) row h r = elim (Bool-cases (p x)) [
    | inl t ↦ absurd (let h' = rw t at h in cc)
    | inr t ↦ rw (t, first-snoc p xs row (rw t at h) r)
  ]

  -- The one row that an update meets, and a key finds, is found after the update.
  pub first-overwrite :
      (p q : A → Bool) (f : A → A) (xs : List A) (a : A)
      → ((x : A) → In x xs → p x ≡ true → a ≡ x)
      → In a xs
      → p a ≡ true
      → q a ≡ true
      → count q xs ≤ 1
      → q (f a) ≡ true
      → first q (update p f xs) ≡ some (f a)
  first-overwrite p q f [] a h m t u c r = absurd m
  first-overwrite p q f (x ∷ xs) a h (inl e) t u c r =
      let v : p x ≡ true = ap p (sym e) ∙ t in
      let w : q (f x) ≡ true = ap (λ y. q (f y)) (sym e) ∙ r in
      rw (v, w) (ap (λ y. some (f y)) (sym e))
  first-overwrite p q f (x ∷ xs) a h (inr m) t u c r = elim (Bool-cases (q x)) [
    | inl v ↦ absurd (ground (arith, count-In q xs a m u))
    | inr v ↦ elim (Bool-cases (p x)) [
      | inl w ↦ absurd (let g = ap q (h x (inl refl) w) in cc)
      | inr w ↦ rw (w, v) (first-overwrite p q f xs a (λ y n. h y (inr n)) m t u (ground arith) r)
    ]
  ]

  pub In-keep : (p : A → Bool) (xs : List A) (t : A) → In t (keep p xs) → In t xs × (p t ≡ true)
  In-keep p [] t m = absurd m
  In-keep p (x ∷ xs) t m = elim (Bool-cases (p x)) [
    | inl e ↦
        elim (subst (In t) (ap (λ b. if b then x ∷ keep p xs else keep p xs) e) m)
          as (λ _. In t (x ∷ xs) × (p t ≡ true)) [
            | inl q ↦ (inl q, ap p q ∙ e)
            | inr n ↦ let (k, r) = In-keep p xs t n in (inr k, r)
          ]
    | inr e ↦
        let (k, r) =
          In-keep p xs t (subst (In t) (ap (λ b. if b then x ∷ keep p xs else keep p xs) e) m) in
        (inr k, r)
  ]

  pub keep-In : (p : A → Bool) (xs : List A) (t : A) → In t xs → p t ≡ true → In t (keep p xs)
  keep-In p [] t m e = absurd m
  keep-In p (x ∷ xs) t (inl q) e = rw (ap p (sym q) ∙ e) (inl q)
  keep-In p (x ∷ xs) t (inr m) e = elim (Bool-cases (p x)) [
    | inl f ↦ rw f (inr (keep-In p xs t m e))
    | inr f ↦ rw f (keep-In p xs t m e)
  ]

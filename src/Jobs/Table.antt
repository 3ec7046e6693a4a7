-- ===== src/Jobs/Table.antt =====
-- The table of jobs: updates row by row, primary keys, and the number of unfinished jobs of a user.
use fast_task.Base.{
  not, ◌&&◌, str_eq, ◌+◌, ◌≤◌, String, Bool, true, false, none, some, List, [], ◌∷◌, ◌++◌, ◌≡◌, ◌≢◌,
  inl, inr, refl, sym, ◌∙◌, subst, arith, if◌then◌else◌, eq_iff, any, some_eq, All, All-In, In,
  Bool-cases,
}
use fast_task.Jobs.Model.{AgentJob, first, count, update, has_id}
use fast_task.Jobs.Queue.{is_pending_of}
use fast_task.Jobs.Rows.{
  Edge, stay, IsSound, Edge-IsSound, Edge-id, Edge-user, Edge-kind, Edge-unfinished,
}

-- Every row changes by an edge, in its place.
abbrev pub Edits : List AgentJob → List AgentJob → Type 0
Edits [] [] = Unit
Edits [] (y ∷ ys) = ⊥
Edits (x ∷ xs) [] = ⊥
Edits (x ∷ xs) (y ∷ ys) = Edge x y × Edits xs ys

-- The primary key.
abbrev pub Distinct : List AgentJob → Type 0
Distinct [] = Unit
Distinct (x ∷ xs) = All (λ y. y.id ≢ x.id) xs × Distinct xs

pub Edits-refl : (xs : List AgentJob) → Edits xs xs
Edits-refl [] = tt
Edits-refl (x ∷ xs) = (stay x, Edits-refl xs)

pub update-Edits :
    (p : AgentJob → Bool) (f : AgentJob → AgentJob) (xs : List AgentJob)
    → ((x : AgentJob) → In x xs → p x ≡ true → Edge x (f x))
    → Edits xs (update p f xs)
update-Edits p f [] h = tt
update-Edits p f (x ∷ xs) h = elim (Bool-cases (p x)) [
  | inl e ↦ rw e (h x (inl refl) e, update-Edits p f xs (λ y m. h y (inr m)))
  | inr e ↦ rw e (stay x, update-Edits p f xs (λ y m. h y (inr m)))
]

pub Edits-All-IsSound : (xs ys : List AgentJob) → Edits xs ys → All IsSound xs → All IsSound ys
Edits-All-IsSound [] [] e a = tt
Edits-All-IsSound [] (y ∷ ys) e a = absurd e
Edits-All-IsSound (x ∷ xs) [] e a = absurd e
Edits-All-IsSound (x ∷ xs) (y ∷ ys) e a = (Edge-IsSound e.0 a.0, Edits-All-IsSound xs ys e.1 a.1)

fresh_row :
    (i : String) (xs ys : List AgentJob)
    → Edits xs ys
    → All (λ y. y.id ≢ i) xs
    → All (λ y. y.id ≢ i) ys
fresh_row i [] [] e a = tt
fresh_row i [] (y ∷ ys) e a = absurd e
fresh_row i (x ∷ xs) [] e a = absurd e
fresh_row i (x ∷ xs) (y ∷ ys) e a = ((λ p. a.0 (sym (Edge-id e.0) ∙ p)), fresh_row i xs ys e.1 a.1)

pub Edits-Distinct : (xs ys : List AgentJob) → Edits xs ys → Distinct xs → Distinct ys
Edits-Distinct [] [] e d = tt
Edits-Distinct [] (y ∷ ys) e d = absurd e
Edits-Distinct (x ∷ xs) [] e d = absurd e
Edits-Distinct (x ∷ xs) (y ∷ ys) e d = (
  subst (λ i. All (λ z. z.id ≢ i) ys) (sym (Edge-id e.0)) (fresh_row x.id xs ys e.1 d.0),
  Edits-Distinct xs ys e.1 d.1,
)

pub same_row :
    (xs : List AgentJob) (a b : AgentJob) → Distinct xs → In a xs → In b xs → a.id ≡ b.id → a ≡ b
same_row [] a b d m n e = absurd m
same_row (x ∷ xs) a b d (inl p) (inl q) e = p ∙ sym q
same_row (x ∷ xs) a b d (inl p) (inr n) e =
    absurd (All-In (λ y. y.id ≢ x.id) b xs d.0 n (cc (e, p)))
same_row (x ∷ xs) a b d (inr m) (inl q) e =
    absurd (All-In (λ y. y.id ≢ x.id) a xs d.0 m (cc (e, q)))
same_row (x ∷ xs) a b d (inr m) (inr n) e = same_row xs a b d.1 m n e

-- A row of the new table and the row that it was.
pub Edits-back :
    (xs ys : List AgentJob) (y : AgentJob)
    → Edits xs ys
    → In y ys
    → (x : AgentJob) × In x xs × Edge x y
Edits-back [] [] y e m = absurd m
Edits-back [] (z ∷ ys) y e m = absurd e
Edits-back (x ∷ xs) [] y e m = absurd e
Edits-back (x ∷ xs) (z ∷ ys) y e (inl p) = (x, inl refl, subst (Edge x) (sym p) e.0)
Edits-back (x ∷ xs) (z ∷ ys) y e (inr m) = let (w, n, g) = Edits-back xs ys y e.1 m in (w, inr n, g)

-- A row of the old table and the row that it becomes.
pub Edits-forth :
    (xs ys : List AgentJob) (x : AgentJob)
    → Edits xs ys
    → In x xs
    → (y : AgentJob) × In y ys × Edge x y
Edits-forth [] ys x e m = absurd m
Edits-forth (z ∷ xs) [] x e m = absurd e
Edits-forth (z ∷ xs) (y ∷ ys) x e (inl p) = (y, inl refl, subst (λ w. Edge w y) (sym p) e.0)
Edits-forth (z ∷ xs) (y ∷ ys) x e (inr m) =
    let (w, n, g) = Edits-forth xs ys x e.1 m in (w, inr n, g)

-- The unfinished jobs of a user that carry no agent run.
abbrev pub is_counted : String → AgentJob → Bool
is_counted user job = is_pending_of user job && not (str_eq job.kind "agent_run")

pub counted_le :
    (user : String) (xs : List AgentJob)
    → count (is_counted user) xs ≤ count (is_pending_of user) xs
counted_le user [] = omega arith
counted_le user (x ∷ xs) = ground (arith, counted_le user xs)

pub pending_le :
    (user : String) (xs ys : List AgentJob)
    → Edits xs ys
    → count (is_counted user) ys ≤ count (is_counted user) xs
pending_le user [] [] e = omega arith
pending_le user [] (y ∷ ys) e = absurd e
pending_le user (x ∷ xs) [] e = absurd e
pending_le user (x ∷ xs) (y ∷ ys) e =
    let rest = pending_le user xs ys e.1 in
    elim (Bool-cases (is_counted user y)) [
      | inl p ↦ ground (arith, rest, p, Edge-user e.0, Edge-kind e.0, Edge-unfinished e.0)
      | inr p ↦ ground (arith, rest, p)
    ]

pub count-append :
    (p : AgentJob → Bool) (xs : List AgentJob) (x : AgentJob)
    → count p (xs ++ x ∷ []) ≡ count p xs + (if p x then 1 else 0)
count-append p [] x = ground arith
count-append p (y ∷ xs) x = ground (arith, count-append p xs x)

pub In-append : (xs : List AgentJob) (x y : AgentJob) → In y xs → In y (xs ++ x ∷ [])
In-append [] x y m = absurd m
In-append (z ∷ xs) x y (inl p) = inl p
In-append (z ∷ xs) x y (inr m) = inr (In-append xs x y m)

pub All-append :
    (P : AgentJob → Type 0) (xs : List AgentJob) (x : AgentJob)
    → All P xs
    → P x
    → All P (xs ++ x ∷ [])
All-append P [] x a h = (h, tt)
All-append P (y ∷ xs) x a h = (a.0, All-append P xs x a.1 h)

pub Distinct-append :
    (xs : List AgentJob) (x : AgentJob)
    → any (has_id x.id) xs ≡ false
    → Distinct xs
    → Distinct (xs ++ x ∷ [])
Distinct-append [] x h d = (tt, tt)
Distinct-append (y ∷ xs) x h d = (
  All-append (λ z. z.id ≢ y.id) xs x d.0 (λ p. absurd (ground (arith, h, p, eq_iff y.id x.id))),
  Distinct-append xs x (ground (arith, h)) d.1,
)

pub In-first :
    (p : AgentJob → Bool) (xs : List AgentJob) (x : AgentJob)
    → first p xs ≡ some x
    → In x xs × (p x ≡ true)
In-first p [] x h = cc
In-first p (y ∷ xs) x h = elim (Bool-cases (p y)) [
  | inl e ↦ let q = some_eq (rw e at h) in (inl (sym q), subst (λ z. p z ≡ true) q e)
  | inr e ↦ let (m, t) = In-first p xs x (rw e at h) in (inr m, t)
]

pub first-some :
    (p : AgentJob → Bool) (xs : List AgentJob) (x : AgentJob)
    → In x xs
    → p x ≡ true
    → ¬ (first p xs ≡ none)
first-some p [] x m t h = m
first-some p (y ∷ xs) x (inl q) t h = cc (rw (subst (λ z. p z ≡ true) q t) at h)
first-some p (y ∷ xs) x (inr m) t h = elim (Bool-cases (p y)) [
  | inl e ↦ cc (rw e at h)
  | inr e ↦ first-some p xs x m t (rw e at h)
]

-- ===== src/Domain/Rules/Admission.antt =====
-- What the loop of SelectDailyCandidates lets through to the sort.
use fast_task.Base.{
  String, true, false, List, [], ◌∷◌, ◌≡◌, ◌≢◌, ◌⊎◌, inl, inr, refl, subst, arith, str_eq, eq_iff,
  is_blank, All, All-map, All-In, In, Bool-cases, any,
}
use fast_task.Domain.Rules.{Candidate, is_skipped, admitted}

-- A candidate that may be planned today.
pub record IsQualified (c : Candidate) : Type 0 where
  pub named : c.id ≢ ""
  pub goal : c.goal_active ≡ true
  pub dependencies : c.dependency_done ≡ true
  pub action : is_blank c.minimum_action ≡ false
  pub is_open : (c.status ≡ "ready") ⊎ (c.status ≡ "in_progress")

abbrev pub Distinct : List Candidate → Type 0
Distinct [] = Unit
Distinct (c ∷ cs) = All (λ d. d.id ≢ c.id) cs × Distinct cs

any-eq : (id : String) (seen : List String) → any (λ s. str_eq s id) seen ≡ true → In id seen
any-eq id [] h = cc
any-eq id (s ∷ seen) h = ground (arith, eq_iff s id, any-eq id seen)

any-ne : (id : String) (seen : List String) → any (λ s. str_eq s id) seen ≡ false → ¬ In id seen
any-ne id [] h m = m
any-ne id (s ∷ seen) h m = ground (arith, eq_iff s id, any-ne id seen)

IsQualified-of_not_skipped :
    (seen : List String) (c : Candidate)
    → is_skipped seen c ≡ false
    → IsQualified c × (¬ In c.id seen)
IsQualified-of_not_skipped seen c h = ground (
  arith,
  eq_iff c.id "",
  eq_iff c.status "ready",
  eq_iff c.status "in_progress",
  any-ne c.id seen,
)

not_skipped_of_qualified :
    (seen : List String) (c : Candidate)
    → IsQualified c
    → ¬ In c.id seen
    → is_skipped seen c ≡ false
not_skipped_of_qualified seen c q m = ground (
  arith,
  q,
  eq_iff c.id "",
  eq_iff c.status "ready",
  eq_iff c.status "in_progress",
  any-eq c.id seen,
)

-- What the loop keeps: qualified candidates of the input, none with an ID seen before.
abbrev pub IsAdmitted : List String → List Candidate → Candidate → Type 0
IsAdmitted seen cs c = IsQualified c × In c cs × (¬ In c.id seen)

pub admitted-IsAdmitted :
    (seen : List String) (cs : List Candidate) → All (IsAdmitted seen cs) (admitted seen cs)
unfolding admitted
admitted-IsAdmitted seen [] = tt
admitted-IsAdmitted seen (c ∷ cs) = elim (Bool-cases (is_skipped seen c)) [
  | inl e ↦
      rw (e, admitted)
        (All-map (IsAdmitted seen cs) (IsAdmitted seen (c ∷ cs)) (admitted seen cs)
          (λ d h. (h.0, inr h.1, h.2)) (admitted-IsAdmitted seen cs))
  | inr e ↦
      rw (e, admitted)
        (
          (
            (IsQualified-of_not_skipped seen c e).0,
            inl refl,
            (IsQualified-of_not_skipped seen c e).1,
          ),
          All-map (IsAdmitted (c.id ∷ seen) cs) (IsAdmitted seen (c ∷ cs))
              (admitted (c.id ∷ seen) cs) (λ d h. (h.0, inr h.1, λ m. h.2 (inr m)))
              (admitted-IsAdmitted (c.id ∷ seen) cs),
        )
]

pub admitted-Distinct : (seen : List String) (cs : List Candidate) → Distinct (admitted seen cs)
unfolding admitted
admitted-Distinct seen [] = tt
admitted-Distinct seen (c ∷ cs) = elim (Bool-cases (is_skipped seen c)) [
  | inl e ↦ rw (e, admitted) (admitted-Distinct seen cs)
  | inr e ↦
      rw (e, admitted)
        (
          All-map (IsAdmitted (c.id ∷ seen) cs) (λ d. d.id ≢ c.id) (admitted (c.id ∷ seen) cs)
              (λ d h p. h.2 (inl p)) (admitted-IsAdmitted (c.id ∷ seen) cs),
          admitted-Distinct (c.id ∷ seen) cs,
        )
]

pub In-admitted :
    (c : Candidate) (seen : List String) (cs : List Candidate)
    → Distinct cs
    → IsQualified c
    → ¬ In c.id seen
    → In c cs
    → In c (admitted seen cs)
unfolding admitted
In-admitted c seen [] k q m i = i
In-admitted c seen (d ∷ ds) k q m (inl p) =
    rw
      (
        not_skipped_of_qualified seen d (subst IsQualified p q)
            (subst (λ (x : Candidate). ¬ In x.id seen) p m),
        admitted,
      )
      (inl p)
In-admitted c seen (d ∷ ds) k q m (inr i) = elim (Bool-cases (is_skipped seen d)) [
  | inl e ↦ rw (e, admitted) (In-admitted c seen ds k.1 q m i)
  | inr e ↦ rw (e, admitted) (inr (In-admitted c (d.id ∷ seen) ds k.1 q (fresh i) i))
]
  where
    fresh : In c ds → ¬ In c.id (d.id ∷ seen)
    fresh j (inl p) = All-In (λ x. x.id ≢ d.id) c ds k.0 j p
    fresh j (inr n) = m n

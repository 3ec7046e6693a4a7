-- ===== src/Domain/Rules/Selection.antt =====
-- What SelectDailyCandidates promises: at most three, qualified, distinct, and the best by its order.
use fast_task.Base.{
  ℕ, zero, suc, ◌≤◌, false, List, [], ◌∷◌, ◌≡◌, ◌≢◌, ◌⊎◌, inl, inr, refl, sym, ap, All, All-map,
  All-take, All-In, In, take, length, length-take-le, Bool-cases,
}
use fast_task.Domain.Rules.{
  Candidate, admitted, precedes, insert_sorted, sort_stable, select_daily_candidates,
}
use fast_task.Domain.Rules.Order.{
  Sorted, All-insert_sorted, All-sort_stable, In-sort_stable, sort_stable-Sorted,
}
use fast_task.Domain.Rules.Priority.{precedes-IsStrictWeak}
use fast_task.Domain.Rules.Admission.{
  IsQualified, Distinct, IsAdmitted, admitted-IsAdmitted, admitted-Distinct, In-admitted,
}

insert_sorted-Distinct :
    (c : Candidate) (cs : List Candidate)
    → All (λ d. d.id ≢ c.id) cs
    → Distinct cs
    → Distinct (insert_sorted precedes c cs)
unfolding insert_sorted
insert_sorted-Distinct c [] h k = (tt, tt)
insert_sorted-Distinct c (d ∷ ds) h k = elim (Bool-cases (precedes d c)) [
  | inl e ↦ rw e (
    All-insert_sorted precedes (λ x. x.id ≢ d.id) c ds (λ p. h.0 (sym p)) k.0,
    insert_sorted-Distinct c ds h.1 k.1,
  )
  | inr e ↦ rw e (h, k)
]

sort_stable-Distinct : (cs : List Candidate) → Distinct cs → Distinct (sort_stable precedes cs)
unfolding sort_stable
sort_stable-Distinct [] k = tt
sort_stable-Distinct (c ∷ cs) k =
    insert_sorted-Distinct c (sort_stable precedes cs)
      (All-sort_stable precedes (λ d. d.id ≢ c.id) cs k.0) (sort_stable-Distinct cs k.1)

take-Distinct : (n : ℕ) (cs : List Candidate) → Distinct cs → Distinct (take n cs)
take-Distinct zero cs k = tt
take-Distinct (suc n) [] k = tt
take-Distinct (suc n) (c ∷ cs) k = (All-take (λ d. d.id ≢ c.id) n cs k.0, take-Distinct n cs k.1)

take-Sorted : (n : ℕ) (cs : List Candidate) → Sorted precedes cs → Sorted precedes (take n cs)
take-Sorted zero cs k = tt
take-Sorted (suc n) [] k = tt
take-Sorted (suc n) (c ∷ cs) k =
    (All-take (λ d. precedes d c ≡ false) n cs k.0, take-Sorted n cs k.1)

-- A selection of `cs`: short, in order, without a repeated ID, and all of it qualified input.
pub record IsSelection (cs out : List Candidate) : Type 0 where
  pub short : length out ≤ 3
  pub sorted : Sorted precedes out
  pub distinct : Distinct out
  pub sound : All (λ c. IsQualified c × In c cs) out

-- The day's candidates are at most three, in the order of priority, position and ID, with no
-- repeated ID, and each is a qualified candidate of the input.
pub select_daily_candidates-IsSelection :
    (cs : List Candidate) → IsSelection cs (select_daily_candidates cs)
unfolding select_daily_candidates
select_daily_candidates-IsSelection cs =
    let chosen = sort_stable precedes (admitted [] cs) in
    record {
      short = length-take-le 3 chosen;
      sorted =
          take-Sorted 3 chosen (sort_stable-Sorted precedes precedes-IsStrictWeak (admitted [] cs));
      distinct =
          take-Distinct 3 chosen (sort_stable-Distinct (admitted [] cs) (admitted-Distinct [] cs));
      sound =
          All-take (λ c. IsQualified c × In c cs) 3 chosen
            (All-sort_stable precedes (λ c. IsQualified c × In c cs) (admitted [] cs)
              (All-map (IsAdmitted [] cs) (λ c. IsQualified c × In c cs) (admitted [] cs)
                (λ c h. (h.0, h.1)) (admitted-IsAdmitted [] cs)));
    }

-- What is not among the first n of a sorted list precedes none of them, and there are n of them.
In-take :
    (n : ℕ) (c : Candidate) (cs : List Candidate)
    → Sorted precedes cs
    → In c cs
    → In c (take n cs) ⊎ ((length (take n cs) ≡ n) × All (λ d. precedes c d ≡ false) (take n cs))
In-take zero c cs s i = inr (refl, tt)
In-take (suc n) c [] s i = elim i [ ]
In-take (suc n) c (d ∷ ds) s (inl p) = inl (inl p)
In-take (suc n) c (d ∷ ds) s (inr i) = elim (In-take n c ds s.1 i) [
  | inl j ↦ inl (inr j)
  | inr r ↦ inr (ap suc r.0, (All-In (λ x. precedes x d ≡ false) c ds s.0 i, r.1))
]

-- Where the input repeats no ID, a qualified candidate is selected, unless three are and it precedes
-- none of them.
pub select_daily_candidates-best :
    (c : Candidate) (cs : List Candidate)
    → Distinct cs
    → IsQualified c
    → In c cs
    → let out = select_daily_candidates cs in
      In c out ⊎ ((length out ≡ 3) × All (λ d. precedes c d ≡ false) out)
unfolding select_daily_candidates
select_daily_candidates-best c cs k q i =
    In-take 3 c (sort_stable precedes (admitted [] cs))
      (sort_stable-Sorted precedes precedes-IsStrictWeak (admitted [] cs))
      (In-sort_stable precedes c (admitted [] cs) (In-admitted c [] cs k q (λ m. m) i))

-- ===== src/Jobs/Order.antt =====
-- The order in which jobs are claimed, and the delay before a failed attempt is tried again.
use fast_task.Base.{
  ℕ, zero, suc, ◌-◌, ◌*◌, ◌≤◌, min, true, false, none, some, List, [], ◌∷◌, ◌≡◌, ◌⊎◌, inl, inr,
  refl, arith, str_lt_asym, str_ge_trans, In, All, Bool-cases, Option-cases, ltb,
}
use fast_task.Jobs.Model.{AgentJob}
use fast_task.Jobs.Worker.{is_due, is_older, oldest_due, job_retry_delay, second, minute}

older_asym : (a b : AgentJob) → is_older a b ≡ true → is_older b a ≡ false
older_asym a b h = ground (arith, h, str_lt_asym a.id b.id)

older_trans :
    (a b c : AgentJob) → is_older b a ≡ false → is_older c b ≡ false → is_older c a ≡ false
older_trans a b c h k = ground (arith, h, k, str_ge_trans a.id b.id c.id)

-- No due job of the list is older.
abbrev pub IsOldest : ℕ → AgentJob → List AgentJob → Type 0
IsOldest now job xs = All (λ x. is_due now x ≡ true → is_older x job ≡ false) xs

weaken :
    (now : ℕ) (a b : AgentJob) (xs : List AgentJob)
    → is_older b a ≡ false
    → IsOldest now b xs
    → IsOldest now a xs
weaken now a b [] h o = tt
weaken now a b (x ∷ xs) h o = ((λ d. older_trans a b x h (o.0 d)), weaken now a b xs h o.1)

no_due :
    (now : ℕ) (a : AgentJob) (xs : List AgentJob) → oldest_due now xs ≡ none → IsOldest now a xs
unfolding oldest_due
no_due now a [] h = tt
no_due now a (x ∷ xs) h = elim (Bool-cases (is_due now x)) [
  | inr e ↦ ((λ d. cc), no_due now a xs (rw (oldest_due, e) at h))
  | inl e ↦ elim (Option-cases (oldest_due now xs)) [
    | inl n ↦ cc (rw (oldest_due, e, n) at h)
    | inr (o, n) ↦ cc (rw (oldest_due, e, n) at h)
  ]
]

irrefl : (a : AgentJob) → is_older a a ≡ false
irrefl a = elim (Bool-cases (is_older a a)) [ inl e ↦ older_asym a a e | inr e ↦ e ]

-- A claim takes a job that is queued and due, and no job that is queued and due is older; and it finds
-- none only when no job is due.
pub oldest_due-IsOldest :
    (now : ℕ) (xs : List AgentJob)
    → ((job : AgentJob) × (oldest_due now xs ≡ some job)
        × In job xs
        × (is_due now job ≡ true)
        × IsOldest now job xs)
      ⊎ ((oldest_due now xs ≡ none) × All (λ x. is_due now x ≡ false) xs)
unfolding oldest_due
oldest_due-IsOldest now [] = inr (refl, tt)
oldest_due-IsOldest now (x ∷ xs) = elim (Bool-cases (is_due now x)) [
  | inr e ↦ elim (oldest_due-IsOldest now xs) [
    | inl (job, p, m, d, o) ↦ inl (job, rw (oldest_due, e) p, inr m, d, ((λ t. cc), o))
    | inr (p, a) ↦ inr (rw (oldest_due, e) p, (e, a))
  ]
  | inl e ↦ elim (oldest_due-IsOldest now xs) [
    | inr (p, a) ↦
        inl (x, rw (oldest_due, e, p) refl, inl refl, e, ((λ t. irrefl x), no_due now x xs p))
    | inl (job, p, m, d, o) ↦ elim (Bool-cases (is_older job x)) [
      | inl b ↦ inl (job, rw (oldest_due, e, p, b) refl, inr m, d, ((λ t. older_asym job x b), o))
      | inr b ↦ inl (
        x,
        rw (oldest_due, e, p, b) refl,
        inl refl,
        e,
        ((λ t. irrefl x), weaken now x job xs b o),
      )
    ]
  ]
]

not_first : (n : ℕ) → ltb (suc (suc n)) 1 ≡ false
not_first n = ground arith

five : (n : ℕ) → min (suc (suc (suc (suc (suc (suc n))))) - 1) 5 ≡ 5
five n = omega arith

capped : (n : ℕ) → job_retry_delay (suc (suc (suc (suc (suc (suc n)))))) ≡ minute
unfolding job_retry_delay
capped n = rw (job_retry_delay, not_first (suc (suc (suc (suc n)))), five n) refl

-- The delay after an attempt is at least two seconds and at most a minute; after the next attempt it is
-- twice as long, capped at the minute.
pub job_retry_delay-bounds :
    (attempt : ℕ)
    → (2 * second ≤ job_retry_delay attempt)
      × (job_retry_delay attempt ≤ minute)
      × (1 ≤ attempt → job_retry_delay (suc attempt) ≡ min (2 * job_retry_delay attempt) minute)
unfolding job_retry_delay
job_retry_delay-bounds zero = (omega arith, omega arith, λ h. absurd (omega arith))
job_retry_delay-bounds (suc zero) = (omega arith, omega arith, λ h. refl)
job_retry_delay-bounds (suc (suc zero)) = (omega arith, omega arith, λ h. refl)
job_retry_delay-bounds (suc (suc (suc zero))) = (omega arith, omega arith, λ h. refl)
job_retry_delay-bounds (suc (suc (suc (suc zero)))) = (omega arith, omega arith, λ h. refl)
job_retry_delay-bounds (suc (suc (suc (suc (suc zero))))) = (omega arith, omega arith, λ h. refl)
job_retry_delay-bounds (suc (suc (suc (suc (suc (suc n)))))) =
    rw (capped n, capped (suc n)) (omega arith, omega arith, λ h. refl)

-- ===== src/Jobs/Steps.antt =====
-- What each operation on jobs does to the table: it edits rows in place, or it inserts one new row.
use fast_task.Base.{
  ℕ, ◌+◌, ◌<◌, String, Bool, true, false, not, ◌&&◌, some, List, [], ◌∷◌, ◌++◌, ◌≡◌, ◌⊎◌, inl, inr,
  refl, sym, ap, ◌∙◌, subst, arith, str_eq, eq_iff, any, some_eq, All, All-In, In, Bool-cases,
  Option-cases, ℤ, pos, leb_ℤ, leb, ◌==◌,
}
use fast_task.Jobs.Model.{
  AgentJob, Failure, Result, ok, err, Tables, Store, first, count, update, create, has_id, is_owned,
}
use fast_task.Jobs.Support.{
  eq_ℤ, support_job_plan, support_plan_ready, capture_support_job_baseline,
}
use fast_task.Jobs.Queue.{
  Env, is_unfinished, is_pending_of, insert_bounded, enqueue, new_job, create_job, retry_of,
  retry_job, cancel_row, cancel_write, cancel_job,
}
use fast_task.Jobs.Runs.{run_job, create_run_job, requeue_run_job, flag_row, cancel_run_job}
use fast_task.Jobs.Worker.{
  is_due, oldest_due, is_older, claim_row, is_queued_job, is_claim, claim, renew_lease,
}
use fast_task.Jobs.Recovery.{is_expired, lapse_row, requeue_row, maintain_jobs}
use fast_task.Jobs.Rows.{Edge, stay, claims, renews, cancels, lapses, requeues, flags, IsSound}
use fast_task.Jobs.Table.{Edits, Edits-refl, update-Edits, Distinct, same_row, In-first}

-- One new row, sound, under a key that the table lacks; it carries an agent run, or keeps the bound of its
-- user.
abbrev pub Inserts : List AgentJob → List AgentJob → Type 0
Inserts xs ys =
    (job : AgentJob) × (ys ≡ xs ++ job ∷ [])
    × (any (has_id job.id) xs ≡ false)
    × IsSound job
    × ((count (is_pending_of job.user_id) xs < 10) ⊎ (job.kind ≡ "agent_run"))

pub ok_eq : {A : Type 0} {a b : A} → ok a ≡ ok b → a ≡ b
ok_eq h = cc

pub Result-cases :
    {A : Type 0} (r : Result A) → ((a : A) × (r ≡ ok a)) ⊎ ((e : Failure) × (r ≡ err e))
Result-cases (ok a) = inl (a, refl)
Result-cases (err e) = inr (e, refl)

-- An update that reaches only one row.
pub one_row :
    (p : AgentJob → Bool) (f : AgentJob → AgentJob) (xs : List AgentJob) (cur : AgentJob)
    → Distinct xs
    → In cur xs
    → ((x : AgentJob) → p x ≡ true → x.id ≡ cur.id)
    → Edge cur (f cur)
    → Edits xs (update p f xs)
one_row p f xs cur d m h e =
    update-Edits p f xs
      (λ x n t. subst (λ w. Edge w (f w)) (sym (same_row xs x cur d n m (h x t))) e)

In-oldest_due :
    (now : ℕ) (xs : List AgentJob) (j : AgentJob)
    → oldest_due now xs ≡ some j
    → In j xs × (is_due now j ≡ true)
unfolding oldest_due
In-oldest_due now [] j h = cc
In-oldest_due now (x ∷ xs) j h = elim (Bool-cases (is_due now x)) [
  | inr e ↦ let (m, t) = In-oldest_due now xs j (rw e at h) in (inr m, t)
  | inl e ↦ elim (Option-cases (oldest_due now xs)) [
    | inl n ↦
        let q = some_eq (rw (e, n) at h) in (inl (sym q), subst (λ z. is_due now z ≡ true) q e)
    | inr (o, n) ↦ elim (Bool-cases (is_older o x)) [
      | inl b ↦ let (m, t) = In-oldest_due now xs j (n ∙ rw (e, n, b) at h) in (inr m, t)
      | inr b ↦
          let q = some_eq (rw (e, n, b) at h) in (inl (sym q), subst (λ z. is_due now z ≡ true) q e)
    ]
  ]
]

captured :
    {W : Type 0} (local_date : String → ℕ → String) (tables : Tables W) (job based : AgentJob)
    (now : ℕ)
    → capture_support_job_baseline local_date tables job now ≡ ok based
    → (r : ℤ) × (based ≡ record job { base_revision = r })
unfolding capture_support_job_baseline
captured local_date tables job based now h =
    elim (Result-cases (support_job_plan local_date tables job)) [
      | inr (e, q) ↦ cc (rw (capture_support_job_baseline, q) at h)
      | inl (plan, q) ↦
          elim (Bool-cases
            (not (eq_ℤ job.base_revision (pos 0)) && not (eq_ℤ job.base_revision plan.revision))) [
              | inl t ↦ cc (rw (capture_support_job_baseline, q, t) at h)
              | inr t ↦ elim (Option-cases (support_plan_ready local_date tables plan now)) [
                | inr (e, r) ↦ cc (rw (capture_support_job_baseline, q, t, r) at h)
                | inl r ↦
                    (plan.revision, sym (ok_eq (rw (capture_support_job_baseline, q, t, r) at h)))
              ]
            ]
    ]

module _ {W Out : Type 0} (env : Env W Out) where
  insert_bounded-Inserts :
      (store store' : Store W) (job : AgentJob)
      → IsSound job
      → insert_bounded env store job ≡ ok store'
      → Inserts store.jobs store'.jobs
  unfolding insert_bounded
  insert_bounded-Inserts store store' job s h =
      elim (Bool-cases (leb 10 (count (is_pending_of job.user_id) store.jobs))) [
        | inl e ↦ cc (rw e at h)
        | inr e ↦ elim (Bool-cases (any (has_id job.id) store.jobs)) [
          | inl d ↦ cc (rw (e, d) at h)
          | inr d ↦ (
            job,
            sym (ap (λ (t : Store W). t.jobs) (ok_eq (rw (e, d) at h))),
            d,
            s,
            ground (arith, e),
          )
        ]
      ]

  enqueue-Inserts :
      (now : ℕ) (store store' : Store W) (job : AgentJob)
      → ((r : ℤ) → IsSound (record job { base_revision = r }))
      → enqueue env now store job ≡ ok store'
      → Inserts store.jobs store'.jobs
  unfolding enqueue
  enqueue-Inserts now store store' job s h =
      elim (Bool-cases (str_eq job.kind "support_generation")) [
        | inr e ↦ insert_bounded-Inserts store store' job (s job.base_revision) (rw e at h)
        | inl e ↦
            elim (Result-cases (capture_support_job_baseline env.local_date store.tables job now)) [
              | inr (x, q) ↦ cc (rw (e, q) at h)
              | inl (based, q) ↦
                  let (r, p) = captured env.local_date store.tables job based now q in
                  insert_bounded-Inserts store store' based (subst IsSound (sym p) (s r))
                    (rw (e, q) at h)
            ]
      ]

  pub claim-Edits :
      (now : ℕ) (who token : String) (store : Store W)
      → Distinct store.jobs
      → Edits store.jobs (claim env now who token store).1.jobs
  unfolding claim
  claim-Edits now who token store d = elim (Option-cases (oldest_due now store.jobs)) [
    | inl e ↦ rw (claim, e) (Edits-refl store.jobs)
    | inr (job, e) ↦
        let (m, t) = In-oldest_due now store.jobs job e in
        let edits : Edits store.jobs
            (update (is_queued_job job.id) (claim_row now who (env.hash token) job) store.jobs) =
          one_row (is_queued_job job.id) (claim_row now who (env.hash token) job) store.jobs job d m
            (λ x q. (eq_iff x.id job.id).0 (ground (arith, q)))
            (claims now who (env.hash token) job (ground (arith, t))) in
        elim (Bool-cases (count (is_queued_job job.id) store.jobs == 1)) [
          | inl b ↦ rw (claim, e, b) edits
          | inr b ↦ rw (claim, e, b) edits
        ]
  ]

  pub renew_lease-Edits :
      (now : ℕ) (job : AgentJob) (token : String) (store : Store W)
      → Edits store.jobs (renew_lease env now job token store).1.jobs
  unfolding renew_lease
  renew_lease-Edits now job token store =
      update-Edits (is_claim job.id job.lease_version (env.hash token))
        (λ row. record row { locked_until = some (now + 120000000000) }) store.jobs
        (λ x m t. renews (now + 120000000000) x (ground (arith, t)))

  retry_of-IsSound :
      (now : ℕ) (id : String) (old : AgentJob)
      → 0 < old.max_attempts
      → (r : ℤ) → IsSound (record (retry_of now id old) { base_revision = r })
  retry_of-IsSound now id old h r = ground (arith, h)

  pub create_job-Inserts :
      (now : ℕ) (id user kind subject_type subject_id : String) (base : ℤ) (input : Result String)
      (store store' : Store W)
      → create_job env now id user kind subject_type subject_id base input store ≡ ok store'
      → Inserts store.jobs store'.jobs
  unfolding create_job
  create_job-Inserts now id user kind subject_type subject_id base (err e) store store' h = cc
  create_job-Inserts now id user kind subject_type subject_id base (ok input) store store' h =
      enqueue-Inserts now store store' (new_job now id user kind subject_type subject_id base input)
        (λ r. ground arith) h

  pub retry_job-Inserts :
      (now : ℕ) (new_id user id : String) (expected : ℕ) (store store' : Store W)
      → All IsSound store.jobs
      → retry_job env now new_id user id expected store ≡ ok store'
      → Inserts store.jobs store'.jobs
  unfolding retry_job
  retry_job-Inserts now new_id user id expected store store' a h =
      elim (Option-cases (first (is_owned user id) store.jobs)) [
        | inl e ↦ cc (rw (retry_job, e) at h)
        | inr (old, e) ↦ elim (Bool-cases (old.revision == expected)) [
          | inr b ↦ cc (rw (retry_job, e, b) at h)
          | inl b ↦ elim (Bool-cases (str_eq old.status "failed")) [
            | inr c ↦ cc (rw (retry_job, e, b, c) at h)
            | inl c ↦
                elim (Bool-cases
                  (str_eq old.kind "support_generation" && leb_ℤ old.base_revision (pos 0))) [
                    | inl g ↦ cc (rw (retry_job, e, b, c, g) at h)
                    | inr g ↦
                        enqueue-Inserts now store store' (retry_of now new_id old)
                          (retry_of-IsSound now new_id old
                            (All-In IsSound old store.jobs a
                              (In-first (is_owned user id) store.jobs old e).0).allowed)
                          (rw (retry_job, e, b, c, g) at h)
                  ]
          ]
        ]
      ]

  cancel_write-Edits :
      (now : ℕ) (user id : String) (expected : ℕ) (read : AgentJob) (store store' : Store W)
      → cancel_write now user id expected read store ≡ ok store'
      → Edits store.jobs store'.jobs
  unfolding cancel_write
  cancel_write-Edits now user id expected read store store' h =
      elim (Bool-cases (read.revision == expected)) [
        | inr b ↦ cc (rw b at h)
        | inl b ↦ elim (Bool-cases (is_unfinished read)) [
          | inr c ↦ cc (rw (b, c) at h)
          | inl c ↦
              elim (Bool-cases (
                count
                  (λ row.
                    is_owned user read.id row
                    && str_eq row.status read.status
                    && (row.revision == expected))
                  store.jobs
                == 1)) [
                  | inr g ↦ cc (rw (b, c, g) at h)
                  | inl g ↦
                      subst (Edits store.jobs)
                        (ap (λ (t : Store W). t.jobs) (ok_eq (rw (b, c, g) at h)))
                        (update-Edits
                          (λ row.
                            is_owned user read.id row
                            && str_eq row.status read.status
                            && (row.revision == expected))
                          (cancel_row now expected) store.jobs
                          (λ x m t.
                            subst (λ n. Edge x (cancel_row now n x)) (ground (arith, t))
                              (cancels now x (same_status x t c))))
                ]
        ]
      ]
    where
      same_status :
          (x : AgentJob)
          → (is_owned user read.id x && str_eq x.status read.status && (x.revision == expected))
            ≡ true
          → is_unfinished read ≡ true
          → is_unfinished x ≡ true
      same_status x t c = ground (arith, t, c, eq_iff x.status read.status)

  pub cancel_job-Edits :
      (now : ℕ) (user id : String) (expected : ℕ) (before store store' : Store W)
      → cancel_job now user id expected before store ≡ ok store'
      → Edits store.jobs store'.jobs
  unfolding cancel_job
  cancel_job-Edits now user id expected before store store' h =
      elim (Option-cases (first (is_owned user id) before.jobs)) [
        | inl e ↦ cc (rw (cancel_job, e) at h)
        | inr (read, e) ↦
            cancel_write-Edits now user id expected read store store' (rw (cancel_job, e) at h)
      ]

  pub maintain_jobs-Edits :
      (now : ℕ) (store : Store W)
      → All IsSound store.jobs
      → Edits store.jobs (maintain_jobs now store).jobs
  unfolding maintain_jobs
  maintain_jobs-Edits now store a = go store.jobs a
    where
      go :
          (xs : List AgentJob)
          → All IsSound xs
          → Edits xs (
              update (is_expired now) (requeue_row now) (
                update
                  (λ row. is_expired now row && leb row.max_attempts row.attempt_count)
                  (lapse_row now)
                  xs))
      go [] s = tt
      go (x ∷ xs) s = elim (Bool-cases (is_expired now x)) [
        | inr e ↦ rw (e, e) (stay x, go xs s.1)
        | inl e ↦ elim (Bool-cases (leb x.max_attempts x.attempt_count)) [
          | inl l ↦ rw (e, l) (lapses now x (ground (arith, e)), go xs s.1)
          | inr l ↦ rw (e, l, e) (requeues now x (ground (arith, e)) (ground (arith, l)), go xs s.1)
        ]
      ]

module _ {W : Type 0} where
  create-Inserts :
      (job : AgentJob) (store store' : Store W)
      → IsSound job
      → job.kind ≡ "agent_run"
      → elim (create job store.jobs) [ err e ↦ err e | ok jobs ↦ ok (record store { jobs = jobs }) ]
        ≡ ok store'
      → Inserts store.jobs store'.jobs
  create-Inserts job store store' s k h = elim (Bool-cases (any (has_id job.id) store.jobs)) [
    | inl e ↦ absurd (let h' = rw e at h in cc)
    | inr e ↦ (job, ap (λ d. d.jobs) (sym (ok_eq (rw e at h))), e, s, inr k)
  ]

  pub create_run_job-Inserts :
      (now : ℕ) (id user run : String) (store store' : Store W)
      → create_run_job now id user run store ≡ ok store'
      → Inserts store.jobs store'.jobs
  unfolding create_run_job
  create_run_job-Inserts now id user run store store' h =
      create-Inserts (run_job now id user run) store store' (ground arith) refl h

  pub requeue_run_job-Inserts :
      (now : ℕ) (id user run : String) (store store' : Store W)
      → requeue_run_job now id user run store ≡ ok store'
      → Inserts store.jobs store'.jobs
  unfolding requeue_run_job
  requeue_run_job-Inserts now id user run store store' h =
      create-Inserts (run_job now id user run) store store' (ground arith) refl h

  pub cancel_run_job-Edits :
      (now : ℕ) (user id : String) (store : Store W)
      → Edits store.jobs (cancel_run_job now user id store).jobs
  unfolding cancel_run_job
  cancel_run_job-Edits now user id store =
      update-Edits (is_owned user id) (flag_row now) store.jobs (λ x m p. flags now x)

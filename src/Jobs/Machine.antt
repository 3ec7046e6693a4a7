-- ===== src/Jobs/Machine.antt =====
-- The queue as a whole: any sequence of its operations, by any number of clients, workers and schedulers.
use fast_task.Base.{
  ℕ, ◌≤◌, ◌<◌, String, true, not, ◌||◌, List, [], ◌∷◌, ◌++◌, ◌≡◌, ◌⊎◌, inl, inr, refl, sym, ◌∙◌,
  subst, ap, arith, str_eq, eq_iff, All, In, Bool-cases, Option-cases, ℤ, ◌==◌,
}
use fast_task.Jobs.Model.{
  AgentJob, Result, ok, err, Store, first, count, has_id, err_stale_agent_attempt,
}
use fast_task.Jobs.Queue.{Env, create_job, retry_job, cancel_job, is_outcome, agent_callback}
use fast_task.Jobs.Runs.{create_run_job, requeue_run_job, cancel_run_job}
use fast_task.Jobs.Worker.{claim, renew_lease, finish}
use fast_task.Jobs.Recovery.{maintain_jobs}
use fast_task.Jobs.Rows.{IsSound, settled, Edge-id, Edge-outcome, Edge-lease}
use fast_task.Jobs.Table.{
  Edits, Edits-refl, Distinct, Edits-All-IsSound, Edits-Distinct, Edits-forth, pending_le,
  is_counted, counted_le, count-append, In-append, All-append, Distinct-append, In-first,
  first-some, same_row,
}
use fast_task.Jobs.Steps.{
  Inserts, create_job-Inserts, retry_job-Inserts, cancel_job-Edits, claim-Edits, renew_lease-Edits,
  maintain_jobs-Edits, create_run_job-Inserts, requeue_run_job-Inserts, cancel_run_job-Edits,
}
use fast_task.Jobs.Results.{finish-Edits, agent_callback-Edits}

-- Keys are distinct, every row is sound, and no user has more than ten unfinished jobs besides those of
-- agent runs.
pub record IsConsistent (jobs : List AgentJob) : Type 0 where
  pub distinct : Distinct jobs
  pub sound : All IsSound jobs
  pub pending : (user : String) → count (is_counted user) jobs ≤ 10

module _ {W Out : Type 0} (env : Env W Out) where
  -- One operation. A cancellation may have read the row in any earlier database; `others` is work on
  -- the other tables.
  pub data Step : Store W → Store W → Type 0 where
    creates :
        {s s' : Store W} (now : ℕ) (id user kind subject_type subject_id : String) (base : ℤ)
        (input : Result String)
        → create_job env now id user kind subject_type subject_id base input s ≡ ok s'
        → Step s s'
    retries :
        {s s' : Store W} (now : ℕ) (new_id user id : String) (expected : ℕ)
        → retry_job env now new_id user id expected s ≡ ok s'
        → Step s s'
    cancels :
        {s s' : Store W} (now : ℕ) (user id : String) (expected : ℕ) (before : Store W)
        → cancel_job now user id expected before s ≡ ok s'
        → Step s s'
    calls_back :
        {s s' : Store W} (now : ℕ) (user id : String) (attempt lease : ℕ) (token status : String)
        (output : Out) (code message : String)
        → agent_callback env now user id attempt lease token status output code message s ≡ ok s'
        → Step s s'
    claims : {s : Store W} (now : ℕ) (who token : String) → Step s (claim env now who token s).1
    renews :
        {s : Store W} (now : ℕ) (job : AgentJob) (token : String)
        → Step s (renew_lease env now job token s).1
    finishes :
        {s s' : Store W} (now : ℕ) (claimed : AgentJob) (token : String) (result : Result Out)
        → finish env now claimed token result s ≡ ok s'
        → Step s s'
    maintains : {s : Store W} (now : ℕ) → Step s (maintain_jobs now s)
    creates_run :
        {s s' : Store W} (now : ℕ) (id user run : String)
        → create_run_job now id user run s ≡ ok s'
        → Step s s'
    requeues_run :
        {s s' : Store W} (now : ℕ) (id user run : String)
        → requeue_run_job now id user run s ≡ ok s'
        → Step s s'
    cancels_run : {s : Store W} (now : ℕ) (user id : String) → Step s (cancel_run_job now user id s)
    others : {s s' : Store W} → s'.jobs ≡ s.jobs → Step s s'

  pub data Run (s : Store W) : Store W → Type 0 where
    start : Run s s
    then_step : {t u : Store W} → Run s t → Step t u → Run s u

  Step-Change :
      {s s' : Store W}
      → IsConsistent s.jobs
      → Step s s'
      → Edits s.jobs s'.jobs ⊎ Inserts s.jobs s'.jobs
  Step-Change {s = s} {s' = s'} c (creates now id user kind st si base input h) =
      inr (create_job-Inserts env now id user kind st si base input s s' h)
  Step-Change {s = s} {s' = s'} c (retries now new_id user id expected h) =
      inr (retry_job-Inserts env now new_id user id expected s s' c.sound h)
  Step-Change {s = s} {s' = s'} c (cancels now user id expected before h) =
      inl (cancel_job-Edits env now user id expected before s s' h)
  Step-Change {s = s} {s' = s'} c
        (calls_back now user id attempt lease token status output code message h) =
      inl (
        agent_callback-Edits env now user id attempt lease token status output code message s s'
          c.distinct h)
  Step-Change {s = s} c (claims now who token) = inl (claim-Edits env now who token s c.distinct)
  Step-Change {s = s} c (renews now job token) = inl (renew_lease-Edits env now job token s)
  Step-Change {s = s} {s' = s'} c (finishes now claimed token result h) =
      inl (finish-Edits env now claimed token result s s' c.distinct h)
  Step-Change {s = s} c (maintains now) = inl (maintain_jobs-Edits env now s c.sound)
  Step-Change {s = s} {s' = s'} c (creates_run now id user run h) =
      inr (create_run_job-Inserts now id user run s s' h)
  Step-Change {s = s} {s' = s'} c (requeues_run now id user run h) =
      inr (requeue_run_job-Inserts now id user run s s' h)
  Step-Change {s = s} c (cancels_run now user id) = inl (cancel_run_job-Edits now user id s)
  Step-Change {s = s} c (others h) = inl (subst (Edits s.jobs) (sym h) (Edits-refl s.jobs))

  Edits-IsConsistent : (xs ys : List AgentJob) → Edits xs ys → IsConsistent xs → IsConsistent ys
  Edits-IsConsistent xs ys e c = record {
    distinct = Edits-Distinct xs ys e c.distinct;
    sound = Edits-All-IsSound xs ys e c.sound;
    pending = λ user. omega (arith, pending_le user xs ys e, c.pending user);
  }

  Inserts-IsConsistent : (xs ys : List AgentJob) → Inserts xs ys → IsConsistent xs → IsConsistent ys
  Inserts-IsConsistent xs ys (job, p, fresh, s, room) c = subst IsConsistent (sym p) (record {
    distinct = Distinct-append xs job fresh c.distinct;
    sound = All-append IsSound xs job c.sound s;
    pending = bound;
  })
    where
      bound : (user : String) → count (is_counted user) (xs ++ job ∷ []) ≤ 10
      bound user = elim (Bool-cases (is_counted user job)) [
        | inr e ↦ ground (arith, count-append (is_counted user) xs job, e, c.pending user)
        | inl e ↦ elim room [
          | inl r ↦ ground (
            arith,
            count-append (is_counted user) xs job,
            e,
            r,
            counted_le job.user_id xs,
            eq_iff job.user_id user,
          )
          | inr k ↦ absurd (ground (arith, e, (eq_iff job.kind "agent_run").1 k))
        ]
      ]

  Step-IsConsistent : {s s' : Store W} → Step s s' → IsConsistent s.jobs → IsConsistent s'.jobs
  Step-IsConsistent {s = s} {s' = s'} st c = elim (Step-Change c st) [
    | inl e ↦ Edits-IsConsistent s.jobs s'.jobs e c
    | inr i ↦ Inserts-IsConsistent s.jobs s'.jobs i c
  ]

  -- Any sequence of operations, whatever their times, tokens and interleaving, keeps the job table
  -- consistent: distinct keys, sound rows, and for each user at most ten unfinished jobs that carry no
  -- agent run.
  pub run-IsConsistent : {s s' : Store W} → Run s s' → IsConsistent s.jobs → IsConsistent s'.jobs
  run-IsConsistent start c = c
  run-IsConsistent (then_step r st) c = Step-IsConsistent st (run-IsConsistent r c)

  -- A job that has ended keeps its row through any sequence of operations, status and result included,
  -- but for the flag of a cancellation and the time of the last write.
  pub run-outcome :
      {s s' : Store W} (job : AgentJob)
      → Run s s'
      → IsConsistent s.jobs
      → In job s.jobs
      → is_outcome job.status ≡ true
      → (later : AgentJob) × In later s'.jobs × (settled later ≡ settled job)
  run-outcome job start c m o = (job, m, refl)
  run-outcome job (then_step {t = t} {u = u} r st) c m o =
      let (x, n, q) = run-outcome job r c m o in
      let ended : is_outcome x.status ≡ true = ap (λ w. is_outcome w.status) q ∙ o in
      elim (Step-Change (run-IsConsistent r c) st) [
        | inl e ↦
            let (y, k, g) = Edits-forth t.jobs u.jobs x e n in (y, k, Edge-outcome g ended ∙ q)
        | inr (new, p, a, b, z) ↦ (x, subst (In x) (sym p) (In-append t.jobs new x n), q)
      ]

  run-lease :
      {s s' : Store W} (job : AgentJob)
      → Run s s'
      → IsConsistent s.jobs
      → In job s.jobs
      → (later : AgentJob) × In later s'.jobs
        × (later.id ≡ job.id)
        × (job.lease_version ≤ later.lease_version)
  run-lease job start c m = (job, m, refl, omega arith)
  run-lease job (then_step {t = t} {u = u} r st) c m =
      let (x, n, i, l) = run-lease job r c m in
      elim (Step-Change (run-IsConsistent r c) st) [
        | inl e ↦
            let (y, k, g) = Edits-forth t.jobs u.jobs x e n in
            (y, k, Edge-id g ∙ i, omega (arith, l, Edge-lease g))
        | inr (new, p, a, b, z) ↦ (x, subst (In x) (sym p) (In-append t.jobs new x n), i, l)
      ]

  finish_lost :
      (now : ℕ) (claimed cur : AgentJob) (token : String) (result : Result Out) (store : Store W)
      → Distinct store.jobs
      → In cur store.jobs
      → cur.id ≡ claimed.id
      → claimed.lease_version < cur.lease_version
      → finish env now claimed token result store ≡ err err_stale_agent_attempt
  unfolding finish
  finish_lost now claimed cur token result store d m i l =
      elim (Option-cases (first (has_id claimed.id) store.jobs)) [
        | inl e ↦
            absurd
              (first-some (has_id claimed.id) store.jobs cur m ((eq_iff cur.id claimed.id).1 i) e)
        | inr (x, e) ↦
            let (n, t) = In-first (has_id claimed.id) store.jobs x e in
            let q = same_row store.jobs x cur d n m ((eq_iff x.id claimed.id).0 t ∙ sym i) in
            rw
              (
                finish,
                e,
                refused x (subst (λ z. claimed.lease_version < z.lease_version) (sym q) l),
              )
              refl
      ]
    where
      refused :
          (x : AgentJob)
          → claimed.lease_version < x.lease_version
          → (not (str_eq x.status "running")
              || not (x.lease_version == claimed.lease_version)
              || not (x.attempt_count == claimed.attempt_count)
              || not (str_eq x.run_token_hash (env.hash token)))
            ≡ true
      refused x k = ground (arith, k)

  -- Once a job has been claimed again (its row shows a later lease than the claim's), no sequence of
  -- operations lets the earlier claim record a result: its `finish` is refused as stale.
  pub finish-stale :
      {s s' : Store W} (now : ℕ) (claimed job : AgentJob) (token : String) (result : Result Out)
      → Run s s'
      → IsConsistent s.jobs
      → In job s.jobs
      → job.id ≡ claimed.id
      → claimed.lease_version < job.lease_version
      → finish env now claimed token result s' ≡ err err_stale_agent_attempt
  finish-stale {s' = s'} now claimed job token result r c m i l =
      let (x, n, j, k) = run-lease job r c m in
      finish_lost now claimed x token result s' (run-IsConsistent r c).distinct n (j ∙ i)
        (omega (arith, l, k))

-- ===== src/Jobs/Results.antt =====
-- What recording a result does to the table of jobs: the callback of an external worker, and the end of
-- an attempt of the internal one.
use fast_task.Base.{
  ℕ, suc, String, Bool, true, false, not, ◌&&◌, ◌||◌, ◌≡◌, inl, inr, refl, sym, ap, ◌∙◌, subst,
  arith, if◌then◌else◌, str_eq, eq_iff, In, Bool-cases, Option-cases, ltb, ◌==◌,
}
use fast_task.Jobs.Model.{
  AgentJob, Failure, Result, ok, err, Store, first, count, update, has_id, is_owned,
}
use fast_task.Jobs.Support.{validate_support_job, support_job_failure_code}
use fast_task.Jobs.Queue.{
  Env, materialize_job_result, is_attempt, is_outcome, callback_row, callback_write,
  callback_settled, agent_callback,
}
use fast_task.Jobs.Worker.{
  is_claim, failed_row, finish_run, finish_current, finish, end_row, succeed_row, is_revision,
  contains,
}
use fast_task.Jobs.Rows.{Edge, calls_back, ends, backs_off, succeeds, is_running}
use fast_task.Jobs.Table.{Edits, Distinct, In-first}
use fast_task.Jobs.Steps.{ok_eq, Result-cases, one_row}

failed_row-Edge :
    (now : ℕ) (cur : AgentJob) (e : Failure)
    → is_running cur ≡ true
    → Edge cur (failed_row now cur e cur)
unfolding failed_row
failed_row-Edge now cur e r = elim (Bool-cases (is_revision e)) [
  | inl a ↦ rw (failed_row, a) (ends now "failed" "REVISION_MISMATCH" e.text cur r refl)
  | inr a ↦ elim (Bool-cases (ltb cur.attempt_count cur.max_attempts)) [
    | inr b ↦ rw (failed_row, a, b) (ends now "failed" "PROVIDER_ERROR" e.text cur r refl)
    | inl b ↦ elim (Bool-cases (contains "unknown job" e.text)) [
      | inl c ↦ rw (failed_row, a, b, c) (ends now "failed" "PROVIDER_ERROR" e.text cur r refl)
      | inr c ↦ rw (failed_row, a, b, c) (backs_off now e.text cur r (ground (arith, b)))
    ]
  ]
]

module _ {W Out : Type 0} (env : Env W Out) where
  module _ (now : ℕ) (cur : AgentJob) (token : String) (store store' : Store W)
      (d : Distinct store.jobs) (m : In cur store.jobs) (r : is_running cur ≡ true) where
    recorded-Edits :
        (f : AgentJob → AgentJob)
        → Edge cur (f cur)
        → Edits store.jobs
            (update (is_claim cur.id cur.lease_version (env.hash token)) f store.jobs)
    recorded-Edits f e =
        one_row (is_claim cur.id cur.lease_version (env.hash token)) f store.jobs cur d m
          (λ x t. (eq_iff x.id cur.id).0 (ground (arith, t))) e

    finish_run-Edits :
        (result : Result Out)
        → finish_run env now cur token result store ≡ ok store'
        → Edits store.jobs store'.jobs
    unfolding finish_run
    finish_run-Edits (err e) h =
        subst (Edits store.jobs) (ap (λ (t : Store W). t.jobs) (ok_eq h))
          (recorded-Edits (failed_row now cur e) (failed_row-Edge now cur e r))
    finish_run-Edits (ok output) h =
        elim (Result-cases (materialize_job_result env store.tables cur output now)) [
          | inr (e, q) ↦ cc (rw (finish_run, q) at h)
          | inl (tables, q) ↦
              subst (Edits store.jobs)
                (ap (λ (t : Store W). t.jobs) (ok_eq (rw (finish_run, q) at h)))
                (recorded-Edits (succeed_row now cur (env.encode output))
                  (succeeds now (env.encode output) cur r))
        ]

    ended-Edits :
        (status code message : String)
        → is_outcome status ≡ true
        → ok (record {
          jobs =
              update
                (is_claim cur.id cur.lease_version (env.hash token))
                (end_row now cur status code message)
                store.jobs;
          tables = store.tables;
        })
          ≡ ok store'
        → Edits store.jobs store'.jobs
    ended-Edits status code message o h =
        subst (Edits store.jobs) (ap (λ (t : Store W). t.jobs) (ok_eq h)) (
          recorded-Edits (end_row now cur status code message)
            (ends now status code message cur r o))

  finish_current-Edits :
      (flag : Bool) (now : ℕ) (cur : AgentJob) (token : String) (result : Result Out)
      (store store' : Store W)
      → Distinct store.jobs
      → In cur store.jobs
      → is_running cur ≡ true
      → finish_current env flag now cur token result store ≡ ok store'
      → Edits store.jobs store'.jobs
  unfolding finish_current
  finish_current-Edits true now cur token result store store' d m r h =
      ended-Edits now cur token store store' d m r "cancelled" "CANCELLED" "cancelled by user" refl
        h
  finish_current-Edits false now cur token result store store' d m r h =
      elim (Bool-cases (str_eq cur.kind "support_generation")) [
        | inr k ↦
            finish_run-Edits now cur token store store' d m r result (rw (finish_current, k) at h)
        | inl k ↦ elim (Option-cases (validate_support_job env.local_date store.tables cur now)) [
          | inl v ↦
              finish_run-Edits now cur token store store' d m r result
                (rw (finish_current, k, v) at h)
          | inr (x, v) ↦ elim (Option-cases (support_job_failure_code x)) [
            | inl z ↦ cc (rw (finish_current, k, v, z) at h)
            | inr (code, z) ↦
                ended-Edits now cur token store store' d m r "failed" code x.text refl
                  (rw (finish_current, k, v, z) at h)
          ]
        ]
      ]

  -- The guard of `finish`: the row is no longer the one that was claimed.
  abbrev pub is_lost : AgentJob → AgentJob → String → Bool
  is_lost cur claimed token =
      not (str_eq cur.status "running")
      || not (cur.lease_version == claimed.lease_version)
      || not (cur.attempt_count == claimed.attempt_count)
      || not (str_eq cur.run_token_hash (env.hash token))

  pub finish-Edits :
      (now : ℕ) (claimed : AgentJob) (token : String) (result : Result Out) (store store' : Store W)
      → Distinct store.jobs
      → finish env now claimed token result store ≡ ok store'
      → Edits store.jobs store'.jobs
  unfolding finish
  finish-Edits now claimed token result store store' d h =
      elim (Option-cases (first (has_id claimed.id) store.jobs)) [
        | inl e ↦ cc (rw (finish, e) at h)
        | inr (cur, e) ↦ elim (Bool-cases (is_lost cur claimed token)) [
          | inl g ↦ cc (rw (finish, e, g) at h)
          | inr g ↦
              finish_current-Edits cur.cancel_requested now cur token result store store' d
                (In-first (has_id claimed.id) store.jobs cur e).0 (ground (arith, g))
                (rw (finish, e, g) at h)
        ]
      ]

  callback_write-Edits :
      (now : ℕ) (user id : String) (attempt lease : ℕ) (token : String) (job : AgentJob)
      (status : String) (output : Out) (code message : String) (store store' : Store W)
      → Distinct store.jobs
      → In job store.jobs
      → is_running job ≡ true
      → job.id ≡ id
      → is_outcome status ≡ true
      → callback_write env now user id attempt lease token job status output code message store
        ≡ ok store'
      → Edits store.jobs store'.jobs
  unfolding callback_write
  callback_write-Edits now user id attempt lease token job status output code message store store' d
        m r i o h =
      elim (Result-cases (
        if str_eq status "succeeded"
        then materialize_job_result env store.tables job output now
        else ok store.tables)) [
          | inr (e, q) ↦ cc (rw (callback_write, q) at h)
          | inl (tables, q) ↦
              elim (Bool-cases (count (is_attempt user id attempt lease token) store.jobs == 1)) [
                | inr c ↦ cc (rw (callback_write, q, c) at h)
                | inl c ↦
                    subst (Edits store.jobs)
                      (ap (λ (t : Store W). t.jobs) (ok_eq (rw (callback_write, q, c) at h)))
                      (one_row (is_attempt user id attempt lease token)
                        (callback_row now (suc job.revision) status (env.encode output) code
                          message)
                        store.jobs job d m (λ x t. (eq_iff x.id id).0 (ground (arith, t)) ∙ sym i)
                        (calls_back now status (env.encode output) code message job r o))
              ]
        ]

  settled :
      (now : ℕ) (user id : String) (attempt lease : ℕ) (token : String) (job : AgentJob)
      (wanted : String) (output : Out) (code message : String) (store store' : Store W)
      → Distinct store.jobs
      → In job store.jobs
      → is_running job ≡ true
      → job.id ≡ id
      → callback_settled env now user id attempt lease token job wanted output code message store
        ≡ ok store'
      → Edits store.jobs store'.jobs
  unfolding callback_settled
  settled now user id attempt lease token job wanted output code message store store' d m r i h =
      elim (Bool-cases (is_outcome wanted)) [
        | inr o ↦ cc (rw (callback_settled, o) at h)
        | inl o ↦
            elim (Bool-cases (str_eq wanted "succeeded" && str_eq job.kind "support_generation")) [
              | inr k ↦
                  callback_write-Edits now user id attempt lease (env.hash token) job wanted output
                    code message store store' d m r i o (rw (callback_settled, o, k) at h)
              | inl k ↦
                  elim (Option-cases (validate_support_job env.local_date store.tables job now)) [
                    | inl v ↦
                        callback_write-Edits now user id attempt lease (env.hash token) job wanted
                          output code message store store' d m r i o
                          (rw (callback_settled, o, k, v) at h)
                    | inr (x, v) ↦ elim (Option-cases (support_job_failure_code x)) [
                      | inl z ↦ cc (rw (callback_settled, o, k, v, z) at h)
                      | inr (terminal, z) ↦
                          callback_write-Edits now user id attempt lease (env.hash token) job
                            "failed" output terminal x.text store store' d m r i refl
                            (rw (callback_settled, o, k, v, z) at h)
                    ]
                  ]
            ]
      ]

  pub agent_callback-Edits :
      (now : ℕ) (user id : String) (attempt lease : ℕ) (token status : String) (output : Out)
      (code message : String) (store store' : Store W)
      → Distinct store.jobs
      → agent_callback env now user id attempt lease token status output code message store
        ≡ ok store'
      → Edits store.jobs store'.jobs
  unfolding agent_callback
  agent_callback-Edits now user id attempt lease token status output code message store store' d h =
      elim (Option-cases (first (is_owned user id) store.jobs)) [
        | inl e ↦ cc (rw (agent_callback, e) at h)
        | inr (job, e) ↦
            let (m, t) = In-first (is_owned user id) store.jobs job e in
            let i = (eq_iff job.id id).0 (ground (arith, t)) in
            elim (Bool-cases (
              not (str_eq job.status "running")
              || not (job.attempt_count == attempt)
              || not (job.lease_version == lease)
              || not (str_eq job.run_token_hash (env.hash token)))) [
                | inl g ↦ cc (rw (agent_callback, e, g) at h)
                | inr g ↦
                    settled now user id attempt lease token job
                      (if job.cancel_requested then "cancelled" else status) output code message
                      store store' d m (ground (arith, g)) i (rw (agent_callback, e, g) at h)
              ]
      ]

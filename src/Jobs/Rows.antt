-- ===== src/Jobs/Rows.antt =====
-- One job: what holds of its row between two operations, and what an operation may do to it.
use fast_task.Base.{
  ℕ, suc, ◌≤◌, ◌<◌, String, Bool, true, false, ◌||◌, some, ◌≡◌, inl, inr, Bool-cases, refl, arith,
  is_none, str_eq, eq_iff,
}
use fast_task.Jobs.Model.{AgentJob}
use fast_task.Jobs.Queue.{is_unfinished, is_outcome, cancel_row, callback_row}
use fast_task.Jobs.Runs.{flag_row}
use fast_task.Jobs.Worker.{claim_row, end_row, backoff_row, succeed_row}
use fast_task.Jobs.Recovery.{lapse_row, requeue_row}

abbrev pub is_running : AgentJob → Bool
is_running job = str_eq job.status "running"

-- A job has one of the five statuses. A queued job has an attempt left; a running job, and only a
-- running one, is locked; a job has an end exactly when its status is an outcome.
pub record IsSound (job : AgentJob) : Type 0 where
  pub known : (is_unfinished job || is_outcome job.status) ≡ true
  pub allowed : 0 < job.max_attempts
  pub bounded : job.attempt_count ≤ job.max_attempts
  pub attempt_left : str_eq job.status "queued" ≡ true → job.attempt_count < job.max_attempts
  pub locked : is_running job ≡ true → is_none job.locked_until ≡ false
  pub unlocked :
      is_running job ≡ false → (is_none job.locked_until ≡ true) × (job.run_token_hash ≡ "")
  pub unended : is_unfinished job ≡ true → is_none job.finished_at ≡ true
  pub ended : is_outcome job.status ≡ true → is_none job.finished_at ≡ false

-- What an operation may do to a row.
pub data Edge : AgentJob → AgentJob → Type 0 where
  stay : (j : AgentJob) → Edge j j
  claims :
      (now : ℕ) (who token : String) (j : AgentJob)
      → str_eq j.status "queued" ≡ true
      → Edge j (claim_row now who token j j)
  renews :
      (until : ℕ) (j : AgentJob)
      → is_running j ≡ true
      → Edge j (record j { locked_until = some until })
  cancels : (now : ℕ) (j : AgentJob) → is_unfinished j ≡ true → Edge j (cancel_row now j.revision j)
  calls_back :
      (now : ℕ) (status output code message : String) (j : AgentJob)
      → is_running j ≡ true
      → is_outcome status ≡ true
      → Edge j (callback_row now (suc j.revision) status output code message j)
  ends :
      (now : ℕ) (status code message : String) (j : AgentJob)
      → is_running j ≡ true
      → is_outcome status ≡ true
      → Edge j (end_row now j status code message j)
  backs_off :
      (now : ℕ) (message : String) (j : AgentJob)
      → is_running j ≡ true
      → j.attempt_count < j.max_attempts
      → Edge j (backoff_row now j message j)
  succeeds :
      (now : ℕ) (output : String) (j : AgentJob)
      → is_running j ≡ true
      → Edge j (succeed_row now j output j)
  lapses : (now : ℕ) (j : AgentJob) → is_running j ≡ true → Edge j (lapse_row now j)
  requeues :
      (now : ℕ) (j : AgentJob)
      → is_running j ≡ true
      → j.attempt_count < j.max_attempts
      → Edge j (requeue_row now j)
  flags : (now : ℕ) (j : AgentJob) → Edge j (flag_row now j)

queued_alone :
    (s : String)
    → str_eq s "queued" ≡ true
    → (str_eq s "running" ≡ false)
      × (str_eq s "succeeded" ≡ false)
      × (str_eq s "failed" ≡ false)
      × (str_eq s "cancelled" ≡ false)
queued_alone s h = rw ((eq_iff s "queued").0 h) (refl, refl, refl, refl)

running_alone :
    (s : String)
    → str_eq s "running" ≡ true
    → (str_eq s "succeeded" ≡ false) × (str_eq s "failed" ≡ false) × (str_eq s "cancelled" ≡ false)
running_alone s h = rw ((eq_iff s "running").0 h) (refl, refl, refl)

pub outcome_alone :
    (s : String) → is_outcome s ≡ true → (str_eq s "queued" ≡ false) × (str_eq s "running" ≡ false)
outcome_alone s h = elim (Bool-cases (str_eq s "queued")) [
  | inl q ↦ absurd (ground (arith, h, queued_alone s q))
  | inr q ↦ elim (Bool-cases (str_eq s "running")) [
    | inl r ↦ absurd (ground (arith, h, q, running_alone s r))
    | inr r ↦ (q, r)
  ]
]

pub Edge-IsSound : {a b : AgentJob} → Edge a b → IsSound a → IsSound b
Edge-IsSound (stay j) s = s
Edge-IsSound (claims now who token j q) s = ground (arith, s, q)
Edge-IsSound (renews until j q) s = ground (arith, s, q)
Edge-IsSound (cancels now j q) s = elim (Bool-cases (str_eq j.status "queued")) [
  | inl e ↦ rw e (ground (arith, s, q, e, queued_alone j.status e))
  | inr e ↦ rw e (ground (arith, s, q, e))
]
Edge-IsSound (calls_back now status output code message j q o) s =
    ground (arith, s, q, o, outcome_alone status o)
Edge-IsSound (ends now status code message j q o) s =
    ground (arith, s, q, o, outcome_alone status o)
Edge-IsSound (backs_off now message j q l) s = ground (arith, s, q, l)
Edge-IsSound (succeeds now output j q) s = ground (arith, s, q)
Edge-IsSound (lapses now j q) s = ground (arith, s, q)
Edge-IsSound (requeues now j q l) s = ground (arith, s, q, l)
Edge-IsSound (flags now j) s = ground (arith, s)

-- What every edge keeps.
pub Edge-id : {a b : AgentJob} → Edge a b → b.id ≡ a.id
Edge-id (stay j) = refl
Edge-id (claims now who token j q) = refl
Edge-id (renews until j q) = refl
Edge-id (cancels now j q) = refl
Edge-id (calls_back now status output code message j q o) = refl
Edge-id (ends now status code message j q o) = refl
Edge-id (backs_off now message j q l) = refl
Edge-id (succeeds now output j q) = refl
Edge-id (lapses now j q) = refl
Edge-id (requeues now j q l) = refl
Edge-id (flags now j) = refl

pub Edge-user : {a b : AgentJob} → Edge a b → b.user_id ≡ a.user_id
Edge-user (stay j) = refl
Edge-user (claims now who token j q) = refl
Edge-user (renews until j q) = refl
Edge-user (cancels now j q) = refl
Edge-user (calls_back now status output code message j q o) = refl
Edge-user (ends now status code message j q o) = refl
Edge-user (backs_off now message j q l) = refl
Edge-user (succeeds now output j q) = refl
Edge-user (lapses now j q) = refl
Edge-user (requeues now j q l) = refl
Edge-user (flags now j) = refl

pub Edge-kind : {a b : AgentJob} → Edge a b → b.kind ≡ a.kind
Edge-kind (stay j) = refl
Edge-kind (claims now who token j q) = refl
Edge-kind (renews until j q) = refl
Edge-kind (cancels now j q) = refl
Edge-kind (calls_back now status output code message j q o) = refl
Edge-kind (ends now status code message j q o) = refl
Edge-kind (backs_off now message j q l) = refl
Edge-kind (succeeds now output j q) = refl
Edge-kind (lapses now j q) = refl
Edge-kind (requeues now j q l) = refl
Edge-kind (flags now j) = refl

-- No operation brings a job back among the unfinished ones.
pub Edge-unfinished : {a b : AgentJob} → Edge a b → is_unfinished b ≡ true → is_unfinished a ≡ true
Edge-unfinished (stay j) u = u
Edge-unfinished (claims now who token j q) u = ground (arith, q)
Edge-unfinished (renews until j q) u = u
Edge-unfinished (cancels now j q) u = q
Edge-unfinished (calls_back now status output code message j q o) u = ground (arith, q)
Edge-unfinished (ends now status code message j q o) u = ground (arith, q)
Edge-unfinished (backs_off now message j q l) u = ground (arith, q)
Edge-unfinished (succeeds now output j q) u = ground (arith, q)
Edge-unfinished (lapses now j q) u = ground (arith, q)
Edge-unfinished (requeues now j q l) u = ground (arith, q)
Edge-unfinished (flags now j) u = u

-- The row but for what the cancellation of a run writes.
abbrev pub settled : AgentJob → AgentJob
settled job = record job { cancel_requested = true; updated_at = 0 }

-- An ended job keeps all else.
pub Edge-outcome : {a b : AgentJob} → Edge a b → is_outcome a.status ≡ true → settled b ≡ settled a
Edge-outcome (stay j) o = refl
Edge-outcome (flags now j) o = refl
Edge-outcome (claims now who token j q) o = absurd (ground (arith, q, outcome_alone j.status o))
Edge-outcome (renews until j q) o = absurd (ground (arith, q, outcome_alone j.status o))
Edge-outcome (cancels now j q) o = absurd (ground (arith, q, outcome_alone j.status o))
Edge-outcome (calls_back now status output code message j q p) o =
    absurd (ground (arith, q, outcome_alone j.status o))
Edge-outcome (ends now status code message j q p) o =
    absurd (ground (arith, q, outcome_alone j.status o))
Edge-outcome (backs_off now message j q l) o = absurd (ground (arith, q, outcome_alone j.status o))
Edge-outcome (succeeds now output j q) o = absurd (ground (arith, q, outcome_alone j.status o))
Edge-outcome (lapses now j q) o = absurd (ground (arith, q, outcome_alone j.status o))
Edge-outcome (requeues now j q l) o = absurd (ground (arith, q, outcome_alone j.status o))

pub Edge-lease : {a b : AgentJob} → Edge a b → a.lease_version ≤ b.lease_version
Edge-lease (stay j) = omega arith
Edge-lease (claims now who token j q) = omega arith
Edge-lease (renews until j q) = omega arith
Edge-lease (cancels now j q) = omega arith
Edge-lease (calls_back now status output code message j q o) = omega arith
Edge-lease (ends now status code message j q o) = omega arith
Edge-lease (backs_off now message j q l) = omega arith
Edge-lease (succeeds now output j q) = omega arith
Edge-lease (lapses now j q) = omega arith
Edge-lease (requeues now j q l) = omega arith
Edge-lease (flags now j) = omega arith

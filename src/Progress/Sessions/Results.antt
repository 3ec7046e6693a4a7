-- ===== src/Progress/Sessions/Results.antt =====
-- What a transition of a work session returns, on success and on every refusal of its guards.
use fast_task.Base.{
  ◌-◌, ◌/◌, ◌⊎◌, none, Option-cases, ℕ, String, true, ◌≡◌, ◌≢◌, refl, Bool-cases, inl, inr, some,
  ◌==◌, ==_iff, str_eq, arith, In, eq_iff,
}
use fast_task.Jobs.Model.{ok, err, count, first, update, err_revision, err_validation, err_conflict}
use fast_task.Progress.Model.{Db, Env, WorkSession, is_active}
use fast_task.Progress.Rows.{In-found, count-In, count-le, any-In, first-update}
use fast_task.Progress.Sessions.{
  started_row, collides, or_now, start_session, is_time_for, is_own_session, is_session_version,
  stamped, transition_session, duration,
}
use fast_task.Progress.Sessions.Moves.{is_active-IsActive}
use fast_task.Progress.Sessions.Table.{start_session-Started}
use fast_task.Progress.Sessions.Refusals.{
  IsOutOfTime, Permitted, actions, is_time_for-IsOutOfTime, timely, apply_action-unknown,
  apply_action-conflict,
}

-- A user with a running or paused session cannot start another one, whatever the request.
pub start_session-active :
    (env : Env) (id user_id : String) (session : WorkSession) (db db' : Db) (other : WorkSession)
    → In other db.sessions
    → is_active other ≡ true
    → other.user_id ≡ user_id
    → start_session env id user_id session db ≢ ok db'
unfolding started_row
start_session-active env id user_id session db db' other m a u h =
    let s = start_session-Started env id user_id session db h in
    absurd (
      ground (
        arith,
        s.free,
        any-In
            (collides
              (started_row env id user_id s.logical (or_now env session.started_at) session))
            db.sessions other m (ground (arith, a, (eq_iff other.user_id user_id).1 u)),
      ))

-- A transition of a session that is there is refused for the first reason that applies: as a conflict of
-- revisions at another revision than the session's; as invalid at a time ahead of the clock by more than five
-- seconds or before a time that the session records; as invalid for an unknown action; and as a conflict
-- for an action that the session's status does not allow.
pub transition_session-refused :
    (env : Env) (user_id id : String) (expected : ℕ) (action outcome note : String) (at : ℕ)
    (db : Db) (session : WorkSession)
    → first (is_own_session user_id id) db.sessions ≡ some session
    → (session.revision ≢ expected
        → transition_session env user_id id expected action outcome note at db ≡ err err_revision)
      × (session.revision ≡ expected
          → IsOutOfTime env (or_now env at) session
          → transition_session env user_id id expected action outcome note at db
            ≡ err err_validation)
      × (session.revision ≡ expected
          → ¬ IsOutOfTime env (or_now env at) session
          → ¬ In action actions
          → transition_session env user_id id expected action outcome note at db
            ≡ err err_validation)
      × (session.revision ≡ expected
          → ¬ IsOutOfTime env (or_now env at) session
          → In action actions
          → ¬ Permitted action session
          → transition_session env user_id id expected action outcome note at db ≡ err err_conflict)
unfolding transition_session
transition_session-refused env user_id id expected action outcome note at db session f = (
  λ n. elim (Bool-cases (session.revision == expected)) [
    | inl e ↦ absurd (n ((==_iff _ _).0 e))
    | inr e ↦ rw (f, e)
  ],
  λ r t. rw (f, (==_iff _ _).1 r, is_time_for-IsOutOfTime env (or_now env at) session t),
  λ r t a. rw (
    f,
    (==_iff _ _).1 r,
    timely env (or_now env at) session t,
    apply_action-unknown action outcome note (or_now env at) session a,
  ),
  λ r t a p. rw (
    f,
    (==_iff _ _).1 r,
    timely env (or_now env at) session t,
    apply_action-conflict action outcome note (or_now env at) session a p,
  ),
)

-- The length of a pause that goes on at a time, in whole seconds.
abbrev pub PauseSeconds : ℕ → WorkSession → ℕ → Type 0
PauseSeconds at session n =
    ((session.status ≡ "running") × (n ≡ 0))
    ⊎ ((session.status ≡ "paused") × (session.paused_at ≡ none) × (n ≡ 0))
    ⊎ ((p : ℕ) × (session.status ≡ "paused")
        × (session.paused_at ≡ some p)
        × (n ≡ (at - p) / 1000000000))

duration-Pause :
    (at : ℕ) (session : WorkSession)
    → is_active session ≡ true
    → (n : ℕ) × PauseSeconds at session n
      × (duration at session
          ≡ (at - session.started_at) / 1000000000 - session.accumulated_seconds - n)
unfolding duration
duration-Pause at session a = elim ((is_active-IsActive session).0 a) [
  | inl r ↦ (0, inl (r, refl), rw r refl)
  | inr p ↦ elim (Option-cases session.paused_at) [
    | inl o ↦ (0, inr (inl (p, o, refl)), rw (p, o) refl)
    | inr (t, o) ↦ ((at - t) / 1000000000, inr (inr (t, p, o, refl)), rw (p, o) refl)
  ]
]

-- A running or paused session can be stopped at the present time, if nothing recorded of it lies ahead of the
-- clock. It then stands in the table as stopped and ended now; in whole seconds it counts the time since its
-- start, less the pauses before, less the pause that goes on, and no less than 0.
pub transition_session-stop :
    (env : Env) (user_id id outcome note : String) (db : Db) (session : WorkSession)
    → first (is_own_session user_id id) db.sessions ≡ some session
    → is_active session ≡ true
    → count (λ s. str_eq s.id id) db.sessions ≡ 1
    → ¬ IsOutOfTime env env.now session
    → (db' : Db) × (final : WorkSession) × (transition_session env user_id id session.revision
          "stop" outcome note 0 db
        ≡ ok (db', final))
      × In final db'.sessions
      × (final.status ≡ "stopped")
      × (final.ended_at ≡ some env.now)
      × ((pause : ℕ) × PauseSeconds env.now session pause
          × (final.duration_seconds
              ≡ (env.now - session.started_at) / 1000000000 - session.accumulated_seconds - pause))
unfolding transition_session
transition_session-stop env user_id id outcome note db session f a c o_t =
    let (m, o) = In-found (is_own_session user_id id) db.sessions f in
    let v : is_session_version id session.revision session ≡ true = ground (arith, o) in
    let one : count (is_session_version id session.revision) db.sessions ≡ 1 = omega (
      arith,
      c,
      count-In (is_session_version id session.revision) db.sessions session m v,
      count-le (is_session_version id session.revision) (λ s. str_eq s.id id) db.sessions
          (λ x p. ground arith),
    ) in
    let stopped : WorkSession = record session {
      status = "stopped";
      ended_at = some env.now;
      duration_seconds = duration env.now session;
      outcome = outcome;
      note = note;
    } in
    let row = stamped env env.now session.revision stopped in
    let rows = update (is_session_version id session.revision) (λ s. row) db.sessions in
    let found : first (λ s. str_eq s.id id) rows ≡ some row =
      first-update (is_session_version id session.revision) (λ s. str_eq s.id id) row db.sessions
        session (λ x n p. ground arith) m v c (ground (arith, o)) in
    let r : (session.revision == session.revision) ≡ true =
      (==_iff session.revision session.revision).1 refl in
    let n : (count (is_session_version id session.revision) db.sessions == 1) ≡ true =
      (==_iff _ _).1 one in
    let t : is_time_for env env.now session ≡ true = timely env env.now session o_t in
    (
      record db { sessions = rows },
      row,
      rw (f, r, t, a, n, found),
      (In-found (λ s. str_eq s.id id) rows found).0,
      refl,
      refl,
      duration-Pause env.now session a,
    )

-- ===== src/Progress/Sessions/Table.antt =====
-- What StartSession and TransitionSession do to the table of sessions.
use fast_task.Base.{
  ℕ, ◌+◌, String, true, false, not, ◌||◌, ◌≡◌, sym, ◌∙◌, ap, any, Bool-cases, inl, inr, Option,
  some, ◌==◌, ==_iff, [], ◌∷◌, ◌++◌, str_eq, ltb_ℤ, pos, ltb,
}
use fast_task.Jobs.Model.{
  ok, count, first, update, err_not_found, err_conflict, err_revision, err_validation,
}
use fast_task.Jobs.Steps.{ok_eq}
use fast_task.Errors.{>>=-eq-ok, guard->>-eq-ok, or_err-eq-ok, or_err}
use fast_task.Progress.Model.{Db, Env, WorkSession, clock_skew}
use fast_task.Progress.Live.{task_executable}
use fast_task.Progress.Items.Writes.{invalidate_session_completion-sessions}
use fast_task.Progress.Items.{err_record}
use fast_task.Progress.Sessions.{
  started_row, session_item, collides, create_session, or_now, start_session, is_time_for,
  is_own_session, is_session_version, stamped, write_session, apply_action, transition_session,
  follow_up,
}
use fast_task.Progress.Sessions.Moves.{Change, apply_action-Change}

-- A new row, which collides with none.
pub record Started (env : Env) (id user_id : String) (session : WorkSession) (db db' : Db)
    : Type 0 where
  pub logical : String
  pub executable : task_executable db user_id session.task_id ≡ ok true
  pub free :
      any
        (collides (started_row env id user_id logical (or_now env session.started_at) session))
        db.sessions
      ≡ false
  pub rows :
      db'.sessions
      ≡ db.sessions
        ++ started_row env id user_id logical (or_now env session.started_at) session ∷ []

create_session-eq-ok :
    (row : WorkSession) (db : Db) {db' : Db}
    → create_session row db ≡ ok db'
    → (any (collides row) db.sessions ≡ false) × (db'.sessions ≡ db.sessions ++ row ∷ [])
unfolding create_session
create_session-eq-ok row db h = elim (Bool-cases (any (collides row) db.sessions)) [
  | inl e ↦ absurd (let h' = rw e at h in cc)
  | inr e ↦ (e, ap (λ d. d.sessions) (sym (ok_eq (rw e at h))))
]

pub start_session-Started :
    (env : Env) (id user_id : String) (session : WorkSession) (db : Db) {db' : Db}
    → start_session env id user_id session db ≡ ok db'
    → Started env id user_id session db db'
unfolding start_session
start_session-Started env id user_id session db h =
    let (executable, x, h1) = >>=-eq-ok (task_executable db user_id session.task_id) _ h in
    let (t, h2) = guard->>-eq-ok executable err_conflict _ h1 in
    let (logical, l, h3) = >>=-eq-ok (session_item env db user_id session) _ h2 in
    let (timely, h4) =
      guard->>-eq-ok (not (ltb (env.now + clock_skew) (or_now env session.started_at)))
        err_validation _ h3 in
    let row = started_row env id user_id logical (or_now env session.started_at) session in
    let (sized, h5) =
      guard->>-eq-ok (not (ltb_ℤ row.target_minutes (pos 1) || ltb_ℤ (pos 480) row.target_minutes))
        err_validation _ h4 in
    let (free, rows) = create_session-eq-ok row db h5 in
    record { logical = logical; executable = x ∙ ap ok t; free = free; rows = rows }

-- One row, at the expected revision, takes one edge of its life at a time that is not before what it
-- records.
pub record Moved (env : Env) (user_id id : String) (expected : ℕ) (action : String) (at : ℕ)
    (db db' : Db) : Type 0 where
  pub session : WorkSession
  pub changed : WorkSession
  pub found : first (is_own_session user_id id) db.sessions ≡ some session
  pub revision : session.revision ≡ expected
  pub time : is_time_for env at session ≡ true
  pub change : Change at action session changed
  pub one : count (is_session_version id expected) db.sessions ≡ 1
  pub rows :
      db'.sessions
      ≡ update (is_session_version id expected) (λ s. stamped env at expected changed) db.sessions

write_session-eq-ok :
    (id : String) (expected : ℕ) (row : WorkSession) (db : Db) {db' : Db}
    → write_session id expected row db ≡ ok db'
    → (count (is_session_version id expected) db.sessions ≡ 1)
      × (db'.sessions ≡ update (is_session_version id expected) (λ s. row) db.sessions)
unfolding write_session
write_session-eq-ok id expected row db h =
    elim (Bool-cases (count (is_session_version id expected) db.sessions == 1)) [
      | inr e ↦ absurd (let h' = rw e at h in cc)
      | inl e ↦ ((==_iff _ _).0 e, ap (λ d. d.sessions) (sym (ok_eq (rw e at h))))
    ]

follow_up-sessions :
    (env : Env) (user_id action : String) (o : Option String) (db db' : Db)
    → follow_up env user_id action o db ≡ ok db'
    → db'.sessions ≡ db.sessions
unfolding follow_up
follow_up-sessions env user_id action o db db' h = elim (Bool-cases (str_eq action "invalidate")) [
  | inl e ↦ invalidate_session_completion-sessions env user_id o db db' (rw e at h)
  | inr e ↦ ap {A = Db} (λ d. d.sessions) (sym (ok_eq (rw e at h)))
]

pub transition_session-Moved :
    (env : Env) (user_id id : String) (expected : ℕ) (action outcome note : String) (given : ℕ)
    (db : Db) {db' : Db} {final : WorkSession}
    → transition_session env user_id id expected action outcome note given db ≡ ok (db', final)
    → Moved env user_id id expected action (or_now env given) db db'
unfolding transition_session
transition_session-Moved env user_id id expected action outcome note given db h =
    let at = or_now env given in
    let (session, f, h1) =
      >>=-eq-ok (or_err (first (is_own_session user_id id) db.sessions) err_not_found) _ h in
    let (rev, h2) = guard->>-eq-ok (session.revision == expected) err_revision _ h1 in
    let (time, h3) = guard->>-eq-ok (is_time_for env at session) err_validation _ h2 in
    let (changed, c, h4) = >>=-eq-ok (apply_action action outcome note at session) _ h3 in
    let (written, w, h5) =
      >>=-eq-ok (write_session id expected (stamped env at expected changed) db) _ h4 in
    let (db2, u, h6) =
      >>=-eq-ok (follow_up env user_id action session.daily_plan_item_id written) _ h5 in
    let (last, r, h7) =
      >>=-eq-ok (or_err (first (λ s. str_eq s.id id) db2.sessions) err_record) _ h6 in
    let (one, rows) = write_session-eq-ok _ _ _ db w in
    record {
      session = session;
      changed = changed;
      found = or_err-eq-ok _ _ f;
      revision = (==_iff _ _).0 (rev);
      time = time;
      change = apply_action-Change action outcome note _ session c;
      one = one;
      rows =
          ap {A = Db × WorkSession} (λ d. d.0.sessions) (sym (ok_eq h7))
          ∙ (follow_up-sessions env user_id action _ written db2 u ∙ rows);
    }

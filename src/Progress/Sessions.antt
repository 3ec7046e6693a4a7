-- ===== src/Progress/Sessions.antt =====
-- Work sessions: StartSession and TransitionSession of internal/application/app.go. The zero time is 0.
-- Seconds are whole; the rounding of Go's float seconds is left out.
pub mod Machine
pub mod Refusals
pub mod Results
pub mod Moves
pub mod Table
use fast_task.Base.{
  ℕ, suc, ◌+◌, ◌-◌, ◌/◌, String, Bool, true, false, not, ◌&&◌, ◌||◌, Option, none, some, List, [],
  ◌∷◌, ◌++◌, if◌then◌else◌, str_eq, any, is_none, ltb, leb, ◌==◌, ℤ, pos, ltb_ℤ,
}
use fast_task.Jobs.Model.{
  Failure, Result, ok, err, first, count, update, err_not_found, err_conflict, err_revision,
  err_validation, err_active_session,
}
use fast_task.Jobs.Support.{eq_ℤ}
use fast_task.Plans.Model.{DailyPlanItem}
use fast_task.Plans.Budget.{logical_item_id}
use fast_task.Errors.{◌>>=◌, ◌>>◌, guard, or_err}
use fast_task.Progress.Model.{Db, Env, WorkSession, is_active, clock_skew}
use fast_task.Progress.Live.{task_executable, actionable_plan_item}
use fast_task.Progress.Items.{names_id, err_record, invalidate_session_completion}

-- The item that a session names: the logical ID that the session gets.
unfoldable pub session_item : Env → Db → String → WorkSession → Result String
unfolding actionable_plan_item
session_item env db user_id session = elim session.daily_plan_item_id [
  | none ↦ ok session.daily_plan_item_logical_id
  | some item_id ↦ do
    item ←
        or_err (first (λ i. str_eq i.id item_id && str_eq i.user_id user_id) db.items) err_not_found
    guard (names_id item.task_id session.task_id) err_validation
    actionable_plan_item env db user_id item
    guard (str_eq item.status "planned" || str_eq item.status "in_progress") err_conflict
    ok (logical_item_id item)
]

-- The row of a new session; `started` is its start and `id` the drawn ID.
unfoldable pub started_row : Env → String → String → String → ℕ → WorkSession → WorkSession
started_row env id user_id logical started session = record session {
  id = id;
  user_id = user_id;
  daily_plan_item_logical_id = logical;
  session_type = if str_eq session.session_type "" then "pomodoro" else session.session_type;
  status = "running";
  target_minutes = if eq_ℤ session.target_minutes (pos 0) then pos 25 else session.target_minutes;
  revision = 1;
  started_at = started;
  last_transition_at = some started;
  created_at = env.now;
  updated_at = env.now;
}

-- The primary key, and the index of one active session for each user.
abbrev pub collides : WorkSession → WorkSession → Bool
collides session other =
    str_eq other.id session.id
    || is_active session && is_active other && str_eq other.user_id session.user_id

unfoldable pub create_session : WorkSession → Db → Result Db
create_session session db =
    if any (collides session) db.sessions
    then err err_active_session
    else ok (record db { sessions = db.sessions ++ session ∷ [] })

abbrev pub or_now : Env → ℕ → ℕ
or_now env at = if at == 0 then env.now else at

unfoldable pub start_session : Env → String → String → WorkSession → Db → Result Db
unfolding session_item started_row create_session
start_session env id user_id session db = do
  executable ← task_executable db user_id session.task_id
  guard executable err_conflict
  logical ← session_item env db user_id session
  let started = or_now env session.started_at
  guard (not (ltb (env.now + clock_skew) started)) err_validation
  let row = started_row env id user_id logical started session
  guard (not (ltb_ℤ row.target_minutes (pos 1) || ltb_ℤ (pos 480) row.target_minutes))
      err_validation
  create_session row db

-- int(a.Sub(b).Seconds()), where b is not after a.
abbrev pub seconds_between : ℕ → ℕ → ℕ
seconds_between a b = (a - b) / 1000000000

abbrev pub is_before : ℕ → Option ℕ → Bool
is_before at none = false
is_before at (some t) = ltb at t

abbrev pub is_time_for : Env → ℕ → WorkSession → Bool
is_time_for env at session = not (
    ltb (env.now + clock_skew) at
    || ltb at session.started_at
    || is_before at session.paused_at
    || is_before at session.last_transition_at)

-- The pause that is under way is no work.
abbrev pub pause_under_way : ℕ → WorkSession → ℕ
pause_under_way at session =
    if str_eq session.status "paused"
    then elim session.paused_at [ none ↦ 0 | some p ↦ seconds_between at p ]
    else 0

-- The source sets a negative duration to 0, as the subtraction does.
unfoldable pub duration : ℕ → WorkSession → ℕ
duration at session =
    seconds_between at session.started_at - session.accumulated_seconds - pause_under_way at session

unfoldable pub end_session : String → String → String → ℕ → WorkSession → Result WorkSession
unfolding duration
end_session status outcome note at session =
    if not (is_active session)
    then err err_conflict
    else ok (record session {
      status = status;
      ended_at = some at;
      duration_seconds = duration at session;
      outcome = outcome;
      note = note;
    })

unfoldable pub pause_session : ℕ → WorkSession → Result WorkSession
pause_session at session =
    if str_eq session.status "running"
    then ok (record session { status = "paused"; paused_at = some at })
    else err err_conflict

-- `paused` is the start of the pause.
unfoldable pub resume_session : Option ℕ → ℕ → WorkSession → Result WorkSession
resume_session none at session = err err_conflict
resume_session (some p) at session =
    if str_eq session.status "paused"
    then ok (record session {
      status = "running";
      accumulated_seconds = session.accumulated_seconds + seconds_between at p;
      paused_at = none;
    })
    else err err_conflict

unfoldable pub invalidate_session : WorkSession → Result WorkSession
invalidate_session session =
    if str_eq session.status "completed" || str_eq session.status "stopped"
    then ok (record session { status = "invalidated" })
    else err err_conflict

-- The switch on the action.
unfoldable pub apply_action : String → String → String → ℕ → WorkSession → Result WorkSession
unfolding pause_session resume_session end_session invalidate_session
apply_action action outcome note at session =
    if str_eq action "pause"
    then pause_session at session
    else if str_eq action "resume"
    then resume_session session.paused_at at session
    else if str_eq action "complete"
    then end_session "completed" outcome note at session
    else if str_eq action "stop"
    then end_session "stopped" outcome note at session
    else if str_eq action "invalidate"
    then invalidate_session session
    else err err_validation

abbrev pub is_own_session : String → String → WorkSession → Bool
is_own_session user_id id s = str_eq s.id id && str_eq s.user_id user_id

abbrev pub is_session_version : String → ℕ → WorkSession → Bool
is_session_version id expected s = str_eq s.id id && s.revision == expected

abbrev pub stamped : Env → ℕ → ℕ → WorkSession → WorkSession
stamped env at expected s = record s {
  revision = expected + 1;
  updated_at = env.now;
  last_transition_at = some at;
}

-- The columns of the map of changes are those of the row that was read, since the key picks that row.
unfoldable pub write_session : String → ℕ → WorkSession → Db → Result Db
write_session id expected row db =
    if count (is_session_version id expected) db.sessions == 1
    then ok
        (record db { sessions = update (is_session_version id expected) (λ s. row) db.sessions })
    else err err_revision

-- The item that an invalidated session completed is looked at again.
unfoldable pub follow_up : Env → String → String → Option String → Db → Result Db
follow_up env user_id action item_id db =
    if str_eq action "invalidate"
    then invalidate_session_completion env user_id item_id db
    else ok db

unfoldable pub transition_session :
    Env → String → String → ℕ → String → String → String → ℕ → Db → Result (Db × WorkSession)
unfolding apply_action write_session follow_up
transition_session env user_id id expected action outcome note given db = do
  session ← or_err (first (is_own_session user_id id) db.sessions) err_not_found
  guard (session.revision == expected) err_revision
  let at = or_now env given
  guard (is_time_for env at session) err_validation
  changed ← apply_action action outcome note at session
  written ← write_session id expected (stamped env at expected changed) db
  db' ← follow_up env user_id action session.daily_plan_item_id written
  final ← or_err (first (λ s. str_eq s.id id) db'.sessions) err_record
  ok (db', final)

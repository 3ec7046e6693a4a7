-- ===== src/Progress/Sessions/Machine.antt =====
-- Work sessions under any sequence of operations, by any number of callers.
use fast_task.Base.{
  ℕ, ◌+◌, ◌*◌, ◌≤◌, String, Bool, true, false, ◌&&◌, ◌≡◌, refl, sym, ◌∙◌, any, Bool-cases, inl, inr,
  none, some, List, [], ◌∷◌, ◌++◌, str_eq, arith, subst, In, All, eq_iff,
}
use fast_task.Jobs.Model.{ok, count}
use fast_task.Progress.Model.{Db, Env, WorkSession, is_active}
use fast_task.Progress.Rows.{count_one, count-update-le, All-update, All-snoc, count-snoc, In-found}
use fast_task.Progress.Sessions.{
  started_row, collides, or_now, start_session, is_time_for, is_own_session, is_session_version,
  stamped, transition_session, is_before,
}
use fast_task.Progress.Sessions.Moves.{
  Change, Move, pause, resume, complete, stop, invalidate, IsTimely, counted_to, IsActive,
  is_active-IsActive,
}
use fast_task.Progress.Sessions.Table.{
  Started, Moved, start_session-Started, transition_session-Moved,
}

abbrev pub is_active_of : String → WorkSession → Bool
is_active_of user s = is_active s && str_eq s.user_id user

-- A session's times are in order.
abbrev pub IsSoundSession : WorkSession → Type 0
IsSoundSession s = (last : ℕ) × (s.last_transition_at ≡ some last) × IsTimely last s

pub record IsSoundTable (sessions : List WorkSession) : Type 0 where
  pub single : (user : String) → count (is_active_of user) sessions ≤ 1
  pub sound : All IsSoundSession sessions

-- The row of a request: nothing is counted yet.
pub record IsNew (s : WorkSession) : Type 0 where
  pub pauses : s.accumulated_seconds ≡ 0
  pub work : s.duration_seconds ≡ 0
  pub no_pause : s.paused_at ≡ none
  pub no_end : s.ended_at ≡ none

-- `others` is work on the other tables.
pub data Step : Db → Db → Type 0 where
  starts :
      {db db' : Db} (env : Env) (id user_id : String) (session : WorkSession)
      → IsNew session
      → start_session env id user_id session db ≡ ok db'
      → Step db db'
  transitions :
      {db db' : Db} (env : Env) (user_id id : String) (expected : ℕ) (action outcome note : String)
      (at : ℕ) (final : WorkSession)
      → transition_session env user_id id expected action outcome note at db ≡ ok (db', final)
      → Step db db'
  others : {db db' : Db} → db'.sessions ≡ db.sessions → Step db db'

pub data Run (db : Db) : Db → Type 0 where
  start : Run db db
  then_step : {t u : Db} → Run db t → Step t u → Run db u

none_active :
    (row : WorkSession) (xs : List WorkSession)
    → is_active row ≡ true
    → any (collides row) xs ≡ false
    → count (is_active_of row.user_id) xs ≡ 0
none_active row [] a h = refl
none_active row (x ∷ xs) a h = ground (arith, none_active row xs a)

Move-IsActive : {from action to : String} → Move from action to → IsActive to → IsActive from
Move-IsActive (pause a f t) h = inl f
Move-IsActive (resume a f t) h = inr f
Move-IsActive (complete a f t) h = f
Move-IsActive (stop a f t) h = f
Move-IsActive (invalidate a f t) (inl h) = absurd cc
Move-IsActive (invalidate a f t) (inr h) = absurd cc

-- The new row is the only active one of its user.
single-snoc :
    (row : WorkSession) (xs : List WorkSession)
    → is_active row ≡ true
    → any (collides row) xs ≡ false
    → ((user : String) → count (is_active_of user) xs ≤ 1)
    → (user : String) → count (is_active_of user) (xs ++ row ∷ []) ≤ 1
single-snoc row xs a h k user = elim (Bool-cases (str_eq row.user_id user)) [
  | inl e ↦
      subst (λ u. count (is_active_of u) (xs ++ row ∷ []) ≤ 1) ((eq_iff row.user_id user).0 e)
        (ground (arith, count-snoc (is_active_of row.user_id) xs row, none_active row xs a h))
  | inr e ↦ ground (arith, count-snoc (is_active_of user) xs row, k user)
]

starts-IsSoundTable :
    {env : Env} {id user_id : String} {session : WorkSession} {db db' : Db}
    → IsNew session
    → Started env id user_id session db db'
    → IsSoundTable db.sessions
    → IsSoundTable db'.sessions
unfolding started_row
starts-IsSoundTable {env = env} {session = session} {db = db} n s t =
    subst IsSoundTable (sym s.rows) (record {
      single = single-snoc _ db.sessions refl s.free t.single;
      sound = All-snoc IsSoundSession db.sessions _ t.sound (
        or_now env session.started_at,
        refl,
        record {
          pauses =
              subst
                (λ o.
                  session.accumulated_seconds * 1000000000 + or_now env session.started_at
                  ≤ counted_to (or_now env session.started_at) o)
                (sym n.no_pause) (omega (arith, n.pauses));
          work = λ x q. absurd (let e = n.no_end in cc);
          going = λ a. n.no_end;
        },
      );
    })

-- What the guard on the time of a transition gives.
time_guard :
    (env : Env) (at last : ℕ) (s : WorkSession)
    → is_time_for env at s ≡ true
    → s.last_transition_at ≡ some last
    → (last ≤ at) × (is_before at s.paused_at ≡ false)
time_guard env at last s h e =
    let k : is_before at (some last) ≡ false =
      subst (λ o. is_before at o ≡ false) e (ground (arith, h)) in
    (ground arith, ground (arith, h))

stamped-IsSoundSession :
    (env : Env) (at expected : ℕ) (action : String) (s s' : WorkSession)
    → Change at action s s'
    → is_time_for env at s ≡ true
    → IsSoundSession s
    → IsSoundSession (stamped env at expected s')
stamped-IsSoundSession env at expected action s s' c h (last, e, t) =
    let (l, b) = time_guard env at last s h e in
    let k = c.timely last t l b in
    (at, refl, record { pauses = k.pauses; work = k.work; going = k.going })

stamped-active :
    (env : Env) (at expected : ℕ) (action user : String) (s s' : WorkSession)
    → Change at action s s'
    → is_active_of user (stamped env at expected s') ≡ true
    → is_active_of user s ≡ true
stamped-active env at expected action user s s' c h =
    let a =
      (is_active-IsActive s).1
        (Move-IsActive c.move ((is_active-IsActive s').0 (ground (arith, h)))) in
    let u : s.user_id ≡ user = sym c.same_user ∙ (eq_iff s'.user_id user).0 (ground (arith, h)) in
    ground (arith, a, (eq_iff s.user_id user).1 u)

transitions-IsSoundTable :
    {env : Env} {user_id id : String} {expected : ℕ} {action : String} {at : ℕ} {db db' : Db}
    → Moved env user_id id expected action at db db'
    → IsSoundTable db.sessions
    → IsSoundTable db'.sessions
transitions-IsSoundTable {env = env} {user_id = user_id} {id = id} {expected = expected}
      {action = action} {at = at} {db = db} m t =
    subst IsSoundTable (sym m.rows) (record {
      single = λ user. omega (
        arith,
        count-update-le (is_session_version id expected) (is_active_of user)
            (λ s. stamped env at expected m.changed) db.sessions
            (λ x n p a.
              subst (λ y. is_active_of user y ≡ true) (same x n p)
                (stamped-active env at expected action user m.session m.changed m.change a)),
        t.single user,
      );
      sound =
          All-update IsSoundSession (is_session_version id expected) _ db.sessions
            (λ x n p w.
              stamped-IsSoundSession env at expected action m.session m.changed m.change m.time
                (subst IsSoundSession (sym (same x n p)) w))
            t.sound;
    })
  where
    same :
        (x : WorkSession)
        → In x db.sessions
        → is_session_version id expected x ≡ true
        → m.session ≡ x
    same x n p =
        let (i, o) = In-found (is_own_session user_id id) db.sessions m.found in
        count_one (is_session_version id expected) db.sessions m.session x m.one i
          (ground (arith, o, m.revision)) n p

Step-IsSoundTable :
    {db db' : Db} → Step db db' → IsSoundTable db.sessions → IsSoundTable db'.sessions
Step-IsSoundTable {db = db} (starts env id user_id session n h) t =
    starts-IsSoundTable n (start_session-Started env id user_id session db h) t
Step-IsSoundTable {db = db} (transitions env user_id id expected action outcome note at final h) t =
    transitions-IsSoundTable
      (transition_session-Moved env user_id id expected action outcome note at db h) t
Step-IsSoundTable (others e) t = subst IsSoundTable (sym e) t

-- Any sequence of starts, transitions and other work keeps the sessions sound: a user never has two that
-- are running or paused, the pauses of a session and its work fit into the time that has passed, and a
-- session that goes on has no end.
pub run-IsSoundTable :
    {db db' : Db} → Run db db' → IsSoundTable db.sessions → IsSoundTable db'.sessions
run-IsSoundTable start t = t
run-IsSoundTable (then_step r s) t = Step-IsSoundTable s (run-IsSoundTable r t)

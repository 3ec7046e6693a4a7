-- ===== src/Progress/Sessions/Moves.antt =====
-- What an accepted action does to a session: the edge that its status takes, and the time that it counts.
use fast_task.Base.{
  ℕ, ◌+◌, ◌*◌, ◌≤◌, String, true, false, ◌||◌, Option, none, some, ◌≡◌, ◌↔◌, ◌⊎◌, inl, inr, refl,
  arith, eq_iff, str_eq, Bool-cases, some_eq, subst,
}
use fast_task.Jobs.Model.{ok}
use fast_task.Jobs.Steps.{ok_eq}
use fast_task.Progress.Model.{WorkSession, is_active}
use fast_task.Progress.Sessions.{
  apply_action, pause_session, resume_session, invalidate_session, end_session, duration, is_before,
  seconds_between,
}

abbrev pub IsActive : String → Type 0
IsActive status = (status ≡ "running") ⊎ (status ≡ "paused")

abbrev pub HasEnded : String → Type 0
HasEnded status = (status ≡ "completed") ⊎ (status ≡ "stopped")

-- The edges of a session's life.
pub data Move (from action to : String) : Type 0 where
  pause : action ≡ "pause" → from ≡ "running" → to ≡ "paused" → Move from action to
  resume : action ≡ "resume" → from ≡ "paused" → to ≡ "running" → Move from action to
  complete : action ≡ "complete" → IsActive from → to ≡ "completed" → Move from action to
  stop : action ≡ "stop" → IsActive from → to ≡ "stopped" → Move from action to
  invalidate : action ≡ "invalidate" → HasEnded from → to ≡ "invalidated" → Move from action to

-- The time of the last count: the start of the pause, if there is one.
abbrev pub counted_to : ℕ → Option ℕ → ℕ
counted_to last none = last
counted_to last (some p) = p

-- Pauses, and work at the end, fit into the time that has passed; a session that goes on has no end.
pub record IsTimely (last : ℕ) (s : WorkSession) : Type 0 where
  pub pauses : s.accumulated_seconds * 1000000000 + s.started_at ≤ counted_to last s.paused_at
  pub work :
      (t : ℕ)
      → s.ended_at ≡ some t
      → (s.duration_seconds + s.accumulated_seconds) * 1000000000 + s.started_at ≤ t
  pub going : is_active s ≡ true → s.ended_at ≡ none

pub record Change (at : ℕ) (action : String) (s s' : WorkSession) : Type 0 where
  pub same_id : s'.id ≡ s.id
  pub same_user : s'.user_id ≡ s.user_id
  pub same_start : s'.started_at ≡ s.started_at
  pub move : Move s.status action s'.status
  pub timely :
      (last : ℕ) → IsTimely last s → last ≤ at → is_before at s.paused_at ≡ false → IsTimely at s'

is_text : (a b : String) → str_eq a b ≡ true → a ≡ b
is_text a b h = ground (arith, eq_iff a b)

pub is_active-IsActive : (s : WorkSession) → (is_active s ≡ true) ↔ IsActive s.status
is_active-IsActive s = ground (arith, eq_iff s.status "running", eq_iff s.status "paused")

counted_mono : (o : Option ℕ) (a b : ℕ) → a ≤ b → counted_to a o ≤ counted_to b o
counted_mono none a b h = h
counted_mono (some p) a b h = omega arith

counted-le :
    (o : Option ℕ) (last at : ℕ) → last ≤ at → is_before at o ≡ false → counted_to last o ≤ at
counted-le none last at h b = h
counted-le (some p) last at h b = ground arith

duration-le :
    (at : ℕ) (s : WorkSession)
    → s.accumulated_seconds * 1000000000 + s.started_at ≤ at
    → (duration at s + s.accumulated_seconds) * 1000000000 + s.started_at ≤ at
unfolding duration
duration-le at s h = omega arith

end-Change :
    (status action outcome note : String) (at : ℕ) (s : WorkSession) {s' : WorkSession}
    → (IsActive s.status → Move s.status action status)
    → (is_active (record s { status = status }) ≡ false)
    → end_session status outcome note at s ≡ ok s'
    → Change at action s s'
unfolding end_session
end-Change status action outcome note at s m n h = elim (Bool-cases (is_active s)) [
  | inr e ↦ absurd (let h' = rw e at h in cc)
  | inl e ↦ subst (Change at action s) (ok_eq (rw e at h)) (record {
    same_id = refl;
    same_user = refl;
    same_start = refl;
    move = m ((is_active-IsActive s).0 e);
    timely = λ last t l b. record {
      pauses = omega (arith, counted_mono s.paused_at last at l, t.pauses);
      work = λ x q.
          subst (λ w. (duration at s + s.accumulated_seconds) * 1000000000 + s.started_at ≤ w)
            (some_eq q)
            (duration-le at s (omega (arith, counted-le s.paused_at last at l b, t.pauses)));
      going = λ a. cc;
    };
  })
]

pause-Change :
    (action : String) (at : ℕ) (s : WorkSession) {s' : WorkSession}
    → action ≡ "pause"
    → pause_session at s ≡ ok s'
    → Change at action s s'
unfolding pause_session
pause-Change action at s q h = elim (Bool-cases (str_eq s.status "running")) [
  | inr e ↦ absurd (let h' = rw e at h in cc)
  | inl e ↦ subst (Change at action s) (ok_eq (rw e at h)) (record {
    same_id = refl;
    same_user = refl;
    same_start = refl;
    move = pause q (ground (arith, eq_iff s.status "running")) refl;
    timely = λ last t l b. record {
      pauses = omega (arith, counted-le s.paused_at last at l b, t.pauses);
      work = t.work;
      going = λ a. t.going (ground (arith, e));
    };
  })
]

longer_pause :
    (total start p at : ℕ)
    → total * 1000000000 + start ≤ p
    → is_before at (some p) ≡ false
    → (total + seconds_between at p) * 1000000000 + start ≤ at
longer_pause total start p at h b = let k : p ≤ at = ground arith in omega arith

resume-Change :
    (action : String) (o : Option ℕ) (at : ℕ) (s : WorkSession) {s' : WorkSession}
    → action ≡ "resume"
    → s.paused_at ≡ o
    → resume_session o at s ≡ ok s'
    → Change at action s s'
unfolding resume_session
resume-Change action none at s q r h = absurd cc
resume-Change action (some p) at s q r h = elim (Bool-cases (str_eq s.status "paused")) [
  | inr e ↦ absurd (let h' = rw e at h in cc)
  | inl e ↦ subst (Change at action s) (ok_eq (rw e at h)) (record {
    same_id = refl;
    same_user = refl;
    same_start = refl;
    move = resume q (ground (arith, eq_iff s.status "paused")) refl;
    timely = λ last t l b. record {
      pauses =
          longer_pause s.accumulated_seconds s.started_at p at
            (subst (λ o. s.accumulated_seconds * 1000000000 + s.started_at ≤ counted_to last o) r
              t.pauses)
            (subst (λ o. is_before at o ≡ false) r b);
      work = λ x k. absurd (let n = t.going (ground (arith, e)) in cc);
      going = λ a. t.going (ground (arith, e));
    };
  })
]

invalidate-Change :
    (action : String) (at : ℕ) (s : WorkSession) {s' : WorkSession}
    → action ≡ "invalidate"
    → invalidate_session s ≡ ok s'
    → Change at action s s'
unfolding invalidate_session
invalidate-Change action at s q h =
    elim (Bool-cases (str_eq s.status "completed" || str_eq s.status "stopped")) [
      | inr e ↦ absurd (let h' = rw e at h in cc)
      | inl e ↦ subst (Change at action s) (ok_eq (rw e at h)) (record {
        same_id = refl;
        same_user = refl;
        same_start = refl;
        move =
            invalidate q (ground (arith, eq_iff s.status "completed", eq_iff s.status "stopped"))
              refl;
        timely = λ last t l b. record {
          pauses = omega (arith, counted_mono s.paused_at last at l, t.pauses);
          work = t.work;
          going = λ a. cc;
        };
      })
    ]

pub apply_action-Change :
    (action outcome note : String) (at : ℕ) (s : WorkSession) {s' : WorkSession}
    → apply_action action outcome note at s ≡ ok s'
    → Change at action s s'
unfolding apply_action
apply_action-Change action outcome note at s h = elim (Bool-cases (str_eq action "pause")) [
  | inl e ↦ pause-Change action at s (is_text action "pause" e) (rw e at h)
  | inr n1 ↦ elim (Bool-cases (str_eq action "resume")) [
    | inl e ↦
        resume-Change action s.paused_at at s (is_text action "resume" e) refl (rw (n1, e) at h)
    | inr n2 ↦ elim (Bool-cases (str_eq action "complete")) [
      | inl e ↦
          end-Change "completed" action outcome note at s
            (λ a. complete (is_text action "complete" e) a refl) refl (rw (n1, n2, e) at h)
      | inr n3 ↦ elim (Bool-cases (str_eq action "stop")) [
        | inl e ↦
            end-Change "stopped" action outcome note at s
              (λ a. stop (is_text action "stop" e) a refl) refl (rw (n1, n2, n3, e) at h)
        | inr n4 ↦ elim (Bool-cases (str_eq action "invalidate")) [
          | inl e ↦
              invalidate-Change action at s (is_text action "invalidate" e)
                (rw (n1, n2, n3, n4, e) at h)
          | inr n5 ↦ absurd (let h' = rw (n1, n2, n3, n4, n5) at h in cc)
        ]
      ]
    ]
  ]
]

-- ===== src/Progress/Sessions/Refusals.antt =====
-- When a transition of a session may be refused, apart from the code.
use fast_task.Base.{
  ltb, Option, ◌+◌, ◌<◌, ◌⊎◌, none, List, [], ◌∷◌, ℕ, String, true, false, ◌≡◌, ◌≢◌, refl,
  Bool-cases, inl, inr, some, str_eq, arith, In, eq_iff,
}
use fast_task.Jobs.Model.{err, err_validation, err_conflict}
use fast_task.Progress.Model.{clock_skew, Env, WorkSession}
use fast_task.Progress.Sessions.{
  is_time_for, is_before, apply_action, pause_session, resume_session, end_session,
  invalidate_session,
}

-- A time that a transition may not bear: more than five seconds ahead of the clock, or before a time that the
-- session records.
abbrev pub IsOutOfTime : Env → ℕ → WorkSession → Type 0
IsOutOfTime env at session =
    (env.now + 5000000000 < at)
    ⊎ (at < session.started_at)
    ⊎ ((p : ℕ) × (session.paused_at ≡ some p) × (at < p))
    ⊎ ((l : ℕ) × (session.last_transition_at ≡ some l) × (at < l))

-- What the status of a session allows.
abbrev pub Permitted : String → WorkSession → Type 0
Permitted action session =
    ((action ≡ "pause") × (session.status ≡ "running"))
    ⊎ ((action ≡ "resume") × (session.status ≡ "paused") × ((p : ℕ) × (session.paused_at ≡ some p)))
    ⊎ (((action ≡ "complete") ⊎ (action ≡ "stop"))
        × ((session.status ≡ "running") ⊎ (session.status ≡ "paused")))
    ⊎ ((action ≡ "invalidate") × ((session.status ≡ "completed") ⊎ (session.status ≡ "stopped")))

abbrev pub actions : List String
actions = "pause" ∷ "resume" ∷ "complete" ∷ "stop" ∷ "invalidate" ∷ []

pub is_time_for-IsOutOfTime :
    (env : Env) (at : ℕ) (session : WorkSession)
    → IsOutOfTime env at session
    → is_time_for env at session ≡ false
is_time_for-IsOutOfTime env at session (inl h) = ground (arith, h)
is_time_for-IsOutOfTime env at session (inr (inl h)) = ground (arith, h)
is_time_for-IsOutOfTime env at session (inr (inr (inl (p, e, h)))) = ground (arith, e, h)
is_time_for-IsOutOfTime env at session (inr (inr (inr (l, e, h)))) = ground (arith, e, h)

no_less : (a b : ℕ) → ¬ (a < b) → ltb a b ≡ false
no_less a b n = elim (Bool-cases (ltb a b)) [ inl e ↦ absurd (n (ground (arith, e))) | inr e ↦ e ]

no_text : (a b : String) → a ≢ b → str_eq a b ≡ false
no_text a b n = elim (Bool-cases (str_eq a b)) [ inl e ↦ absurd (n ((eq_iff a b).0 e)) | inr e ↦ e ]

not_before :
    (at : ℕ) (o : Option ℕ) → ¬ ((p : ℕ) × (o ≡ some p) × (at < p)) → is_before at o ≡ false
not_before at none n = refl
not_before at (some p) n = no_less at p (λ l. n (p, refl, l))

pub timely :
    (env : Env) (at : ℕ) (session : WorkSession)
    → ¬ IsOutOfTime env at session
    → is_time_for env at session ≡ true
timely env at session n =
    rw
      (
        no_less (env.now + clock_skew) at (λ h. n (inl h)),
        no_less at session.started_at (λ h. n (inr (inl h))),
        not_before at session.paused_at (λ h. n (inr (inr (inl h)))),
        not_before at session.last_transition_at (λ h. n (inr (inr (inr h)))),
      )
      refl

pub apply_action-unknown :
    (action outcome note : String) (at : ℕ) (session : WorkSession)
    → ¬ In action actions
    → apply_action action outcome note at session ≡ err err_validation
unfolding apply_action
apply_action-unknown action outcome note at session n =
    rw
      (
        apply_action,
        no_text action "pause" (λ e. n (inl e)),
        no_text action "resume" (λ e. n (inr (inl e))),
        no_text action "complete" (λ e. n (inr (inr (inl e)))),
        no_text action "stop" (λ e. n (inr (inr (inr (inl e))))),
        no_text action "invalidate" (λ e. n (inr (inr (inr (inr (inl e)))))),
      )
      refl

resume_session-refused :
    (at : ℕ) (session : WorkSession) (o : Option ℕ)
    → (session.status ≡ "paused" → (p : ℕ) → ¬ (o ≡ some p))
    → resume_session o at session ≡ err err_conflict
unfolding resume_session
resume_session-refused at session none n = refl
resume_session-refused at session (some p) n =
    rw (no_text session.status "paused" (λ f. n f p refl)) refl

pub apply_action-conflict :
    (action outcome note : String) (at : ℕ) (session : WorkSession)
    → In action actions
    → ¬ Permitted action session
    → apply_action action outcome note at session ≡ err err_conflict
unfolding apply_action pause_session resume_session end_session invalidate_session
apply_action-conflict action outcome note at session (inl e) n =
    rw (e, no_text session.status "running" (λ f. n (inl (e, f)))) refl
apply_action-conflict action outcome note at session (inr (inl e)) n =
    rw e
      (resume_session-refused at session session.paused_at (λ f p o. n (inr (inl (e, f, (p, o))))))
apply_action-conflict action outcome note at session (inr (inr (inl e))) n =
    rw
      (
        e,
        no_text session.status "running" (λ f. n (inr (inr (inl (inl e, inl f))))),
        no_text session.status "paused" (λ f. n (inr (inr (inl (inl e, inr f))))),
      )
      refl
apply_action-conflict action outcome note at session (inr (inr (inr (inl e)))) n =
    rw
      (
        e,
        no_text session.status "running" (λ f. n (inr (inr (inl (inr e, inl f))))),
        no_text session.status "paused" (λ f. n (inr (inr (inl (inr e, inr f))))),
      )
      refl
apply_action-conflict action outcome note at session (inr (inr (inr (inr (inl e))))) n =
    rw
      (
        e,
        no_text session.status "completed" (λ f. n (inr (inr (inr (e, inl f))))),
        no_text session.status "stopped" (λ f. n (inr (inr (inr (e, inr f))))),
      )
      refl
apply_action-conflict action outcome note at session (inr (inr (inr (inr (inr e))))) n = elim e [ ]

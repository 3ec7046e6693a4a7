-- ===== src/Sweeps/Outage.antt =====
-- A lasting failure is logged once.
use fast_task.Base.{
  ℕ, String, some, ◌≡◌, refl, str_eq, eq_iff, ==_iff, Bool-cases, Option-cases, inl, inr,
}
use fast_task.Sweeps.{LastErrors, last_error, report_sweep, silence}

known_after :
    (index : ℕ) (e : String) (last : LastErrors)
    → last_error index (report_sweep index (some e) last).1 ≡ some e
unfolding report_sweep
known_after index e last = elim (Option-cases (last_error index last)) [
  | inl n ↦ rw (report_sweep, n, (==_iff index index).1 refl) refl
  | inr (p, n) ↦ elim (Bool-cases (str_eq p e)) [
    | inl s ↦ rw (report_sweep, n, s) (rw ((eq_iff p e).0 s) at n)
    | inr s ↦ rw (report_sweep, n, s, (==_iff index index).1 refl) refl
  ]
]

quiet :
    (index : ℕ) (e : String) (after : LastErrors)
    → last_error index after ≡ some e
    → report_sweep index (some e) after ≡ (silence, after)
unfolding report_sweep
quiet index e after k = rw (report_sweep, k, (eq_iff e e).1 refl) refl

-- After a sweeper's failure has been reported, the same failure again logs nothing and changes nothing.
pub report_sweep-again :
    (index : ℕ) (e : String) (last : LastErrors)
    → report_sweep index (some e) (report_sweep index (some e) last).1
      ≡ (silence, (report_sweep index (some e) last).1)
report_sweep-again index e last =
    quiet index e (report_sweep index (some e) last).1 (known_after index e last)

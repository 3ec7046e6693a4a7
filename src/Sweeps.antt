-- ===== src/Sweeps.antt =====
-- internal/scheduler/scheduler.go, `reportSweep`: what the failure of a periodic task logs.
pub mod Outage
mod Examples
use fast_task.Base.{
  ℕ, String, Bool, true, false, not, ◌&&◌, ◌||◌, Option, none, some, List, [], ◌∷◌, if◌then◌else◌,
  str_eq, ◌==◌, is_none, keep,
}

-- lastSweepErr: the last error of each failing sweeper, the newest entry of a sweeper first.
abbrev pub LastErrors : Type 0
LastErrors = List (ℕ × String)

abbrev pub last_error : ℕ → LastErrors → Option String
last_error index [] = none
last_error index ((i, e) ∷ rest) = if i == index then some e else last_error index rest

-- What is logged.
pub data SweepLog : Type 0 where
  silence recovered : SweepLog
  sweep_failed : String → SweepLog

unfoldable pub report_sweep : ℕ → Option String → LastErrors → SweepLog × LastErrors
report_sweep index none last = elim (last_error index last) [
  | none ↦ (silence, last)
  | some previous ↦ (recovered, keep (λ x. not (x.0 == index)) last)
]
report_sweep index (some e) last = elim (last_error index last) [
  | none ↦ (sweep_failed e, (index, e) ∷ last)
  | some previous ↦
      if str_eq previous e then (silence, last) else (sweep_failed e, (index, e) ∷ last)
]

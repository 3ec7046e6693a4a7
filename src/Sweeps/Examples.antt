-- ===== src/Sweeps/Examples.antt =====
-- Tests of the sweep log.
use fast_task.Base.{none, some, [], ◌∷◌, ◌≡◌, refl}
use fast_task.Sweeps.{report_sweep, recovered, sweep_failed}

logs_once : report_sweep 1 (some "timeout") [] ≡ (sweep_failed "timeout", (1, "timeout") ∷ [])
unfolding report_sweep
logs_once = refl

logs_recovery : report_sweep 1 none ((1, "timeout") ∷ []) ≡ (recovered, [])
unfolding report_sweep
logs_recovery = refl

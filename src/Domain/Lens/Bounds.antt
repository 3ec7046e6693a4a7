-- ===== src/Domain/Lens/Bounds.antt =====
-- The bounds of a coordinate.
use fast_task.Base.{none, ℤ, pos, ◌≤ℤ◌, ◌≡◌, ◌↔◌, arith}
use fast_task.Domain.Lens.{validate_coord}

-- A coordinate is accepted exactly when both numbers lie between 0 and 100.
pub validate_coord_iff :
    (x y : ℤ)
    → (validate_coord x y ≡ none) ↔ ((pos 0 ≤ℤ x) × (x ≤ℤ pos 100) × (pos 0 ≤ℤ y) × (y ≤ℤ pos 100))
unfolding validate_coord
validate_coord_iff x y = ground arith

-- ===== src/Domain/Lens/Examples.antt =====
-- Tests of coordinates and quadrants.
use fast_task.Base.{some, ◌≡◌, refl, pos, negsuc}
use fast_task.Domain.Lens.{validate_coord, coord_out_of_range, quadrant, quadrant_label}

refuses_negative : validate_coord (negsuc 0) (pos 50) ≡ some coord_out_of_range
unfolding validate_coord
refuses_negative = refl

on_the_edge : quadrant (pos 50) (pos 49) ≡ "C"
unfolding quadrant
on_the_edge = refl

labelled : quadrant_label "D" ≡ "消耗区"
unfolding quadrant_label
labelled = refl

-- ===== src/Domain/Lens.antt =====
-- internal/domain/lens.go: coordinates and their quadrants. The ISO weeks, which stand on Go's time package, and
-- the weekly summary are left out.
pub mod Bounds
mod Examples
use fast_task.Base.{
  ℕ, ◌+◌, ◌*◌, ◌-◌, ◌/◌, String, Bool, true, false, not, ◌&&◌, ◌||◌, Option, none, some, List, [],
  ◌∷◌, ℤ, pos, ltb_ℤ, leb_ℤ, if◌then◌else◌, str_eq, ltb, ◌==◌,
}

abbrev pub lens_research_risk : String
lens_research_risk = "research_risk"

abbrev pub coord_threshold : ℤ
coord_threshold = pos 50

abbrev pub coord_min : ℤ
coord_min = pos 0

abbrev pub coord_max : ℤ
coord_max = pos 100

-- ErrCoord.
pub data CoordError : Type 0 where
  coord_out_of_range : CoordError

unfoldable pub valid_lens : String → Bool
valid_lens lens = str_eq lens lens_research_risk

unfoldable pub validate_coord : ℤ → ℤ → Option CoordError
validate_coord x y =
    if ltb_ℤ x coord_min || ltb_ℤ coord_max x || ltb_ℤ y coord_min || ltb_ℤ coord_max y
    then some coord_out_of_range
    else none

unfoldable pub quadrant : ℤ → ℤ → String
quadrant x y =
    let high_x = leb_ℤ coord_threshold x in
    let high_y = leb_ℤ coord_threshold y in
    if high_x && high_y
    then "A"
    else if not high_x && high_y
    then "B"
    else if high_x && not high_y
    then "C"
    else "D"

-- A map from a quadrant to its label; "" for any other text.
unfoldable pub quadrant_label : String → String
quadrant_label q =
    if str_eq q "A"
    then "关键风险区"
    else if str_eq q "B"
    then "主推进区"
    else if str_eq q "C"
    then "时间黑洞"
    else if str_eq q "D"
    then "消耗区"
    else ""

unfoldable pub quadrants : List String
quadrants = "A" ∷ "B" ∷ "C" ∷ "D" ∷ []

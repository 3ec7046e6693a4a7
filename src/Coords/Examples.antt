-- ===== src/Coords/Examples.antt =====
-- Tests of coordinates, and their theorems on one task.
use fast_task.Base.{
  String, true, ◌≡◌, refl, arith, none, some, [], ◌∷◌, ℤ, pos, negsuc, All, In, trim_space,
}
use fast_task.Domain.Lens.{valid_lens, validate_coord}
use fast_task.Jobs.Model.{ok}
use fast_task.Plans.Model.{Goal}
use fast_task.Tasks.Model.{Task, zero_task}
use fast_task.Tasks.Saving.{require_live_goal}
use fast_task.Progress.Model.{Db}
use fast_task.Progress.Live.{require_live_task}
use fast_task.Protocol.Replay.{Json, text, Fields, nothing, field, get_field}
use fast_task.Coords.{
  TaskCoord, bytes, truncate_rationale, find_coord, set_task_coord, normalize_lens,
  coord_from_patch, coord_value, update_agent_coord,
}
use fast_task.Coords.Writes.{IsSoundCoord}
use fast_task.Coords.Agent.{start, then_step, updates, AgentRun-pinned}
use fast_task.Coords.User.{IsPlaced, set_task_coord-IsPlaced}

abbrev thesis : Goal
thesis = record {
  id = "g";
  user_id = "ann";
  title = "Thesis";
  description = "";
  success_criteria = "done";
  status = "active";
  target_date = none;
  revision = pos 1;
  created_at = 0;
  updated_at = 0;
  deleted_at = none;
  deletion_id = "";
}

abbrev db : Db
db = record {
  users = [];
  goals = thesis ∷ [];
  tasks = record zero_task { id = "read"; user_id = "ann"; goal_id = "g"; status = "ready" } ∷ [];
  plans = [];
  items = [];
  sessions = [];
  events = [];
  outbox = [];
}

abbrev placed : TaskCoord
placed = record {
  id = "c1";
  user_id = "ann";
  task_id = "read";
  lens = "research_risk";
  x = pos 80;
  y = pos 20;
  source = "user";
  pinned = true;
  rationale = "unclear";
  revision = pos 1;
  created_at = 5;
  updated_at = 5;
}

places :
    set_task_coord db "c1" 5 "ann" "read" " " (pos 80) (pos 20) " unclear" (negsuc 0) []
    ≡ ok (placed ∷ [])
unfolding set_task_coord require_live_task require_live_goal valid_lens validate_coord trim_space
places = refl

set_task_coord-IsPlaced_example :
    (valid_lens (normalize_lens " ") ≡ true)
    × (validate_coord (pos 80) (pos 20) ≡ none)
    × ((task : Task) × (require_live_task db "ann" "read" ≡ ok task))
    × ((c : TaskCoord) × (find_coord "ann" "read" (normalize_lens " ") (placed ∷ []) ≡ some c)
        × IsPlaced
            (pos 80)
            (pos 20)
            (truncate_rationale " unclear")
            (negsuc 0)
            (find_coord "ann" "read" (normalize_lens " ") [])
            c)
set_task_coord-IsPlaced_example =
    set_task_coord-IsPlaced db "c1" 5 "ann" "read" " " (pos 80) (pos 20) " unclear" (negsuc 0) []
      (placed ∷ []) (omega arith) places

abbrev patch : Fields
patch = field "uncertainty" (text "90") nothing

abbrev int_value : Json → ℤ
int_value json = pos 90

abbrev text_value : Json → String
text_value json = ""

read_patch :
    coord_from_patch int_value text_value patch
    ≡ some (record { x = pos 90; y = pos 50; rationale = "" })
unfolding coord_from_patch coord_value get_field truncate_rationale
read_patch = refl

skips :
    update_agent_coord "c2" 9 "ann" "read"
      (record { x = pos 90; y = pos 50; rationale = "" })
      (placed ∷ [])
    ≡ ok (placed ∷ [])
unfolding update_agent_coord find_coord
skips = refl

is_sound : IsSoundCoord placed
unfolding validate_coord bytes
is_sound = record { range = refl; short = omega arith; own = λ p. refl }

AgentRun-pinned_example :
    All IsSoundCoord (placed ∷ [])
    × ((c : TaskCoord) → In c (placed ∷ []) → c.pinned ≡ true → In c (placed ∷ []))
AgentRun-pinned_example =
    AgentRun-pinned int_value text_value
      (then_step start (
        updates "c2" 9 "ann" "read" patch (record { x = pos 90; y = pos 50; rationale = "" })
          read_patch skips))
      (is_sound, tt)

-- ===== src/Coords.antt =====
-- The coordinates of tasks: SetTaskCoord and the agent's writes of internal/application/lens.go. The
-- conversions of a value of a patch, which stand on Go's fmt, are parameters.
pub mod Agent
pub mod User
pub mod Writes
mod Examples
use Prim.Native.Char.{code}
use fast_task.Base.{
  ℕ, zero, suc, ◌+◌, String, Bool, true, false, not, ◌&&◌, ◌||◌, Option, none, some, List, [], ◌∷◌,
  ◌++◌, ◌-◌, ℤ, pos, negsuc, ltb_ℤ, if◌then◌else◌, str_eq, any, is_none, ltb, leb, ◌==◌, trim_space,
  is_blank,
}
use fast_task.Domain.Lens.{
  lens_research_risk, coord_threshold, coord_min, coord_max, valid_lens, validate_coord,
}
use fast_task.Jobs.Model.{
  Failure, Result, ok, err, first, count, update, err_not_found, err_revision, err_precondition,
  internal,
}
use fast_task.Jobs.Support.{eq_ℤ}
use fast_task.Errors.{◌>>=◌, ◌>>◌, guard, or_err}
use fast_task.Progress.Model.{Db, err_duplicate}
use fast_task.Progress.Live.{require_live_task}
use fast_task.Progress.Items.{next_revision}
use fast_task.Protocol.Replay.{Json, null, Fields, nothing, field, get_field}

pub record TaskCoord : Type 0 where
  pub id : String
  pub user_id : String
  pub task_id : String
  pub lens : String
  pub x : ℤ
  pub y : ℤ
  pub source : String
  pub pinned : Bool
  pub rationale : String
  pub revision : ℤ
  pub created_at : ℕ
  pub updated_at : ℕ

abbrev pub err_lens : Failure
err_lens = record { cause = internal; text = "unknown lens" }

abbrev pub err_coord : Failure
err_coord = record { cause = internal; text = "coordinate out of range" }

unfoldable pub normalize_lens : String → String
unfolding trim_space
normalize_lens lens = if is_blank lens then lens_research_risk else trim_space lens

-- The bytes of a character in UTF-8.
abbrev pub width : ℕ → ℕ
width c = if ltb c 0x80 then 1 else if ltb c 0x800 then 2 else if ltb c 0x10000 then 3 else 4

unfoldable pub bytes : String → ℕ
bytes String.[] = 0
bytes (String.◌∷◌ c s) = width (code c) + bytes s

-- The whole characters of the first `n` bytes: where the byte at the cut is inside of a character, the cut
-- goes back to its start.
unfoldable pub take_bytes : ℕ → String → String
take_bytes n String.[] = ""
take_bytes n (String.◌∷◌ c s) =
    let rest = take_bytes (n - width (code c)) s in
    if leb (width (code c)) n then String.◌∷◌ c rest else ""

abbrev pub coord_rationale_max_bytes : ℕ
coord_rationale_max_bytes = 120

unfoldable pub truncate_rationale : String → String
unfolding bytes take_bytes trim_space
truncate_rationale value =
    let trimmed = trim_space value in
    if leb (bytes trimmed) coord_rationale_max_bytes
    then trimmed
    else take_bytes coord_rationale_max_bytes trimmed

abbrev pub is_coord_of : String → String → String → TaskCoord → Bool
is_coord_of user_id task_id lens c =
    str_eq c.task_id task_id && str_eq c.user_id user_id && str_eq c.lens lens

unfoldable pub find_coord : String → String → String → List TaskCoord → Option TaskCoord
find_coord user_id task_id lens coords = first (is_coord_of user_id task_id lens) coords

-- INSERT, under the primary key and the unique pair of a task and a lens.
abbrev pub is_same_place : TaskCoord → TaskCoord → Bool
is_same_place a b = str_eq a.id b.id || str_eq a.task_id b.task_id && str_eq a.lens b.lens

unfoldable pub create_coord : TaskCoord → List TaskCoord → Result (List TaskCoord)
create_coord c coords =
    if any (is_same_place c) coords then err err_duplicate else ok (coords ++ c ∷ [])

abbrev pub is_coord_version : String → ℤ → TaskCoord → Bool
is_coord_version id expected c = str_eq c.id id && eq_ℤ c.revision expected

-- UPDATE ... WHERE id = ? AND revision = ?, which must reach one row.
unfoldable pub write_coord :
    String → ℤ → (TaskCoord → TaskCoord) → List TaskCoord → Result (List TaskCoord)
write_coord id expected f coords =
    if count (is_coord_version id expected) coords == 1
    then ok (update (is_coord_version id expected) f coords)
    else err err_revision

abbrev pub user_row : ℤ → ℤ → String → ℤ → ℕ → TaskCoord → TaskCoord
user_row x y rationale expected now c = record c {
  x = x;
  y = y;
  source = "user";
  pinned = true;
  rationale = rationale;
  revision = next_revision expected;
  updated_at = now;
}

abbrev pub new_row :
    String → String → String → String → ℤ → ℤ → String → Bool → String → ℕ → TaskCoord
new_row id user_id task_id lens x y source pinned rationale now = record {
  id = id;
  user_id = user_id;
  task_id = task_id;
  lens = lens;
  x = x;
  y = y;
  source = source;
  pinned = pinned;
  rationale = rationale;
  revision = pos 1;
  created_at = now;
  updated_at = now;
}

-- The upsert; a negative revision says that the caller expects no row. `id` is the drawn ID.
unfoldable pub upsert_coord :
    String
    → ℕ
    → String
    → String
    → String
    → ℤ
    → ℤ
    → String
    → ℤ
    → List TaskCoord
    → Result (List TaskCoord)
unfolding find_coord create_coord write_coord
upsert_coord id now user_id task_id lens x y rationale expected coords =
    elim (find_coord user_id task_id lens coords) [
      | none ↦
          if ltb_ℤ expected (pos 0)
          then create_coord (new_row id user_id task_id lens x y "user" true rationale now) coords
          else err err_not_found
      | some existing ↦
          if ltb_ℤ expected (pos 0)
          then err err_precondition
          else if not (eq_ℤ existing.revision expected)
          then err err_revision
          else write_coord existing.id expected (user_row x y rationale expected now) coords
    ]

-- The row that is read back has the task and the lens, as the primary key would find it.
unfoldable pub set_task_coord :
    Db
    → String
    → ℕ
    → String
    → String
    → String
    → ℤ
    → ℤ
    → String
    → ℤ
    → List TaskCoord
    → Result (List TaskCoord)
unfolding normalize_lens truncate_rationale upsert_coord
set_task_coord db id now user_id task_id lens x y rationale expected coords = do
  guard (valid_lens (normalize_lens lens)) err_lens
  guard (is_none (validate_coord x y)) err_coord
  task ← require_live_task db user_id task_id
  upsert_coord id now user_id task_id (normalize_lens lens) x y (truncate_rationale rationale)
      expected coords

pub record AgentCoord : Type 0 where
  pub x : ℤ
  pub y : ℤ
  pub rationale : String

abbrev pub has_field : String → Fields → Bool
has_field key nothing = false
has_field key (field k v rest) = str_eq k key || has_field key rest

-- `int_value` and `text_value` convert a value as intValue and textValue do.
module _ (int_value : Json → ℤ) (text_value : Json → String) where
  unfoldable pub coord_value : Json → Option ℤ
  coord_value null = none
  coord_value value =
      let parsed = int_value value in
      if ltb_ℤ parsed coord_min || ltb_ℤ coord_max parsed then none else some parsed

  abbrev pub or_threshold : Option ℤ → ℤ
  or_threshold none = coord_threshold
  or_threshold (some value) = value

  unfoldable pub coord_from_patch : Fields → Option AgentCoord
  unfolding coord_value truncate_rationale get_field
  coord_from_patch patch =
      if not (has_field "uncertainty" patch) && not (has_field "contribution" patch)
      then none
      else some (record {
        x = or_threshold (coord_value (get_field "uncertainty" patch));
        y = or_threshold (coord_value (get_field "contribution" patch));
        rationale = truncate_rationale (text_value (get_field "coord_rationale" patch));
      })

unfoldable pub create_agent_coord :
    String → ℕ → String → String → AgentCoord → List TaskCoord → Result (List TaskCoord)
unfolding create_coord
create_agent_coord id now user_id task_id c coords =
    create_coord
      (new_row id user_id task_id lens_research_risk c.x c.y "agent" false c.rationale now) coords

abbrev pub agent_row : AgentCoord → ℤ → ℕ → TaskCoord → TaskCoord
agent_row c revision now row = record row {
  x = c.x;
  y = c.y;
  source = "agent";
  rationale = c.rationale;
  revision = next_revision revision;
  updated_at = now;
}

unfoldable pub update_agent_coord :
    String → ℕ → String → String → AgentCoord → List TaskCoord → Result (List TaskCoord)
unfolding find_coord create_agent_coord write_coord
update_agent_coord id now user_id task_id c coords =
    elim (find_coord user_id task_id lens_research_risk coords) [
      | none ↦ create_agent_coord id now user_id task_id c coords
      | some existing ↦
          if existing.pinned
          then ok coords
          else write_coord existing.id existing.revision (agent_row c existing.revision now) coords
    ]

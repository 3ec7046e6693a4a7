-- ===== src/Tasks/Model.antt =====
-- The row of a task (internal/persistence/models.go), and a map from IDs to rows. A time is a number of
-- nanoseconds; a Go pointer is an `Option`.
use fast_task.Base.{ℕ, String, Option, none, some, List, [], ◌∷◌, ℤ, pos, if◌then◌else◌, str_eq}

pub record Task : Type 0 where
  pub id : String
  pub user_id : String
  pub goal_id : String
  pub parent_id : Option String
  pub depends_on : List String
  pub kind : String
  pub title : String
  pub description : String
  pub status : String
  pub success_criteria : String
  pub minimum_action : String
  pub blocked_reason : String
  pub priority : ℤ
  pub position : ℤ
  pub estimate_minutes : ℤ
  pub revision : ℤ
  pub created_at : ℕ
  pub updated_at : ℕ
  pub deleted_at : Option ℕ
  pub deletion_id : String

-- Go's zero value of the row.
abbrev pub zero_task : Task
zero_task = record {
  id = "";
  user_id = "";
  goal_id = "";
  parent_id = none;
  depends_on = [];
  kind = "";
  title = "";
  description = "";
  status = "";
  success_criteria = "";
  minimum_action = "";
  blocked_reason = "";
  priority = pos 0;
  position = pos 0;
  estimate_minutes = pos 0;
  revision = pos 0;
  created_at = 0;
  updated_at = 0;
  deleted_at = none;
  deletion_id = "";
}

-- map[string]V: the first entry of a key counts, so an assignment puts one in front.
abbrev pub Dict : Type 0 → Type 0
Dict V = List (String × V)

abbrev pub find : {V : Type 0} → String → Dict V → Option V
find key [] = none
find key ((k, v) ∷ rest) = if str_eq k key then some v else find key rest

abbrev pub Index : Type 0
Index = Dict Task

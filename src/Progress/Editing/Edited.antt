-- ===== src/Progress/Editing/Edited.antt =====
-- What UpdatePlanItem asks and leaves.
use fast_task.Base.{true, ◌≡◌, str_eq}
use fast_task.Progress.Editing.{Edit, admits, is_target, is_text, is_position}

-- Every value that an edit writes is in its bounds.
pub record IsSoundEdit (edit : Edit) : Type 0 where
  pub title : admits is_text edit.title ≡ true
  pub commitment : admits is_text edit.commitment ≡ true
  pub minimum_action : admits is_text edit.minimum_action ≡ true
  pub target_minutes : admits is_target edit.target_minutes ≡ true
  pub position : admits is_position edit.position ≡ true
  pub status : admits (λ s. str_eq s "skipped") edit.status ≡ true

-- ===== src/Plans/Model.antt =====
-- The rows of users and daily plans (internal/persistence/models.go). A date
-- is its text "2006-01-02"; a time is a number of nanoseconds.
use fast_task.Base.{ℕ, String, Bool, Option, ℤ}

pub record User : Type 0 where
  pub id : String
  pub identifier : String
  pub password_hash : String
  pub display_name : String
  pub timezone : String
  pub locale : String
  pub role : String
  pub status : String
  pub revision : ℤ
  pub created_at : ℕ
  pub updated_at : ℕ

pub record DailyPlan : Type 0 where
  pub id : String
  pub user_id : String
  pub local_date : String
  pub timezone : String
  pub status : String
  pub algorithm_version : String
  pub current_revision : ℤ
  pub revision : ℤ
  pub frozen_at : Option ℕ
  pub manual_items_removed : Bool
  pub created_at : ℕ
  pub updated_at : ℕ

pub record DailyPlanItem : Type 0 where
  pub id : String
  pub logical_id : String
  pub user_id : String
  pub plan_id : String
  pub task_id : Option String
  pub kind : String
  pub title : String
  pub commitment : String
  pub minimum_action : String
  pub allowed_types : String
  pub status : String
  pub completion_type : String
  pub completion_summary : String
  pub plan_revision : ℤ
  pub target_minutes : ℤ
  pub position : ℤ
  pub revision : ℤ
  pub created_at : ℕ
  pub updated_at : ℕ

pub record PlanningSettings : Type 0 where
  pub user_id : String
  pub primary_goal_id : Option String
  pub configured_primary_goal_id : Option String
  pub primary_goal_mode : String
  pub daily_budget_minutes : ℤ
  pub revision : ℕ
  pub created_at : ℕ
  pub updated_at : ℕ

pub record Goal : Type 0 where
  pub id : String
  pub user_id : String
  pub title : String
  pub description : String
  pub success_criteria : String
  pub status : String
  pub target_date : Option String
  pub revision : ℤ
  pub created_at : ℕ
  pub updated_at : ℕ
  pub deleted_at : Option ℕ
  pub deletion_id : String

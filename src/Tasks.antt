-- ===== src/Tasks.antt =====
-- internal/application, the parts about tasks, over the rows of internal/persistence.
pub mod Model
pub mod Dependencies
pub mod Eligibility
pub mod Saving

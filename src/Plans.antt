-- ===== src/Plans.antt =====
-- internal/application, the parts about daily plans, over the rows of internal/persistence.
pub mod Model
pub mod Settings
pub mod Budget
pub mod Scope

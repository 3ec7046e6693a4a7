-- ===== src/Progress.antt =====
-- Work sessions and the completion of a day's items: internal/application/app.go and planprogress.go.
pub mod Rows
pub mod Model
pub mod Live
pub mod Items
pub mod Sessions
pub mod Completion
pub mod Closing
pub mod Editing
pub mod Removal
pub mod Fixtures
mod Examples

-- ===== src/TaskExecution.antt =====
-- backend/app/services/task_execution_service.py: one answer from its preparation to its end.
mod Failures
mod World
mod Finish
mod Execute
pub mod Ends
pub mod Stores
pub mod Claims
pub mod Loop
pub mod Attempts
pub mod Outcomes
mod Examples
unfoldable pub use Failures.*
unfoldable pub use World.*
unfoldable pub use Finish.*
unfoldable pub use Execute.*

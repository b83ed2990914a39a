-- ===== src/Tasks.antt =====
-- backend/app/repositories/task_repository.py: the rows of tasks and of their messages, and the
-- states that they go through.
mod Rows
mod Writes
mod Edits
pub mod Members
pub mod Evolution
pub mod Steps
pub mod Recovery
pub mod Turns
pub mod Settled
pub mod Runs
pub mod Endings
mod Examples
unfoldable pub use Rows.*
unfoldable pub use Writes.*
unfoldable pub use Edits.*

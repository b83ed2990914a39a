-- ===== src/Contexts.antt =====
-- backend/app/repositories/subtask_context_repository.py: what a user attaches to a message, as a draft
-- until it is bound.
mod Rows
mod Operations
pub mod Bindings
pub mod Requests
pub mod Runs
mod Examples
unfoldable pub use Rows.*
unfoldable pub use Operations.*

-- ===== src/Preparation.antt =====
-- backend/app/services/task_execution_service.py: how a message that is sent, and an answer that is
-- tried again, become an execution.
mod Service
mod Send
mod Retry
pub mod Stages
pub mod Sent
pub mod Again
mod Examples
unfoldable pub use Service.*
unfoldable pub use Send.*
unfoldable pub use Retry.*

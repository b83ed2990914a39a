-- ===== src/Cancellation.antt =====
-- backend/app/services/task_execution_cancellation.py: a request to cancel an execution, and who ends
-- it.
mod State
mod Registry
pub mod Interleavings
pub mod Handover
pub mod Filed
pub mod Early
mod Examples
unfoldable pub use State.*
unfoldable pub use Registry.*

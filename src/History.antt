-- ===== src/History.antt =====
-- backend/app/services/subtask_history.py, runtime_context_projection.py, and the turns that
-- task_execution_service.py makes of the rows of a task for a runtime.
mod Projector
mod Projection
mod Turns
pub mod Replay
pub mod Order
mod Examples
unfoldable pub use Projector.*
unfoldable pub use Projection.*
unfoldable pub use Turns.*

-- ===== src/Reducer.antt =====
-- backend/app/services/runtime_event_reducer.py: the events of an agent run reduced to the chain of
-- messages, the blocks that a browser shows, and what it is sent of them.
mod State
mod Content
mod Deltas
mod Assistants
mod Tools
mod Finish
mod Accept
pub mod DeltaSteps
pub mod MessageSteps
pub mod ToolSteps
pub mod Browser
pub mod View
pub mod ViewLaws
pub mod Shows
pub mod Runs
pub mod Endings
mod Examples
pub use State.*
unfoldable pub use Content.*
unfoldable pub use Deltas.*
unfoldable pub use Assistants.*
unfoldable pub use Tools.*
unfoldable pub use Finish.*
unfoldable pub use Accept.*

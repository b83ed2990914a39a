-- ===== src/ReactLoop.antt =====
-- backend/app/services/react_loop.py: the turns of a model and its tools as runtime events.
mod Chunks
mod Stream
mod Budget
pub mod EventOrder
pub mod Protocol
pub mod Shares
mod Examples
unfoldable pub use Chunks.*
unfoldable pub use Stream.*
unfoldable pub use Budget.*

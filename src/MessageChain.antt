-- ===== src/MessageChain.antt =====
-- backend/app/services/message_chain.py: the replayable chain of assistant and tool messages.
mod Messages
mod Serialize
mod Normalize
mod Validate
pub mod Trace
pub mod Tracking
pub mod Sound
mod Examples
pub use Messages.*
unfoldable pub use Serialize.*
unfoldable pub use Normalize.*
unfoldable pub use Validate.*

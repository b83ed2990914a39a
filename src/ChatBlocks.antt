-- ===== src/ChatBlocks.antt =====
-- backend/app/services/chat_blocks.py: the blocks of which a chat answer is shown, and their life.
mod Types
mod Copy
mod Updates
pub mod Laws
pub mod Lifecycle
mod Examples
pub use Types.*
unfoldable pub use Copy.*
unfoldable pub use Updates.*

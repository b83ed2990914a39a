-- ===== src/StreamStore.antt =====
-- backend/app/services/chat_stream_memory.py, with what it uses of chat_stream_types.py: the state of
-- the streams that browsers can join again. A lock makes each operation one step.
mod State
mod Operations
pub mod Sound
pub mod Steps
pub mod Reachable
mod Examples
unfoldable pub use State.*
unfoldable pub use Operations.*

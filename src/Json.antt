-- ===== src/Json.antt =====
-- backend/app/services/json_safety.py: the JSON values that may be persisted, and their canonical
-- text.
mod Values
mod Scan
mod Dumps
mod Canonical
pub mod Walk
mod Examples
pub use Values.*
unfoldable pub use Scan.*
unfoldable pub use Dumps.*
unfoldable pub use Canonical.*

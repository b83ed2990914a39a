-- ===== src/AgentHome.antt =====
-- backend/app/services/agent_home_paths.py: where the files of an agent's home are stored.
mod Paths
pub mod Segments
pub mod Keys
mod Examples
unfoldable pub use Paths.*

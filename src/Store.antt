-- ===== src/Store.antt =====
-- The persistence of manual policies and of the statistics of clients.
mod Defs
mod Stats
pub mod Redis
unfoldable pub use Defs.*
unfoldable pub use Stats.*
